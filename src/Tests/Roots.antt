-- ===== src/Tests/Roots.antt =====
-- What the symbols of inputs ask for, with a host whose nm prints one symbol of the runtime.
use portable_systems_lisp.Base.{ℕ, ◌≡◌, ◌≢◌, ◌⊎◌, ◌↔◌, refl, true, some, List, [], ◌∷◌, All, arith}
use portable_systems_lisp.Base.Bits.{bit}
use portable_systems_lisp.Toolchain.Tools.{ascii, target_nm}
use portable_systems_lisp.Toolchain.Actions.{System}
use portable_systems_lisp.Toolchain.Modules.{same_text, find_module, runtime_symbol_module}
use portable_systems_lisp.Toolchain.Symbols.{
  out_of_rounds, take_line, c_string, strip, last_word, line_symbol, scan_symbol, scan_line, scan,
}
use portable_systems_lisp.Toolchain.Symbols.Lines.{scan-enough}
use portable_systems_lisp.Toolchain.Symbols.Wanted.{Asked, Homeless}
use portable_systems_lisp.Toolchain.Symbols.Printed.{IsName, nm_text}
use portable_systems_lisp.Toolchain.Roots.{
  no_roots, read_symbols, scan_input, scan_inputs, input_runtime_roots, runtime_roots,
}
use portable_systems_lisp.Toolchain.Roots.Processes.{runtime_roots-Clean}
use portable_systems_lisp.Toolchain.Roots.Children.{Clean}
use portable_systems_lisp.Toolchain.Roots.Answer.{input_runtime_roots_lem}
use portable_systems_lisp.Tests.Hosts.{willing}

abbrev symbols : List (List ℕ)
symbols = ascii "psl_rt_car" ∷ ascii "puts" ∷ []

abbrev listing : System
listing = record willing { prints = λ h tool. nm_text symbols }

has_nm : target_nm 0 ≡ some (ascii "nm")
unfolding target_nm
has_nm = refl

abbrev input : List ℕ
input = ascii "a.o"

abbrev asked : ℕ
asked = (input_runtime_roots listing 0 (some input ∷ []) []).0

-- The module of the conses.
asks_for_conses : asked ≡ 2
unfolding input_runtime_roots scan_inputs scan_input read_symbols scan scan_line scan_symbol
    line_symbol take_line c_string strip last_word runtime_symbol_module find_module same_text
    target_nm
asks_for_conses = refl

names : All IsName symbols
names = ground arith

input_runtime_roots_lem_example :
    (Homeless symbols × (asked ≡ no_roots))
    ⊎ (¬ Homeless symbols × ((i : ℕ) → (bit i asked ≡ 1) ↔ Asked i symbols))
input_runtime_roots_lem_example =
    input_runtime_roots_lem listing (λ file. symbols) (λ h a. refl) (λ h nm file. refl) 0
      (ascii "nm") (input ∷ []) [] has_nm (names, tt)

runtime_roots-Clean_example :
    Clean willing [] (runtime_roots willing 0 (ascii "a.c" ∷ []) (some input ∷ []) true []).1
runtime_roots-Clean_example =
    runtime_roots-Clean willing 0 (ascii "a.c" ∷ []) (some input ∷ []) true []

scan-enough_example : scan 13 0 (ascii " U psl_rt_car") ≢ out_of_rounds
scan-enough_example = scan-enough 13 0 (ascii " U psl_rt_car") (omega arith)
