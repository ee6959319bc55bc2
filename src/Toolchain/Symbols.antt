-- ===== src/Toolchain/Symbols.antt =====
-- The text that nm prints of undefined symbols: lines as fgets reads them into a buffer of 4096
-- bytes, the symbol on a line, and the runtime modules that the symbols of a text ask for.
pub mod Lines
pub mod Printed
pub mod Wanted
use portable_systems_lisp.Base.{
  ℕ, zero, suc, Bool, true, false, not, ◌||◌, ◌&&◌, List, [], ◌∷◌, ◌==◌, if◌then◌else◌, length,
  take, bit_or,
}
use portable_systems_lisp.Toolchain.Tools.{ascii}
use portable_systems_lisp.Toolchain.Modules.{same_text, runtime_symbol_module}

-- The bytes through the first newline, `room` of them at most, and those behind.
unfoldable pub take_line : ℕ → List ℕ → List ℕ × List ℕ
take_line zero bytes = ([], bytes)
take_line (suc room) [] = ([], [])
take_line (suc room) (b ∷ bytes) =
    let rest = take_line room bytes in if b == 10 then (b ∷ [], bytes) else (b ∷ rest.0, rest.1)

-- The string that a buffer holds: the bytes before the first zero.
unfoldable pub c_string : List ℕ → List ℕ
c_string [] = []
c_string (b ∷ bytes) = if b == 0 then [] else b ∷ c_string bytes

abbrev pub space : ℕ → Bool
space b = (b == 32) || (b == 9)

abbrev pub ends_line : ℕ → Bool
ends_line b = (b == 10) || (b == 13) || space b

-- The first loop from the end of a line: without the blanks and line ends there.
unfoldable pub strip : List ℕ → List ℕ
strip [] = []
strip (b ∷ bytes) = elim (strip bytes) [
  | [] ↦ if ends_line b then [] else b ∷ []
  | c ∷ rest ↦ b ∷ c ∷ rest
]

abbrev pub any_space : List ℕ → Bool
any_space [] = false
any_space (b ∷ bytes) = space b || any_space bytes

-- The second loop from the end: what follows the last blank.
unfoldable pub last_word : List ℕ → List ℕ
last_word [] = []
last_word (b ∷ bytes) = if any_space (b ∷ bytes) then last_word bytes else b ∷ bytes

unfoldable pub line_symbol : List ℕ → List ℕ
unfolding c_string strip last_word
line_symbol line = last_word (strip (c_string line))

-- strncmp(symbol, "psl_rt_", 7) == 0
abbrev pub runtime_symbol : List ℕ → Bool
runtime_symbol symbol = same_text (take 7 symbol) (ascii "psl_rt_")

-- How the loop over the lines ends: at the end of the text with the modules found, at a runtime
-- symbol of no module, or, in the model, for want of rounds.
pub data Scan : Type 0 where
  found : ℕ → Scan
  unknown out_of_rounds : Scan

-- `roots` after one symbol.
unfoldable pub scan_symbol : ℕ → List ℕ → Scan
scan_symbol roots symbol =
    if runtime_symbol symbol
    then (if runtime_symbol_module symbol == 0
        then unknown
        else found (bit_or roots (runtime_symbol_module symbol)))
    else found roots

unfoldable pub scan_line : ℕ → List ℕ → Scan
scan_line roots line = scan_symbol roots (line_symbol line)

abbrev pub then_scan : Scan → (ℕ → Scan) → Scan
then_scan (found roots) k = k roots
then_scan unknown k = unknown
then_scan out_of_rounds k = out_of_rounds

-- The loop over the lines; fgets gives none at the end of the text only.
unfoldable pub scan : ℕ → ℕ → List ℕ → Scan
scan zero roots [] = found roots
scan zero roots (b ∷ bytes) = out_of_rounds
scan (suc rounds) roots [] = found roots
scan (suc rounds) roots (b ∷ bytes) =
    let (line, rest) = take_line 4095 (b ∷ bytes) in
    then_scan (scan_line roots line) (λ more. scan rounds more rest)
