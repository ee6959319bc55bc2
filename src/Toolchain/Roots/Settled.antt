-- ===== src/Toolchain/Roots/Settled.antt =====
-- The ends of a scan of the inputs, for input_runtime_roots.
use portable_systems_lisp.Base.{
  ℕ, zero, suc, ◌<◌, ◌≢◌, refl, Bool, true, false, Option, none, some, List, [], ◌∷◌, ◌==◌,
  if◌then◌else◌, length, inl, inr, Bool-cases, arith,
}
use portable_systems_lisp.Base.Bits.{bit_or-lt}
use portable_systems_lisp.Toolchain.Modules.{
  runtime_bit, runtime_symbol_module, runtime_symbol_module_lem,
}
use portable_systems_lisp.Toolchain.Actions.{Action, System, Run}
use portable_systems_lisp.Toolchain.Symbols.{
  Scan, found, unknown, out_of_rounds, line_symbol, runtime_symbol, scan_symbol, scan_line,
  then_scan, take_line, scan,
}
use portable_systems_lisp.Toolchain.Symbols.Lines.{scan-enough}
use portable_systems_lisp.Toolchain.Roots.{
  nm_arguments, read_symbols, scan_input, then_run, scan_inputs,
}

runtime_bit-lt : (position : ℕ) → position < 11 → runtime_bit position < 2048
unfolding runtime_bit
runtime_bit-lt zero h = omega arith
runtime_bit-lt (suc zero) h = omega arith
runtime_bit-lt (suc (suc n)) h = grind arith

module_lt : (symbol : List ℕ) → runtime_symbol_module symbol < 2048
module_lt symbol = elim (runtime_symbol_module_lem symbol) [
  | inl none_there ↦ omega (arith, none_there)
  | inr (position, below, is, files) ↦ omega (arith, is, runtime_bit-lt position below)
]

-- A scan that found modules found some of the eleven.
abbrev IsSmall : Scan → Type 0
IsSmall (found roots) = roots < 2048
IsSmall unknown = Unit
IsSmall out_of_rounds = Unit

then_scan-IsSmall :
    (r : Scan) (k : ℕ → Scan)
    → IsSmall r
    → ((m : ℕ) → m < 2048 → IsSmall (k m))
    → IsSmall (then_scan r k)
then_scan-IsSmall (found roots) k small rest = rest roots small
then_scan-IsSmall unknown k small rest = tt
then_scan-IsSmall out_of_rounds k small rest = tt

scan_symbol-IsSmall :
    (roots : ℕ) (symbol : List ℕ) → roots < 2048 → IsSmall (scan_symbol roots symbol)
unfolding scan_symbol
scan_symbol-IsSmall roots symbol small = elim (Bool-cases (runtime_symbol symbol)) [
  | inr other ↦ rw other small
  | inl runtime ↦ elim (Bool-cases (runtime_symbol_module symbol == 0)) [
    | inl missing ↦ rw (runtime, missing) tt
    | inr there ↦
        rw (runtime, there)
          (bit_or-lt 11 roots (runtime_symbol_module symbol) small (module_lt symbol))
  ]
]

scan-IsSmall :
    (rounds roots : ℕ) (bytes : List ℕ) → roots < 2048 → IsSmall (scan rounds roots bytes)
unfolding scan scan_line
scan-IsSmall zero roots [] small = small
scan-IsSmall zero roots (b ∷ bytes) small = tt
scan-IsSmall (suc rounds) roots [] small = small
scan-IsSmall (suc rounds) roots (b ∷ bytes) small =
    let (line, rest) = take_line 4095 (b ∷ bytes) in
    then_scan-IsSmall (scan_symbol roots (line_symbol line)) (λ more. scan rounds more rest)
      (scan_symbol-IsSmall roots (line_symbol line) small)
      (λ more below. scan-IsSmall rounds more rest below)

-- A scan that came to an end, with some of the eleven modules or without an answer.
abbrev pub IsSettled : Scan → Type 0
IsSettled (found roots) = roots < 2048
IsSettled unknown = Unit
IsSettled out_of_rounds = ⊥

settle : (r : Scan) → IsSmall r → r ≢ out_of_rounds → IsSettled r
settle (found roots) small ne = small
settle unknown small ne = tt
settle out_of_rounds small ne = ne refl

-- What is made of the result of the loop over the lines, for either answer of waitpid.
read_symbols-IsSettled :
    (sys : System) (tool : List (List ℕ)) (roots : ℕ) (h : List Action)
    → roots < 2048
    → IsSettled (read_symbols sys tool roots h).0
unfolding read_symbols
read_symbols-IsSettled sys tool roots h small =
    let text = sys.prints h tool in
    let end = Action.close_stream ∷ h in
    waited (scan (length text) roots text) (sys.succeeds end Action.wait) (
      settle _ (scan-IsSmall (length text) roots text small)
        (scan-enough (length text) roots text (omega arith)))
  where
    waited :
        (r : Scan) (exited : Bool)
        → IsSettled r
        → IsSettled
            (elim r as (λ _. Scan × List Action) [
              | found more ↦
                  if exited
                  then (found more, Action.wait ∷ Action.close_stream ∷ h)
                  else (unknown, Action.wait ∷ Action.close_stream ∷ h)
              | unknown ↦ (unknown, Action.wait ∷ Action.close_stream ∷ h)
              | out_of_rounds ↦ (out_of_rounds, Action.wait ∷ Action.close_stream ∷ h)
            ]).0
    waited (found more) true settled = settled
    waited (found more) false settled = tt
    waited unknown exited settled = tt
    waited out_of_rounds exited settled = settled

scan_input-IsSettled :
    (sys : System) (nm : List ℕ) (roots : ℕ) (input : List ℕ) (h : List Action)
    → roots < 2048
    → IsSettled (scan_input sys nm roots input h).0
unfolding scan_input
scan_input-IsSettled sys nm roots input h small =
    let tool = nm_arguments nm input in
    let h₁ = Action.pipe ∷ h in
    let h₃ = Action.close_end true ∷ Action.fork tool ∷ h₁ in
    elim (Bool-cases (sys.succeeds h Action.pipe)) [
      | inr full ↦ rw full tt
      | inl piped ↦ elim (Bool-cases (sys.succeeds h₁ (Action.fork tool))) [
        | inr refused ↦ rw (piped, refused) tt
        | inl forked ↦ elim (Bool-cases (sys.succeeds h₃ Action.open_stream)) [
          | inr closed ↦ rw (piped, forked, closed) tt
          | inl opened ↦
              rw (piped, forked, opened)
                (read_symbols-IsSettled sys tool roots (Action.open_stream ∷ h₃) small)
        ]
      ]
    ]

then_run-IsSettled :
    (r : Scan) (k : ℕ → Run Scan) (h : List Action)
    → IsSettled r
    → ((m : ℕ) → m < 2048 → IsSettled (k m h).0)
    → IsSettled (then_run r k h).0
then_run-IsSettled (found roots) k h settled rest = rest roots settled
then_run-IsSettled unknown k h settled rest = tt
then_run-IsSettled out_of_rounds k h settled rest = settled

pub scan_inputs-IsSettled :
    (sys : System) (nm : List ℕ) (inputs : List (Option (List ℕ))) (roots : ℕ) (h : List Action)
    → roots < 2048
    → IsSettled (scan_inputs sys nm roots inputs h).0
unfolding scan_inputs
scan_inputs-IsSettled sys nm [] roots h small = small
scan_inputs-IsSettled sys nm (none ∷ inputs) roots h small = tt
scan_inputs-IsSettled sys nm (some input ∷ inputs) roots h small =
    let (one, h₁) = scan_input sys nm roots input h in
    then_run-IsSettled one (λ more. scan_inputs sys nm more inputs) h₁
      (scan_input-IsSettled sys nm roots input h small)
      (λ more below. scan_inputs-IsSettled sys nm inputs more h₁ below)
