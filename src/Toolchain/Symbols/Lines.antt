-- ===== src/Toolchain/Symbols/Lines.antt =====
-- Lines and the symbols on them: the rounds of the loop over the lines, and lines as nm prints them.
use portable_systems_lisp.Base.{
  All-append, ℕ, zero, suc, ◌≤◌, ◌<◌, ◌≡◌, ◌≢◌, refl, ap, true, false, ◌||◌, List, [], ◌∷◌, ◌++◌,
  ◌==◌, length, All, inl, inr, Bool-cases, arith,
}
use portable_systems_lisp.Toolchain.Modules.{runtime_symbol_module}
use portable_systems_lisp.Toolchain.Symbols.{
  take_line, c_string, ends_line, strip, any_space, last_word, line_symbol, runtime_symbol, Scan,
  found, unknown, out_of_rounds, scan_symbol, scan_line, then_scan, scan,
}

take_line-shorter : (room : ℕ) (bytes : List ℕ) → length (take_line room bytes).1 ≤ length bytes
unfolding take_line
take_line-shorter zero bytes = omega arith
take_line-shorter (suc room) [] = omega arith
take_line-shorter (suc room) (b ∷ bytes) = elim (Bool-cases (b == 10)) [
  | inl newline ↦ rw newline (omega arith)
  | inr other ↦ rw other (omega (arith, take_line-shorter room bytes))
]

take_line-first :
    (room b : ℕ) (bytes : List ℕ) → 0 < room → length (take_line room (b ∷ bytes)).1 ≤ length bytes
unfolding take_line
take_line-first zero b bytes some_room = absurd (omega arith)
take_line-first (suc room) b bytes some_room = elim (Bool-cases (b == 10)) [
  | inl newline ↦ rw newline (omega arith)
  | inr other ↦ rw other (take_line-shorter room bytes)
]

then_scan-enough :
    (r : Scan) (k : ℕ → Scan)
    → r ≢ out_of_rounds
    → ((roots : ℕ) → k roots ≢ out_of_rounds)
    → then_scan r k ≢ out_of_rounds
then_scan-enough (found roots) k ne rest = rest roots
then_scan-enough unknown k ne rest = ne
then_scan-enough out_of_rounds k ne rest = ne

scan_symbol-enough : (roots : ℕ) (symbol : List ℕ) → scan_symbol roots symbol ≢ out_of_rounds
unfolding scan_symbol
scan_symbol-enough roots symbol = elim (Bool-cases (runtime_symbol symbol)) [
  | inr other ↦ rw other (λ e. cc)
  | inl runtime ↦ elim (Bool-cases (runtime_symbol_module symbol == 0)) [
    | inl missing ↦ rw (runtime, missing) (λ e. cc)
    | inr there ↦ rw (runtime, there) (λ e. cc)
  ]
]

within : (a b c : ℕ) → a ≤ b → suc b ≤ suc c → a ≤ c
within a b c h k = omega arith

-- A round for each byte is enough for the loop over the lines: each of them takes a byte at least.
pub scan-enough :
    (rounds roots : ℕ) (bytes : List ℕ)
    → length bytes ≤ rounds
    → scan rounds roots bytes ≢ out_of_rounds
unfolding scan scan_line
scan-enough zero roots [] h = λ e. cc
scan-enough zero roots (b ∷ bytes) h = absurd (omega arith)
scan-enough (suc rounds) roots [] h = λ e. cc
scan-enough (suc rounds) roots (b ∷ bytes) h =
    let (line, rest) = take_line 4095 (b ∷ bytes) in
    then_scan-enough (scan_line roots line) (λ more. scan rounds more rest)
      (scan_symbol-enough roots (line_symbol line))
      (λ more.
        scan-enough rounds more rest
          (within _ _ rounds (take_line-first 4095 b bytes (omega arith)) h))

-- A byte that can stand in a name.
abbrev pub IsVisible : ℕ → Type 0
IsVisible b = (ends_line b ≡ false) × (b ≢ 0)

abbrev pub IsNonzero : ℕ → Type 0
IsNonzero b = b ≢ 0

c_string-whole : (bytes : List ℕ) → All IsNonzero bytes → c_string bytes ≡ bytes
unfolding c_string
c_string-whole [] all = refl
c_string-whole (b ∷ bytes) all =
    let byte : (b == 0) ≡ false = ground (arith, all.0) in
    rw byte (ap (λ l. b ∷ l) (c_string-whole bytes all.1))

-- A word is not stripped, and a newline behind it is.
strip-word :
    (b : ℕ) (word : List ℕ) → All IsVisible (b ∷ word) → strip (b ∷ word ++ 10 ∷ []) ≡ b ∷ word
unfolding strip
strip-word b [] all = rw (all.0.0) refl
strip-word b (c ∷ word) all = rw (strip-word c word all.1, strip) refl

strip-blank :
    (before : List ℕ) (b : ℕ) (word : List ℕ)
    → All IsVisible (b ∷ word)
    → strip (before ++ (32 ∷ b ∷ word ++ 10 ∷ [])) ≡ before ++ 32 ∷ b ∷ word
unfolding strip
strip-blank [] b word all = rw (strip-word b word all, strip) refl
strip-blank (c ∷ []) b word all = rw (strip-blank [] b word all, strip) refl
strip-blank (c ∷ d ∷ before) b word all = rw (strip-blank (d ∷ before) b word all, strip) refl

any_space-append : (xs ys : List ℕ) → any_space (xs ++ ys) ≡ (any_space xs || any_space ys)
any_space-append [] ys = refl
any_space-append (x ∷ xs) ys = ground (arith, any_space-append xs ys)

no_space : (bytes : List ℕ) → All IsVisible bytes → any_space bytes ≡ false
no_space [] all = refl
no_space (b ∷ bytes) all = ground (arith, no_space bytes all.1)

-- The last word begins behind the last blank.
last_word-word : (word : List ℕ) → All IsVisible word → last_word word ≡ word
unfolding last_word
last_word-word [] all = refl
last_word-word (b ∷ word) all = rw (no_space (b ∷ word) all) refl

last_word-behind :
    (before word : List ℕ) → All IsVisible word → last_word (before ++ 32 ∷ word) ≡ word
unfolding last_word
last_word-behind [] word all = last_word-word word all
last_word-behind (b ∷ before) word all =
    let blank : any_space (b ∷ before ++ 32 ∷ word) ≡ true =
      ground (arith, any_space-append before (32 ∷ word)) in
    rw blank (last_word-behind before word all)

pub All-IsNonzero : (word : List ℕ) → All IsVisible word → All IsNonzero word
All-IsNonzero [] all = tt
All-IsNonzero (b ∷ word) all = (all.0.1, All-IsNonzero word all.1)

-- The symbol on a line is the word behind the last blank before it.
pub line_symbol-word :
    (before : List ℕ) (b : ℕ) (word : List ℕ)
    → All IsNonzero before
    → All IsVisible (b ∷ word)
    → line_symbol (before ++ (32 ∷ b ∷ word ++ 10 ∷ [])) ≡ b ∷ word
unfolding line_symbol
line_symbol-word before b word nonzero all =
    let whole = All-append IsNonzero before (32 ∷ b ∷ word ++ 10 ∷ []) nonzero (
      omega arith,
      All-append IsNonzero (b ∷ word) (10 ∷ []) (All-IsNonzero (b ∷ word) all) (omega arith, tt),
    ) in
    rw (c_string-whole (before ++ (32 ∷ b ∷ word ++ 10 ∷ [])) whole, strip-blank before b word all)
      (last_word-behind before (b ∷ word) all)
