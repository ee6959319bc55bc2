-- ===== src/Toolchain/Symbols/Printed.antt =====
-- What nm prints of the undefined symbols of an input, line by line.
use portable_systems_lisp.Base.{
  All-append, ℕ, zero, suc, ◌+◌, ◌≤◌, ◌<◌, ◌≡◌, refl, ◌∙◌, ap, false, List, [], ◌∷◌, ◌++◌, ◌==◌,
  length, length-append, All, arith,
}
use mathlib.Core.List.{append_assoc}
use portable_systems_lisp.Toolchain.Tools.{ascii}
use portable_systems_lisp.Toolchain.Symbols.{
  take_line, Scan, found, unknown, out_of_rounds, scan_symbol, scan_line, then_scan, scan,
}
use portable_systems_lisp.Toolchain.Symbols.Lines.{IsVisible, line_symbol-word}

-- A name of at most 4000 bytes, none of them blank, a line end or zero.
abbrev pub IsName : List ℕ → Type 0
IsName [] = ⊥
IsName (b ∷ word) = All IsVisible (b ∷ word) × (length (b ∷ word) ≤ 4000)

abbrev pub nm_line : List ℕ → List ℕ
nm_line name = ascii "                 U" ++ (32 ∷ name ++ 10 ∷ [])

-- What nm prints of the undefined symbols `names`.
abbrev pub nm_text : List (List ℕ) → List ℕ
nm_text [] = []
nm_text (name ∷ names) = nm_line name ++ nm_text names

-- The modules of the names, one after the other.
abbrev pub wanted : ℕ → List (List ℕ) → Scan
wanted roots [] = found roots
wanted roots (name ∷ names) = then_scan (scan_symbol roots name) (λ more. wanted more names)

take_line-whole :
    (room : ℕ) (line rest : List ℕ)
    → All (λ b. (b == 10) ≡ false) line
    → length line < room
    → take_line room (line ++ 10 ∷ rest) ≡ (line ++ 10 ∷ [], rest)
unfolding take_line
take_line-whole zero line rest all short = absurd (omega arith)
take_line-whole (suc room) [] rest all short = refl
take_line-whole (suc room) (b ∷ line) rest all short =
    rw (all.0, take_line-whole room line rest all.1 (omega arith)) refl

no_newline : (word : List ℕ) → All IsVisible word → All (λ b. (b == 10) ≡ false) word
no_newline [] all = tt
no_newline (b ∷ word) all = (ground arith, no_newline word all.1)

abbrev margin : List ℕ
margin = ascii "                 U"

abbrev NoNewline : ℕ → Type 0
NoNewline b = (b == 10) ≡ false

margin_ends : All NoNewline margin
margin_ends = ground arith

first_line :
    (b : ℕ) (word rest : List ℕ)
    → IsName (b ∷ word)
    → take_line 4095 (nm_line (b ∷ word) ++ rest) ≡ (nm_line (b ∷ word), rest)
first_line b word rest name =
    let line = margin ++ (32 ∷ b ∷ word) in
    let visible = no_newline (b ∷ word) name.0 in
    rw (append_assoc word (10 ∷ []) rest) (
      take_line-whole 4095 line rest
        (All-append NoNewline margin (32 ∷ b ∷ word) margin_ends (refl, visible))
        (omega (arith, name.1)))

scan-first :
    (rounds roots b : ℕ) (word rest : List ℕ)
    → IsName (b ∷ word)
    → scan (suc rounds) roots (nm_line (b ∷ word) ++ rest)
      ≡ then_scan (scan_symbol roots (b ∷ word)) (λ more. scan rounds more rest)
unfolding scan scan_line
scan-first rounds roots b word rest name =
    rw (first_line b word rest name, line_symbol-word margin b word (omega arith) name.0) refl

pub then_scan-ap :
    (r : Scan) (f g : ℕ → Scan) → ((m : ℕ) → f m ≡ g m) → then_scan r f ≡ then_scan r g
then_scan-ap (found roots) f g same = same roots
then_scan-ap unknown f g same = refl
then_scan-ap out_of_rounds f g same = refl

length-nm_line :
    (name rest : List ℕ) → length (nm_line name ++ rest) ≡ length name + 20 + length rest
length-nm_line name rest = omega (
  arith,
  ap (λ (l : List ℕ). length l) (append_assoc name (10 ∷ []) rest),
  length-append {0} name (10 ∷ rest),
)

-- Reading back what nm prints gives the modules of the names one after the other.
pub scan-wanted :
    (names : List (List ℕ)) (rounds roots : ℕ)
    → All IsName names
    → length (nm_text names) ≤ rounds
    → scan rounds roots (nm_text names) ≡ wanted roots names
unfolding scan
scan-wanted [] zero roots all enough = refl
scan-wanted [] (suc rounds) roots all enough = refl
scan-wanted ([] ∷ names) rounds roots all enough = absurd all.0
scan-wanted ((b ∷ word) ∷ names) zero roots all enough = absurd (omega (arith, enough))
scan-wanted ((b ∷ word) ∷ names) (suc rounds) roots all enough =
    scan-first rounds roots b word (nm_text names) all.0
    ∙ then_scan-ap (scan_symbol roots (b ∷ word)) _ _ (λ m.
      scan-wanted names rounds m all.1
        (omega (arith, length-nm_line (b ∷ word) (nm_text names), enough)))
