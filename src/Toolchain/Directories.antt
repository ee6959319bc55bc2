-- ===== src/Toolchain/Directories.antt =====
-- Temporary directories: what makes one and what removes one, in the sums for a directory `d`.
use portable_systems_lisp.Base.{
  ℕ, ◌+◌, ◌-◌, ◌≡◌, refl, Bool, Option, none, some, List, ◌∷◌, ◌++◌, ltb, length, inl, inr,
  Bool-cases, arith, [], ap, ◌∙◌, ◌<◌, true,
}
use portable_systems_lisp.Machine.{size_max}
use portable_systems_lisp.Toolchain.Actions.{
  Action, System, output_temporary_directory, directory_of, suffix,
}
use portable_systems_lisp.Toolchain.Modules.{same_text}
use portable_systems_lisp.Toolchain.History.{tally, makes, removes, one_if}
use portable_systems_lisp.Toolchain.Merge.Quiet.{Move, renamed}
use portable_systems_lisp.Toolchain.Publish.{Publishes, weighs, staged-makes, staged-removes}
use portable_systems_lisp.Toolchain.Freestanding.{rmdir}

module _ (sys : System) (d : List ℕ) where
  abbrev pub made : List Action → ℕ
  made = tally (makes sys d)

  abbrev pub gone : List Action → ℕ
  gone = tally (removes d)

  pub output_temporary_directory-made :
      (path : List ℕ) (h : List Action)
      → (made (output_temporary_directory sys (some path) h).1
          ≡ made h + weighs d (output_temporary_directory sys (some path) h).0)
        × (gone (output_temporary_directory sys (some path) h).1 ≡ gone h)
  unfolding output_temporary_directory tally
  output_temporary_directory-made path h =
      let memory = Action.allocate (length (directory_of path) + 19) in
      let template = directory_of path ++ suffix in
      elim (Bool-cases (ltb (size_max - 19) (length (directory_of path)))) [
        | inl long ↦ rw long (omega arith)
        | inr short ↦ elim (Bool-cases (sys.succeeds h memory)) [
          | inr none_left ↦ rw (short, none_left) (omega arith)
          | inl given ↦
              elim (Bool-cases (sys.succeeds (memory ∷ h) (Action.make_directory template))) [
                | inr refused ↦ rw (short, given, refused) (omega arith)
                | inl ok ↦ rw (short, given, ok) (omega arith)
              ]
        ]
      ]

  pub rmdir-gone :
      (directory : Option (List ℕ)) (h : List Action)
      → (made (rmdir sys directory h).1 ≡ made h)
        × (gone (rmdir sys directory h).1 ≡ gone h + weighs d directory)
        × (renamed sys (rmdir sys directory h).1 ≡ renamed sys h)
  unfolding tally renamed
  rmdir-gone none h = (refl, omega arith, refl)
  rmdir-gone (some directory) h = (omega arith, omega arith, refl)

  -- A run that publishes leaves directories alone.
  pub Publishes-directories :
      (move : Move) {h h' : List Action} (ok : Bool)
      → Publishes sys move h ok h'
      → (made h' ≡ made h) × (gone h' ≡ gone h)
  Publishes-directories move ok published =
      (staged-makes sys d published.0, staged-removes d published.0)

same_text_refl : (text : List ℕ) → same_text text text ≡ true
unfolding same_text
same_text_refl [] = refl
same_text_refl (byte ∷ rest) = ground (arith, same_text_refl rest)

-- A directory is among those made.
pub temporary-made :
    (sys : System) (path d : List ℕ) (h : List Action)
    → (output_temporary_directory sys (some path) h).0 ≡ some d
    → made sys d h < made sys d (output_temporary_directory sys (some path) h).1
temporary-made sys path d h e =
    let both = output_temporary_directory-made sys d path h in
    let one : weighs d (output_temporary_directory sys (some path) h).0 ≡ 1 =
      ap (weighs d) e ∙ ap one_if (same_text_refl d) in
    omega (arith, both.0, one)
