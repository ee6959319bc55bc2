-- ===== src/Toolchain/Paths.antt =====
-- Paths: the part before and after the last slash, and the name of an output file.
use mathlib.Core.List.{append_assoc}
use portable_systems_lisp.Base.{
  length-append, ◌<◌, ◌↔◌, sym, ◌∙◌, ℕ, ◌+◌, ◌≡◌, ◌≢◌, refl, Bool, true, false, Option, none, some,
  List, [], ◌∷◌, ◌++◌, ◌==◌, ◌||◌, if◌then◌else◌, arith, inl, inr, ◌⊎◌, Bool-cases, All, ap, ltb,
  take, length, ◌-◌,
}
use portable_systems_lisp.Toolchain.Tools.{ascii}
use portable_systems_lisp.Toolchain.Modules.{same_text}

-- '/'
abbrev pub slash : ℕ
slash = 47

-- strrchr(path, '/'): the path through its last slash, and what follows; none without a slash.
unfoldable pub split_slash : List ℕ → Option (List ℕ × List ℕ)
split_slash [] = none
split_slash (c ∷ cs) = elim (split_slash cs) [
  | some (before, after) ↦ some (c ∷ before, after)
  | none ↦ if c == slash then some (c ∷ [], cs) else none
]

unfoldable pub last_name : List ℕ → List ℕ
unfolding split_slash
last_name path = elim (split_slash path) [ none ↦ path | some (before, after) ↦ after ]

abbrev pub empty : List ℕ → Bool
empty [] = true
empty (c ∷ cs) = false

unfoldable pub output_file_name : Option (List ℕ) → Option (List ℕ)
unfolding last_name same_text
output_file_name none = none
output_file_name (some output) =
    if empty output
    then none
    else if empty (last_name output)
        || same_text (last_name output) (ascii ".")
        || same_text (last_name output) (ascii "..")
    then none
    else some (last_name output)

-- snprintf of "%s/%s" into a buffer of `capacity` bytes: whether it fits, and what the buffer holds.
unfoldable pub format_path : ℕ → List ℕ → List ℕ → Bool × List ℕ
format_path capacity directory name =
    let full = directory ++ slash ∷ name in
    (
      ltb (length full) capacity,
      if ltb (length full) capacity then full else take (capacity - 1) full,
    )

pub same_text_iff : (xs ys : List ℕ) → (same_text xs ys ≡ true) ↔ (xs ≡ ys)
unfolding same_text
same_text_iff [] [] = (λ _. refl, λ _. refl)
same_text_iff [] (y ∷ ys) = ground arith
same_text_iff (x ∷ xs) [] = ground arith
same_text_iff (x ∷ xs) (y ∷ ys) = ground (arith, same_text_iff xs ys)

abbrev pub NoSlash : List ℕ → Type 0
NoSlash cs = All (λ c. c ≢ slash) cs

-- The split is at the last slash.
split_slash_lem :
    (path : List ℕ)
    → ((split_slash path ≡ none) × NoSlash path)
      ⊎ ((directory after : List ℕ) × (split_slash path ≡ some (directory ++ slash ∷ [], after))
          × (path ≡ directory ++ slash ∷ after)
          × NoSlash after)
unfolding split_slash
split_slash_lem [] = inl (refl, tt)
split_slash_lem (c ∷ cs) = elim (split_slash_lem cs) [
  | inr (directory, after, e, whole, free) ↦
      inr (c ∷ directory, after, rw (e, split_slash), ap (λ l. c ∷ l) whole, free)
  | inl (e, free) ↦ elim (Bool-cases (c == slash)) [
    | inl hit ↦
        let is : c ≡ slash = ground arith in
        inr (
          [],
          cs,
          rw (e, split_slash, hit) (ap (λ x. some (x ∷ [], cs)) is),
          ap (λ x. x ∷ cs) is,
          free,
        )
    | inr miss ↦ inl (rw (e, split_slash, miss), (ground arith, free))
  ]
]

-- The names that no file can have.
abbrev pub IsReserved : List ℕ → Type 0
IsReserved name = (name ≡ []) ⊎ (name ≡ ascii ".") ⊎ (name ≡ ascii "..")

last_name_lem :
    (path : List ℕ)
    → (before : List ℕ) × (path ≡ before ++ last_name path)
      × NoSlash (last_name path)
      × ((before ≡ []) ⊎ ((directory : List ℕ) × (before ≡ directory ++ slash ∷ [])))
unfolding last_name
last_name_lem path = elim (split_slash_lem path) [
  | inl (e, free) ↦ ([], rw (e, last_name), rw (e, last_name) free, inl refl)
  | inr (directory, after, e, whole, free) ↦ (
    directory ++ slash ∷ [],
    rw (e, last_name) (whole ∙ sym (append_assoc directory (slash ∷ []) after)),
    rw (e, last_name) free,
    inr (directory, refl),
  )
]

abbrev reserved : List ℕ → Bool
reserved name = empty name || same_text name (ascii ".") || same_text name (ascii "..")

empty_iff : (xs : List ℕ) → (empty xs ≡ true) ↔ (xs ≡ [])
empty_iff [] = (λ _. refl, λ _. refl)
empty_iff (x ∷ xs) = ground arith

reserved_iff : (name : List ℕ) → (reserved name ≡ true) ↔ IsReserved name
reserved_iff name =
    ground (arith, empty_iff name, same_text_iff name (ascii "."), same_text_iff name (ascii ".."))

-- A name that is not reserved is not that of an empty path.
output-nonempty : (output : List ℕ) → reserved (last_name output) ≡ false → empty output ≡ false
unfolding last_name split_slash
output-nonempty [] h = h
output-nonempty (c ∷ cs) h = refl

-- The name of an output is what follows its last slash; there is none exactly if that is empty, "."
-- or "..".
pub output_file_name_lem :
    (output : List ℕ)
    → (before name : List ℕ) × (output ≡ before ++ name)
      × NoSlash name
      × ((before ≡ []) ⊎ ((directory : List ℕ) × (before ≡ directory ++ slash ∷ [])))
      × ((IsReserved name × (output_file_name (some output) ≡ none))
          ⊎ (¬ IsReserved name × (output_file_name (some output) ≡ some name)))
unfolding output_file_name
output_file_name_lem output =
    let (before, whole, free, ends) = last_name_lem output in
    (
      before,
      last_name output,
      whole,
      free,
      ends,
      elim (Bool-cases (reserved (last_name output))) [
        | inl bad ↦ inl (
          (reserved_iff (last_name output)).0 bad,
          elim (Bool-cases (empty output)) [
            | inl nothing ↦ rw nothing refl
            | inr path ↦ rw (path, bad)
          ],
        )
        | inr good ↦ inr (
          λ h. cc ((reserved_iff (last_name output)).1 h, good),
          rw (output-nonempty output good, good),
        )
      ],
    )

-- A path fits into a buffer that has room for the directory, the slash, the name and the zero.
pub format_path_lem :
    (extra : ℕ) (directory name : List ℕ)
    → length name + 1 < extra
    → format_path (length directory + extra) directory name ≡ (true, directory ++ slash ∷ name)
unfolding format_path
format_path_lem extra directory name room =
    let fits : ltb (length (directory ++ slash ∷ name)) (length directory + extra) ≡ true =
      ground (arith, length-append directory (slash ∷ name)) in
    rw fits refl
