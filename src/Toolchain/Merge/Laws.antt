-- ===== src/Toolchain/Merge/Laws.antt =====
-- native_host_merge_c_sources in bootstrap/host/platform_toolchain.c: its renames, and its last action.
use portable_systems_lisp.Toolchain.Paths.{slash, format_path_lem}
use portable_systems_lisp.Base.{
  ap, ℕ, ◌+◌, ◌*◌, ◌≡◌, refl, ◌∙◌, Bool, true, false, ◌&&◌, Option, none, some, List, [], ◌∷◌, ◌++◌,
  ◌==◌, if◌then◌else◌, length, arith, inl, inr, Bool-cases, Option-cases,
}
use portable_systems_lisp.Toolchain.Tools.{ascii, target_compiler}
use portable_systems_lisp.Toolchain.Actions.{
  Action, System, write_object, output_temporary_directory, no_objects, compile_sources,
}
use portable_systems_lisp.Toolchain.Merge.{
  merge_objects, remove_temporary_files, attempt, merge_in, merge_c_sources,
}
use portable_systems_lisp.Toolchain.Merge.Quiet.{
  Move, renamed, counted, compile_sources-Quiet, write_object-Quiet, merge_objects-Quiet,
  remove_temporary_files-Quiet, output_temporary_directory-Quiet,
}

attempt-renamed :
    (sys : System) (compiler directory output object : List ℕ) (sources : List (List ℕ))
    (target : ℕ) (h : List Action)
    → renamed sys (attempt sys compiler directory output object sources target h).1
      ≡ counted
          (directory ++ slash ∷ ascii "merged.o", output)
          (attempt sys compiler directory output object sources target h).0.ok
          (renamed sys h)
unfolding attempt renamed
attempt-renamed sys compiler directory output object sources target h =
    let psl = directory ++ slash ∷ ascii "psl.o" in
    let merged = directory ++ slash ∷ ascii "merged.o" in
    let fits = format_path_lem 10 directory (ascii "psl.o") (omega arith) in
    let fits' = format_path_lem 10 directory (ascii "merged.o") (omega arith) in
    let h₁ = (write_object sys psl object h).1 in
    let quiet₁ = write_object-Quiet sys psl object h in
    let (compiled, h₂) = compile_sources sys compiler directory target 0 sources h₁ in
    let quiet₂ = compile_sources-Quiet sys compiler directory target sources 0 h₁ in
    let (joined, h₃) = merge_objects sys compiler merged psl compiled.1 h₂ in
    let quiet₃ = merge_objects-Quiet sys compiler merged psl compiled.1 h₂ in
    elim (Bool-cases (write_object sys psl object h).0) [
      | inr failed ↦ rw (fits, fits', failed) quiet₁
      | inl wrote ↦ elim (Bool-cases compiled.0) [
        | inr failed ↦ rw (fits, fits', wrote, failed) (quiet₂ ∙ quiet₁)
        | inl c ↦ elim (Bool-cases joined) [
          | inr failed ↦ rw (fits, fits', wrote, c, failed) (quiet₃ ∙ quiet₂ ∙ quiet₁)
          | inl j ↦ elim (Bool-cases (sys.succeeds h₃ (Action.rename merged output))) [
            | inr failed ↦ rw (fits, fits', wrote, c, j, failed) (quiet₃ ∙ quiet₂ ∙ quiet₁)
            | inl done ↦
                rw (fits, fits', wrote, c, j, done)
                  (ap (λ moves. (merged, output) ∷ moves) (quiet₃ ∙ quiet₂ ∙ quiet₁))
          ]
        ]
      ]
    ]

-- The newest action of a history is the removal of the directory.
abbrev pub RemovedLast : List ℕ → List Action → Type 0
RemovedLast directory [] = ⊥
RemovedLast directory (a ∷ h) = a ≡ Action.remove_directory directory

remove_temporary_files-last :
    (sys : System) (objects : List (Option (List ℕ))) (psl merged : Option (List ℕ))
    (directory : List ℕ) (h : List Action)
    → RemovedLast directory (remove_temporary_files sys objects psl merged directory h).1
unfolding remove_temporary_files
remove_temporary_files-last sys objects none none directory h = refl
remove_temporary_files-last sys objects none (some m) directory h = refl
remove_temporary_files-last sys objects (some p) none directory h = refl
remove_temporary_files-last sys objects (some p) (some m) directory h = refl

merge_in_lem :
    (sys : System) (compiler directory output object : List ℕ) (sources : List (List ℕ))
    (target : ℕ) (h : List Action)
    → (renamed sys (merge_in sys compiler directory output object sources target h).1
        ≡ counted
            (directory ++ slash ∷ ascii "merged.o", output)
            (merge_in sys compiler directory output object sources target h).0
            (renamed sys h))
      × RemovedLast directory (merge_in sys compiler directory output object sources target h).1
unfolding merge_in renamed
merge_in_lem sys compiler directory output object sources target h =
    let small = Action.allocate (length directory + 10) in
    let h₁ = small ∷ h in
    let h₂ = small ∷ h₁ in
    let array = Action.allocate (length sources * 8) in
    let h₃ = array ∷ h₂ in
    let objects = if sys.succeeds h₂ array then no_objects sources else [] in
    let psl : Option (List ℕ) = if sys.succeeds h small then some [] else none in
    let merged : Option (List ℕ) = if sys.succeeds h₁ small then some [] else none in
    let a = attempt sys compiler directory output object sources target h₃ in
    elim (Bool-cases (sys.succeeds h small && sys.succeeds h₁ small && sys.succeeds h₂ array)) [
      | inl memory ↦ rw memory (
        remove_temporary_files-Quiet sys a.0.objects (some a.0.psl) (some a.0.merged) directory a.1
            ∙ attempt-renamed sys compiler directory output object sources target h₃,
        remove_temporary_files-last sys a.0.objects (some a.0.psl) (some a.0.merged) directory a.1,
      )
      | inr none_left ↦ rw none_left (
        remove_temporary_files-Quiet sys objects psl merged directory h₃,
        remove_temporary_files-last sys objects psl merged directory h₃,
      )
    ]

-- What a merge that answers `ok` renames: its result from the temporary directory that it made for
-- the output, or nothing.
abbrev pub Merged : System → List ℕ → Bool → List Action → List Action → Type 0
Merged sys output false h h' = renamed sys h' ≡ renamed sys h
Merged sys output true h h' =
    (d : List ℕ) × ((output_temporary_directory sys (some output) h).0 ≡ some d)
    × (renamed sys h' ≡ (d ++ slash ∷ ascii "merged.o", output) ∷ renamed sys h)

counted-Merged :
    (sys : System) (output d : List ℕ) (ok : Bool) (h h' : List Action)
    → (output_temporary_directory sys (some output) h).0 ≡ some d
    → renamed sys h' ≡ counted (d ++ slash ∷ ascii "merged.o", output) ok (renamed sys h)
    → Merged sys output ok h h'
counted-Merged sys output d true h h' made moved = (d, made, moved)
counted-Merged sys output d false h h' made moved = moved

-- A merge that returns 1 renames merged.o of its temporary directory to the output and nothing else,
-- and one that returns 0 renames nothing.
pub merge_c_sources-Merged :
    (sys : System) (output object : List ℕ) (sources : List (List ℕ)) (target : ℕ) (h : List Action)
    → let (ok, h') = merge_c_sources sys (some output) object sources target h in
      Merged sys output ok h h'
unfolding merge_c_sources
merge_c_sources-Merged sys output object sources target h =
    let (made, h') = output_temporary_directory sys (some output) h in
    let quiet = output_temporary_directory-Quiet sys (some output) h in
    elim (Option-cases (target_compiler target)) [
      | inl missing ↦ rw (missing, merge_c_sources) refl
      | inr (compiler, e) ↦ elim (Bool-cases (length sources == 0)) [
        | inl nothing ↦ rw (e, merge_c_sources, nothing) refl
        | inr some_left ↦ elim (Option-cases made) [
          | inl failed ↦ rw (e, merge_c_sources, some_left, failed) quiet
          | inr (directory, d) ↦
              let run = merge_in sys compiler directory output object sources target h' in
              let move : Move = (directory ++ slash ∷ ascii "merged.o", output) in
              let moved =
                (merge_in_lem sys compiler directory output object sources target h').0
                ∙ ap (counted move run.0) quiet in
              rw (e, merge_c_sources, some_left, d)
                (counted-Merged sys output directory run.0 h run.1 d moved)
        ]
      ]
    ]

-- A merge that made its temporary directory removes it as the last thing it does, whatever failed
-- before.
pub merge_c_sources-removed :
    (sys : System) (output object : List ℕ) (sources : List (List ℕ)) (target : ℕ) (h : List Action)
    (compiler directory : List ℕ)
    → target_compiler target ≡ some compiler
    → (length sources == 0) ≡ false
    → (output_temporary_directory sys (some output) h).0 ≡ some directory
    → RemovedLast directory (merge_c_sources sys (some output) object sources target h).1
unfolding merge_c_sources
merge_c_sources-removed sys output object sources target h compiler directory e some_left made =
    let h' = (output_temporary_directory sys (some output) h).1 in
    rw (e, merge_c_sources, some_left, made)
      (merge_in_lem sys compiler directory output object sources target h').1
