-- ===== src/Toolchain/Merge/Quiet.antt =====
-- The parts of a merge that rename nothing.
use portable_systems_lisp.Machine.{size_max}
use portable_systems_lisp.Base.{
  ◌-◌, ltb, ℕ, ◌+◌, ◌*◌, ◌≡◌, refl, Bool, true, false, not, Option, none, some, List, [], ◌∷◌, ◌++◌,
  ◌==◌, if◌then◌else◌, length, inl, inr, Bool-cases,
}
use portable_systems_lisp.Toolchain.Tools.{ascii, x86_64_windows}
use portable_systems_lisp.Toolchain.Actions.{
  Action, System, Run, output_temporary_directory, directory_of, compile_sources, decimal,
  compile_arguments, write_object,
}
use portable_systems_lisp.Toolchain.Merge.{merge_objects, unlink_objects, remove_temporary_files}

abbrev pub renames : Action → Bool
renames (Action.rename from to) = true
renames _ = false

-- What a rename does: from where and to where.
abbrev pub Move : Type 0
Move = List ℕ × List ℕ

-- The renames that succeeded, the last one first.
unfoldable pub renamed : System → List Action → List Move
renamed sys [] = []
renamed sys (Action.rename from to ∷ h) =
    if sys.succeeds h (Action.rename from to) then (from, to) ∷ renamed sys h else renamed sys h
renamed sys (_ ∷ h) = renamed sys h

-- The renames after a run that answers `ok`, where `before` are those before it, and `move` is what
-- it renames where it succeeds.
abbrev pub counted : Move → Bool → List Move → List Move
counted move ok before = if ok then move ∷ before else before

-- A run that renames nothing.
abbrev pub Quiet : {A : Type 0} → System → Run A → Type 0
Quiet sys m = (h : List Action) → renamed sys (m h).1 ≡ renamed sys h

pub write_object-Quiet :
    (sys : System) (path object : List ℕ) → Quiet sys (write_object sys path object)
unfolding write_object renamed
write_object-Quiet sys path object h = elim (Bool-cases (sys.succeeds h (Action.open_file path))) [
  | inr failed ↦ rw failed refl
  | inl opened ↦ rw opened refl
]

pub compile_sources-Quiet :
    (sys : System) (compiler directory : List ℕ) (target : ℕ) (sources : List (List ℕ)) (index : ℕ)
    → Quiet sys (compile_sources sys compiler directory target index sources)
unfolding compile_sources renamed
compile_sources-Quiet sys compiler directory target [] index h = refl
compile_sources-Quiet sys compiler directory target (source ∷ sources) index h =
    let size = length directory + 32 in
    let path = directory ++ ascii "/c" ++ decimal index ++ ascii ".o" in
    let args = compile_arguments compiler source path (not (target == x86_64_windows)) in
    let h₁ = Action.allocate size ∷ h in
    elim (Bool-cases (sys.succeeds h (Action.allocate size))) [
      | inr none_left ↦ rw none_left refl
      | inl memory ↦ elim (Bool-cases (ltb (length path) size)) [
        | inr cut ↦ rw (memory, cut) refl
        | inl fits ↦ elim (Bool-cases (sys.succeeds h₁ (Action.run args))) [
          | inr failed ↦ rw (memory, fits, failed) refl
          | inl compiled ↦
              rw (memory, fits, compiled)
                (compile_sources-Quiet sys compiler directory target sources (index + 1)
                  (Action.run args ∷ h₁))
        ]
      ]
    ]

pub merge_objects-Quiet :
    (sys : System) (compiler output psl : List ℕ) (objects : List (Option (List ℕ)))
    → Quiet sys (merge_objects sys compiler output psl objects)
unfolding merge_objects renamed
merge_objects-Quiet sys compiler output psl objects h =
    elim (Bool-cases (sys.succeeds h (Action.allocate ((length objects + 6) * 8)))) [
      | inr none_left ↦ rw none_left refl
      | inl memory ↦ rw memory refl
    ]

unlink_objects-Quiet :
    (sys : System) (objects : List (Option (List ℕ))) → Quiet sys (unlink_objects sys objects)
unfolding unlink_objects renamed
unlink_objects-Quiet sys [] h = refl
unlink_objects-Quiet sys (none ∷ rest) h = unlink_objects-Quiet sys rest h
unlink_objects-Quiet sys (some path ∷ rest) h =
    unlink_objects-Quiet sys rest (Action.unlink path ∷ h)

pub remove_temporary_files-Quiet :
    (sys : System) (objects : List (Option (List ℕ))) (psl merged : Option (List ℕ))
    (directory : List ℕ)
    → Quiet sys (remove_temporary_files sys objects psl merged directory)
unfolding remove_temporary_files renamed
remove_temporary_files-Quiet sys objects none none directory h = unlink_objects-Quiet sys objects h
remove_temporary_files-Quiet sys objects none (some m) directory h =
    unlink_objects-Quiet sys objects h
remove_temporary_files-Quiet sys objects (some p) none directory h =
    unlink_objects-Quiet sys objects h
remove_temporary_files-Quiet sys objects (some p) (some m) directory h =
    unlink_objects-Quiet sys objects h

pub output_temporary_directory-Quiet :
    (sys : System) (output : Option (List ℕ)) → Quiet sys (output_temporary_directory sys output)
unfolding output_temporary_directory renamed
output_temporary_directory-Quiet sys none h = refl
output_temporary_directory-Quiet sys (some output) h =
    let memory = Action.allocate (length (directory_of output) + 19) in
    elim (Bool-cases (ltb (size_max - 19) (length (directory_of output)))) [
      | inl long ↦ rw long refl
      | inr short ↦ elim (Bool-cases (sys.succeeds h memory)) [
        | inr none_left ↦ rw (short, none_left) refl
        | inl given ↦ rw (short, given) refl
      ]
    ]
