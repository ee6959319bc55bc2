-- ===== src/Toolchain/Commands/Idle.antt =====
-- The parts of a hosted link that run no tool.
use portable_systems_lisp.Base.{
  ◌-◌, ◌+◌, ltb, ℕ, ◌≡◌, refl, ◌∙◌, Option, none, some, List, [], ◌∷◌, ◌==◌, length, inl, inr,
  Bool-cases,
}
use portable_systems_lisp.Machine.{size_max}
use portable_systems_lisp.Toolchain.Actions.{
  Action, System, Run, write_object, output_temporary_directory, directory_of,
}
use portable_systems_lisp.Toolchain.Inputs.{valid_link_input, valid_link_inputs}
use portable_systems_lisp.Toolchain.Merge.{unlink_objects, unlink_path}
use portable_systems_lisp.Toolchain.Freestanding.{rmdir}
use portable_systems_lisp.Toolchain.Products.{Product, artifact_cleanup}
use portable_systems_lisp.Toolchain.Commands.{ran}

abbrev pub Idle : {A : Type 0} → System → Run A → Type 0
Idle sys m = (h : List Action) → ran sys (m h).1 ≡ ran sys h

pub write_object-Idle :
    (sys : System) (path object : List ℕ) → Idle sys (write_object sys path object)
unfolding write_object ran
write_object-Idle sys path object h = elim (Bool-cases (sys.succeeds h (Action.open_file path))) [
  | inr failed ↦ rw failed refl
  | inl opened ↦ rw opened refl
]

pub output_temporary_directory-Idle :
    (sys : System) (output : Option (List ℕ)) → Idle sys (output_temporary_directory sys output)
unfolding output_temporary_directory ran
output_temporary_directory-Idle sys none h = refl
output_temporary_directory-Idle sys (some output) h =
    let size = length (directory_of output) in
    let memory_for = Action.allocate (size + 19) in
    elim (Bool-cases (ltb (size_max - 19) size)) [
      | inl long ↦ rw long refl
      | inr short ↦ elim (Bool-cases (sys.succeeds h memory_for)) [
        | inr none_left ↦ rw (short, none_left) refl
        | inl memory ↦ rw (short, memory) refl
      ]
    ]

unlink_objects-Idle :
    (sys : System) (objects : List (Option (List ℕ))) → Idle sys (unlink_objects sys objects)
unfolding unlink_objects ran
unlink_objects-Idle sys [] h = refl
unlink_objects-Idle sys (none ∷ rest) h = unlink_objects-Idle sys rest h
unlink_objects-Idle sys (some path ∷ rest) h = unlink_objects-Idle sys rest (Action.unlink path ∷ h)

unlink_path-Idle : (sys : System) (path : Option (List ℕ)) → Idle sys (unlink_path sys path)
unfolding ran
unlink_path-Idle sys none h = refl
unlink_path-Idle sys (some path) h = refl

rmdir-Idle : (sys : System) (directory : Option (List ℕ)) → Idle sys (rmdir sys directory)
unfolding ran
rmdir-Idle sys none h = refl
rmdir-Idle sys (some directory) h = refl

pub artifact_cleanup-Idle :
    (sys : System) (p : Product) (directory stage_directory : Option (List ℕ))
    → Idle sys (artifact_cleanup sys p directory stage_directory)
unfolding artifact_cleanup
artifact_cleanup-Idle sys p directory stage_directory h =
    let h₁ = (unlink_objects sys p.objects h).1 in
    let h₂ = (unlink_objects sys p.runtime_objects h₁).1 in
    let h₃ = (unlink_path sys p.psl_object h₂).1 in
    let h₄ = (unlink_path sys p.stage_output h₃).1 in
    let h₅ = (rmdir sys directory h₄).1 in
    rmdir-Idle sys stage_directory h₅
    ∙ rmdir-Idle sys directory h₄
    ∙ unlink_path-Idle sys p.stage_output h₃
    ∙ unlink_path-Idle sys p.psl_object h₂
    ∙ unlink_objects-Idle sys p.runtime_objects h₁
    ∙ unlink_objects-Idle sys p.objects h

valid_link_input-Idle :
    (sys : System) (input : Option (List ℕ)) (kind target : ℕ)
    → Idle sys (valid_link_input sys input kind target)
unfolding valid_link_input ran
valid_link_input-Idle sys none kind target h = refl
valid_link_input-Idle sys (some path) kind target h =
    elim (Bool-cases (sys.succeeds h (Action.access path))) [
      | inr hidden ↦ rw hidden refl
      | inl readable ↦ elim (Bool-cases (kind == 1)) [
        | inr other ↦ rw (readable, other) refl
        | inl archive ↦ rw (readable, archive) refl
      ]
    ]

pub valid_link_inputs-Idle :
    (sys : System) (inputs : List (Option (List ℕ))) (kind target : ℕ)
    → Idle sys (valid_link_inputs sys inputs kind target)
unfolding valid_link_inputs
valid_link_inputs-Idle sys [] kind target h = refl
valid_link_inputs-Idle sys (input ∷ inputs) kind target h =
    let (valid, h₁) = valid_link_input sys input kind target h in
    let tested = valid_link_input-Idle sys input kind target h in
    elim (Bool-cases valid) [
      | inr bad ↦ rw bad tested
      | inl good ↦ rw good (valid_link_inputs-Idle sys inputs kind target h₁ ∙ tested)
    ]
