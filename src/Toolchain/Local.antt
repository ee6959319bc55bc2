-- ===== src/Toolchain/Local.antt =====
-- The parts of the toolchain that leave directories and names alone: they allocate, write files, run
-- tools, test access and unlink.
use portable_systems_lisp.Base.{
  ◌-◌, ltb, suc, zero, ℕ, ◌+◌, ◌*◌, refl, Bool, true, false, not, ◌&&◌, Option, none, some, List,
  [], ◌∷◌, ◌++◌, ◌==◌, length, inl, inr, Bool-cases, Option-cases, take,
}
use portable_systems_lisp.Toolchain.Tools.{ascii, x86_64_windows}
use portable_systems_lisp.Toolchain.Paths.{slash}
use portable_systems_lisp.Toolchain.Actions.{
  Action, System, compile_sources, decimal, compile_arguments, write_object,
}
use portable_systems_lisp.Toolchain.History.{Extends, here, next, Extends-trans, Performs}
use portable_systems_lisp.Toolchain.Merge.{merge_objects, unlink_objects, unlink_path}
use portable_systems_lisp.Toolchain.Inputs.{
  valid_link_input, valid_link_inputs, compile_link_object,
}
use portable_systems_lisp.Toolchain.Products.{selected_module, runtime_object, compile_runtime}

abbrev pub local : Action → Bool
local (Action.allocate n) = true
local (Action.open_file path) = true
local (Action.write_file bytes) = true
local Action.close_file = true
local (Action.run tool) = true
local (Action.unlink path) = true
local (Action.access path) = true
local _ = false

pub write_object-local :
    (sys : System) (path object : List ℕ) → Performs local (write_object sys path object)
unfolding write_object
write_object-local sys path object h = elim (Bool-cases (sys.succeeds h (Action.open_file path))) [
  | inr failed ↦ rw failed (next _ refl here)
  | inl opened ↦ rw opened (next _ refl (next _ refl (next _ refl here)))
]

pub compile_sources-local :
    (sys : System) (compiler directory : List ℕ) (target : ℕ) (sources : List (List ℕ)) (index : ℕ)
    → Performs local (compile_sources sys compiler directory target index sources)
unfolding compile_sources
compile_sources-local sys compiler directory target [] index h = here
compile_sources-local sys compiler directory target (source ∷ sources) index h =
    let size = length directory + 32 in
    let path = directory ++ ascii "/c" ++ decimal index ++ ascii ".o" in
    let args = compile_arguments compiler source path (not (target == x86_64_windows)) in
    let allocated : Extends local h (Action.allocate size ∷ h) = next _ refl here in
    let ran = next (Action.run args) refl allocated in
    elim (Bool-cases (sys.succeeds h (Action.allocate size))) [
      | inr none_left ↦ rw none_left allocated
      | inl memory ↦ elim (Bool-cases (ltb (length path) size)) [
        | inr cut ↦ rw (memory, cut) allocated
        | inl fits ↦ elim (Bool-cases (sys.succeeds (Action.allocate size ∷ h) (Action.run args))) [
          | inr failed ↦ rw (memory, fits, failed) ran
          | inl compiled ↦
              rw (memory, fits, compiled)
                (Extends-trans ran (
                  compile_sources-local sys compiler directory target sources (index + 1)
                    (Action.run args ∷ Action.allocate size ∷ h)))
        ]
      ]
    ]

pub merge_objects-local :
    (sys : System) (compiler output psl : List ℕ) (objects : List (Option (List ℕ)))
    → Performs local (merge_objects sys compiler output psl objects)
unfolding merge_objects
merge_objects-local sys compiler output psl objects h =
    let memory_for : Action = Action.allocate ((length objects + 6) * 8) in
    let allocated : Extends local h (memory_for ∷ h) = next _ refl here in
    elim (Bool-cases (sys.succeeds h (Action.allocate ((length objects + 6) * 8)))) [
      | inr none_left ↦ rw none_left allocated
      | inl memory ↦ rw memory (next _ refl allocated)
    ]

pub unlink_objects-local :
    (sys : System) (objects : List (Option (List ℕ))) → Performs local (unlink_objects sys objects)
unfolding unlink_objects
unlink_objects-local sys [] h = here
unlink_objects-local sys (none ∷ rest) h = unlink_objects-local sys rest h
unlink_objects-local sys (some path ∷ rest) h =
    Extends-trans (next (Action.unlink path) refl here)
      (unlink_objects-local sys rest (Action.unlink path ∷ h))

pub unlink_path-local :
    (sys : System) (path : Option (List ℕ)) → Performs local (unlink_path sys path)
unlink_path-local sys none h = here
unlink_path-local sys (some path) h = next (Action.unlink path) refl here

valid_link_input-local :
    (sys : System) (input : Option (List ℕ)) (kind target : ℕ)
    → Performs local (valid_link_input sys input kind target)
unfolding valid_link_input
valid_link_input-local sys none kind target h = here
valid_link_input-local sys (some path) kind target h =
    let tested : Extends local h (Action.access path ∷ h) = next _ refl here in
    elim (Bool-cases (sys.succeeds h (Action.access path))) [
      | inr hidden ↦ rw hidden tested
      | inl readable ↦ elim (Bool-cases (kind == 1)) [
        | inr other ↦ rw (readable, other) tested
        | inl archive ↦ rw (readable, archive) tested
      ]
    ]

pub valid_link_inputs-local :
    (sys : System) (inputs : List (Option (List ℕ))) (kind target : ℕ)
    → Performs local (valid_link_inputs sys inputs kind target)
unfolding valid_link_inputs
valid_link_inputs-local sys [] kind target h = here
valid_link_inputs-local sys (input ∷ inputs) kind target h =
    let (valid, h₁) = valid_link_input sys input kind target h in
    let tested = valid_link_input-local sys input kind target h in
    elim (Bool-cases valid) [
      | inr bad ↦ rw bad tested
      | inl good ↦
          rw good (Extends-trans tested (valid_link_inputs-local sys inputs kind target h₁))
    ]

module _ (sys : System) (compiler directory runtime_directory : List ℕ) (target modules : ℕ)
    (pic : Bool) where
  pub compile_runtime-local :
      (rounds index : ℕ)
      → Performs local
          (compile_runtime sys compiler directory runtime_directory target modules pic index rounds)
  unfolding compile_runtime compile_link_object
  compile_runtime-local zero index h = here
  compile_runtime-local (suc rounds) index h =
      elim (Option-cases (selected_module modules target index)) [
        | inl left_out ↦ rw (left_out, compile_runtime) (compile_runtime-local rounds (index + 1) h)
        | inr (filename, chosen) ↦
            let source = runtime_directory ++ slash ∷ filename in
            let capacity = length directory + 64 in
            let object = take (capacity - 1) (runtime_object directory index) in
            let first = Action.allocate (length source + 1) in
            let second = Action.allocate capacity in
            let args = compile_arguments compiler source object pic in
            let allocated : Extends local h (second ∷ first ∷ h) = next _ refl (next _ refl here) in
            let ran = next (Action.run args) refl allocated in
            elim (Bool-cases (sys.succeeds h first && sys.succeeds (first ∷ h) second)) [
              | inr none_left ↦ rw (chosen, compile_runtime, none_left) allocated
              | inl memory ↦
                  elim (Bool-cases (sys.succeeds (second ∷ first ∷ h) (Action.run args))) [
                    | inr failed ↦ rw (chosen, compile_runtime, memory, failed) ran
                    | inl compiled ↦
                        rw (chosen, compile_runtime, memory, compiled)
                          (Extends-trans ran (
                            compile_runtime-local rounds (index + 1)
                              (Action.run args ∷ second ∷ first ∷ h)))
                  ]
            ]
      ]
