-- ===== src/Toolchain/Commands/Compiled.antt =====
-- The compiler runs of a hosted link, for compile_sources and the loop over the runtime modules.
use portable_systems_lisp.Base.{
  ℕ, ◌+◌, zero, suc, ltb, ◌≡◌, refl, sym, ◌∙◌, ap, Bool, true, false, not, ◌&&◌, none, some, List,
  [], ◌∷◌, ◌++◌, ◌==◌, length, inl, inr, Bool-cases, Option-cases,
}
use portable_systems_lisp.Toolchain.Tools.{x86_64_windows}
use portable_systems_lisp.Toolchain.Paths.{slash}
use portable_systems_lisp.Toolchain.Actions.{Action, System, compile_arguments, compile_sources}
use portable_systems_lisp.Toolchain.Inputs.{compile_link_object}
use portable_systems_lisp.Toolchain.Products.{selected_module, compile_runtime}
use portable_systems_lisp.Toolchain.Commands.Asked.{selected_module_lem}
use portable_systems_lisp.Toolchain.Commands.{
  asked_module, ran, onto, Done, compile_line, source_object, source_objects, source_commands,
  module_object, runtime_objects, runtime_commands,
}

pub Done-map : {P Q : Type 0} (b : Bool) → (P → Q) → Done b P → Done b Q
Done-map true f p = f p
Done-map false f p = tt

pub Done-true : {P : Type 0} (b : Bool) → b ≡ true → Done b P → P
Done-true true e p = p
Done-true false e p = cc

compile_arguments_lem :
    (compiler source object : List ℕ) (pic : Bool)
    → compile_arguments compiler source object pic ≡ compile_line compiler source object pic
compile_arguments_lem compiler source object true = refl
compile_arguments_lem compiler source object false = refl

-- Where all the sources compile, the objects are theirs, and the compiler ran once for each.
pub compile_sources-Done :
    (sys : System) (compiler directory : List ℕ) (target : ℕ) (sources : List (List ℕ)) (index : ℕ)
    (h : List Action)
    → let (compiled, h') = compile_sources sys compiler directory target index sources h in
      Done compiled.0 (
        (compiled.1 ≡ source_objects directory index sources)
        × (ran sys h' ≡ onto (source_commands compiler directory target index sources) (ran sys h)))
unfolding compile_sources ran
compile_sources-Done sys compiler directory target [] index h = (refl, refl)
compile_sources-Done sys compiler directory target (source ∷ sources) index h =
    let path = source_object directory index in
    let size = length directory + 32 in
    let args = compile_arguments compiler source path (not (target == x86_64_windows)) in
    let h₁ = Action.allocate size ∷ h in
    let h₂ = Action.run args ∷ h₁ in
    elim (Bool-cases (sys.succeeds h (Action.allocate size))) [
      | inr none_left ↦ rw none_left tt
      | inl memory ↦ elim (Bool-cases (ltb (length path) size)) [
        | inr cut ↦ rw (memory, cut) tt
        | inl fits ↦ elim (Bool-cases (sys.succeeds h₁ (Action.run args))) [
          | inr failed ↦ rw (memory, fits, failed) tt
          | inl compiled ↦
              let rest = compile_sources sys compiler directory target (index + 1) sources h₂ in
              let pic = not (target == x86_64_windows) in
              let line = compile_line compiler source path pic in
              let seen : ran sys h₂ ≡ line ∷ ran sys h =
                rw compiled (
                  ap (λ tool. tool ∷ ran sys h) (compile_arguments_lem compiler source path pic)) in
              let later = source_commands compiler directory target (index + 1) sources in
              rw (memory, fits, compiled)
                (Done-map rest.0.0
                  (λ both.
                    (ap (λ objects. some path ∷ objects) both.0, both.1 ∙ ap (onto later) seen))
                  (compile_sources-Done sys compiler directory target sources (index + 1) h₂))
        ]
      ]
    ]

module _ (sys : System) (compiler directory runtime_directory : List ℕ) (target modules : ℕ)
    (pic : Bool) where
  abbrev commands_from : ℕ → ℕ → List (List (List ℕ))
  commands_from index rounds =
      runtime_commands compiler directory runtime_directory target modules pic index rounds

  commands_from-zero : (index : ℕ) → commands_from index zero ≡ []
  unfolding runtime_commands
  commands_from-zero index = refl

  commands_from-none :
      (rounds index : ℕ)
      → asked_module modules target index ≡ none
      → commands_from index (suc rounds) ≡ commands_from (index + 1) rounds
  unfolding runtime_commands
  commands_from-none rounds index left_out = rw (left_out, runtime_commands) refl

  commands_from-some :
      (rounds index : ℕ) (filename : List ℕ)
      → asked_module modules target index ≡ some filename
      → commands_from index (suc rounds)
        ≡ compile_line compiler
            (runtime_directory ++ slash ∷ filename)
            (module_object directory index)
            pic
          ∷ commands_from (index + 1) rounds
  unfolding runtime_commands
  commands_from-some rounds index filename chosen = rw (chosen, runtime_commands) refl

  -- Likewise for the runtime modules.
  pub compile_runtime-Done :
      (rounds index : ℕ) (h : List Action)
      → let (compiled, h') =
          compile_runtime sys compiler directory runtime_directory target modules pic index rounds
            h in
        Done compiled.0 (
          (compiled.1 ≡ runtime_objects directory target modules index rounds)
          × (ran sys h' ≡ onto (commands_from index rounds) (ran sys h)))
  unfolding compile_runtime compile_link_object ran
  compile_runtime-Done zero index h = (refl, rw (commands_from-zero index) refl)
  compile_runtime-Done (suc rounds) index h =
      elim (Option-cases (selected_module modules target index)) [
        | inl left_out ↦
            let rest =
              compile_runtime sys compiler directory runtime_directory target modules pic
                (index + 1) rounds h in
            let skipped = sym (selected_module_lem modules target index) ∙ left_out in
            rw (commands_from-none rounds index skipped, left_out, skipped, compile_runtime)
              (Done-map rest.0.0 (λ both. (ap (λ objects. none ∷ objects) both.0, both.1))
                (compile_runtime-Done rounds (index + 1) h))
        | inr (filename, chosen) ↦
            let source = runtime_directory ++ slash ∷ filename in
            let capacity = length directory + 64 in
            let object = module_object directory index in
            let first = Action.allocate (length source + 1) in
            let second = Action.allocate capacity in
            let args = compile_arguments compiler source object pic in
            let h₁ = second ∷ first ∷ h in
            let h₂ = Action.run args ∷ h₁ in
            let asked = sym (selected_module_lem modules target index) ∙ chosen in
            let planned = commands_from-some rounds index filename asked in
            elim (Bool-cases (sys.succeeds h first && sys.succeeds (first ∷ h) second)) [
              | inr none_left ↦ rw (chosen, compile_runtime, none_left) tt
              | inl memory ↦ elim (Bool-cases (sys.succeeds h₁ (Action.run args))) [
                | inr failed ↦ rw (chosen, compile_runtime, memory, failed) tt
                | inl compiled ↦
                    let rest =
                      compile_runtime sys compiler directory runtime_directory target modules pic
                        (index + 1) rounds h₂ in
                    let line = compile_line compiler source object pic in
                    let seen : ran sys h₂ ≡ line ∷ ran sys h = rw compiled (
                      ap (λ tool. tool ∷ ran sys h)
                        (compile_arguments_lem compiler source object pic)) in
                    rw (planned, chosen, asked, compile_runtime, memory, compiled)
                      (Done-map rest.0.0
                        (λ both. (
                          ap (λ objects. some object ∷ objects) both.0,
                          both.1 ∙ ap (onto (commands_from (index + 1) rounds)) seen,
                        ))
                        (compile_runtime-Done rounds (index + 1) h₂))
              ]
            ]
      ]
