-- ===== src/Toolchain/Roots/Processes.antt =====
-- The temporary directory of source_runtime_roots, and native_host_runtime_roots as a whole.
use portable_systems_lisp.Base.{
  ℕ, ◌*◌, ◌≡◌, refl, Bool, not, ◌&&◌, ◌||◌, Option, List, [], ◌∷◌, ◌==◌, if◌then◌else◌, length, inl,
  inr, Bool-cases, Option-cases, arith, ap,
}
use portable_systems_lisp.Toolchain.Tools.{target_compiler}
use portable_systems_lisp.Toolchain.Modules.{same_text}
use portable_systems_lisp.Toolchain.Actions.{Action, System, compile_sources, no_objects}
use portable_systems_lisp.Toolchain.History.{Extends, here, next, Extends-trans, tally, one_if}
use portable_systems_lisp.Toolchain.Local.{local, compile_sources-local, unlink_objects-local}
use portable_systems_lisp.Toolchain.Merge.{unlink_objects}
use portable_systems_lisp.Toolchain.Roots.{
  input_runtime_roots, roots_template, source_roots_in, source_runtime_roots, runtime_roots,
  no_roots,
}
use portable_systems_lisp.Toolchain.Roots.Children.{
  Clean, Clean-same, Clean-trans, local-Clean, input_runtime_roots-Clean,
}

-- Everything behind mkdtemp is clean but for the removal of the directory, which comes last.
source_roots_in-history :
    (sys : System) (compiler directory : List ℕ) (target : ℕ) (sources : List (List ℕ))
    (h : List Action)
    → (h' : List Action) × Clean sys h h'
      × ((source_roots_in sys compiler directory target sources h).1
          ≡ Action.remove_directory directory ∷ h')
unfolding source_roots_in
source_roots_in-history sys compiler directory target sources h =
    let array = Action.allocate (length sources * 8) in
    let h₁ = array ∷ h in
    let h₂ = array ∷ h₁ in
    let tried : Extends local h h₂ = next _ refl (next _ refl here) in
    let objects = if sys.succeeds h array then no_objects sources else [] in
    let (compiled, h₃) = compile_sources sys compiler directory target 0 sources h₂ in
    let built =
      local-Clean sys
        (Extends-trans tried (compile_sources-local sys compiler directory target sources 0 h₂)) in
    let (roots, h₄) = input_runtime_roots sys target compiled.1 h₃ in
    let scanned = Clean-trans sys built (input_runtime_roots-Clean sys target compiled.1 h₃) in
    elim (Bool-cases (sys.succeeds h array && sys.succeeds h₁ array)) [
      | inr missing ↦ (
        (unlink_objects sys objects h₂).1,
        local-Clean sys (Extends-trans tried (unlink_objects-local sys objects h₂)),
        rw missing refl,
      )
      | inl memory ↦ elim (Bool-cases compiled.0) [
        | inr failed ↦ (
          (unlink_objects sys compiled.1 h₃).1,
          Clean-trans sys built (local-Clean sys (unlink_objects-local sys compiled.1 h₃)),
          rw (memory, failed) refl,
        )
        | inl done ↦ (
          (unlink_objects sys compiled.1 h₄).1,
          Clean-trans sys scanned (local-Clean sys (unlink_objects-local sys compiled.1 h₄)),
          rw (memory, done) refl,
        )
      ]
    ]

source_runtime_roots-Clean :
    (sys : System) (target : ℕ) (sources : List (List ℕ)) (h : List Action)
    → Clean sys h (source_runtime_roots sys target sources h).1
unfolding source_runtime_roots tally
source_runtime_roots-Clean sys target sources h =
    let make = Action.make_directory roots_template in
    let directory = sys.temporary h roots_template in
    elim (Bool-cases (length sources == 0)) [
      | inl nothing ↦ rw nothing (Clean-same sys h)
      | inr some_left ↦ elim (Option-cases (target_compiler target)) [
        | inl missing ↦ rw (some_left, missing, source_runtime_roots) (Clean-same sys h)
        | inr (compiler, e) ↦ elim (Bool-cases (sys.succeeds h make)) [
          | inr refused ↦
              let clean : Clean sys h (make ∷ h) = record {
                pipes = omega arith;
                children = omega arith;
                directories =
                    λ d. omega (arith, ap (λ b. one_if (b && same_text directory d)) refused);
              } in
              rw (some_left, e, source_runtime_roots, refused) clean
          | inl made_it ↦
              let (h', inner, last) =
                source_roots_in-history sys compiler directory target sources (make ∷ h) in
              let clean : Clean sys h (Action.remove_directory directory ∷ h') = record {
                pipes = omega (arith, inner.pipes);
                children = omega (arith, inner.children);
                directories = λ d. omega (
                  arith,
                  inner.directories d,
                  ap (λ b. one_if (b && same_text directory d)) made_it,
                );
              } in
              rw (some_left, e, source_runtime_roots, made_it, last) clean
        ]
      ]
    ]

-- Whatever the host answers, the search for the modules closes as many ends of pipes as it opens,
-- waits for as many children as it starts, and removes a directory as often as it makes it.
pub runtime_roots-Clean :
    (sys : System) (target : ℕ) (sources : List (List ℕ)) (inputs : List (Option (List ℕ)))
    (has_inputs : Bool) (h : List Action)
    → Clean sys h (runtime_roots sys target sources inputs has_inputs h).1
unfolding runtime_roots
runtime_roots-Clean sys target sources inputs has_inputs h =
    let (roots, h₁) = source_runtime_roots sys target sources h in
    let (more, h₂) = input_runtime_roots sys target inputs h₁ in
    let first = source_runtime_roots-Clean sys target sources h in
    let both = Clean-trans sys first (input_runtime_roots-Clean sys target inputs h₁) in
    let stopped = (roots == no_roots) || (not (length inputs == 0) && not has_inputs) in
    elim (Bool-cases stopped) [
      | inl end ↦ rw end first
      | inr on ↦ elim (Bool-cases (more == no_roots)) [
        | inl unknown_too ↦ rw (on, unknown_too) both
        | inr known ↦ rw (on, known) both
      ]
    ]
