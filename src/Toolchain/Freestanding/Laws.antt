-- ===== src/Toolchain/Freestanding/Laws.antt =====
-- What link_freestanding in bootstrap/host/platform_toolchain.c leaves of the host, step by step.
use portable_systems_lisp.Base.{
  ℕ, ◌+◌, ◌≡◌, refl, Option, none, some, List, ◌∷◌, inl, inr, Bool-cases, Option-cases, arith, ap,
}
use portable_systems_lisp.Toolchain.Tools.{target_linker}
use portable_systems_lisp.Toolchain.Actions.{Action, System, output_temporary_directory}
use portable_systems_lisp.Toolchain.History.{Extends, here, next, Extends-trans, Extends-weaken}
use portable_systems_lisp.Toolchain.Local.{local, valid_link_inputs-local}
use portable_systems_lisp.Toolchain.Inputs.{valid_link_inputs}
use portable_systems_lisp.Toolchain.Freestanding.Steps.{link_allocated-Cleaned}
use portable_systems_lisp.Toolchain.Publish.{local-staged, staged-makes, staged-removes, weighs}
use portable_systems_lisp.Toolchain.Directories.{
  made, gone, output_temporary_directory-made, rmdir-gone,
}
use portable_systems_lisp.Toolchain.Freestanding.{
  Request, link_mapped, link_in, link_refused, link_checked, chosen_script, link_given,
  link_freestanding,
}

module _ (sys : System) (d : List ℕ) where
  -- As many directories removed as made.
  abbrev pub Settled : List Action → List Action → Type 0
  Settled h h' = made sys d h' + gone sys d h ≡ made sys d h + gone sys d h'

  link_mapped-Settled :
      (r : Request) (linker script path object directory : List ℕ) (map_file : Option (List ℕ))
      (h : List Action)
      → let (ok, h') = link_mapped sys r linker script path object directory map_file h in
        (made sys d h' + gone sys d h + weighs d (some directory) ≡ made sys d h + gone sys d h')
  unfolding link_mapped
  link_mapped-Settled r linker script path object directory none h =
      let cleaned = link_allocated-Cleaned sys d r linker script path object directory none h in
      omega (arith, cleaned.1, cleaned.2)
  link_mapped-Settled r linker script path object directory (some map_file) h =
      let (first, h₁) = output_temporary_directory sys (some map_file) h in
      let m = output_temporary_directory-made sys d map_file h in
      elim (Option-cases first) [
        | inl failed ↦
            let g = rmdir-gone sys d (some directory) h₁ in
            rw (failed, link_mapped) (omega (arith, g.0, g.1, m.0, m.1, ap (weighs d) failed))
        | inr (p, e) ↦
            let cleaned =
              link_allocated-Cleaned sys d r linker script path object directory
                (some (p, map_file)) h₁ in
            rw (e, link_mapped) (omega (arith, cleaned.1, cleaned.2, m.0, m.1, ap (weighs d) e))
      ]

  link_in-Settled :
      (r : Request) (linker script path object : List ℕ) (h : List Action)
      → Settled h (link_in sys r linker script path object h).1
  unfolding link_in
  link_in-Settled r linker script path object h =
      let (first, h₁) = output_temporary_directory sys (some path) h in
      let m = output_temporary_directory-made sys d path h in
      elim (Option-cases first) [
        | inl failed ↦ rw (failed, link_in) (omega (arith, m.0, m.1, ap (weighs d) failed))
        | inr (p, e) ↦
            let rest = link_mapped-Settled r linker script path object p r.map_file h₁ in
            rw (e, link_in) (omega (arith, rest, m.0, m.1, ap (weighs d) e))
      ]

  local-Settled : (h h' : List Action) → Extends local h h' → Settled h h'
  local-Settled h h' more =
      let quiet = Extends-weaken local-staged more in
      omega (arith, staged-makes sys d quiet, staged-removes d quiet)

  Settled-after : (h h₁ h' : List Action) → Extends local h h₁ → Settled h₁ h' → Settled h h'
  Settled-after h h₁ h' first second =
      let quiet = Extends-weaken local-staged first in
      omega (arith, second, staged-makes sys d quiet, staged-removes d quiet)

  link_checked-Settled :
      (r : Request) (linker script path object : List ℕ) (h : List Action)
      → Settled h (link_checked sys r linker script path object h).1
  unfolding link_checked
  link_checked-Settled r linker script path object h =
      let h₁ = Action.access script ∷ h in
      let (valid, h₂) = valid_link_inputs sys r.inputs r.kind r.target h₁ in
      let looked : Extends local h h₁ = next _ refl here in
      let tested = Extends-trans looked (valid_link_inputs-local sys r.inputs r.kind r.target h₁) in
      let rest = link_in-Settled r linker script path object h₂ in
      elim (Bool-cases (link_refused r path)) [
        | inl bad ↦ rw bad (local-Settled h h here)
        | inr good ↦ elim (Bool-cases (sys.succeeds h (Action.access script))) [
          | inr hidden ↦ rw (good, hidden) (local-Settled h h₁ looked)
          | inl readable ↦ elim (Bool-cases valid) [
            | inr wrong ↦ rw (good, readable, wrong) (local-Settled h h₂ tested)
            | inl right ↦ rw (good, readable, right) (Settled-after h h₂ _ tested rest)
          ]
        ]
      ]

  link_given-Settled :
      (r : Request) (path object linker script : Option (List ℕ)) (h : List Action)
      → Settled h (link_given sys r path object linker script h).1
  link_given-Settled r (some path) (some object) (some linker) (some script) h =
      link_checked-Settled r linker script path object h
  link_given-Settled r none object linker script h = local-Settled h h here
  link_given-Settled r (some path) none linker script h = local-Settled h h here
  link_given-Settled r (some path) (some object) none script h = local-Settled h h here
  link_given-Settled r (some path) (some object) (some linker) none h = local-Settled h h here

  -- A freestanding link removes a directory as often as it made it, whatever the host answers.
  pub link_freestanding-Settled :
      (r : Request) (h : List Action) → Settled h (link_freestanding sys r h).1
  unfolding link_freestanding
  link_freestanding-Settled r h =
      link_given-Settled r r.path r.object (target_linker r.target) (chosen_script sys r) h
