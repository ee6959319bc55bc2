-- ===== src/Toolchain/Freestanding/Puts.antt =====
-- What link_freestanding in bootstrap/host/platform_toolchain.c renames, from where and to where.
use portable_systems_lisp.Base.{
  ℕ, ◌<◌, ◌≤◌, ◌≡◌, refl, ◌∙◌, Bool, true, false, ◌⊎◌, Option, none, some, List, ◌∷◌, ◌++◌, inl,
  inr, Bool-cases, Option-cases, arith,
}
use portable_systems_lisp.Toolchain.Tools.{ascii, target_linker}
use portable_systems_lisp.Toolchain.Paths.{slash}
use portable_systems_lisp.Toolchain.Actions.{Action, System, output_temporary_directory}
use portable_systems_lisp.Toolchain.History.{Extends, here, next, Extends-trans, Extends-weaken}
use portable_systems_lisp.Toolchain.Local.{local, valid_link_inputs-local}
use portable_systems_lisp.Toolchain.Merge.Quiet.{renamed, output_temporary_directory-Quiet}
use portable_systems_lisp.Toolchain.Inputs.{valid_link_inputs}
use portable_systems_lisp.Toolchain.Publish.{local-staged, local-renamed, staged-makes}
use portable_systems_lisp.Toolchain.Directories.{
  made, output_temporary_directory-made, temporary-made, rmdir-gone,
}
use portable_systems_lisp.Toolchain.Freestanding.Renames.{Complete, Complete-same, moves_of}
use portable_systems_lisp.Toolchain.Freestanding.Steps.{link_allocated-Cleaned}
use portable_systems_lisp.Toolchain.Freestanding.{
  Request, link_allocated, link_mapped, link_in, link_refused, link_checked, chosen_script,
  link_given, link_freestanding,
}

-- mkdtemp made the directory in the run.
abbrev pub MadeIn : System → List ℕ → List Action → List Action → Type 0
MadeIn sys d h h' = made sys d h < made sys d h'

-- What a freestanding link that answers `ok` renames, the last first: the map from one directory made
-- in the run, if it is asked for, and then the program from another; where it fails, at most the map.
abbrev pub Puts :
    System → Option (List ℕ) → Option (List ℕ) → Bool → List Action → List Action → Type 0
Puts sys path none false h h' = renamed sys h' ≡ renamed sys h
Puts sys path none true h h' =
    (program d : List ℕ) × (path ≡ some program)
    × MadeIn sys d h h'
    × (renamed sys h' ≡ (d ++ slash ∷ ascii "artifact", program) ∷ renamed sys h)
Puts sys path (some map_file) false h h' =
    (renamed sys h' ≡ renamed sys h)
    ⊎ ((m : List ℕ) × MadeIn sys m h h'
        × (renamed sys h' ≡ (m ++ slash ∷ ascii "link.map", map_file) ∷ renamed sys h))
Puts sys path (some map_file) true h h' =
    (program d m : List ℕ) × (path ≡ some program)
    × MadeIn sys d h h'
    × MadeIn sys m h h'
    × (renamed sys h'
        ≡ (d ++ slash ∷ ascii "artifact", program)
          ∷ (m ++ slash ∷ ascii "link.map", map_file)
          ∷ renamed sys h)

pub Puts-none :
    (sys : System) (path map_file : Option (List ℕ)) (h h' : List Action)
    → renamed sys h' ≡ renamed sys h
    → Puts sys path map_file false h h'
Puts-none sys path none h h' same = same
Puts-none sys path (some map_file) h h' same = inl same

Complete-Puts :
    (sys : System) (path d : List ℕ) (ok : Bool) (h h' : List Action)
    → MadeIn sys d h h'
    → Complete (moves_of d path none) ok (renamed sys h) (renamed sys h')
    → Puts sys (some path) none ok h h'
Complete-Puts sys path d true h h' there c = (path, d, refl, there, c)
Complete-Puts sys path d false h h' there (inl same) = same
Complete-Puts sys path d false h h' there (inr impossible) = absurd impossible

Complete-Puts_map :
    (sys : System) (path d m map_file : List ℕ) (ok : Bool) (h h' : List Action)
    → MadeIn sys d h h'
    → MadeIn sys m h h'
    → Complete (moves_of d path (some (m, map_file))) ok (renamed sys h) (renamed sys h')
    → Puts sys (some path) (some map_file) ok h h'
Complete-Puts_map sys path d m map_file true h h' there there' c =
    (path, d, m, refl, there, there', c)
Complete-Puts_map sys path d m map_file false h h' there there' (inl half) = inr (m, there', half)
Complete-Puts_map sys path d m map_file false h h' there there' (inr (inl same)) = inl same
Complete-Puts_map sys path d m map_file false h h' there there' (inr (inr impossible)) =
    absurd impossible

module _ (sys : System) (r : Request) where
  link_mapped-Puts :
      (linker script path object d : List ℕ) (map_file : Option (List ℕ)) (g h : List Action)
      → MadeIn sys d g h
      → ((m : List ℕ) → made sys m g ≤ made sys m h)
      → renamed sys h ≡ renamed sys g
      → let (ok, h') = link_mapped sys r linker script path object d map_file h in
        Puts sys (some path) map_file ok g h'
  unfolding link_mapped
  link_mapped-Puts linker script path object d none g h there grown idle =
      let (ok, h') = link_mapped sys r linker script path object d none h in
      let cleaned = link_allocated-Cleaned sys d r linker script path object d none h in
      Complete-Puts sys path d ok g h' (omega (arith, cleaned.1))
        (Complete-same (moves_of d path none) ok _ _ _ idle cleaned.0)
  link_mapped-Puts linker script path object d (some map_file) g h there grown idle =
      let (first, h₁) = output_temporary_directory sys (some map_file) h in
      let quiet = output_temporary_directory-Quiet sys (some map_file) h in
      elim (Option-cases first) [
        | inl failed ↦
            let g₁ = rmdir-gone sys d (some d) h₁ in
            rw (failed, link_mapped) (inl (g₁.2 ∙ quiet ∙ idle))
        | inr (m, e) ↦
            let (ok, h') =
              link_allocated sys r linker script path object d (some (m, map_file)) h₁ in
            let placed : Option (List ℕ × List ℕ) = some (m, map_file) in
            let at_d = link_allocated-Cleaned sys d r linker script path object d placed h₁ in
            let at_m = link_allocated-Cleaned sys m r linker script path object d placed h₁ in
            let before = output_temporary_directory-made sys d map_file h in
            rw (e, link_mapped)
              (Complete-Puts_map sys path d m map_file ok g h' (omega (arith, at_d.1, before.0))
                (omega (arith, at_m.1, temporary-made sys map_file m h e, grown m))
                (Complete-same (moves_of d path (some (m, map_file))) ok _ _ _ (quiet ∙ idle)
                  at_d.0))
      ]

  link_in-Puts :
      (linker script path object : List ℕ) (g h : List Action)
      → Extends local g h
      → let (ok, h') = link_in sys r linker script path object h in
        Puts sys (some path) r.map_file ok g h'
  unfolding link_in
  link_in-Puts linker script path object g h more =
      let (first, h₁) = output_temporary_directory sys (some path) h in
      let quiet = output_temporary_directory-Quiet sys (some path) h in
      let idle = quiet ∙ local-renamed sys more in
      let quiet_before = Extends-weaken local-staged more in
      elim (Option-cases first) [
        | inl failed ↦ rw (failed, link_in) (Puts-none sys (some path) r.map_file g h₁ idle)
        | inr (d, e) ↦
            rw (e, link_in)
              (link_mapped-Puts linker script path object d r.map_file g h₁
                (omega (arith, staged-makes sys d quiet_before, temporary-made sys path d h e))
                (λ m. omega (
                  arith,
                  staged-makes sys m quiet_before,
                  (output_temporary_directory-made sys m path h).0,
                ))
                idle)
      ]

  link_checked-Puts :
      (linker script path object : List ℕ) (h : List Action)
      → let (ok, h') = link_checked sys r linker script path object h in
        Puts sys (some path) r.map_file ok h h'
  unfolding link_checked
  link_checked-Puts linker script path object h =
      let h₁ = Action.access script ∷ h in
      let (valid, h₂) = valid_link_inputs sys r.inputs r.kind r.target h₁ in
      let looked : Extends local h h₁ = next _ refl here in
      let tested = Extends-trans looked (valid_link_inputs-local sys r.inputs r.kind r.target h₁) in
      elim (Bool-cases (link_refused r path)) [
        | inl bad ↦ rw bad (Puts-none sys (some path) r.map_file h h refl)
        | inr good ↦ elim (Bool-cases (sys.succeeds h (Action.access script))) [
          | inr hidden ↦
              rw (good, hidden)
                (Puts-none sys (some path) r.map_file h h₁ (local-renamed sys looked))
          | inl readable ↦ elim (Bool-cases valid) [
            | inr wrong ↦
                rw (good, readable, wrong)
                  (Puts-none sys (some path) r.map_file h h₂ (local-renamed sys tested))
            | inl right ↦
                rw (good, readable, right) (link_in-Puts linker script path object h h₂ tested)
          ]
        ]
      ]

  link_given-Puts :
      (path object linker script : Option (List ℕ)) (h : List Action)
      → let (ok, h') = link_given sys r path object linker script h in
        Puts sys path r.map_file ok h h'
  link_given-Puts (some path) (some object) (some linker) (some script) h =
      link_checked-Puts linker script path object h
  link_given-Puts none object linker script h = Puts-none sys none r.map_file h h refl
  link_given-Puts (some path) none linker script h = Puts-none sys (some path) r.map_file h h refl
  link_given-Puts (some path) (some object) none script h =
      Puts-none sys (some path) r.map_file h h refl
  link_given-Puts (some path) (some object) (some linker) none h =
      Puts-none sys (some path) r.map_file h h refl

  pub link_freestanding-Puts :
      (h : List Action)
      → let (ok, h') = link_freestanding sys r h in Puts sys r.path r.map_file ok h h'
  unfolding link_freestanding
  link_freestanding-Puts h =
      link_given-Puts r.path r.object (target_linker r.target) (chosen_script sys r) h
