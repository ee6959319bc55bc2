-- ===== src/Toolchain/Artifact/Steps.antt =====
-- native_host_link_artifact in bootstrap/host/platform_toolchain.c: its steps in the two
-- directories, and the cleanup.
use portable_systems_lisp.Base.{
  ℕ, ◌+◌, ◌-◌, ◌*◌, ◌≡◌, refl, ◌∙◌, Bool, true, false, [], ◌++◌, ◌&&◌, Option, none, some, List,
  ◌∷◌, ltb, length, inl, inr, Bool-cases, arith,
}
use portable_systems_lisp.Machine.{size_max}
use portable_systems_lisp.Toolchain.Actions.{Action, System}
use portable_systems_lisp.Toolchain.History.{Extends, here, next, Extends-trans}
use portable_systems_lisp.Toolchain.Local.{local, unlink_objects-local, unlink_path-local}
use portable_systems_lisp.Toolchain.Merge.{unlink_objects, unlink_path}
use portable_systems_lisp.Toolchain.Merge.Quiet.{Move, counted, renamed}
use portable_systems_lisp.Toolchain.Paths.{slash}
use portable_systems_lisp.Toolchain.Publish.{Publishes, local-Publishes, Publishes-after, weighs}
use portable_systems_lisp.Toolchain.Directories.{made, gone, rmdir-gone, Publishes-directories}
use portable_systems_lisp.Toolchain.Freestanding.{Request, rmdir}
use portable_systems_lisp.Toolchain.Products.{runtime_module_count, Product, artifact_cleanup}
use portable_systems_lisp.Toolchain.Products.Laws.{link_products-Publishes}
use portable_systems_lisp.Toolchain.Artifact.{source_room, products_in, link_between}

products_in-Publishes :
    (sys : System) (r : Request)
    (compiler path object directory stage_directory stage_name : List ℕ) (h : List Action)
    → Publishes sys
        (stage_directory ++ slash ∷ stage_name, path)
        h
        (products_in sys r compiler path object directory stage_directory stage_name h).0.ok
        (products_in sys r compiler path object directory stage_directory stage_name h).1
unfolding products_in
products_in-Publishes sys r compiler path object directory stage_directory stage_name h =
    let move : Move = (stage_directory ++ slash ∷ stage_name, path) in
    let a = Action.allocate (length directory + 64) in
    let b = Action.allocate (source_room r * 8) in
    let c = Action.allocate (runtime_module_count * 8) in
    let e = Action.allocate (length stage_directory + length stage_name + 2) in
    let three : Extends local h (c ∷ b ∷ a ∷ h) = next _ refl (next _ refl (next _ refl here)) in
    let four : Extends local h (e ∷ c ∷ b ∷ a ∷ h) = next _ refl three in
    let given =
      sys.succeeds h a
      && sys.succeeds (a ∷ h) b
      && sys.succeeds (b ∷ a ∷ h) c
      && sys.succeeds (c ∷ b ∷ a ∷ h) e in
    elim (Bool-cases (ltb (size_max - length stage_name - 2) (length stage_directory))) [
      | inl long ↦ rw long (local-Publishes sys move three)
      | inr short ↦ elim (Bool-cases given) [
        | inr missing ↦ rw (short, missing) (local-Publishes sys move four)
        | inl memory ↦
            rw (short, memory)
              (Publishes-after sys move _ four (
                link_products-Publishes sys r compiler path object directory stage_directory
                  stage_name (e ∷ c ∷ b ∷ a ∷ h)))
      ]
    ]

-- The renames of a run that answers `ok`: the artifact from the second directory, or nothing.
abbrev pub Placed : List ℕ → List ℕ → Option (List ℕ) → Bool → List Move → List Move → Type 0
Placed path stage_name directory false before after = after ≡ before
Placed path stage_name directory true before after =
    (b : List ℕ) × (directory ≡ some b) × (after ≡ (b ++ slash ∷ stage_name, path) ∷ before)

counted-Placed :
    (path stage_name b : List ℕ) (ok : Bool) (before after : List Move)
    → after ≡ counted (b ++ slash ∷ stage_name, path) ok before
    → Placed path stage_name (some b) ok before after
counted-Placed path stage_name b true before after moved = (b, refl, moved)
counted-Placed path stage_name b false before after moved = moved

module _ (sys : System) (d : List ℕ) where
  artifact_cleanup-gone :
      (p : Product) (directory stage_directory : Option (List ℕ)) (h : List Action)
      → (made sys d (artifact_cleanup sys p directory stage_directory h).1 ≡ made sys d h)
        × (gone sys d (artifact_cleanup sys p directory stage_directory h).1
            ≡ gone sys d h + weighs d directory + weighs d stage_directory)
        × (renamed sys (artifact_cleanup sys p directory stage_directory h).1 ≡ renamed sys h)
  unfolding artifact_cleanup
  artifact_cleanup-gone p directory stage_directory h =
      let h₁ = (unlink_objects sys p.objects h).1 in
      let h₂ = (unlink_objects sys p.runtime_objects h₁).1 in
      let h₃ = (unlink_path sys p.psl_object h₂).1 in
      let h₄ = (unlink_path sys p.stage_output h₃).1 in
      let unlinked = Extends-trans (unlink_objects-local sys p.objects h) (
        Extends-trans (unlink_objects-local sys p.runtime_objects h₁) (
          Extends-trans (unlink_path-local sys p.psl_object h₂)
            (unlink_path-local sys p.stage_output h₃))) in
      let published = local-Publishes sys ([], []) unlinked in
      let kept = Publishes-directories sys d ([], []) false published in
      let first = rmdir-gone sys d directory h₄ in
      let second = rmdir-gone sys d stage_directory (rmdir sys directory h₄).1 in
      (
        second.0 ∙ first.0 ∙ kept.0,
        omega (arith, second.1, first.1, kept.1),
        second.2 ∙ first.2 ∙ published.1,
      )

  pub link_between-gone :
      (r : Request) (compiler path object stage_name : List ℕ)
      (directory stage_directory : Option (List ℕ)) (h : List Action)
      → let (ok, h') =
          link_between sys r compiler path object stage_name directory stage_directory h in
        (made sys d h' ≡ made sys d h)
        × (gone sys d h' ≡ gone sys d h + weighs d directory + weighs d stage_directory)
        × Placed path stage_name stage_directory ok (renamed sys h) (renamed sys h')
  unfolding link_between artifact_cleanup
  link_between-gone r compiler path object stage_name (some a) (some b) h =
      let (p, h') = products_in sys r compiler path object a b stage_name h in
      let published = products_in-Publishes sys r compiler path object a b stage_name h in
      let kept = Publishes-directories sys d (b ++ slash ∷ stage_name, path) p.ok published in
      let cleaned = artifact_cleanup-gone p (some a) (some b) h' in
      (
        cleaned.0 ∙ kept.0,
        omega (arith, cleaned.1, kept.1),
        counted-Placed path stage_name b p.ok _ _ (cleaned.2 ∙ published.1),
      )
  link_between-gone r compiler path object stage_name (some a) none h =
      let g = rmdir-gone sys d (some a) h in (g.0, omega (arith, g.1), g.2)
  link_between-gone r compiler path object stage_name none (some b) h =
      let g = rmdir-gone sys d (some b) h in (g.0, omega (arith, g.1), g.2)
  link_between-gone r compiler path object stage_name none none h = (refl, omega arith, refl)
