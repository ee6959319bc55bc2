-- ===== src/Toolchain/Freestanding/Steps.antt =====
-- What link_freestanding in bootstrap/host/platform_toolchain.c does in its directories, and
-- the cleanup.
use portable_systems_lisp.Base.{
  ℕ, ◌+◌, ◌*◌, ◌≡◌, refl, sym, subst, ◌∙◌, Bool, true, false, ◌&&◌, Option, none, some, List, [],
  ◌∷◌, ◌++◌, length, inl, inr, Bool-cases, arith,
}
use portable_systems_lisp.Toolchain.Tools.{ascii}
use portable_systems_lisp.Toolchain.Paths.{slash, format_path_lem}
use portable_systems_lisp.Toolchain.Actions.{Action, System, write_object}
use portable_systems_lisp.Toolchain.History.{Extends, here, next, Extends-trans, Extends-weaken}
use portable_systems_lisp.Toolchain.Local.{write_object-local, local, unlink_path-local}
use portable_systems_lisp.Toolchain.Merge.{unlink_path}
use portable_systems_lisp.Toolchain.Merge.Quiet.{Move, renamed}
use portable_systems_lisp.Toolchain.Freestanding.Renames.{
  Complete, Finishes, local-Finishes, Finishes-after, moves_of, directory_of_map, publish-one,
  publish-two,
}
use portable_systems_lisp.Toolchain.Publish.{
  staged, local-staged, local-renamed, staged-makes, staged-removes, weighs,
}
use portable_systems_lisp.Toolchain.Directories.{made, gone, rmdir-gone}
use portable_systems_lisp.Toolchain.Freestanding.{
  Request, Staged, rmdir, link_cleanup, link_arguments, unstaged, link_staged, link_allocated,
}

link_staged-Finishes :
    (sys : System) (r : Request) (linker script path object directory : List ℕ)
    (placed : Option (List ℕ × List ℕ)) (h : List Action)
    → Finishes sys
        (moves_of directory path placed)
        h
        (link_staged sys r linker script path object directory placed h).0.ok
        (link_staged sys r linker script path object directory placed h).1
unfolding link_staged
link_staged-Finishes sys r linker script path object directory none h =
    let output = directory ++ slash ∷ ascii "artifact" in
    let psl = directory ++ slash ∷ ascii "psl.o" in
    let fits = format_path_lem 10 directory (ascii "artifact") (omega arith) in
    let fits' = format_path_lem 10 directory (ascii "psl.o") (omega arith) in
    let h₁ = (write_object sys psl object h).1 in
    let entry_name : List ℕ = elim r.entry [ none ↦ ascii "_start" | some name ↦ name ] in
    let link = Action.run (link_arguments linker entry_name script none output psl r.inputs) in
    let wrote_it = write_object-local sys psl object h in
    let linked_it : Extends local h (link ∷ h₁) = next _ refl wrote_it in
    elim (Bool-cases (write_object sys psl object h).0) [
      | inr lost ↦ rw (fits, fits', lost) (local-Finishes sys (output, path) [] h _ wrote_it)
      | inl wrote ↦ elim (Bool-cases (sys.succeeds h₁ link)) [
        | inr lost ↦
            rw (fits, fits', wrote, lost) (local-Finishes sys (output, path) [] h _ linked_it)
        | inl linked ↦
            rw (fits, fits', wrote, linked)
              (Finishes-after sys ((output, path) ∷ []) _ h _ _ linked_it
                (publish-one sys output path (link ∷ h₁)))
      ]
    ]
link_staged-Finishes sys r linker script path object directory (some (d, map_file)) h =
    let output = directory ++ slash ∷ ascii "artifact" in
    let psl = directory ++ slash ∷ ascii "psl.o" in
    let stage = d ++ slash ∷ ascii "link.map" in
    let fits = format_path_lem 10 directory (ascii "artifact") (omega arith) in
    let fits' = format_path_lem 10 directory (ascii "psl.o") (omega arith) in
    let fits'' = format_path_lem 10 d (ascii "link.map") (omega arith) in
    let h₁ = (write_object sys psl object h).1 in
    let entry_name : List ℕ = elim r.entry [ none ↦ ascii "_start" | some name ↦ name ] in
    let link =
      Action.run (link_arguments linker entry_name script (some stage) output psl r.inputs) in
    let wrote_it = write_object-local sys psl object h in
    let linked_it : Extends local h (link ∷ h₁) = next _ refl wrote_it in
    elim (Bool-cases (write_object sys psl object h).0) [
      | inr lost ↦
          rw (fits, fits', lost)
            (local-Finishes sys (output, path) ((stage, map_file) ∷ []) h _ wrote_it)
      | inl wrote ↦ elim (Bool-cases (sys.succeeds h₁ link)) [
        | inr lost ↦
            rw (fits, fits', fits'', wrote, lost)
              (local-Finishes sys (output, path) ((stage, map_file) ∷ []) h _ linked_it)
        | inl linked ↦
            rw (fits, fits', fits'', wrote, linked)
              (Finishes-after sys ((output, path) ∷ (stage, map_file) ∷ []) _ h _ _ linked_it
                (publish-two sys output path stage map_file (link ∷ h₁)))
      ]
    ]

module _ (sys : System) (d : List ℕ) where
  link_cleanup-gone :
      (staged : Staged) (directory map_directory : Option (List ℕ)) (h : List Action)
      → let h' = (link_cleanup sys staged directory map_directory h).1 in
        (made sys d h' ≡ made sys d h)
        × (gone sys d h' ≡ gone sys d h + weighs d directory + weighs d map_directory)
        × (renamed sys h' ≡ renamed sys h)
  unfolding link_cleanup
  link_cleanup-gone staged directory map_directory h =
      let h₁ = (unlink_path sys staged.stage_output h).1 in
      let h₂ = (unlink_path sys staged.stage_map h₁).1 in
      let h₃ = (unlink_path sys staged.object_path h₂).1 in
      let unlinked = Extends-trans (unlink_path-local sys staged.stage_output h) (
        Extends-trans (unlink_path-local sys staged.stage_map h₁)
          (unlink_path-local sys staged.object_path h₂)) in
      let quiet = Extends-weaken local-staged unlinked in
      let first = rmdir-gone sys d directory h₃ in
      let second = rmdir-gone sys d map_directory (rmdir sys directory h₃).1 in
      (
        second.0 ∙ first.0 ∙ staged-makes sys d quiet,
        omega (arith, second.1, first.1, staged-removes d quiet),
        second.2 ∙ first.2 ∙ local-renamed sys unlinked,
      )

  -- The steps and the cleanup behind them.
  abbrev pub Cleaned :
      List ℕ → Option (List ℕ × List ℕ) → List ℕ → List Action → Bool × List Action → Type 0
  Cleaned path placed directory h (ok, h') =
      Complete (moves_of directory path placed) ok (renamed sys h) (renamed sys h')
      × (made sys d h' ≡ made sys d h)
      × (gone sys d h'
          ≡ gone sys d h + weighs d (some directory) + weighs d (directory_of_map placed))

  finished-Cleaned :
      (path : List ℕ) (placed : Option (List ℕ × List ℕ)) (directory : List ℕ) (staged : Staged)
      (h h₁ : List Action)
      → Finishes sys (moves_of directory path placed) h staged.ok h₁
      → Cleaned path placed directory h
          (link_cleanup sys staged (some directory) (directory_of_map placed) h₁)
  unfolding link_cleanup
  finished-Cleaned path placed directory staged h h₁ done =
      let cleaned = link_cleanup-gone staged (some directory) (directory_of_map placed) h₁ in
      (
        subst
            (λ (n : List Move).
              Complete (moves_of directory path placed) staged.ok (renamed sys h) n)
            (sym cleaned.2) done.1,
        cleaned.0 ∙ staged-makes sys d done.0,
        omega (arith, cleaned.1, staged-removes d done.0),
      )

  pub link_allocated-Cleaned :
      (r : Request) (linker script path object directory : List ℕ)
      (placed : Option (List ℕ × List ℕ)) (h : List Action)
      → Cleaned path placed directory h
          (link_allocated sys r linker script path object directory placed h)
  unfolding link_allocated
  link_allocated-Cleaned r linker script path object directory none h =
      let small = Action.allocate (length directory + 10) in
      let array = Action.allocate ((length r.inputs + 16) * 8) in
      let h₁ = small ∷ h in
      let h₂ = small ∷ h₁ in
      let h₃ = array ∷ h₂ in
      let tried : Extends local h h₃ = next _ refl (next _ refl (next _ refl here)) in
      let given = sys.succeeds h small && sys.succeeds h₁ small && true && sys.succeeds h₂ array in
      let (staged, h₄) = link_staged sys r linker script path object directory none h₃ in
      let steps = link_staged-Finishes sys r linker script path object directory none h₃ in
      elim (Bool-cases given) [
        | inr missing ↦ rw missing (
            finished-Cleaned path none directory
              (unstaged (sys.succeeds h small) (sys.succeeds h₁ small) false) h h₃
              (local-Finishes sys (directory ++ slash ∷ ascii "artifact", path) [] h h₃ tried))
        | inl memory ↦ rw memory (
            finished-Cleaned path none directory staged h h₄
              (Finishes-after sys (moves_of directory path none) staged.ok h h₃ h₄ tried steps))
      ]
  link_allocated-Cleaned r linker script path object directory (some (m, map_file)) h =
      let small = Action.allocate (length directory + 10) in
      let other = Action.allocate (length m + 10) in
      let array = Action.allocate ((length r.inputs + 16) * 8) in
      let h₁ = small ∷ h in
      let h₂ = small ∷ h₁ in
      let h₃ = other ∷ h₂ in
      let h₄ = array ∷ h₃ in
      let placed : Option (List ℕ × List ℕ) = some (m, map_file) in
      let tried : Extends local h h₄ = next _ refl (next _ refl (next _ refl (next _ refl here))) in
      let given =
        sys.succeeds h small
        && sys.succeeds h₁ small
        && sys.succeeds h₂ other
        && sys.succeeds h₃ array in
      let (staged, h₅) = link_staged sys r linker script path object directory placed h₄ in
      let steps = link_staged-Finishes sys r linker script path object directory placed h₄ in
      elim (Bool-cases given) [
        | inr missing ↦ rw missing (
            finished-Cleaned path placed directory
              (unstaged (sys.succeeds h small) (sys.succeeds h₁ small) (sys.succeeds h₂ other)) h h₄
              (local-Finishes sys (directory ++ slash ∷ ascii "artifact", path)
                ((m ++ slash ∷ ascii "link.map", map_file) ∷ []) h h₄ tried))
        | inl memory ↦ rw memory (
            finished-Cleaned path placed directory staged h h₅
              (Finishes-after sys (moves_of directory path placed) staged.ok h h₄ h₅ tried steps))
      ]
