-- ===== src/Toolchain/Commands/Laws.antt =====
-- native_host_link_artifact in bootstrap/host/platform_toolchain.c: the tools that a hosted link runs.
use portable_systems_lisp.Base.{
  ℕ, ◌+◌, ◌≡◌, refl, sym, ◌∙◌, ap, subst, true, false, ◌||◌, Option, none, some, List, ◌∷◌, ◌++◌,
  ◌==◌, length, inl, inr, Bool-cases, arith,
}
use portable_systems_lisp.Toolchain.Tools.{target_compiler, x86_64_none, riscv64_none}
use portable_systems_lisp.Toolchain.Paths.{output_file_name}
use portable_systems_lisp.Toolchain.Actions.{
  Action, System, output_temporary_directory, directory_of, suffix,
}
use portable_systems_lisp.Toolchain.Inputs.{valid_link_inputs}
use portable_systems_lisp.Toolchain.Freestanding.{Request}
use portable_systems_lisp.Toolchain.Products.{artifact_cleanup}
use portable_systems_lisp.Toolchain.Artifact.{
  products_in, link_between, artifact_in, artifact_refused, artifact_checked, artifact_given,
  stage_name_of, link_artifact,
}
use portable_systems_lisp.Toolchain.History.{Extends-weaken}
use portable_systems_lisp.Toolchain.Local.{valid_link_inputs-local}
use portable_systems_lisp.Toolchain.Publish.{local-staged, staged-makes}
use portable_systems_lisp.Toolchain.Directories.{
  made, output_temporary_directory-made, temporary-made,
}
use portable_systems_lisp.Toolchain.Freestanding.Puts.{MadeIn}
use portable_systems_lisp.Toolchain.Artifact.Steps.{link_between-gone}
use portable_systems_lisp.Toolchain.Commands.{ran, onto, Done, commands}
use portable_systems_lisp.Toolchain.Commands.Compiled.{Done-map, Done-true}
use portable_systems_lisp.Toolchain.Commands.Idle.{
  output_temporary_directory-Idle, artifact_cleanup-Idle, valid_link_inputs-Idle,
}
use portable_systems_lisp.Toolchain.Commands.Stages.{products_in-Done}

-- A directory that mkdtemp made beside the output in the run from `h` to `h'`.
abbrev pub Beside : System → List ℕ → List ℕ → List Action → List Action → Type 0
Beside sys path directory h h' =
    let template = directory_of path ++ suffix in
    MadeIn sys directory h h'
    × ((g : List Action) × (sys.succeeds g (Action.make_directory template) ≡ true)
        × (directory ≡ sys.temporary g template))

temporary-template :
    (sys : System) (path directory : List ℕ) (h : List Action)
    → (output_temporary_directory sys (some path) h).0 ≡ some directory
    → let template = directory_of path ++ suffix in
      (g : List Action) × (sys.succeeds g (Action.make_directory template) ≡ true)
      × (directory ≡ sys.temporary g template)
unfolding output_temporary_directory
temporary-template sys path directory h e =
    let size = length (directory_of path) in
    let memory_for = Action.allocate (size + 19) in
    let template = directory_of path ++ suffix in (memory_for ∷ h, ground arith, ground arith)

-- A run that yields `true` has run the commands of the link and no others, in two directories beside
-- the output.
abbrev pub Linked : System → Request → List ℕ → List ℕ → List ℕ → List Action → List Action → Type 0
Linked sys r compiler path stage_name h h' =
    (directory stage_directory : List ℕ) × Beside sys path directory h h'
    × Beside sys path stage_directory h h'
    × (ran sys h' ≡ onto (commands sys r compiler directory stage_directory stage_name) (ran sys h))

module _ (sys : System) (r : Request) (compiler path object : List ℕ) where
  link_between-Done :
      (stage_name : List ℕ) (first second : Option (List ℕ)) (h g : List Action)
      → ((d : List ℕ) → first ≡ some d → Beside sys path d g h)
      → ((d : List ℕ) → second ≡ some d → Beside sys path d g h)
      → ran sys h ≡ ran sys g
      → let (ok, h') = link_between sys r compiler path object stage_name first second h in
        Done ok (Linked sys r compiler path stage_name g h')
  unfolding link_between artifact_cleanup
  link_between-Done stage_name (some d) (some s) h g at at' idle =
      let (p, h₁) = products_in sys r compiler path object d s stage_name h in
      let h' = (link_between sys r compiler path object stage_name (some d) (some s) h).1 in
      let later : (e : List ℕ) → Beside sys path e g h → Beside sys path e g h' = λ e there.
        let kept = link_between-gone sys e r compiler path object stage_name (some d) (some s) h in
        (omega (arith, kept.0, there.0), there.1) in
      let cleaned = artifact_cleanup-Idle sys p (some d) (some s) h₁ in
      Done-map p.ok
        (λ ran_all. (
          d,
          s,
          later d (at d refl),
          later s (at' s refl),
          cleaned ∙ ran_all ∙ ap (onto (commands sys r compiler d s stage_name)) idle,
        ))
        (products_in-Done sys r compiler path object d s stage_name h)
  link_between-Done stage_name (some d) none h g at at' idle = tt
  link_between-Done stage_name none (some s) h g at at' idle = tt
  link_between-Done stage_name none none h g at at' idle = tt

  artifact_checked-Done :
      (requested_name : List ℕ) (h : List Action)
      → let (ok, h') = artifact_checked sys r compiler path object requested_name h in
        Done ok (Linked sys r compiler path (stage_name_of r requested_name) h h')
  unfolding artifact_checked artifact_in
  artifact_checked-Done requested_name h =
      let (valid, h₁) = valid_link_inputs sys r.inputs r.kind r.target h in
      let tested = valid_link_inputs-Idle sys r.inputs r.kind r.target h in
      let (first, h₂) = output_temporary_directory sys (some path) h₁ in
      let (second, h₃) = output_temporary_directory sys (some path) h₂ in
      let local_test = valid_link_inputs-local sys r.inputs r.kind r.target h in
      let grown : (d : List ℕ) → made sys d h₁ ≡ made sys d h =
        λ d. staged-makes sys d (Extends-weaken local-staged local_test) in
      let idle =
        output_temporary_directory-Idle sys (some path) h₂
        ∙ output_temporary_directory-Idle sys (some path) h₁
        ∙ tested in
      elim (Bool-cases (artifact_refused r)) [
        | inl refused ↦ rw refused tt
        | inr served ↦ elim (Bool-cases valid) [
          | inr bad ↦ rw (served, bad) tt
          | inl good ↦
              rw (served, good)
                (link_between-Done (stage_name_of r requested_name) first second h₃ h
                  (λ d e. (
                    omega (
                      arith,
                      temporary-made sys path d h₁ e,
                      (output_temporary_directory-made sys d path h₂).0,
                      grown d,
                    ),
                    temporary-template sys path d h₁ e,
                  ))
                  (λ d e. (
                    omega (
                      arith,
                      temporary-made sys path d h₂ e,
                      (output_temporary_directory-made sys d path h₁).0,
                      grown d,
                    ),
                    temporary-template sys path d h₂ e,
                  ))
                  idle)
        ]
      ]

-- What a link that yields `true` shows: the compiler, the path and its last part, and the tools.
abbrev pub LinkedBy :
    System
    → Request
    → Option (List ℕ)
    → Option (List ℕ)
    → Option (List ℕ)
    → List Action
    → List Action
    → Type 0
LinkedBy sys r given_path given_compiler given_name h h' =
    (compiler path name : List ℕ) × (given_path ≡ some path)
    × (given_compiler ≡ some compiler)
    × (given_name ≡ some name)
    × Linked sys r compiler path (stage_name_of r name) h h'

artifact_given-LinkedBy :
    (sys : System) (r : Request) (path object compiler name : Option (List ℕ)) (h : List Action)
    → (artifact_given sys r path object compiler name h).0 ≡ true
    → LinkedBy sys r path compiler name h (artifact_given sys r path object compiler name h).1
artifact_given-LinkedBy sys r (some path) (some object) (some compiler) (some name) h ok = (
  compiler,
  path,
  name,
  refl,
  refl,
  refl,
  Done-true (artifact_checked sys r compiler path object name h).0 ok
      (artifact_checked-Done sys r compiler path object name h),
)
artifact_given-LinkedBy sys r none object compiler name h ok = cc
artifact_given-LinkedBy sys r (some path) none compiler name h ok = cc
artifact_given-LinkedBy sys r (some path) (some object) none name h ok = cc
artifact_given-LinkedBy sys r (some path) (some object) (some compiler) none h ok = cc

-- A link for a hosted target that returns 1 ran exactly the tools that its request asks for, in this
-- order, and each of them ended with status 0: the compiler once for each C source, then once for
-- each runtime module, and then the archiver or the compiler on the program's object, the objects of
-- the modules and of the sources, and the inputs. The objects are in a directory that mkdtemp made
-- beside the output in this run, and so is the artifact.
pub link_artifact-LinkedBy :
    (sys : System) (r : Request) (h : List Action)
    → ((r.target == x86_64_none) || (r.target == riscv64_none)) ≡ false
    → (link_artifact sys r h).0 ≡ true
    → LinkedBy sys r r.path
        (target_compiler r.target)
        (output_file_name r.path)
        h
        (link_artifact sys r h).1
unfolding link_artifact
link_artifact-LinkedBy sys r h hosted ok =
    let compiler = target_compiler r.target in
    let name = output_file_name r.path in
    let passed : link_artifact sys r h ≡ artifact_given sys r r.path r.object compiler name h =
      rw hosted refl in
    let linked =
      artifact_given-LinkedBy sys r r.path r.object compiler name h
        (sym (ap (λ end. end.0) passed) ∙ ok) in
    subst (λ end. LinkedBy sys r r.path compiler name h end.1) (sym passed) linked
