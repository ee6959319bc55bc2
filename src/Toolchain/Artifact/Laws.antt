-- ===== src/Toolchain/Artifact/Laws.antt =====
-- native_host_link_artifact in bootstrap/host/platform_toolchain.c: its renames and its directories.
use portable_systems_lisp.Base.{
  ℕ, ◌+◌, ◌≡◌, refl, ◌∙◌, Bool, true, false, ◌||◌, Option, none, some, List, [], ◌∷◌, ◌++◌, ◌==◌,
  if◌then◌else◌, inl, inr, Bool-cases, arith, ap,
}
use portable_systems_lisp.Toolchain.Tools.{target_compiler, x86_64_none, riscv64_none}
use portable_systems_lisp.Toolchain.Paths.{slash, output_file_name}
use portable_systems_lisp.Toolchain.Actions.{Action, System, output_temporary_directory}
use portable_systems_lisp.Toolchain.History.{Extends, Extends-weaken, here}
use portable_systems_lisp.Toolchain.Local.{local, valid_link_inputs-local}
use portable_systems_lisp.Toolchain.Merge.Quiet.{Move, renamed, output_temporary_directory-Quiet}
use portable_systems_lisp.Toolchain.Inputs.{valid_link_inputs}
use portable_systems_lisp.Toolchain.Publish.{
  local-Publishes, local-renamed, local-staged, staged-makes,
}
use portable_systems_lisp.Toolchain.Directories.{
  made, gone, output_temporary_directory-made, temporary-made, Publishes-directories,
}
use portable_systems_lisp.Toolchain.Freestanding.Laws.{link_freestanding-Settled}
use portable_systems_lisp.Toolchain.Freestanding.Puts.{MadeIn, Puts, link_freestanding-Puts}
use portable_systems_lisp.Toolchain.Freestanding.{Request}
use portable_systems_lisp.Toolchain.Artifact.Steps.{Placed, link_between-gone}
use portable_systems_lisp.Toolchain.Artifact.{
  link_between, artifact_in, artifact_refused, artifact_checked, artifact_given, stage_name_of,
  link_artifact,
}

-- As many directories removed as made.
abbrev pub Tidy : System → List ℕ → List Action → List Action → Type 0
Tidy sys d h h' = made sys d h' + gone sys d h ≡ made sys d h + gone sys d h'

module _ (sys : System) (d : List ℕ) where
  local-Tidy : {h h' : List Action} → Extends local h h' → Tidy sys d h h'
  local-Tidy more =
      let published = local-Publishes sys ([], []) more in
      let kept = Publishes-directories sys d ([], []) false published in omega arith

  artifact_in-Tidy :
      (r : Request) (compiler path object stage_name : List ℕ) (g h : List Action)
      → Extends local g h
      → Tidy sys d g (artifact_in sys r compiler path object stage_name h).1
  unfolding artifact_in
  artifact_in-Tidy r compiler path object stage_name g h more =
      let (first, h₁) = output_temporary_directory sys (some path) h in
      let (second, h₂) = output_temporary_directory sys (some path) h₁ in
      let m₁ = output_temporary_directory-made sys d path h in
      let m₂ = output_temporary_directory-made sys d path h₁ in
      let between = link_between-gone sys d r compiler path object stage_name first second h₂ in
      omega (arith, between.0, between.1, m₁.0, m₁.1, m₂.0, m₂.1, local-Tidy more)

  artifact_checked-Tidy :
      (r : Request) (compiler path object requested_name : List ℕ) (h : List Action)
      → Tidy sys d h (artifact_checked sys r compiler path object requested_name h).1
  unfolding artifact_checked
  artifact_checked-Tidy r compiler path object requested_name h =
      let (valid, h₁) = valid_link_inputs sys r.inputs r.kind r.target h in
      let tested = valid_link_inputs-local sys r.inputs r.kind r.target h in
      let name = stage_name_of r requested_name in
      elim (Bool-cases (artifact_refused r)) [
        | inl refused ↦ rw refused (local-Tidy {h = h} here)
        | inr served ↦ elim (Bool-cases valid) [
          | inr bad ↦ rw (served, bad) (local-Tidy tested)
          | inl good ↦ rw (served, good) (artifact_in-Tidy r compiler path object name h h₁ tested)
        ]
      ]

  artifact_given-Tidy :
      (r : Request) (path object compiler requested_name : Option (List ℕ)) (h : List Action)
      → Tidy sys d h (artifact_given sys r path object compiler requested_name h).1
  artifact_given-Tidy r (some path) (some object) (some compiler) (some name) h =
      artifact_checked-Tidy r compiler path object name h
  artifact_given-Tidy r none object compiler name h = omega arith
  artifact_given-Tidy r (some path) none compiler name h = omega arith
  artifact_given-Tidy r (some path) (some object) none name h = omega arith
  artifact_given-Tidy r (some path) (some object) (some compiler) none h = omega arith

-- What a hosted link that answers `ok` renames: the artifact from a directory made in the run, where
-- it has the stage's name, to the path; nothing where it fails.
abbrev pub Stages :
    System → Request → Option (List ℕ) → Option (List ℕ) → Bool → List Action → List Action → Type 0
Stages sys r path requested_name false h h' = renamed sys h' ≡ renamed sys h
Stages sys r path requested_name true h h' =
    (artifact name d : List ℕ) × (path ≡ some artifact)
    × (requested_name ≡ some name)
    × MadeIn sys d h h'
    × (renamed sys h' ≡ (d ++ slash ∷ stage_name_of r name, artifact) ∷ renamed sys h)

Placed-Stages :
    (sys : System) (r : Request) (path name : List ℕ) (second : Option (List ℕ)) (ok : Bool)
    (h h' : List Action) (before : List Move)
    → ((d : List ℕ) → second ≡ some d → MadeIn sys d h h')
    → before ≡ renamed sys h
    → Placed path (stage_name_of r name) second ok before (renamed sys h')
    → Stages sys r (some path) (some name) ok h h'
Placed-Stages sys r path name second true h h' before there same (d, e, moved) = (
  path,
  name,
  d,
  refl,
  refl,
  there d e,
  moved ∙ ap (λ ms. (d ++ slash ∷ stage_name_of r name, path) ∷ ms) same,
)
Placed-Stages sys r path name second false h h' before there same moved = moved ∙ same

module _ (sys : System) (r : Request) where
  artifact_in-Stages :
      (compiler path object name : List ℕ) (g h : List Action)
      → Extends local g h
      → let (ok, h') = artifact_in sys r compiler path object (stage_name_of r name) h in
        Stages sys r (some path) (some name) ok g h'
  unfolding artifact_in
  artifact_in-Stages compiler path object name g h more =
      let (first, h₁) = output_temporary_directory sys (some path) h in
      let (second, h₂) = output_temporary_directory sys (some path) h₁ in
      let stage = stage_name_of r name in
      let (ok, h') = link_between sys r compiler path object stage first second h₂ in
      Placed-Stages sys r path name second ok g h' (renamed sys h₂)
        (λ d e. omega (
          arith,
          (link_between-gone sys d r compiler path object stage first second h₂).0,
          temporary-made sys path d h₁ e,
          (output_temporary_directory-made sys d path h).0,
          staged-makes sys d (Extends-weaken local-staged more),
        ))
        (output_temporary_directory-Quiet sys (some path) h₁
          ∙ output_temporary_directory-Quiet sys (some path) h
          ∙ local-renamed sys more)
        (link_between-gone sys [] r compiler path object stage first second h₂).2

  artifact_checked-Stages :
      (compiler path object name : List ℕ) (h : List Action)
      → let (ok, h') = artifact_checked sys r compiler path object name h in
        Stages sys r (some path) (some name) ok h h'
  unfolding artifact_checked
  artifact_checked-Stages compiler path object name h =
      let (valid, h₁) = valid_link_inputs sys r.inputs r.kind r.target h in
      let tested = valid_link_inputs-local sys r.inputs r.kind r.target h in
      elim (Bool-cases (artifact_refused r)) [
        | inl refused ↦ rw refused refl
        | inr served ↦ elim (Bool-cases valid) [
          | inr bad ↦ rw (served, bad) (local-renamed sys tested)
          | inl good ↦ rw (served, good) (artifact_in-Stages compiler path object name h h₁ tested)
        ]
      ]

  artifact_given-Stages :
      (path object compiler name : Option (List ℕ)) (h : List Action)
      → let (ok, h') = artifact_given sys r path object compiler name h in
        Stages sys r path name ok h h'
  artifact_given-Stages (some path) (some object) (some compiler) (some name) h =
      artifact_checked-Stages compiler path object name h
  artifact_given-Stages none object compiler name h = refl
  artifact_given-Stages (some path) none compiler name h = refl
  artifact_given-Stages (some path) (some object) none name h = refl
  artifact_given-Stages (some path) (some object) (some compiler) none h = refl

-- What a link renames, for a freestanding target and for a hosted one.
abbrev pub Renames : System → Request → Bool → List Action → List Action → Type 0
Renames sys r ok h h' =
    if (r.target == x86_64_none) || (r.target == riscv64_none)
    then Puts sys r.path r.map_file ok h h'
    else Stages sys r r.path (output_file_name r.path) ok h h'

-- What a link renames, whatever the host answers. For a hosted target it is, if the link returns 1,
-- the artifact under the stage's name in a directory made in the run, to the path of the request, and
-- nothing else; if it returns 0, nothing. For a freestanding target it is, if the link returns 1, the
-- map, where one is asked for, from link.map in a directory made in the run to the map file, then the
-- program from artifact in a directory made in the run to the path of the request, and nothing else;
-- if it returns 0, nothing, or the map alone where one is asked for. And a link removes every
-- directory as often as it made it.
pub link_artifact_lem :
    (sys : System) (r : Request) (h : List Action)
    → let (ok, h') = link_artifact sys r h in
      Renames sys r ok h h'
      × ((d : List ℕ) → made sys d h' + gone sys d h ≡ made sys d h + gone sys d h')
unfolding link_artifact
link_artifact_lem sys r h =
    let name = output_file_name r.path in
    let compiler = target_compiler r.target in
    elim (Bool-cases ((r.target == x86_64_none) || (r.target == riscv64_none))) [
      | inl freestanding ↦
          rw freestanding (link_freestanding-Puts sys r h, λ d. link_freestanding-Settled sys d r h)
      | inr hosted ↦ rw hosted (
        artifact_given-Stages sys r r.path r.object compiler name h,
        λ d. artifact_given-Tidy sys d r r.path r.object compiler name h,
      )
    ]
