-- ===== src/Toolchain/Freestanding/Renames.antt =====
-- The renames of a freestanding link: one file, or the map and then the program.
use portable_systems_lisp.Base.{
  ℕ, ◌≡◌, refl, ◌∙◌, ap, subst, Bool, true, false, Option, none, some, List, [], ◌∷◌, ◌++◌, inl,
  inr, ◌⊎◌, Bool-cases,
}
use portable_systems_lisp.Toolchain.Tools.{ascii}
use portable_systems_lisp.Toolchain.Paths.{slash}
use portable_systems_lisp.Toolchain.Actions.{Action, System}
use portable_systems_lisp.Toolchain.History.{Extends, here, next, Extends-trans, Extends-weaken}
use portable_systems_lisp.Toolchain.Local.{local}
use portable_systems_lisp.Toolchain.Merge.Quiet.{Move, renamed}
use portable_systems_lisp.Toolchain.Publish.{staged, local-staged, local-renamed}
use portable_systems_lisp.Toolchain.Freestanding.{publish}

-- The renames behind `before` are those of `moves` but for one or more that come last.
abbrev pub Part : List Move → List Move → List Move → Type 0
Part [] before after = ⊥
Part (move ∷ moves) before after = (after ≡ moves ++ before) ⊎ Part moves before after

-- The renames are all those of `moves` where the run succeeds, and not all of them where it fails.
-- The last one is the first of the list.
abbrev pub Complete : List Move → Bool → List Move → List Move → Type 0
Complete moves true before after = after ≡ moves ++ before
Complete moves false before after = Part moves before after

-- The renames of a link: the program's, and before it that of the map where one is asked for.
abbrev pub moves_of : List ℕ → List ℕ → Option (List ℕ × List ℕ) → List Move
moves_of directory path none = (directory ++ slash ∷ ascii "artifact", path) ∷ []
moves_of directory path (some (d, map_file)) =
    (directory ++ slash ∷ ascii "artifact", path) ∷ (d ++ slash ∷ ascii "link.map", map_file) ∷ []

-- The map's directory, if any.
abbrev pub directory_of_map : Option (List ℕ × List ℕ) → Option (List ℕ)
directory_of_map none = none
directory_of_map (some (d, map_file)) = some d

abbrev pub Finishes : System → List Move → List Action → Bool → List Action → Type 0
Finishes sys moves h ok h' =
    Extends staged h h' × Complete moves ok (renamed sys h) (renamed sys h')

pub Complete-false :
    (move : Move) (moves before after : List Move)
    → after ≡ before
    → Complete (move ∷ moves) false before after
Complete-false move [] before after same = inl same
Complete-false move (m ∷ moves) before after same = inr (Complete-false m moves before after same)

pub Complete-same :
    (moves : List Move) (ok : Bool) (before middle after : List Move)
    → middle ≡ before
    → Complete moves ok middle after
    → Complete moves ok before after
Complete-same moves ok before middle after same c =
    subst (λ (b : List Move). Complete moves ok b after) same c

pub local-Finishes :
    (sys : System) (move : Move) (moves : List Move) (h h' : List Action)
    → Extends local h h'
    → Finishes sys (move ∷ moves) h false h'
local-Finishes sys move moves h h' more =
    (Extends-weaken local-staged more, Complete-false move moves _ _ (local-renamed sys more))

pub Finishes-after :
    (sys : System) (moves : List Move) (ok : Bool) (h h₁ h' : List Action)
    → Extends local h h₁
    → Finishes sys moves h₁ ok h'
    → Finishes sys moves h ok h'
Finishes-after sys moves ok h h₁ h' first second = (
  Extends-trans (Extends-weaken local-staged first) second.0,
  Complete-same moves ok _ _ _ (local-renamed sys first) second.1,
)

-- One more rename.
rename-hit :
    (sys : System) (from to : List ℕ) (h : List Action)
    → sys.succeeds h (Action.rename from to) ≡ true
    → renamed sys (Action.rename from to ∷ h) ≡ (from, to) ∷ renamed sys h
unfolding renamed
rename-hit sys from to h done = rw done refl

rename-miss :
    (sys : System) (from to : List ℕ) (h : List Action)
    → sys.succeeds h (Action.rename from to) ≡ false
    → renamed sys (Action.rename from to ∷ h) ≡ renamed sys h
unfolding renamed
rename-miss sys from to h lost = rw lost refl

-- The renames, of one file or two.
pub publish-one :
    (sys : System) (output path : List ℕ) (h : List Action)
    → Finishes sys
        ((output, path) ∷ [])
        h
        (publish sys output path none h).0
        (publish sys output path none h).1
unfolding publish
publish-one sys output path h = elim (Bool-cases (sys.succeeds h (Action.rename output path))) [
  | inl done ↦ rw done (next _ refl here, rename-hit sys output path h done)
  | inr lost ↦ rw lost (next _ refl here, inl (rename-miss sys output path h lost))
]

pub publish-two :
    (sys : System) (output path stage map_file : List ℕ) (h : List Action)
    → Finishes sys
        ((output, path) ∷ (stage, map_file) ∷ [])
        h
        (publish sys output path (some (stage, map_file)) h).0
        (publish sys output path (some (stage, map_file)) h).1
unfolding publish
publish-two sys output path stage map_file h =
    let first = Action.rename stage map_file in
    let second = Action.rename output path in
    let h₁ = first ∷ h in
    elim (Bool-cases (sys.succeeds h first)) [
      | inr lost ↦ rw lost (next _ refl here, inr (inl (rename-miss sys stage map_file h lost)))
      | inl placed ↦
          let one = rename-hit sys stage map_file h placed in
          elim (Bool-cases (sys.succeeds h₁ second)) [
            | inr lost ↦
                rw (placed, lost)
                  (next _ refl (next _ refl here), inl (rename-miss sys output path h₁ lost ∙ one))
            | inl done ↦
                rw (placed, done)
                  (
                    next _ refl (next _ refl here),
                    rename-hit sys output path h₁ done ∙ ap (λ ms. (output, path) ∷ ms) one,
                  )
          ]
    ]
