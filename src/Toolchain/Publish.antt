-- ===== src/Toolchain/Publish.antt =====
-- Runs that publish: they add local actions and renames, and their one rename succeeds exactly if
-- the run does.
use portable_systems_lisp.Base.{
  ℕ, ◌≡◌, refl, ap, ◌∙◌, Bool, true, false, ◌||◌, Option, none, some, List, ◌∷◌, arith,
}
use portable_systems_lisp.Toolchain.Modules.{same_text}
use portable_systems_lisp.Toolchain.Actions.{Action, System}
use portable_systems_lisp.Toolchain.History.{
  Extends, here, next, Extends-trans, Extends-weaken, Extends-tally, tally, one_if, makes, removes,
}
use portable_systems_lisp.Toolchain.Local.{local}
use portable_systems_lisp.Toolchain.Merge.Quiet.{Move, counted, renames, renamed}

abbrev pub staged : Action → Bool
staged a = local a || renames a

pub local-renamed :
    (sys : System) {h h' : List Action} → Extends local h h' → renamed sys h' ≡ renamed sys h
unfolding renamed
local-renamed sys here = refl
local-renamed sys (next (Action.allocate n) ok more) = local-renamed sys more
local-renamed sys (next (Action.open_file path) ok more) = local-renamed sys more
local-renamed sys (next (Action.write_file bytes) ok more) = local-renamed sys more
local-renamed sys (next Action.close_file ok more) = local-renamed sys more
local-renamed sys (next (Action.run tool) ok more) = local-renamed sys more
local-renamed sys (next (Action.unlink path) ok more) = local-renamed sys more
local-renamed sys (next (Action.access path) ok more) = local-renamed sys more
local-renamed sys (next _ ok more) = cc

pub local-staged : (a : Action) → local a ≡ true → staged a ≡ true
local-staged a ok = ground arith

abbrev pub Publishes : System → Move → List Action → Bool → List Action → Type 0
Publishes sys move h ok h' =
    Extends staged h h' × (renamed sys h' ≡ counted move ok (renamed sys h))

pub local-Publishes :
    (sys : System) (move : Move) {h h' : List Action}
    → Extends local h h'
    → Publishes sys move h false h'
local-Publishes sys move more = (Extends-weaken local-staged more, local-renamed sys more)

pub Publishes-after :
    (sys : System) (move : Move) (ok : Bool) {h h₁ h' : List Action}
    → Extends local h h₁
    → Publishes sys move h₁ ok h'
    → Publishes sys move h ok h'
Publishes-after sys move ok first second = (
  Extends-trans (Extends-weaken local-staged first) second.0,
  second.1 ∙ ap (counted move ok) (local-renamed sys first),
)

pub Publishes-rename :
    (sys : System) (from to : List ℕ) (h : List Action)
    → Publishes sys
        (from, to)
        h
        (sys.succeeds h (Action.rename from to))
        (Action.rename from to ∷ h)
unfolding renamed
Publishes-rename sys from to h = (next _ refl here, refl)

-- What a directory adds to the sums for `d`.
abbrev pub weighs : List ℕ → Option (List ℕ) → ℕ
weighs d none = 0
weighs d (some directory) = one_if (same_text directory d)

pub staged-makes :
    (sys : System) (d : List ℕ) {h h' : List Action}
    → Extends staged h h'
    → tally (makes sys d) h' ≡ tally (makes sys d) h
staged-makes sys d more = Extends-tally (makes sys d) (light sys d) more
  where
    light :
        (sys : System) (d : List ℕ) (g : List Action) (a : Action)
        → staged a ≡ true
        → makes sys d g a ≡ 0
    light sys d g (Action.make_directory template) ok = cc
    light sys d g _ ok = refl

pub staged-removes :
    (d : List ℕ) {h h' : List Action}
    → Extends staged h h'
    → tally (removes d) h' ≡ tally (removes d) h
staged-removes d more = Extends-tally (removes d) (light d) more
  where
    light : (d : List ℕ) (g : List Action) (a : Action) → staged a ≡ true → removes d g a ≡ 0
    light d g (Action.remove_directory directory) ok = cc
    light d g _ ok = refl
