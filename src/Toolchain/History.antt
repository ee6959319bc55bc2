-- ===== src/Toolchain/History.antt =====
-- What a run adds to the history of actions: which actions, and counts of them.
use portable_systems_lisp.Base.{ℕ, ◌+◌, ◌≡◌, refl, Bool, true, false, ◌&&◌, List, [], ◌∷◌, arith}
use portable_systems_lisp.Toolchain.Modules.{same_text}
use portable_systems_lisp.Toolchain.Actions.{Action, System, Run}

-- The second history continues the first by actions that satisfy `P`.
pub data Extends (P : Action → Bool) (h : List Action) : List Action → Type 0 where
  here : Extends P h h
  next : {h' : List Action} (a : Action) → P a ≡ true → Extends P h h' → Extends P h (a ∷ h')

pub Extends-trans :
    {P : Action → Bool} {h h' h'' : List Action}
    → Extends P h h'
    → Extends P h' h''
    → Extends P h h''
Extends-trans first here = first
Extends-trans first (next a ok more) = next a ok (Extends-trans first more)

-- A run that performs only actions that satisfy `P`.
abbrev pub Performs : {A : Type 0} → (Action → Bool) → Run A → Type 0
Performs P m = (h : List Action) → Extends P h (m h).1

-- The sum of what the actions weigh, each with the history before it.
unfoldable pub tally : (List Action → Action → ℕ) → List Action → ℕ
tally weight [] = 0
tally weight (a ∷ h) = weight h a + tally weight h

pub Extends-tally :
    {P : Action → Bool} (weight : List Action → Action → ℕ) {h h' : List Action}
    → ((g : List Action) (a : Action) → P a ≡ true → weight g a ≡ 0)
    → Extends P h h'
    → tally weight h' ≡ tally weight h
unfolding tally
Extends-tally weight light here = refl
Extends-tally weight light (next {h' = g} a ok more) =
    omega (arith, light g a ok, Extends-tally weight light more)

abbrev pub one_if : Bool → ℕ
one_if true = 1
one_if false = 0

-- The actions that put `d` among the directories, and those that remove it.
abbrev pub makes : System → List ℕ → List Action → Action → ℕ
makes sys d h (Action.make_directory template) =
    one_if
      (sys.succeeds h (Action.make_directory template) && same_text (sys.temporary h template) d)
makes sys d h _ = 0

abbrev pub removes : List ℕ → List Action → Action → ℕ
removes d h (Action.remove_directory directory) = one_if (same_text directory d)
removes d h _ = 0

-- The balance of two weights over a run: as much is added to the first sum as to the second.
abbrev pub Balanced :
    {A : Type 0} → (List Action → Action → ℕ) → (List Action → Action → ℕ) → Run A → Type 0
Balanced up down m =
    (h : List Action) → tally up (m h).1 + tally down h ≡ tally up h + tally down (m h).1

pub Extends-weaken :
    {P Q : Action → Bool} {h h' : List Action}
    → ((a : Action) → P a ≡ true → Q a ≡ true)
    → Extends P h h'
    → Extends Q h h'
Extends-weaken weaker here = here
Extends-weaken weaker (next a ok more) = next a (weaker a ok) (Extends-weaken weaker more)
