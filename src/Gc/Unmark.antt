-- ===== src/Gc/Unmark.antt =====
-- Heaps that differ in their mark bits only, by way of the heap with every mark cleared.
use portable_systems_lisp.Base.{
  ℕ, suc, ◌≡◌, ◌↔◌, refl, Bool, true, false, none, some, List, [], ◌∷◌, map, if◌then◌else◌, All,
  arith, ap, ◌⊎◌,
}
use mathlib.Core.Option
use portable_systems_lisp.Machine.{Object, lookup, update, find_object}
use portable_systems_lisp.Machine.Objects.{Distinct, lookup-update}
use portable_systems_lisp.Gc.{set_marked}
use portable_systems_lisp.Gc.Reach.{children, children_at, allocated}

abbrev pub clear : List Object → List Object
clear = map (set_marked false)

abbrev pub marked_at : List Object → ℕ → Bool
marked_at os a = elim (lookup a os) [ none ↦ false | some o ↦ o.marked ]

pub lookup-clear :
    (a : ℕ) (os : List Object) → lookup a (clear os) ≡ Option.map (set_marked false) (lookup a os)
unfolding lookup
lookup-clear a [] = refl
lookup-clear a (o ∷ os) = ground (arith, lookup-clear a os)

pub find_object-clear :
    (v : ℕ) (os : List Object)
    → find_object v (clear os) ≡ Option.map (set_marked false) (find_object v os)
unfolding find_object
find_object-clear v os = ground (arith, lookup-clear v os)

pub allocated-clear : (os : List Object) (v : ℕ) → allocated (clear os) v ≡ allocated os v
allocated-clear os v = ground (arith, find_object-clear v os)

pub children-clear : (o : Object) → children (set_marked false o) ≡ children o
unfolding children
children-clear o = refl

pub children_at-clear : (os : List Object) (a : ℕ) → children_at (clear os) a ≡ children_at os a
unfolding children_at
children_at-clear os a = ground (arith, lookup-clear a os)

pub clear-update : (a : ℕ) (os : List Object) → clear (update a (set_marked true) os) ≡ clear os
unfolding update
clear-update a [] = refl
clear-update a (o ∷ os) = ground (arith, clear-update a os)

pub clear-unmarked : (os : List Object) → All (λ o. o.marked ≡ false) os → clear os ≡ os
clear-unmarked [] h = refl
clear-unmarked (o ∷ os) h = ground (arith, clear-unmarked os h.1)

-- The number of objects whose mark is not set.
abbrev pub unmarked : List Object → ℕ
unmarked [] = 0
unmarked (o ∷ os) = if o.marked then unmarked os else suc (unmarked os)

pub unmarked-update :
    (a : ℕ) (os : List Object) (o : Object)
    → lookup a os ≡ some o
    → o.marked ≡ false
    → suc (unmarked (update a (set_marked true) os)) ≡ unmarked os
unfolding lookup update
unmarked-update a [] o h e = ground arith
unmarked-update a (x ∷ os) o h e = ground (arith, unmarked-update a os o)

pub marked_at-update :
    (a b : ℕ) (os : List Object) (o : Object)
    → lookup a os ≡ some o
    → (marked_at (update a (set_marked true) os) b ≡ true) ↔ ((marked_at os b ≡ true) ⊎ (b ≡ a))
marked_at-update a b os o h =
    ground (arith, lookup-update (set_marked true) (λ _. refl) a b os, ap (λ x. lookup x os))

pub Distinct-clear : (os : List Object) → Distinct (clear os) → Distinct os
Distinct-clear [] d = tt
Distinct-clear (o ∷ os) d = (ground (arith, lookup-clear o.address os, d.0), Distinct-clear os d.1)

pub All-clear {ℓ} :
    (P : Object → Type ℓ)
    → ((o : Object) → P (set_marked false o) → P o)
    → (os : List Object) → All P (clear os)
    → All P os
All-clear P back [] h = tt
All-clear P back (o ∷ os) h = (back o h.0, All-clear P back os h.1)
