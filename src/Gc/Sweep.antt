-- ===== src/Gc/Sweep.antt =====
-- Sweeping a marked heap: what stays, the count, and what the heap that stays is like.
use portable_systems_lisp.Base.{
  ℕ, ◌+◌, ◌-◌, ◌≤◌, ◌≡◌, refl, false, none, List, [], ◌∷◌, if◌then◌else◌, length, arith, ap, inl,
  inr, Bool-cases, All,
}
use mathlib.Core.Option
use portable_systems_lisp.Machine.{Object, lookup}
use portable_systems_lisp.Machine.Objects.{Distinct}
use portable_systems_lisp.Gc.{set_marked, sweep_objects}
use portable_systems_lisp.Gc.Unmark.{marked_at}

-- What sweeping leaves of the list, the count aside.
pub swept : List Object → List Object
swept [] = []
swept (o ∷ os) = if o.marked then set_marked false o ∷ swept os else swept os

pub sweep_objects_lem :
    (os : List Object) (count : ℕ)
    → length os ≤ count
    → ((sweep_objects os count).0 ≡ swept os)
      × ((sweep_objects os count).1 + length os ≡ count + length (swept os))
unfolding sweep_objects swept
sweep_objects_lem [] count h = (refl, refl)
sweep_objects_lem (o ∷ os) count h = elim (Bool-cases o.marked) [
  | inl stays ↦
      let (kept, counted) = sweep_objects_lem os count (omega arith) in
      rw stays (ap (λ l. set_marked false o ∷ l) kept, omega arith)
  | inr goes ↦
      let (kept, counted) = sweep_objects_lem os (count - 1) (omega arith) in
      rw goes (kept, omega arith)
]

lookup-swept-none : (a : ℕ) (os : List Object) → lookup a os ≡ none → lookup a (swept os) ≡ none
unfolding lookup swept
lookup-swept-none a [] h = refl
lookup-swept-none a (o ∷ os) h = ground (arith, lookup-swept-none a os)

pub lookup-swept :
    (a : ℕ) (os : List Object)
    → Distinct os
    → lookup a (swept os)
      ≡ (if marked_at os a then Option.map (set_marked false) (lookup a os) else none)
unfolding lookup swept
lookup-swept a [] d = refl
lookup-swept a (o ∷ os) d = ground (
  arith,
  lookup-swept a os d.1,
  lookup-swept-none o.address os d.0,
  ap (λ x. lookup x (swept os)),
)

pub Distinct-swept : (os : List Object) → Distinct os → Distinct (swept os)
unfolding swept
Distinct-swept [] d = tt
Distinct-swept (o ∷ os) d = elim (Bool-cases o.marked) [
  | inl stays ↦ rw stays (lookup-swept-none o.address os d.0, Distinct-swept os d.1)
  | inr goes ↦ rw goes (Distinct-swept os d.1)
]

pub All-swept {ℓ} :
    (P : Object → Type ℓ)
    → ((o : Object) → P o → P (set_marked false o))
    → (os : List Object) → All P os
    → All P (swept os)
unfolding swept
All-swept P keeps [] h = tt
All-swept P keeps (o ∷ os) h = elim (Bool-cases o.marked) [
  | inl stays ↦ rw stays (keeps o h.0, All-swept P keeps os h.1)
  | inr goes ↦ rw goes (All-swept P keeps os h.1)
]

pub swept-unmarked : (os : List Object) → All (λ o. o.marked ≡ false) (swept os)
unfolding swept
swept-unmarked [] = tt
swept-unmarked (o ∷ os) = elim (Bool-cases o.marked) [
  | inl stays ↦ rw stays (refl, swept-unmarked os)
  | inr goes ↦ rw goes (swept-unmarked os)
]
