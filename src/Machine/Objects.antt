-- ===== src/Machine/Objects.antt =====
-- Reads and writes of the heap: `lookup` after `update`, what `find_object` finds, and heaps whose
-- objects stand at different addresses.
use portable_systems_lisp.Base.{
  ℕ, ◌≢◌, ◌≡◌, refl, none, some, List, [], ◌∷◌, ◌==◌, if◌then◌else◌, length, arith, Bool-cases, inl,
  inr, All, subst,
}
use mathlib.Core.Option
use portable_systems_lisp.Outcome.{ok}
use portable_systems_lisp.Machine.{Object, Runtime, lookup, update, find_object, modify}

pub lookup-address : (a : ℕ) (os : List Object) (o : Object) → lookup a os ≡ some o → o.address ≡ a
unfolding lookup
lookup-address a [] o h = ground arith
lookup-address a (x ∷ os) o h = ground (arith, lookup-address a os o)

pub lookup-update :
    (f : Object → Object)
    → ((o : Object) → (f o).address ≡ o.address)
    → (a b : ℕ) (os : List Object)
    → lookup b (update a f os) ≡ (if a == b then Option.map f (lookup b os) else lookup b os)
unfolding lookup update
lookup-update f keeps a b [] = ground arith
lookup-update f keeps a b (o ∷ os) = ground (arith, keeps o, lookup-update f keeps a b os)

pub length-update :
    (f : Object → Object) (a : ℕ) (os : List Object) → length (update a f os) ≡ length os
unfolding update
length-update f a [] = refl
length-update f a (o ∷ os) = ground (arith, length-update f a os)

pub find_object-eq-some :
    (v : ℕ) (os : List Object) (o : Object)
    → find_object v os ≡ some o
    → (o.address ≡ v) × (lookup v os ≡ some o)
unfolding find_object
find_object-eq-some v os o h = ground (arith, lookup-address v os o)

-- The pointer that `find_object` yields leads to the object it found.
pub lookup-found :
    (v : ℕ) (os : List Object) (o : Object)
    → find_object v os ≡ some o
    → lookup o.address os ≡ some o
lookup-found v os o h = let (here, at) = find_object-eq-some v os o h in simp here at

-- No two objects of the heap stand at one address.
abbrev pub Distinct : List Object → Type 0
Distinct [] = Unit
Distinct (o ∷ os) = (lookup o.address os ≡ none) × Distinct os

pub lookup-front : (o : Object) (os : List Object) → lookup o.address (o ∷ os) ≡ some o
unfolding lookup
lookup-front o os = ground arith

pub lookup-behind :
    (a : ℕ) (o : Object) (os : List Object) → a ≢ o.address → lookup a (o ∷ os) ≡ lookup a os
unfolding lookup
lookup-behind a o os h = ground arith

pub modify_lem :
    (p : ℕ) (g : Object → Object) (s : Runtime) (o : Object)
    → lookup p s.objects ≡ some o
    → modify p g s ≡ ok (tt, record s { objects = update p g s.objects })
unfolding modify
modify_lem p g s o h = rw (h, modify)

pub Distinct-update :
    (g : Object → Object)
    → ((o : Object) → (g o).address ≡ o.address)
    → (p : ℕ) (os : List Object) → Distinct os
    → Distinct (update p g os)
unfolding update
Distinct-update g keeps p [] d = tt
Distinct-update g keeps p (o ∷ os) d = elim (Bool-cases (o.address == p)) [
  | inl here ↦ rw (here, keeps o) d
  | inr further ↦
      rw (further, lookup-update g keeps p o.address os, d.0)
        (ground arith, Distinct-update g keeps p os d.1)
]

pub All-update {ℓ} :
    (P : Object → Type ℓ) (g : Object → Object)
    → ((o : Object) → P o → P (g o))
    → (p : ℕ) (os : List Object) → All P os
    → All P (update p g os)
unfolding update
All-update P g keeps p [] h = tt
All-update P g keeps p (o ∷ os) h = elim (Bool-cases (o.address == p)) [
  | inl here ↦ rw here (keeps o h.0, h.1)
  | inr further ↦ rw further (h.0, All-update P g keeps p os h.1)
]

pub All-update_at {ℓ} :
    (P : Object → Type ℓ) (g : Object → Object) (p : ℕ) (os : List Object) (o : Object)
    → All P os
    → lookup p os ≡ some o
    → P (g o)
    → All P (update p g os)
unfolding lookup update
All-update_at P g p [] o all held new = tt
All-update_at P g p (x ∷ os) o all held new = elim (Bool-cases (x.address == p)) [
  | inl here ↦ let same : o ≡ x = ground arith in rw here (subst (λ y. P (g y)) same new, all.1)
  | inr further ↦
      rw further (all.0, All-update_at P g p os o all.1 (rw (further, lookup) at held) new)
]
