-- ===== src/Vector/Make.antt =====
-- New storage, and a vector of equal values.
use portable_systems_lisp.Base.{
  ℕ, zero, suc, ◌*◌, ◌/◌, ◌≤◌, ◌≡◌, refl, false, List, [], ◌∷◌, ltb, arith, length,
  length-replicate, replicate, ap, subst,
}
use portable_systems_lisp.Outcome.{ok}
use portable_systems_lisp.Value.{nil}
use portable_systems_lisp.Machine.{Kind, Object, Runtime, Host, pure}
use portable_systems_lisp.Gc.{blank, lift}
use portable_systems_lisp.Gc.Reach.{IsHeap, root_words}
use portable_systems_lisp.Gc.Survive.{CanCollect}
use portable_systems_lisp.Gc.Allocate.{GivesBlock, Allocated, allocate_object_lem}
use portable_systems_lisp.Frames.Construct.{StaySized, initialised, initialise_lem}
use portable_systems_lisp.Text.{fill}
use portable_systems_lisp.Text.Make.{length-fill}
use portable_systems_lisp.Vector.{vector_storage_bytes, make_storage}
use portable_systems_lisp.Vector.Capacity.{capacity_limit}

-- A storage object at `a` with the items `vs`; `bytes` is what calloc left.
abbrev pub storage_object : ℕ → List ℕ → Object
storage_object a vs = record (blank a Kind.value_vector_storage (length vs * 8)) {
  length = length vs;
  items = vs;
}

fill-all : (n v : ℕ) → fill n v (replicate n 0) ≡ replicate n v
unfolding fill
fill-all zero v = refl
fill-all (suc n) v = ap (λ l. v ∷ l) (fill-all n v)

-- The writes of make_storage.
abbrev storage_writes : ℕ → List (Object → Object)
storage_writes capacity =
    (λ o. record o { length = capacity })
    ∷ (λ o. record o { items = fill capacity nil o.items })
    ∷ []

storage_writes-object :
    (a n : ℕ)
    → initialised (storage_writes n) (blank a Kind.value_vector_storage (n * 8))
      ≡ storage_object a (replicate n nil)
storage_writes-object a n =
    let words : n * 8 / 8 ≡ n = omega arith in rw (words, length-replicate n nil, fill-all n nil)

storage_writes-sized :
    (a n : ℕ) → StaySized (storage_writes n) (blank a Kind.value_vector_storage (n * 8))
storage_writes-sized a n =
    let zeros : length (replicate {A = ℕ} (n * 8 / 8) 0) ≡ n * 8 / 8 =
      length-replicate (n * 8 / 8) 0 in
    let filled = length-fill n nil (replicate (n * 8 / 8) 0) in
    ((λ e. omega arith, λ e. cc), ((λ e. omega arith, λ e. cc), tt))

-- A storage of NILs is made where its size is representable, and all that the registered roots reach
-- survives.
pub make_storage_lem :
    (host : Host) (n : ℕ) (s : Runtime)
    → n ≤ capacity_limit
    → CanCollect host s false
    → GivesBlock host s false
    → IsHeap s
    → (s' : Runtime) × (make_storage host n s ≡ ok (host.calloc, s'))
      × Allocated (root_words s) s s' host.calloc (storage_object host.calloc (replicate n nil))
unfolding make_storage vector_storage_bytes
make_storage_lem host n s fits can block h =
    let (s₁, e₁, made) =
      allocate_object_lem host s Kind.value_vector_storage (n * 8) false can block (omega arith)
        h in
    let (s₂, e₂, filled) =
      initialise_lem (root_words s) s host.calloc (pure host.calloc) (storage_writes n) s₁
        (blank host.calloc Kind.value_vector_storage (n * 8))
        (
          record { address = λ o. refl; marked = λ o. refl },
          (record { address = λ o. refl; marked = λ o. refl }, tt),
        )
        (storage_writes-sized host.calloc n) made in
    let small : ltb capacity_limit n ≡ false = ground arith in
    (
      s₂,
      rw (small, lift, e₁) e₂,
      subst (Allocated (root_words s) s s₂ host.calloc) (storage_writes-object host.calloc n)
          filled,
    )
