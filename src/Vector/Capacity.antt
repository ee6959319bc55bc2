-- ===== src/Vector/Capacity.antt =====
-- The capacity that a full vector grows to.
use portable_systems_lisp.Base.{
  ℕ, zero, suc, ◌-◌, ◌*◌, ◌/◌, ◌%◌, ◌^◌, ◌≤◌, ◌<◌, ◌≡◌, refl, false, ltb, ◌==◌, if◌then◌else◌,
  arith, inl, inr, ◌⊎◌, Bool-cases, ap,
}
use native.Mathlib.Nat.{pow-suc}
use portable_systems_lisp.Outcome.{ok, abort}
use portable_systems_lisp.Machine.{object_size, size_max}
use portable_systems_lisp.Vector.{grow, grown_capacity}

-- What the loop computes, with what it promises: room for the required size, at most double of what
-- is needed, and no wrap-around.
grow_lem :
    (fuel c required : ℕ)
    → 0 < c
    → required ≤ c * 2 ^ fuel
    → required ≤ size_max
    → c ≤ size_max
    → (n : ℕ) × (grow (suc fuel) c required ≡ ok n)
      × (required ≤ n)
      × (c ≤ n)
      × (n ≤ size_max)
      × ((n ≡ c) ⊎ (n < 2 * required))
unfolding grow
grow_lem zero c required pos bound small cs =
    let done : ltb c required ≡ false = ground arith in
    (c, rw done, omega arith, omega arith, omega arith, inl refl)
grow_lem (suc fuel) c required pos bound small cs = elim (Bool-cases (ltb c required)) [
  | inr done ↦ (c, rw done, ground arith, omega arith, omega arith, inl refl)
  | inl more ↦ elim (Bool-cases (ltb (size_max / 2) c)) [
    | inl large ↦
        (required, rw (more, large), omega arith, ground arith, omega arith, inr (ground arith))
    | inr fits ↦
        let room : c * 2 ≤ size_max = ground arith in
        let kept : c * 2 % 2 ^ 64 ≡ c * 2 = omega arith in
        let (n, e, a, b, d, g) =
          grow_lem fuel (c * 2 % 2 ^ 64) required (omega (arith, kept, pos))
            (rw kept (omega (arith, ap (λ (t : ℕ). c * t) (pow-suc 2 fuel)))) small
            (omega (arith, kept, room)) in
        (n, rw (more, fits) e, a, omega (arith, kept, b), d, inr (ground (arith, kept)))
  ]
]

-- The capacity that `grown_capacity` starts from.
abbrev pub first_capacity : ℕ → ℕ
first_capacity current = if current == 0 then 4 else current

-- The largest capacity whose storage object has a size that size_t represents.
abbrev pub capacity_limit : ℕ
capacity_limit = (size_max - object_size) / 8

-- For sizes of size_t the loop, whose product wraps around, ends with a capacity that is a size_t, has
-- room for the required size, is at least the start, and is either the start or less than twice what
-- is required; growth yields that capacity, and aborts exactly where it exceeds the largest
-- representable storage.
pub grown_capacity_lem :
    (current required : ℕ)
    → current ≤ size_max
    → required ≤ size_max
    → (n : ℕ) × (required ≤ n)
      × (n ≤ size_max)
      × (first_capacity current ≤ n)
      × ((n ≡ first_capacity current) ⊎ (n < 2 * required))
      × (grown_capacity current required ≡ (if ltb capacity_limit n then abort else ok n))
unfolding grown_capacity
grown_capacity_lem current required cs rs =
    let c = first_capacity current in
    let pos : 0 < c = ground arith in
    let (n, e, a, b, d, g) = grow_lem 64 c required pos (omega arith) rs (ground arith) in
    (n, a, d, b, g, rw e (ground arith))
