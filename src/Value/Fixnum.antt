-- ===== src/Value/Fixnum.antt =====
-- The fixnum encoding of runtime/value.c: range, round trips, and the tags that keep the kinds of
-- values apart.
use portable_systems_lisp.Base.{
  ℕ, ◌+◌, ◌-◌, ◌*◌, ◌/◌, ◌%◌, ◌^◌, ◌<◌, ◌≡◌, ◌≢◌, inl, inr, ◌↔◌, true, false, ltb, arith, subst, ap,
  Bool-cases,
}
use portable_systems_lisp.Base.Bits.{bit_and-one, bit_and-seven, bit_and-mask63, bit_or-one}
use portable_systems_lisp.Base.Int.{ℤ, pos, negsuc, ◌≤ℤ◌}
use portable_systems_lisp.Outcome.{ok, abort, ◌>>=◌}
use portable_systems_lisp.Value.{nil, t, fixnum, fixnum_p, unbox_fixnum, pointer_p}

-- The fixnums: -2^62 to 2^62 - 1.
abbrev pub IsFixnum : ℤ → Type 0
IsFixnum n = (negsuc (2 ^ 62 - 1) ≤ℤ n) × (n ≤ℤ pos (2 ^ 62 - 1))

-- The word that a fixnum in range is boxed to.
pub fixnum-pos : (n : ℕ) → n < 2 ^ 62 → fixnum (pos n) ≡ ok (2 * n + 1)
unfolding fixnum
fixnum-pos n h = ground (arith, bit_or-one (n * 2 % 2 ^ 64))

pub fixnum-negsuc : (n : ℕ) → n < 2 ^ 62 → fixnum (negsuc n) ≡ ok (2 ^ 64 - 2 * (n + 1) + 1)
unfolding fixnum
fixnum-negsuc n h = ground (arith, bit_or-one ((2 ^ 64 - (n + 1)) * 2 % 2 ^ 64))

pub unbox-pos : (n : ℕ) → n < 2 ^ 62 → unbox_fixnum (2 * n + 1) ≡ ok (pos n)
unfolding unbox_fixnum
unbox-pos n h = ground (arith, bit_and-one (2 * n + 1))

pub unbox-negsuc : (n : ℕ) → n < 2 ^ 62 → unbox_fixnum (2 ^ 64 - 2 * (n + 1) + 1) ≡ ok (negsuc n)
unfolding unbox_fixnum
unbox-negsuc n h =
    let w = 2 ^ 64 - 2 * (n + 1) + 1 in
    ground (arith, bit_and-one w, bit_and-mask63 (2 ^ 64 - 1 - w / 2))

-- Boxing a number of the fixnum range and unboxing the word gives the number back.
pub unbox_fixnum-fixnum : (n : ℤ) → IsFixnum n → (fixnum n >>= unbox_fixnum) ≡ ok n
unbox_fixnum-fixnum (pos n) h = rw (fixnum-pos n (omega arith)) (unbox-pos n (omega arith))
unbox_fixnum-fixnum (negsuc n) h = rw (fixnum-negsuc n (omega arith)) (unbox-negsuc n (omega arith))

fixnum_p-odd : (w : ℕ) → fixnum_p w ≡ true → w % 2 ≡ 1
unfolding fixnum_p
fixnum_p-odd w h = ground (arith, bit_and-one w)

-- Unboxing a word with the fixnum tag yields a number of the range, and boxing that number gives
-- the word back.
pub fixnum-unbox_fixnum :
    (w : ℕ)
    → w < 2 ^ 64
    → fixnum_p w ≡ true
    → (n : ℤ) × (unbox_fixnum w ≡ ok n) × IsFixnum n × (fixnum n ≡ ok w)
fixnum-unbox_fixnum w h tag = elim (Bool-cases (ltb w (2 ^ 63))) [
  | inl small ↦
      let n = w / 2 in
      let odd = fixnum_p-odd w tag in
      let e : 2 * n + 1 ≡ w = omega arith in
      let low : n < 2 ^ 62 = ground arith in
      (
        pos n,
        subst (λ x. unbox_fixnum x ≡ ok (pos n)) e (unbox-pos n low),
        omega arith,
        rw (fixnum-pos n low) (ap ok e),
      )
  | inr large ↦
      let n = 2 ^ 63 - 1 - w / 2 in
      let odd = fixnum_p-odd w tag in
      let high : n < 2 ^ 62 = ground arith in
      let e : 2 ^ 64 - 2 * (n + 1) + 1 ≡ w = ground arith in
      (
        negsuc n,
        subst (λ x. unbox_fixnum x ≡ ok (negsuc n)) e (unbox-negsuc n high),
        omega arith,
        rw (fixnum-negsuc n high) (ap ok e),
      )
]

-- Boxing aborts exactly outside the fixnum range.
pub fixnum-abort : (n : ℤ) → (fixnum n ≡ abort) ↔ ¬ IsFixnum n
unfolding fixnum
fixnum-abort (pos n) = ground arith
fixnum-abort (negsuc n) = ground arith

-- The tags keep the kinds of values apart: a word that can be a heap address is neither a fixnum
-- nor NIL nor T, and neither NIL nor T is a fixnum.
pub pointer_p-tags :
    (w : ℕ)
    → pointer_p w ≡ true
    → (fixnum_p w ≡ false) × (w ≢ nil) × (w ≢ t) × (fixnum_p nil ≡ false) × (fixnum_p t ≡ false)
unfolding pointer_p fixnum_p
pointer_p-tags w h = ground (arith, bit_and-one w, bit_and-seven w)

-- A nonzero address that is a multiple of 8 passes the test of `find_object`.
pub pointer_p-aligned : (w : ℕ) → w ≢ 0 → w % 8 ≡ 0 → pointer_p w ≡ true
unfolding pointer_p
pointer_p-aligned w h e = ground (arith, bit_and-seven w)
