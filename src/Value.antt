-- ===== src/Value.antt =====
-- runtime/value.c and the immediate values of runtime/psl_runtime.h: a psl_value is a 64-bit word,
-- and a fixnum carries the tag 1 in its lowest bit.
pub mod Fixnum
use portable_systems_lisp.Base.{
  ℕ, ◌+◌, ◌-◌, ◌*◌, ◌/◌, ◌%◌, ◌^◌, bit_and, bit_or, Bool, true, false, not, ◌||◌, ltb, ◌==◌,
  if◌then◌else◌,
}
use portable_systems_lisp.Base.Int.{ℤ, pos, negsuc, to_word, ltb_ℤ}
use portable_systems_lisp.Outcome.{Outcome, ok, abort}

-- PSL_NIL
abbrev pub nil : ℕ
nil = 2

-- PSL_TRUE
abbrev pub t : ℕ
t = 6

unfoldable pub fixnum : ℤ → Outcome ℕ
fixnum number =
    if ltb_ℤ number (negsuc (2 ^ 62 - 1)) || not (ltb_ℤ number (pos (2 ^ 62)))
    then abort
    else ok (bit_or (to_word number * 2 % 2 ^ 64) 1)

unfoldable pub fixnum_p : ℕ → Bool
fixnum_p value = not (bit_and value 1 == 0)

-- `~payload` of a word is 2 ^ 64 - 1 - payload.
unfoldable pub unbox_fixnum : ℕ → Outcome ℤ
unfolding fixnum_p
unbox_fixnum value =
    if not (fixnum_p value)
    then abort
    else (let payload = value / 2 in
        if ltb payload (2 ^ 62)
        then ok (pos payload)
        else ok (negsuc (bit_and (2 ^ 64 - 1 - payload) (2 ^ 63 - 1))))

unfoldable pub nil_p : ℕ → Bool
nil_p value = value == nil

-- A uint64_t truth value.
unfoldable pub truthy : ℕ → ℕ
truthy value = if value == nil then 0 else 1

unfoldable pub eq : ℕ → ℕ → ℕ
eq left right = if left == right then 1 else 0

-- The test that opens `find_object` in runtime/gc.c: not 0, and the three low bits zero.
unfoldable pub pointer_p : ℕ → Bool
pointer_p value = not (value == 0 || not (bit_and value 7 == 0))
