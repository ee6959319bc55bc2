-- ===== src/Base/Bits.antt =====
-- The masks and the low-bit insertion that the tagged values need, at variables: the native
-- `bit_and` and `bit_or` follow their digit recursions.
use Prim.Native.Nat.{
  ℕ, zero, suc, ◌+◌, ◌-◌, ◌*◌, ◌/◌, ◌%◌, ◌^◌, ◌≤◌, ◌<◌, min, max, bit_and, bit_or, digits,
  bit_and-bitwise, bit_or-bitwise,
}
use mathlib.Core.Path.{◌≡◌, refl, ap, sym, ◌∙◌}
use native.Mathlib.Omega.{arith}
use native.Mathlib.Nat.{pow-suc}
use mathlib.Core.Logic.{◌⊎◌, ◌↔◌, inl, inr}

-- The digit recursion with the value `tail` of an exhausted left operand and `digit` for one pair of
-- digits.
module _ (tail : ℕ → ℕ) (digit : ℕ → ℕ → ℕ) where
  exhausted : (fuel right : ℕ) → digits tail digit fuel zero right ≡ tail right
  exhausted zero right = refl
  exhausted (suc fuel) right = refl

  -- All fuels that cover the left operand give the same digits.
  enough_fuel :
      (left fuel other right : ℕ)
      → left ≤ min fuel other
      → digits tail digit fuel left right ≡ digits tail digit other left right
  enough_fuel zero fuel other right covered = exhausted fuel right ∙ sym (exhausted other right)
  enough_fuel (suc left) (suc fuel) (suc other) right covered =
      omega (arith, enough_fuel (suc left / 2) fuel other (right / 2) (omega arith))
  enough_fuel (suc left) zero other right covered = absurd (omega arith)
  enough_fuel (suc left) (suc fuel) zero right covered = absurd (omega arith)

  -- The lowest digit, and the digits above it.
  low_digit :
      (left right : ℕ)
      → digits tail digit (suc left) (suc left) right
        ≡ digits tail digit (suc left / 2) (suc left / 2) (right / 2) * 2
          + digit (suc left % 2) (right % 2)
  low_digit left right =
      let half = suc left / 2 in omega (arith, enough_fuel half left half (right / 2) (omega arith))

-- One digit of a conjunction and of a disjunction.
and_digit : (a b : ℕ) → bit_and a b ≡ bit_and (a / 2) (b / 2) * 2 + min (a % 2) (b % 2)
and_digit zero b = ground (arith, bit_and-bitwise 0 b, bit_and-bitwise 0 (b / 2))
and_digit (suc a) b =
    bit_and-bitwise (suc a) b
    ∙ low_digit (λ _. 0) min a b
    ∙ ap (λ (t : ℕ). t * 2 + min (suc a % 2) (b % 2)) (sym (bit_and-bitwise (suc a / 2) (b / 2)))

or_digit : (a b : ℕ) → bit_or a b ≡ bit_or (a / 2) (b / 2) * 2 + max (a % 2) (b % 2)
or_digit zero b = ground (arith, bit_or-bitwise 0 b, bit_or-bitwise 0 (b / 2))
or_digit (suc a) b =
    bit_or-bitwise (suc a) b
    ∙ low_digit (λ y. y) max a b
    ∙ ap (λ (t : ℕ). t * 2 + max (suc a % 2) (b % 2)) (sym (bit_or-bitwise (suc a / 2) (b / 2)))

-- Below any bound, zero is absorbing for one and neutral for the other.
with_zero : (bound a : ℕ) → a < bound → (bit_and a 0 ≡ 0) × (bit_or a 0 ≡ a)
with_zero zero a below = absurd (omega arith)
with_zero (suc bound) zero below = (refl, refl)
with_zero (suc bound) (suc a) below =
    let above = with_zero bound (suc a / 2) (omega arith) in
    (omega (arith, and_digit (suc a) 0, above.0), omega (arith, or_digit (suc a) 0, above.1))

and_zero : (a : ℕ) → bit_and a 0 ≡ 0
and_zero a = (with_zero (suc a) a (omega arith)).0

-- The remainder by a power of two, as a mask of that many ones.
mask-remainder : (k q r a : ℕ) → r < 2 ^ k → a ≡ q * 2 ^ k + r → bit_and a (2 ^ k - 1) ≡ r
mask-remainder zero q r a small e = omega (arith, and_zero a)
mask-remainder (suc k) q r a small e =
    let double = pow-suc 2 k in
    let whole = ap (λ (t : ℕ). q * t) double in
    ground (
      arith,
      double,
      whole,
      and_digit a (2 ^ suc k - 1),
      mask-remainder k q (r / 2) (a / 2) (omega arith) (omega arith),
    )

pub bit_and-one : (a : ℕ) → bit_and a 1 ≡ a % 2
bit_and-one a = mask-remainder 1 (a / 2) (a % 2) a (omega arith) (omega arith)

pub bit_and-seven : (a : ℕ) → bit_and a 7 ≡ a % 8
bit_and-seven a = mask-remainder 3 (a / 8) (a % 8) a (omega arith) (omega arith)

pub bit_and-mask63 : (a : ℕ) → bit_and a (2 ^ 63 - 1) ≡ a % 2 ^ 63
bit_and-mask63 a = mask-remainder 63 (a / 2 ^ 63) (a % 2 ^ 63) a (omega arith) (omega arith)

-- A tag in the free lowest bit.
pub bit_or-one : (a : ℕ) → a % 2 ≡ 0 → bit_or a 1 ≡ a + 1
bit_or-one a even = omega (arith, or_digit a 1, (with_zero (suc (a / 2)) (a / 2) (omega arith)).1)

-- The digit of weight 2 ^ i.
abbrev pub bit : ℕ → ℕ → ℕ
bit zero n = n % 2
bit (suc i) n = bit i (n / 2)

pub bit-bit_or : (i a b : ℕ) → (bit i (bit_or a b) ≡ 1) ↔ ((bit i a ≡ 1) ⊎ (bit i b ≡ 1))
bit-bit_or zero a b = ground (arith, or_digit a b)
bit-bit_or (suc i) a b =
    let half : bit_or a b / 2 ≡ bit_or (a / 2) (b / 2) = omega (arith, or_digit a b) in
    rw half (bit-bit_or i (a / 2) (b / 2))

pub bit_or-lt : (k a b : ℕ) → a < 2 ^ k → b < 2 ^ k → bit_or a b < 2 ^ k
bit_or-lt zero zero zero h k = omega arith
bit_or-lt zero zero (suc b) h k = absurd (omega arith)
bit_or-lt zero (suc a) b h k = absurd (omega arith)
bit_or-lt (suc w) a b h k =
    omega
      (arith, pow-suc 2 w, or_digit a b, bit_or-lt w (a / 2) (b / 2) (omega arith) (omega arith))

-- A mask of bits from the k-th on does not meet a number of k bits.
pub bit_and-high : (k a b : ℕ) → a < 2 ^ k → bit_and a (b * 2 ^ k) ≡ 0
bit_and-high zero zero b h = ground (arith, bit_and-bitwise 0 (b * 1))
bit_and-high zero (suc a) b h = absurd (omega arith)
bit_and-high (suc w) a b h =
    let high = b * 2 ^ w in
    let double : b * 2 ^ suc w ≡ high * 2 = omega (arith, ap (λ (t : ℕ). b * t) (pow-suc 2 w)) in
    let half : high * 2 / 2 ≡ high = omega arith in
    let above =
      ap (λ (t : ℕ). bit_and (a / 2) t) half
      ∙ bit_and-high w (a / 2) b (omega (arith, pow-suc 2 w)) in
    rw double (omega (arith, and_digit a (high * 2), above))

pub bit-le-one : (i a : ℕ) → bit i a ≤ 1
bit-le-one zero a = omega arith
bit-le-one (suc i) a = bit-le-one i (a / 2)

-- A mask of one bit leaves that bit.
pub bit_and-weight : (i a : ℕ) → bit_and a (2 ^ i) ≡ bit i a * 2 ^ i
bit_and-weight zero a = omega (arith, bit_and-one a)
bit_and-weight (suc i) a =
    let w = 2 ^ i in
    let one = bit i (a / 2) in
    let double : 2 ^ suc i ≡ w * 2 = omega (arith, pow-suc 2 i) in
    let scaled : one * 2 ^ suc i ≡ one * w * 2 =
      omega (arith, ap (λ (t : ℕ). one * t) (pow-suc 2 i)) in
    let half : 2 ^ suc i / 2 ≡ w = omega (arith, double) in
    let above = ap (λ (t : ℕ). bit_and (a / 2) t) half in
    omega (arith, and_digit a (2 ^ suc i), above, double, scaled, bit_and-weight i (a / 2))

-- Such a mask is zero exactly where the bit is not set.
pub bit_and-weight_zero :
    (i a : ℕ)
    → 0 < 2 ^ i
    → ((bit_and a (2 ^ i) ≡ 0) × (bit i a ≡ 0)) ⊎ ((0 < bit_and a (2 ^ i)) × (bit i a ≡ 1))
bit_and-weight_zero i a positive =
    let masked = bit_and-weight i a in
    let small = bit-le-one i a in go (bit i a) (2 ^ i) (bit_and a (2 ^ i)) masked small positive
  where
    go : (b w m : ℕ) → m ≡ b * w → b ≤ 1 → 0 < w → ((m ≡ 0) × (b ≡ 0)) ⊎ ((0 < m) × (b ≡ 1))
    go zero w m e small positive = inl (omega (arith, e), refl)
    go (suc zero) w m e small positive = inr (omega (arith, e), refl)
    go (suc (suc b)) w m e small positive = absurd (omega arith)
