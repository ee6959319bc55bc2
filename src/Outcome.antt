-- ===== src/Outcome.antt =====
-- How a run of a C function can end. `abort` is the call of `abort()` that the runtime makes on a
-- misuse or an exhausted resource. `fault` is undefined behaviour, such as a read through a
-- dangling pointer or a write past an array. `out_of_fuel` ends a loop of the model whose rounds
-- were used up.
use portable_systems_lisp.Base.{◌≡◌, refl, arith}

pub data Outcome {ℓ} (A : Type ℓ) : Type ℓ where
  ok : A → Outcome A
  abort fault out_of_fuel : Outcome A

infixl 5 ◌>>=◌
abbrev pub ◌>>=◌ {ℓ κ} : {A : Type ℓ} {B : Type κ} → Outcome A → (A → Outcome B) → Outcome B
ok a >>= f = f a
abort >>= f = abort
fault >>= f = fault
out_of_fuel >>= f = out_of_fuel

-- What a run that succeeded went through.
pub >>=-eq-ok {ℓ κ} :
    {A : Type ℓ} {B : Type κ} (first : Outcome A) (next : A → Outcome B) {answer : B}
    → (first >>= next) ≡ ok answer
    → (middle : A) × (first ≡ ok middle) × (next middle ≡ ok answer)
>>=-eq-ok (ok middle) next ran = (middle, refl, ran)
>>=-eq-ok abort next ran = ground arith
>>=-eq-ok fault next ran = ground arith
>>=-eq-ok out_of_fuel next ran = ground arith
