-- ===== src/Text.antt =====
-- runtime/string.c: strings of bytes with a terminating zero.
pub mod Laws
pub mod Make
pub mod Copy
use portable_systems_lisp.Base.{
  ℕ, zero, suc, ◌+◌, Bool, true, false, not, ◌&&◌, ◌||◌, Option, none, some, List, [], ◌∷◌, ◌++◌,
  ltb, leb, ◌==◌, if◌then◌else◌, length, get_elem?, set, take, drop,
}
use portable_systems_lisp.Outcome.{ok, abort, fault}
use portable_systems_lisp.Machine.{
  Kind, Object, Runtime, Host, M, pure, aborts, ◌>>=◌, ◌>>◌, and_then, size_max, load, modify,
  expect_object,
}
use portable_systems_lisp.Gc.{allocate_object}

-- The first `n` elements overwritten by `v`: memset, or a loop of writes.
unfoldable pub fill {ℓ} : {A : Type ℓ} → ℕ → A → List A → List A
fill zero v xs = xs
fill (suc n) v [] = []
fill (suc n) v (x ∷ xs) = v ∷ fill n v xs

unfoldable pub make_string : Host → ℕ → ℕ → Bool → M ℕ
unfolding fill
make_string host size byte precise = if size == size_max then aborts else do
  string ← allocate_object host Kind.string (size + 1) (not precise)
  modify string (λ o. record o { length = size })
  modify string (λ o. record o { bytes = fill size byte o.bytes })
  modify string (λ o. record o { bytes = set o.bytes size 0 })
  pure string

-- The bytes that the caller's pointer leads to, none for a null pointer; a copy of more bytes than
-- there are is a fault.
unfoldable pub copy_string_bytes : Host → Option (List ℕ) → ℕ → Bool → M ℕ
copy_string_bytes host none size precise =
    if not (size == 0) then aborts else make_string host size 0 precise
copy_string_bytes host (some source) size precise = do
  value ← make_string host size 0 precise
  if size == 0 then pure value else do
    string ← expect_object value (some Kind.string)
    if ltb (length source) size then (λ _. fault) else do
      modify string (λ o. record o { bytes = take size source ++ drop size o.bytes })
      pure value

-- psl_rt_string_length
unfoldable pub string_length : ℕ → M ℕ
string_length value = do p ← expect_object value (some Kind.string); o ← load p; pure o.length

-- psl_rt_string_byte
unfoldable pub string_byte : ℕ → ℕ → M ℕ
string_byte value index = do
  p ← expect_object value (some Kind.string)
  o ← load p
  if leb o.length index
      then aborts
      else (λ s. elim (get_elem? o.bytes index) [ none ↦ fault | some b ↦ ok (b, s) ])

-- psl_rt_string_set_byte
unfoldable pub string_set_byte : ℕ → ℕ → ℕ → M (Unit {0})
string_set_byte value index byte = do
  p ← expect_object value (some Kind.string)
  o ← load p
  if leb o.length index
      then aborts
      else (if leb (length o.bytes) index
          then (λ _. fault)
          else modify p (λ o. record o { bytes = set o.bytes index byte }))

-- memcmp(a, b, n) == 0
unfoldable pub same_bytes : ℕ → List ℕ → List ℕ → Bool
same_bytes zero xs ys = true
same_bytes (suc n) (x ∷ xs) (y ∷ ys) = (x == y) && same_bytes n xs ys
same_bytes (suc n) _ _ = false

-- psl_rt_strings_equal
unfoldable pub strings_equal : ℕ → ℕ → M Bool
unfolding same_bytes
strings_equal left right = do
  a ← expect_object left (some Kind.string)
  b ← expect_object right (some Kind.string)
  x ← load a
  y ← load b
  if not (x.length == y.length)
      then pure false
      else (if ltb (length x.bytes) x.length || ltb (length y.bytes) x.length
          then (λ _. fault)
          else pure (same_bytes x.length x.bytes y.bytes))
