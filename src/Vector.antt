-- ===== src/Vector.antt =====
-- runtime/vector.c: growable vectors of values. The header object keeps its address; the storage
-- object behind its first slot is replaced when it is full.
pub mod Capacity
pub mod Laws
pub mod Moved
pub mod Grow
pub mod Append
pub mod Push
pub mod Make
pub mod Filled
use portable_systems_lisp.Base.{
  ◌%◌, ◌^◌, ℕ, zero, suc, ◌+◌, ◌-◌, ◌*◌, ◌/◌, Bool, true, false, Option, none, some, List, [], ◌∷◌,
  ◌++◌, ltb, leb, ◌==◌, if◌then◌else◌, length, get_elem?, set, take, drop,
}
use portable_systems_lisp.Outcome
use portable_systems_lisp.Outcome.{Outcome, ok, abort, fault, out_of_fuel}
use portable_systems_lisp.Machine.{
  Kind, Object, Runtime, Host, M, pure, aborts, ◌>>=◌, ◌>>◌, and_then, get, object_size, size_max,
  load, modify, expect_object, pop_roots, store,
}
use portable_systems_lisp.Gc.{lift, allocate_object}
use portable_systems_lisp.Frames.{Frame, open_frame}
use portable_systems_lisp.Text.{fill}
use portable_systems_lisp.Value.{nil}

unfoldable pub vector_storage_bytes : ℕ → Outcome ℕ
vector_storage_bytes capacity =
    if ltb ((size_max - object_size) / 8) capacity then abort else ok (capacity * 8)

unfoldable pub make_storage : Host → ℕ → M ℕ
make_storage host capacity = do
  n ← lift (vector_storage_bytes capacity)
  storage ← allocate_object host Kind.value_vector_storage n false
  modify storage (λ o. record o { length = capacity })
  modify storage (λ o. record o { items = fill capacity nil o.items })
  pure storage

unfoldable pub expect_vector : ℕ → M ℕ
expect_vector value = expect_object value (some Kind.value_vector)

unfoldable pub vector_storage : ℕ → M ℕ
vector_storage vector = do o ← load vector; expect_object o.slot_0 (some Kind.value_vector_storage)

-- A word of a root array, as the code reads it back.
unfoldable pub read : ℕ → M ℕ
read a s = ok (s.memory a, s)

-- The first half of psl_rt_make_value_vector_precise: the header, of its final length but without a
-- storage, in the first word of the frame.
abbrev pub header_made : Host → Frame → ℕ → ℕ → M ℕ
header_made host f size initial = do
  open_frame f (nil ∷ initial ∷ [])
  vector ← allocate_object host Kind.value_vector 0 false
  store f.values vector
  modify vector (λ o. record o { length = size })
  pure vector

-- `host` answers the allocation of the header and `host'` that of the storage.
unfoldable pub make_value_vector : Host → Host → Frame → ℕ → ℕ → M ℕ
make_value_vector host host' f size initial = do
  vector ← header_made host f size initial
  storage ← make_storage host' size
  item ← read (f.values + 8)
  modify storage (λ o. record o { items = fill size item o.items })
  modify vector (λ o. record o { slot_0 = storage })
  result ← read f.values
  pop_roots f.root
  pure result

-- psl_rt_value_vector_length
unfoldable pub value_vector_length : ℕ → M ℕ
value_vector_length value = do p ← expect_vector value; o ← load p; pure o.length

-- items[index] of a storage; an element past the allocated ones is a fault.
unfoldable pub read_item : ℕ → ℕ → M ℕ
read_item storage index = do
  o ← load storage
  λ s. elim (get_elem? o.items index) [ none ↦ fault | some v ↦ ok (v, s) ]

unfoldable pub write_item : ℕ → ℕ → ℕ → M (Unit {0})
write_item storage index v = do
  o ← load storage
  (if leb (length o.items) index
      then (λ _. fault)
      else modify storage (λ x. record x { items = set x.items index v }))

-- psl_rt_value_vector_ref
unfoldable pub value_vector_ref : ℕ → ℕ → M ℕ
value_vector_ref value index = do
  vector ← expect_vector value
  o ← load vector
  if leb o.length index then aborts else do storage ← vector_storage vector; read_item storage index

-- psl_rt_value_vector_set
unfoldable pub value_vector_set : ℕ → ℕ → ℕ → M ℕ
value_vector_set value index item = do
  vector ← expect_vector value
  o ← load vector
  if leb o.length index
      then aborts
      else do storage ← vector_storage vector; write_item storage index item; pure item

-- The loop of `grown_capacity`, on fuel.
unfoldable pub grow : ℕ → ℕ → ℕ → Outcome ℕ
grow zero capacity required = out_of_fuel
grow (suc fuel) capacity required =
    let again = grow fuel (capacity * 2 % 2 ^ 64) required in
    if ltb capacity required
    then (if ltb (size_max / 2) capacity then ok required else again)
    else ok capacity

-- The capacity at least doubles in each round, so 64 rounds exceed every size.
unfoldable pub grown_capacity : ℕ → ℕ → Outcome ℕ
unfolding grow vector_storage_bytes
grown_capacity current required =
    Outcome.◌>>=◌ (grow 65 (if current == 0 then 4 else current) required)
      λ capacity. Outcome.◌>>=◌ (vector_storage_bytes capacity) λ _. ok capacity

-- memcpy of the first `n` items; reading or writing past the items is a fault.
unfoldable pub copy_items : ℕ → ℕ → ℕ → M (Unit {0})
copy_items to from n = do
  o ← load from
  d ← load to
  if ltb (length o.items) n
      then (λ _. fault)
      else (if ltb (length d.items) n
          then (λ _. fault)
          else modify to (λ x. record x { items = take n o.items ++ drop n x.items }))

-- The first word of the root array at `values` is the vector.
unfoldable pub grow_vector : Host → ℕ → ℕ → M (Unit {0})
grow_vector host values required = do
  value ← read values
  vector ← expect_vector value
  old_storage ← vector_storage vector
  old ← load old_storage
  capacity ← lift (grown_capacity old.length required)
  new_storage ← make_storage host capacity
  o ← load vector
  copy_items new_storage old_storage o.length
  modify vector (λ x. record x { slot_0 = new_storage })

-- psl_rt_value_vector_push_precise
unfoldable pub value_vector_push : Host → Frame → ℕ → ℕ → M ℕ
value_vector_push host f value item = do
  open_frame f (value ∷ item ∷ [])
  v ← read f.values
  vector ← expect_vector v
  o ← load vector
  if o.length == size_max then aborts else do
    storage ← vector_storage vector
    current ← load storage
    (if ltb current.length (o.length + 1)
        then grow_vector host f.values (o.length + 1)
        else pure tt)
    v ← read f.values
    vector ← expect_vector v
    storage ← vector_storage vector
    item ← read (f.values + 8)
    write_item storage o.length item
    modify vector (λ x. record x { length = o.length + 1 })
    pop_roots f.root
    pure o.length
