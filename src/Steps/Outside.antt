-- ===== src/Steps/Outside.antt =====
-- The operations outside the heap: handles, multiple values, root frames and the client's own memory.
use portable_systems_lisp.Base.{
  ℕ, ◌≡◌, ◌≢◌, ◌⊎◌, sym, ◌∙◌, subst, true, ◌==◌, is_some, arith, inl, inr, Bool-cases, Option-cases,
  Memᴰ,
}
use portable_systems_lisp.Outcome.{ok}
use portable_systems_lisp.Machine.{Runtime, Host, size_max, pop_roots, push_roots, store}
use portable_systems_lisp.Gc.Reach.{IsHeap}
use portable_systems_lisp.Handles.{
  find_handle, find_value_handle, value_handle_open, value_handle_set, value_handle_close,
}
use portable_systems_lisp.Handles.Registry.{IsRegistry}
use portable_systems_lisp.Handles.Tokens.{
  value_handle_open_lem, value_handle_set-open, value_handle_close_lem,
}
use portable_systems_lisp.Multiple.{values2}
use portable_systems_lisp.Multiple.Laws.{IsRegistered, values2_lem}
use portable_systems_lisp.Steps.Sound.{IsSound, same_end}

-- The heap and its count are as before.
pub record SameHeap (s s' : Runtime) : Type 0 where
  objects : s'.objects ≡ s.objects
  object_count : s'.object_count ≡ s.object_count

IsHeap-same : (s s' : Runtime) → SameHeap s s' → IsHeap s → IsHeap s'
IsHeap-same s s' same h = record {
  distinct = rw same.objects h.distinct;
  aligned = rw same.objects h.aligned;
  unmarked = rw same.objects h.unmarked;
  sized = rw same.objects h.sized;
  counted = rw same.objects (same.object_count ∙ h.counted);
}

-- The static array of the multiple values and its registration are as before.
pub record SameValues (s s' : Runtime) : Type 0 where
  permanent_roots : s'.permanent_roots ≡ s.permanent_roots
  current_values : s'.current_values ≡ s.current_values
  initialized : s'.initialized ≡ s.initialized

value_handle_open-outside :
    (host : Host) (s s' : Runtime) (token : ℕ)
    → value_handle_open host s ≡ ok (token, s')
    → SameHeap s s' × SameValues s s'
unfolding value_handle_open
value_handle_open-outside host s s' token ran = ground arith

value_handle_set-outside :
    (token value : ℕ) (s s' : Runtime)
    → value_handle_set token value s ≡ ok (tt, s')
    → SameHeap s s' × SameValues s s'
unfolding value_handle_set find_value_handle
value_handle_set-outside token value s s' ran = elim (Bool-cases (token == 0)) [
  | inl none_such ↦ ground arith
  | inr some_token ↦ elim (Option-cases (find_handle token s.value_handles)) [
    | inl closed ↦ ground arith
    | inr (h, open_handle) ↦ ground arith
  ]
]

value_handle_close-outside :
    (token : ℕ) (s s' : Runtime)
    → value_handle_close token s ≡ ok (tt, s')
    → SameHeap s s' × SameValues s s'
unfolding value_handle_close
value_handle_close-outside token s s' ran = ground arith

IsRegistered-values : (s s' : Runtime) → SameValues s s' → IsRegistered s → IsRegistered s'
IsRegistered-values s s' same reg = λ done.
    let (r, listed, at, size) = reg (sym same.initialized ∙ done) in
    (
      r,
      subst (λ rs. Memᴰ r rs) (sym same.permanent_roots) listed,
      at ∙ sym same.current_values,
      size,
    )

pub outside-IsSound :
    (s s' : Runtime) → SameHeap s s' × SameValues s s' → IsRegistry s' → IsSound s → IsSound s'
outside-IsSound s s' same registry sound = record {
  heap = IsHeap-same s s' same.0 sound.heap;
  registry = registry;
  values = IsRegistered-values s s' same.1 sound.values;
}

pub value_handle_open-IsSound :
    (host : Host) (s s' : Runtime) (token : ℕ)
    → host.malloc ≡ true
    → s.next_value_handle ≢ size_max
    → value_handle_open host s ≡ ok (token, s')
    → IsSound s
    → IsSound s'
value_handle_open-IsSound host s s' token memory more ran sound =
    let (t, e, registry, free, others, next) =
      value_handle_open_lem host s memory more sound.registry in
    outside-IsSound s s' (value_handle_open-outside host s s' token ran)
      (subst IsRegistry (same_end e ran) registry) sound

pub value_handle_set-IsSound :
    (token value : ℕ) (s s' : Runtime)
    → is_some (find_handle token s.value_handles) ≡ true
    → value_handle_set token value s ≡ ok (tt, s')
    → IsSound s
    → IsSound s'
value_handle_set-IsSound token value s s' known ran sound =
    let (t, e, done) = value_handle_set-open token value s sound.registry known in
    outside-IsSound s s' (value_handle_set-outside token value s s' ran)
      (subst IsRegistry (same_end e ran) done.registry) sound

pub value_handle_close-IsSound :
    (token : ℕ) (s s' : Runtime)
    → is_some (find_handle token s.value_handles) ≡ true
    → value_handle_close token s ≡ ok (tt, s')
    → IsSound s
    → IsSound s'
value_handle_close-IsSound token s s' known ran sound =
    let (t, e, registry, free, others, next) =
      value_handle_close_lem token s sound.registry known in
    outside-IsSound s s' (value_handle_close-outside token s s' ran)
      (subst IsRegistry (same_end e ran) registry) sound

record SameHandles (s s' : Runtime) : Type 0 where
  value_handles : s'.value_handles ≡ s.value_handles
  next_value_handle : s'.next_value_handle ≡ s.next_value_handle
  value_handle_count : s'.value_handle_count ≡ s.value_handle_count

values2-outside :
    (host : Host) (root first second answer : ℕ) (s s' : Runtime)
    → values2 host root first second s ≡ ok (answer, s')
    → SameHeap s s' × SameHandles s s'
unfolding values2
values2-outside host root first second answer s s' ran = elim (Bool-cases s.initialized) [
  | inl done ↦ ground arith
  | inr first_time ↦ ground arith
]

IsRegistry-handles : (s s' : Runtime) → SameHandles s s' → IsRegistry s → IsRegistry s'
IsRegistry-handles s s' same r = record {
  distinct = rw same.value_handles r.distinct;
  issued = rw (same.value_handles, same.next_value_handle) r.issued;
  next = rw same.next_value_handle r.next;
  counted = rw same.value_handles (same.value_handle_count ∙ r.counted);
}

pub values2-IsSound :
    (host : Host) (root first second answer : ℕ) (s s' : Runtime)
    → (s.initialized ≡ true) ⊎ (host.malloc ≡ true)
    → values2 host root first second s ≡ ok (answer, s')
    → IsSound s
    → IsSound s'
values2-IsSound host root first second answer s s' can ran sound =
    let (t, e, n, count, first_rooted, second_rooted, registered, objects, roots) =
      values2_lem host root s first second can sound.values in
    let same = values2-outside host root first second answer s s' ran in
    record {
      heap = IsHeap-same s s' same.0 sound.heap;
      registry = IsRegistry-handles s s' same.1 sound.registry;
      values = subst IsRegistered (same_end e ran) registered;
    }

pub push_roots-IsSound :
    (root values count : ℕ) (s s' : Runtime)
    → push_roots root values count s ≡ ok (tt, s')
    → IsSound s
    → IsSound s'
unfolding push_roots
push_roots-IsSound root values count s s' ran sound =
    let same : SameHeap s s' × SameValues s s' = ground arith in
    let handles : SameHandles s s' = ground arith in
    outside-IsSound s s' same (IsRegistry-handles s s' handles sound.registry) sound

pub pop_roots-IsSound :
    (root : ℕ) (s s' : Runtime) → pop_roots root s ≡ ok (tt, s') → IsSound s → IsSound s'
unfolding pop_roots
pop_roots-IsSound root s s' ran sound =
    let same : SameHeap s s' × SameValues s s' = ground arith in
    let handles : SameHandles s s' = ground arith in
    outside-IsSound s s' same (IsRegistry-handles s s' handles sound.registry) sound

pub store-IsSound : (a v : ℕ) (s s' : Runtime) → store a v s ≡ ok (tt, s') → IsSound s → IsSound s'
unfolding store
store-IsSound a v s s' ran sound =
    let same : SameHeap s s' × SameValues s s' = ground arith in
    let handles : SameHandles s s' = ground arith in
    outside-IsSound s s' same (IsRegistry-handles s s' handles sound.registry) sound
