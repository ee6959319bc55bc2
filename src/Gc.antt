-- ===== src/Gc.antt =====
-- runtime/gc.c, the collector and the allocator, with runtime/startup.c: marking from the registered
-- roots and, in a conservative collection, from the words of the stack; sweeping; and allocation,
-- which collects first when the object count has reached the limit.
--
-- `Marking` holds the locals of `collect_objects`: `pending` is work[index .. used) and `capacity`
-- the number of elements of `work`; a write past them is a fault. The loop over `work` runs on fuel,
-- a round for each object of the heap.
pub mod Reach
pub mod Unmark
pub mod Mark
pub mod Trace
pub mod Sweep
pub mod Collect
pub mod Survive
pub mod Expect
pub mod Allocate
pub mod Total
use portable_systems_lisp.Base.{
  ℕ, zero, suc, ◌+◌, ◌-◌, ◌*◌, ◌/◌, ◌≡◌, Bool, true, false, not, ◌||◌, Option, none, some, List, [],
  ◌∷◌, ◌++◌, map, ltb, leb, ◌==◌, if◌then◌else◌, length, take, replicate, bit_and,
}
use portable_systems_lisp.Outcome
use portable_systems_lisp.Outcome.{Outcome, ok, abort, fault, out_of_fuel}
use portable_systems_lisp.Machine.{
  Kind, kind_code, Object, Root, ValueHandle, Runtime, Host, object_size, size_max, M, pure,
  and_then, ◌>>=◌, ◌>>◌, when_abort, get, lookup, update, find_object, read_words,
}

pub record Marking : Type 0 where
  pub objects : List Object
  pub pending : List ℕ
  pub used : ℕ
  pub capacity : ℕ

abbrev pub set_marked : Bool → Object → Object
set_marked b o = record o { marked = b }

unfoldable pub mark_value : ℕ → Marking → Outcome Marking
mark_value value m = elim (find_object value m.objects) [
  | none ↦ ok m
  | some o ↦
      if o.marked
      then ok m
      else if ltb m.used m.capacity
      then ok (record m {
        objects = update o.address (set_marked true) m.objects;
        pending = m.pending ++ o.address ∷ [];
        used = m.used + 1;
      })
      else fault
]

unfoldable pub mark_values : List ℕ → Marking → Outcome Marking
mark_values [] m = ok m
mark_values (v ∷ vs) m = Outcome.◌>>=◌ (mark_value v m) (mark_values vs)

unfoldable pub mark_frames : (ℕ → ℕ) → List Root → Marking → Outcome Marking
mark_frames memory [] m = ok m
mark_frames memory (r ∷ rs) m =
    Outcome.◌>>=◌ (mark_values (read_words memory r.values r.count) m) (mark_frames memory rs)

unfoldable pub mark_registered_roots : Runtime → Marking → Outcome Marking
unfolding mark_frames mark_values
mark_registered_roots s m = Outcome.◌>>=◌ (mark_frames s.memory s.roots m) λ m.
    Outcome.◌>>=◌ (mark_frames s.memory s.permanent_roots m)
      (mark_values (map (λ h. h.value) s.value_handles))

-- The words that `mark_stack` reads: `marker` rounded up to 8, then every word that ends by `top`.
unfoldable pub stack_words : (ℕ → ℕ) → ℕ → ℕ → List ℕ
unfolding read_words
stack_words memory marker top =
    let start = (marker + 7) / 8 * 8 in read_words memory start ((top - start) / 8)

unfoldable pub mark_stack : (ℕ → ℕ) → ℕ → ℕ → Marking → Outcome Marking
unfolding stack_words mark_values
mark_stack memory marker top m =
    if ltb top ((marker + 7) / 8 * 8) then abort else mark_values (stack_words memory marker top) m

-- The switch of `mark_children`; none is its abort.
unfoldable pub slot_count : Kind → Option ℕ
slot_count Kind.cons = some 2
slot_count Kind.string = some 0
slot_count Kind.symbol = some 3
slot_count Kind.package_object = some 2
slot_count Kind.closure = some 1
slot_count Kind.value_vector = some 1
slot_count Kind.value_vector_storage = none

abbrev pub slots : Object → List ℕ
slots o = o.slot_0 ∷ o.slot_1 ∷ o.slot_2 ∷ []

-- A storage whose `length` exceeds its allocated items is read out of bounds.
unfoldable pub mark_children : Object → Marking → Outcome Marking
unfolding mark_values slot_count
mark_children o m =
    if kind_code o.kind == kind_code Kind.value_vector_storage
    then (if ltb (length o.items) o.length then fault else mark_values (take o.length o.items) m)
    else elim (slot_count o.kind) [ none ↦ abort | some n ↦ mark_values (take n (slots o)) m ]

-- The loop `for (index = 0; index < used; index++)` of `collect_objects`.
unfoldable pub trace : ℕ → Marking → Outcome Marking
unfolding mark_children
trace zero m = elim m.pending [ [] ↦ ok m | _ ∷ _ ↦ out_of_fuel ]
trace (suc fuel) m = elim m.pending [
  | [] ↦ ok m
  | a ∷ rest ↦ elim (lookup a m.objects) [
    | none ↦ fault
    | some o ↦ Outcome.◌>>=◌ (mark_children o (record m { pending = rest })) (trace fuel)
  ]
]

-- The objects that stay, unmarked, and the count less one for each object freed.
unfoldable pub sweep_objects : List Object → ℕ → List Object × ℕ
sweep_objects [] count = ([], count)
sweep_objects (o ∷ os) count =
    let rest = sweep_objects os (if o.marked then count else count - 1) in
    (if o.marked then set_marked false o ∷ rest.0 else rest.0, rest.1)

-- psl_rt_stack_top
unfoldable pub stack_top : Host → M ℕ
stack_top host s =
    if s.stack_top == 0
    then elim host.platform_stack_top [
      | none ↦ abort
      | some top ↦ ok (top, record s { stack_top = top })
    ]
    else ok (s.stack_top, s)

abbrev pub lift : {A : Type 0} → Outcome A → M A
lift (ok a) s = ok (a, s)
lift abort s = abort
lift fault s = fault
lift out_of_fuel s = out_of_fuel

-- The work array: malloc is asked for one element where there is no object.
unfoldable pub start_marking : Runtime → Marking
start_marking s = record {
  objects = s.objects;
  pending = [];
  used = 0;
  capacity = if s.object_count == 0 then 1 else s.object_count;
}

-- What follows the marking.
unfoldable pub finish : Marking → M (Unit {0})
unfolding sweep_objects
finish m s =
    let (objects, count) = sweep_objects m.objects s.object_count in
    ok (
      tt,
      record s {
        objects = objects;
        object_count = count;
        collection_limit = if ltb count 128 then 256 else count * 2;
      },
    )

unfoldable pub scan_part : Host → Bool → Marking → M Marking
unfolding stack_top mark_stack
scan_part host true m = do
  top ← stack_top host
  s ← get
  lift (mark_stack s.memory host.marker top m)
scan_part host false m = pure m

unfoldable pub collect_objects : Host → Bool → M (Unit {0})
unfolding start_marking mark_registered_roots scan_part trace finish
collect_objects host scan_stack = do
  when_abort (not host.malloc)
  s ← get
  m ← lift (mark_registered_roots s (start_marking s))
  m ← scan_part host scan_stack m
  m ← lift (trace (length s.objects) m)
  finish m

-- psl_rt_collect
unfoldable pub collect : Host → M (Unit {0})
unfolding collect_objects
collect host = collect_objects host true

-- psl_rt_collect_precise
unfoldable pub collect_precise : Host → M (Unit {0})
unfolding collect_objects
collect_precise host = collect_objects host false

-- What calloc leaves: zeros everywhere, `extra` of them in the tail.
abbrev pub blank : ℕ → Kind → ℕ → Object
blank a k extra = record {
  address = a;
  kind = k;
  marked = false;
  length = 0;
  slot_0 = 0;
  slot_1 = 0;
  slot_2 = 0;
  code = 0;
  bytes = replicate extra 0;
  items = replicate (extra / 8) 0;
}

unfoldable pub new_object : Host → Kind → ℕ → M ℕ
new_object host k extra s =
    if ltb (size_max - object_size) extra
    then abort
    else if host.calloc == 0 || not (bit_and host.calloc 7 == 0)
    then abort
    else ok (
      host.calloc,
      record s {
        objects = blank host.calloc k extra ∷ s.objects;
        object_count = s.object_count + 1;
      },
    )

-- The part of `allocate_object` before the call of `new_object`.
unfoldable pub make_room : Host → Bool → M (Unit {0})
make_room host scan_stack = do
  (if scan_stack then (do stack_top host; pure tt) else pure tt)
  s ← get
  (if leb s.collection_limit s.object_count then collect_objects host scan_stack else pure tt)

unfoldable pub allocate_object : Host → Kind → ℕ → Bool → M ℕ
allocate_object host k extra scan_stack = do make_room host scan_stack; new_object host k extra

-- psl_rt_live_objects
unfoldable pub live_objects : M ℕ
live_objects s = ok (s.object_count, s)
