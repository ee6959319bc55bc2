-- ===== src/Steps/Registries.antt =====
-- The operations on the heap and the registries: the handles, the permanent roots and the array of the
-- multiple values.
pub mod Containers
use portable_systems_lisp.Base.{
  ℕ, zero, suc, ◌+◌, Bool, true, false, not, Option, none, some, List, [], ◌∷◌, ◌==◌, if◌then◌else◌,
  leb, ltb, ◌||◌, ◌-◌, bit_and, length,
}
use portable_systems_lisp.Outcome.{Outcome, ok, abort, fault, out_of_fuel}
use portable_systems_lisp.Machine.{
  object_size, size_max, ◌>>=◌, Kind, Runtime, Host, pure, when_abort,
}
use portable_systems_lisp.Machine.Leaves.{
  Ends, ended, aborted, faulted, unended, Leaves, Same-refl, Same-state, Ends-option, Ends-if,
  Leaves-reads, Leaves-bind, Leaves-if, Leaves-pure, Leaves-aborts, Leaves-load, Leaves-expect,
  Leaves-store, Leaves-push_roots, Leaves-any, leaves_rules,
}
use portable_systems_lisp.Gc.{
  lift, stack_top, finish, scan_part, collect_objects, new_object, make_room, allocate_object,
  start_marking, mark_registered_roots, trace, Marking,
}
use portable_systems_lisp.Frames.{Frame, store_words, open_frame}
use portable_systems_lisp.Cons.{make_cons}
use portable_systems_lisp.Symbols.{
  make_symbol, make_package, find_symbol, intern_new, after_search, intern_symbol,
}
use portable_systems_lisp.Value.{nil}
use portable_systems_lisp.Closures.{make_closure}
use portable_systems_lisp.Text.{make_string, copy_string_bytes, string_set_byte, strings_equal}
use portable_systems_lisp.Vector.{
  vector_storage_bytes, grown_capacity, make_storage, expect_vector, vector_storage, read,
  make_value_vector, write_item, value_vector_set, copy_items, grow_vector, value_vector_push,
}

pub Leaves-lift : {A : Type 0} (r : Outcome A) → Leaves (lift r)
Leaves-lift (ok a) = record { leaves = λ s. ended a s (Same-refl s) }
Leaves-lift abort = record { leaves = λ s. aborted }
Leaves-lift fault = record { leaves = λ s. faulted }
Leaves-lift out_of_fuel = record { leaves = λ s. unended }

pub Leaves-when_abort : (b : Bool) → Leaves (when_abort b)
Leaves-when_abort true = Leaves-aborts
Leaves-when_abort false = Leaves-pure

Leaves-stack_top : (host : Host) → Leaves (stack_top host)
unfolding stack_top
Leaves-stack_top host = record { leaves = λ s. topped s (s.stack_top == 0) }
  where
    topped :
        (s : Runtime) (first : Bool)
        → Ends s (
            if first
            then elim host.platform_stack_top as (λ _. Outcome (ℕ × Runtime)) [
              | none ↦ abort
              | some top ↦ ok (top, record s { stack_top = top })
            ]
            else ok (s.stack_top, s))
    topped s true =
        Ends-option host.platform_stack_top abort _ aborted
          (λ top. ended top _ (Same-state s _ _ _ _ _ _ _))
    topped s false = ended s.stack_top s (Same-refl s)

Leaves-finish : (m : Marking) → Leaves (finish m)
unfolding finish
Leaves-finish m = record { leaves = λ s. ended tt _ (Same-state s _ _ _ _ _ _ _) }

Leaves-scan_part : (host : Host) (scan : Bool) (m : Marking) → Leaves (scan_part host scan m)
unfolding scan_part
Leaves-scan_part host true m = search (leaves_rules, Leaves-stack_top, Leaves-lift)
Leaves-scan_part host false m = Leaves-pure

pub Leaves-collect_objects : (host : Host) (scan : Bool) → Leaves (collect_objects host scan)
unfolding collect_objects
Leaves-collect_objects host scan =
    let from = λ (s : Runtime). (do
      m ← lift (mark_registered_roots s (start_marking s))
      m ← scan_part host scan m
      m ← lift (trace (length s.objects) m)
      finish m) in
    let marked : Leaves (λ s. from s s) = Leaves-reads from (λ s.
      Leaves-bind (Leaves-lift (mark_registered_roots s (start_marking s))) (λ m.
        Leaves-bind (Leaves-scan_part host scan m)
          (λ m. Leaves-bind (Leaves-lift (trace (length s.objects) m)) Leaves-finish))) in
    Leaves-bind (Leaves-when_abort (not host.malloc)) (λ _. marked)

Leaves-new_object : (host : Host) (k : Kind) (extra : ℕ) → Leaves (new_object host k extra)
unfolding new_object
Leaves-new_object host k extra = Leaves-any (new_object host k extra) (λ s.
    Ends-if (ltb (size_max - object_size) extra) _ _ aborted (
      Ends-if (host.calloc == 0 || not (bit_and host.calloc 7 == 0)) _ _ aborted
        (ended host.calloc _ (Same-state s _ _ _ _ _ _ _))))

Leaves-make_room : (host : Host) (scan : Bool) → Leaves (make_room host scan)
unfolding make_room
Leaves-make_room host scan =
    let when_full = λ (s : Runtime).
      (if leb s.collection_limit s.object_count then collect_objects host scan else pure tt) in
    let rest : Leaves (λ s. when_full s s) = Leaves-reads when_full (λ s.
      Leaves-if (leb s.collection_limit s.object_count) (Leaves-collect_objects host scan)
        Leaves-pure) in
    Leaves-bind
      (Leaves-if scan (Leaves-bind (Leaves-stack_top host) (λ _. Leaves-pure {a = tt})) Leaves-pure)
      (λ _. rest)

pub Leaves-allocate_object :
    (host : Host) (k : Kind) (extra : ℕ) (scan : Bool) → Leaves (allocate_object host k extra scan)
unfolding allocate_object
Leaves-allocate_object host k extra scan =
    search (leaves_rules, Leaves-make_room, Leaves-new_object)

Leaves-store_words : (vs : List ℕ) (base : ℕ) → Leaves (store_words base vs)
unfolding store_words
Leaves-store_words [] base = Leaves-pure
Leaves-store_words (v ∷ vs) base =
    Leaves-bind (Leaves-store base v) (λ _. Leaves-store_words vs (base + 8))

pub Leaves-open_frame : (f : Frame) (vs : List ℕ) → Leaves (open_frame f vs)
unfolding open_frame
Leaves-open_frame f vs =
    Leaves-bind (Leaves-store_words vs f.values)
      (λ _. Leaves-push_roots f.root f.values (length vs))

pub ruleset heap_rules = (leaves_rules, Leaves-lift, Leaves-allocate_object, Leaves-open_frame)

pub Leaves-make_cons :
    (host : Host) (f : Frame) (first rest : ℕ) (precise : Bool)
    → Leaves (make_cons host f first rest precise)
unfolding make_cons
Leaves-make_cons host f first rest precise = search heap_rules depth 16

pub Leaves-make_symbol :
    (host : Host) (f : Frame) (name : ℕ) (precise : Bool) → Leaves (make_symbol host f name precise)
unfolding make_symbol
Leaves-make_symbol host f name precise = search heap_rules depth 16

pub Leaves-make_package :
    (host : Host) (f : Frame) (name : ℕ) (precise : Bool)
    → Leaves (make_package host f name precise)
unfolding make_package
Leaves-make_package host f name precise = search heap_rules depth 16

pub Leaves-make_closure :
    (host : Host) (f : Frame) (code environment : ℕ) (precise : Bool)
    → Leaves (make_closure host f code environment precise)
unfolding make_closure
Leaves-make_closure host f code environment precise = search heap_rules depth 16

pub Leaves-make_string :
    (host : Host) (size byte : ℕ) (precise : Bool) → Leaves (make_string host size byte precise)
unfolding make_string
Leaves-make_string host size byte precise = search heap_rules depth 16

pub Leaves-copy_string_bytes :
    (host : Host) (source : Option (List ℕ)) (size : ℕ) (precise : Bool)
    → Leaves (copy_string_bytes host source size precise)
unfolding copy_string_bytes
Leaves-copy_string_bytes host none size precise = search (heap_rules, Leaves-make_string)
Leaves-copy_string_bytes host (some source) size precise =
    search (heap_rules, Leaves-make_string) depth 16

pub Leaves-string_set_byte : (value index byte : ℕ) → Leaves (string_set_byte value index byte)
unfolding string_set_byte
Leaves-string_set_byte value index byte = search heap_rules depth 16
