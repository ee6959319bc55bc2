-- ===== src/Gc/Total.antt =====
-- runtime/gc.c: the ends of a collection and of an allocation, the host's refusals included.
use portable_systems_lisp.Base.{
  ℕ, ◌+◌, ◌-◌, ◌*◌, ◌/◌, ◌≡◌, ◌⊎◌, refl, ◌∙◌, inl, inr, Bool, true, false, not, ◌||◌, none, some,
  ◌==◌, ltb, leb, if◌then◌else◌, Bool-cases, Option-cases, arith, bit_and, ==-refl,
}
use portable_systems_lisp.Outcome.{Outcome, ok, abort}
use portable_systems_lisp.Machine.{object_size, size_max, Kind, Object, Runtime, Host, lookup}
use portable_systems_lisp.Gc.{
  start_marking, mark_stack, stack_top, scan_part, collect_objects, collect, collect_precise,
  make_room, new_object, allocate_object, blank,
}
use portable_systems_lisp.Gc.Allocate.{with_blank}
use portable_systems_lisp.Gc.Reach.{IsHeap, root_words}
use portable_systems_lisp.Gc.Collect.{
  mark_registered_roots_lem, mark_trace, collect_precise_lem, top_of, with_top, stack_top_lem,
  IsHeap-with_top, collect_lem,
}

-- A run that aborts or returns.
abbrev pub Returns : {A : Type 0} → (A → Runtime → Type 0) → Outcome (A × Runtime) → Type 0
Returns {A} P r = (r ≡ abort) ⊎ ((a : A) × (s' : Runtime) × (r ≡ ok (a, s')) × P a s')

-- A well-formed heap, and the root frames of `s`.
abbrev pub Kept : Runtime → Unit {0} → Runtime → Type 0
Kept s _ s' = IsHeap s' × (s'.roots ≡ s.roots)

stack_top-none : (host : Host) (s : Runtime) → top_of host s ≡ none → stack_top host s ≡ abort
unfolding stack_top
stack_top-none host s unknown = ground arith

collect-Returns :
    (host : Host) (s : Runtime) → IsHeap s → Returns (Kept s) (collect_objects host true s)
unfolding collect_objects collect scan_part mark_stack
collect-Returns host s h =
    let (m, n, e, ends, t, empty) = mark_trace s h (root_words s) in
    let start = (host.marker + 7) / 8 * 8 in
    let registered = mark_registered_roots_lem s (start_marking s) in
    elim (Bool-cases host.malloc) [
      | inr refused ↦ inl (rw refused refl)
      | inl memory ↦ elim (Option-cases (top_of host s)) [
        | inl unknown ↦ inl (rw (memory, registered, e, stack_top-none host s unknown) refl)
        | inr (top, known) ↦ elim (Bool-cases (ltb top start)) [
          | inl above ↦
              inl
                (rw (memory, registered, e, stack_top_lem host s top known, mark_stack, above) refl)
          | inr below ↦
              let (s', ran, c) = collect_lem host s top memory known (ground arith) h in
              inr (tt, s', ran, (c.heap, c.statics.roots))
        ]
      ]
    ]

collect_precise-Returns :
    (host : Host) (s : Runtime) → IsHeap s → Returns (Kept s) (collect_objects host false s)
unfolding collect_objects collect_precise
collect_precise-Returns host s h = elim (Bool-cases host.malloc) [
  | inr refused ↦ inl (rw refused refl)
  | inl memory ↦
      let (s', ran, c) = collect_precise_lem host s memory h in
      inr (tt, s', ran, (c.heap, c.statics.roots))
]

if_full-Returns :
    (host : Host) (s : Runtime) (scan : Bool)
    → IsHeap s
    → Returns (Kept s) (
        (if leb s.collection_limit s.object_count
            then collect_objects host scan
            else (λ r. ok (tt, r)))
          s)
if_full-Returns host s scan h = elim (Bool-cases (leb s.collection_limit s.object_count)) [
  | inr free ↦ rw free (inr (tt, s, refl, (h, refl)))
  | inl full ↦ rw full (collects scan)
]
  where
    collects : (scan : Bool) → Returns (Kept s) (collect_objects host scan s)
    collects true = collect-Returns host s h
    collects false = collect_precise-Returns host s h

make_room-Returns :
    (host : Host) (s : Runtime) (scan : Bool) → IsHeap s → Returns (Kept s) (make_room host scan s)
unfolding make_room
make_room-Returns host s false h = if_full-Returns host s false h
make_room-Returns host s true h = elim (Option-cases (top_of host s)) [
  | inl unknown ↦ inl (rw (stack_top-none host s unknown) refl)
  | inr (top, known) ↦
      rw (stack_top_lem host s top known)
        (if_full-Returns host (with_top s top) true (IsHeap-with_top s top h))
]

-- An object that is there, and the root frames of `s`.
abbrev pub Holds : Runtime → ℕ → Runtime → Type 0
Holds s a s' = ((o : Object) × (lookup a s'.objects ≡ some o)) × (s'.roots ≡ s.roots)

new_object-Returns :
    (host : Host) (k : Kind) (extra : ℕ) (s : Runtime)
    → Returns (Holds s) (new_object host k extra s)
unfolding new_object lookup
new_object-Returns host k extra s = elim (Bool-cases (ltb (size_max - object_size) extra)) [
  | inl huge ↦ inl (rw huge refl)
  | inr fits ↦ elim (Bool-cases (host.calloc == 0 || not (bit_and host.calloc 7 == 0))) [
    | inl refused ↦ inl (rw (fits, refused) refl)
    | inr block ↦ inr (
      host.calloc,
      with_blank host k extra s,
      rw (fits, block) refl,
      ((blank host.calloc k extra, rw (==-refl host.calloc) refl), refl),
    )
  ]
]

-- Whatever the host answers, an allocation in a well-formed heap aborts or yields an object that is
-- there, with the root frames as before.
pub allocate_object-Returns :
    (host : Host) (k : Kind) (extra : ℕ) (scan : Bool) (s : Runtime)
    → IsHeap s
    → Returns (Holds s) (allocate_object host k extra scan s)
unfolding allocate_object
allocate_object-Returns host k extra scan s h = elim (make_room-Returns host s scan h) [
  | inl refused ↦ inl (rw refused refl)
  | inr (u, s₁, room, (heap, same)) ↦ elim (new_object-Returns host k extra s₁) [
    | inl refused ↦ inl (rw (room, refused) refl)
    | inr (a, s₂, made, (held, roots)) ↦ inr (a, s₂, rw (room, made) refl, (held, roots ∙ same))
  ]
]
