-- ===== src/Gc/Collect.antt =====
-- A whole collection: which objects stay, and the state around the heap.
use portable_systems_lisp.Base.{
  ℕ, ◌+◌, ◌*◌, ◌/◌, ◌≤◌, ◌≡◌, ◌↔◌, refl, sym, Bool, true, false, Option, none, some, List, [], ◌∷◌,
  ◌++◌, ◌==◌, if◌then◌else◌, ltb, length, arith, ap, inl, inr, subst, ⊎_elim, Memᴰ-nil, ◌∙◌,
  Bool-cases, Option-cases, All, length-map,
}
use mathlib.Core.Path.{fun_ext}
use portable_systems_lisp.Outcome
use portable_systems_lisp.Outcome.{ok, abort}
use portable_systems_lisp.Machine.{Object, Root, Runtime, Host, lookup, read_words}
use portable_systems_lisp.Machine.Objects.{Distinct}
use portable_systems_lisp.Machine.Statics.{SameStatics, SameStatics-heap}
use portable_systems_lisp.Gc.{
  Marking, set_marked, mark_values, mark_frames, mark_registered_roots, mark_stack, stack_words,
  trace, start_marking, finish, sweep_objects, collect_precise, stack_top, collect,
}
use portable_systems_lisp.Gc.Reach.{
  Reach, root, frame_words, root_words, IsHeap, IsSized, IsAligned,
}
use portable_systems_lisp.Gc.Unmark.{
  Distinct-clear, All-clear, clear, marked_at, unmarked, lookup-clear, clear-unmarked,
}
use portable_systems_lisp.Gc.Mark.{Marked, HasRoom, mark_values_lem, mark_values-append}
use portable_systems_lisp.Gc.Trace.{All-lookup, IsTracing, trace_lem, marked_at-Reach}
use portable_systems_lisp.Gc.Sweep.{
  swept, sweep_objects_lem, lookup-swept, Distinct-swept, All-swept, swept-unmarked,
}

mark_frames_lem :
    (memory : ℕ → ℕ) (rs : List Root) (m : Marking)
    → mark_frames memory rs m ≡ mark_values (frame_words memory rs) m
unfolding mark_frames frame_words mark_values
mark_frames_lem memory [] m = refl
mark_frames_lem memory (r ∷ rs) m = rw mark_values-append (
    ap (Outcome.◌>>=◌ (mark_values (read_words memory r.values r.count) m))
      (fun_ext (mark_frames_lem memory rs)))

-- The three loops of `mark_registered_roots` are one pass over the root words.
pub mark_registered_roots_lem :
    (s : Runtime) (m : Marking) → mark_registered_roots s m ≡ mark_values (root_words s) m
unfolding mark_registered_roots root_words
mark_registered_roots_lem s m =
    rw (mark_frames_lem s.memory s.roots m, mark_values-append)
      (ap (Outcome.◌>>=◌ (mark_values (frame_words s.memory s.roots) m))
        (fun_ext λ n. rw (mark_frames_lem s.memory s.permanent_roots n, mark_values-append)))

-- What a collection from the root words `ws` makes of `s`.
pub record Collected (ws : List ℕ) (s s' : Runtime) : Type 0 where
  pub heap : IsHeap s'
  pub kept :
      (a : ℕ) (o : Object)
      → (lookup a s'.objects ≡ some o) ↔ ((lookup a s.objects ≡ some o) × Reach s.objects ws a)
  pub limit : s'.collection_limit ≡ (if ltb s'.object_count 128 then 256 else s'.object_count * 2)
  pub statics : SameStatics s s'
  pub top : s'.stack_top ≡ s.stack_top

marked_at-unmarked :
    (os : List Object) (a : ℕ) → All (λ o. o.marked ≡ false) os → marked_at os a ≡ false
marked_at-unmarked os a h = elim (Option-cases (lookup a os)) [
  | inl free ↦ rw (free, marked_at)
  | inr (o, held) ↦ rw (held, marked_at) (All-lookup (λ o. o.marked ≡ false) a os o h held)
]

unmarked-le-length : (os : List Object) → unmarked os ≤ length os
unmarked-le-length [] = omega arith
unmarked-le-length (o ∷ os) = ground (arith, unmarked-le-length os)

module _ (s : Runtime) (h : IsHeap s) (ws : List ℕ) where
  start_marking-HasRoom : HasRoom (start_marking s)
  unfolding start_marking
  start_marking-HasRoom = ground (arith, unmarked-le-length s.objects, h.counted)

  IsTracing-start : (m : Marking) → Marked (start_marking s) ws m → IsTracing s.objects ws m
  unfolding start_marking
  IsTracing-start m k =
      let fresh = λ (v : ℕ). marked_at-unmarked s.objects v h.unmarked in
      record {
        same = k.same ∙ clear-unmarked s.objects h.unmarked;
        room = omega (arith, k.room, k.capacity, start_marking-HasRoom);
        seen = λ v i f. (k.marks v).1 (inr (i, f));
        queued = λ v i. ground (arith, k.queue v, Memᴰ-nil v);
        sound = λ v i. ⊎_elim (λ old. cc (fresh v)) (λ new. root new.0 new.1) ((k.marks v).0 i);
        closed = λ u v i c f. inl ((k.queue u).1 (inr (i, fresh u)));
      }

  -- Marking the words `ws` and tracing reaches a marking with an empty queue.
  pub mark_trace :
      (m n : Marking) × (mark_values ws (start_marking s) ≡ ok m)
      × (trace (length s.objects) m ≡ ok n)
      × IsTracing s.objects ws n
      × (n.pending ≡ [])
  unfolding start_marking
  mark_trace =
      let (m, e, k) = mark_values_lem ws (start_marking s) start_marking-HasRoom in
      let (n, ends, t, empty) =
        trace_lem s.objects ws h.sized (length s.objects) m (IsTracing-start m k)
          (omega (arith, k.work, unmarked-le-length s.objects)) in
      (m, n, e, ends, t, empty)

-- The state after the marking `m` of `s` was swept.
abbrev swept_state : Runtime → Marking → Runtime
swept_state s m = record s {
  objects = swept m.objects;
  object_count = length (swept m.objects);
  collection_limit =
      if ltb (length (swept m.objects)) 128 then 256 else length (swept m.objects) * 2;
}

length-clear : (os os' : List Object) → clear os ≡ os' → length os ≡ length os'
length-clear os os' e = sym (length-map (set_marked false) os) ∙ ap length e

module _ (s : Runtime) (h : IsHeap s) (ws : List ℕ) (m : Marking)
    (tracing : IsTracing s.objects ws m) where
  finish-swept : finish m s ≡ ok (tt, swept_state s m)
  unfolding finish
  finish-swept =
      let same = length-clear m.objects s.objects tracing.same in
      let (kept, counted) = sweep_objects_lem m.objects s.object_count (omega (arith, h.counted)) in
      let count : (sweep_objects m.objects s.object_count).1 ≡ length (swept m.objects) =
        omega (arith, h.counted) in
      rw (kept, count)

  Distinct-marked : Distinct m.objects
  Distinct-marked = Distinct-clear m.objects (subst Distinct (sym tracing.same) h.distinct)

  All-swept_same {ℓ} :
      (P : Object → Type ℓ)
      → ((b : Bool) (o : Object) → P o → P (set_marked b o))
      → All P s.objects
      → All P (swept m.objects)
  All-swept_same P keeps all = All-swept P (keeps false) m.objects (
      All-clear P (λ o. keeps o.marked (set_marked false o)) m.objects
        (subst (All P) (sym tracing.same) all))

  lookup-kept :
      (a : ℕ)
      → lookup a (swept m.objects) ≡ (if marked_at m.objects a then lookup a s.objects else none)
  lookup-kept a =
      rw (lookup-swept a m.objects Distinct-marked, ← lookup-clear a m.objects, tracing.same)

  Collected-swept : m.pending ≡ [] → Collected ws s (swept_state s m)
  Collected-swept empty = record {
    heap = record {
      distinct = Distinct-swept m.objects Distinct-marked;
      aligned = All-swept_same IsAligned (λ b o a. a) h.aligned;
      unmarked = swept-unmarked m.objects;
      sized = All-swept_same IsSized (λ b o a. a) h.sized;
      counted = refl;
    };
    kept = λ a o.
        let marks = marked_at-Reach s.objects ws m tracing empty a in
        elim (Bool-cases (marked_at m.objects a)) [
          | inl stays ↦ rw (lookup-kept a, stays) (λ e. (e, marks.0 stays), λ e. e.0)
          | inr goes ↦ rw (lookup-kept a, goes) (λ e. cc, λ e. cc (marks.1 e.1, goes))
        ];
    limit = refl;
    statics = SameStatics-heap s _ _ _ _;
    top = refl;
  }

-- Where malloc gives the work array, a precise collection of a well-formed heap returns: it does
-- not write past the array, reads no dangling pointer and ends. It keeps exactly the objects that
-- are reached from the registered roots, each unchanged, and leaves the rest of the state alone.
pub collect_precise_lem :
    (host : Host) (s : Runtime)
    → host.malloc ≡ true
    → IsHeap s
    → (s' : Runtime) × (collect_precise host s ≡ ok (tt, s')) × Collected (root_words s) s s'
unfolding collect_precise
collect_precise_lem host s memory h =
    let (m, n, e, ends, t, empty) = mark_trace s h (root_words s) in
    (
      swept_state s n,
      rw (memory, mark_registered_roots_lem s (start_marking s), e, ends) (finish-swept s h _ n t),
      Collected-swept s h (root_words s) n t empty,
    )

-- The answer of psl_rt_stack_top: the remembered address, or else the platform's.
abbrev pub top_of : Host → Runtime → Option ℕ
top_of host s = if s.stack_top == 0 then host.platform_stack_top else some s.stack_top

abbrev pub with_top : Runtime → ℕ → Runtime
with_top s top = record s { stack_top = top }

pub stack_top_lem :
    (host : Host) (s : Runtime) (top : ℕ)
    → top_of host s ≡ some top
    → stack_top host s ≡ ok (top, with_top s top)
unfolding stack_top
stack_top_lem host s top h = ground arith

pub IsHeap-with_top : (s : Runtime) (top : ℕ) → IsHeap s → IsHeap (with_top s top)
IsHeap-with_top s top h = record {
  distinct = h.distinct;
  aligned = h.aligned;
  unmarked = h.unmarked;
  sized = h.sized;
  counted = h.counted;
}

-- A conservative collection does the same with the words of the stack, from the local of
-- `mark_stack` up to the top, as further roots.
pub collect_lem :
    (host : Host) (s : Runtime) (top : ℕ)
    → host.malloc ≡ true
    → top_of host s ≡ some top
    → (host.marker + 7) / 8 * 8 ≤ top
    → IsHeap s
    → (s' : Runtime) × (collect host s ≡ ok (tt, s'))
      × Collected (root_words s ++ stack_words s.memory host.marker top) (with_top s top) s'
unfolding collect
collect_lem host s top memory known below h =
    let extra = stack_words s.memory host.marker top in
    let ws = root_words s ++ extra in
    let s₁ = with_top s top in
    let (m, n, e, ends, t, empty) = mark_trace s h ws in
    let (m₀, registered, scanned) =
      Outcome.>>=-eq-ok (mark_values (root_words s) (start_marking s)) (mark_values extra)
        (sym (mark_values-append (root_words s) extra (start_marking s)) ∙ e) in
    let fits : ltb top ((host.marker + 7) / 8 * 8) ≡ false = ground arith in
    (
      swept_state s₁ n,
      rw
          (
            memory,
            mark_registered_roots_lem s (start_marking s),
            registered,
            stack_top_lem host s top known,
            mark_stack,
            fits,
            scanned,
            ends,
          )
          (finish-swept s₁ (IsHeap-with_top s top h) ws n t),
      Collected-swept s₁ (IsHeap-with_top s top h) ws n t empty,
    )
