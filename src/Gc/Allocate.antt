-- ===== src/Gc/Allocate.antt =====
-- Allocation: the new object, and the collection before it where the count has reached the limit.
use portable_systems_lisp.Base.{
  ℕ, ◌+◌, ◌-◌, ◌%◌, ◌≤◌, ◌≡◌, ◌≢◌, refl, sym, Bool, true, false, none, some, List, ◌∷◌, ◌==◌,
  if◌then◌else◌, ltb, leb, bit_and, arith, inl, inr, ◌⊎◌, ◌∙◌, Bool-cases,
}
use portable_systems_lisp.Base.Bits.{bit_and-seven}
use portable_systems_lisp.Outcome.{ok}
use portable_systems_lisp.Machine.{Kind, Object, Runtime, Host, object_size, size_max, lookup}
use portable_systems_lisp.Machine.Objects.{lookup-front, lookup-behind}
use portable_systems_lisp.Machine.Statics.{SameStatics, SameStatics-heap, SameStatics-trans}
use portable_systems_lisp.Gc.{blank, collect_objects, make_room, new_object, allocate_object}
use portable_systems_lisp.Gc.Reach.{Reach, root_words, IsHeap}
use portable_systems_lisp.Gc.Collect.{top_of, with_top, stack_top_lem, IsHeap-with_top}
use portable_systems_lisp.Gc.Survive.{CanCollect, Survives, collect_objects_lem}

Survives-here : (s : Runtime) → IsHeap s → (ws : List ℕ) → Survives ws s s
Survives-here s h ws = record {
  heap = h;
  live = λ a o held r. held;
  old = λ a o held. held;
  statics = SameStatics-heap s _ _ _ _;
}

collect_if_full :
    (host : Host) (s : Runtime) (scan : Bool)
    → CanCollect host s scan
    → IsHeap s
    → (s' : Runtime) × ((if leb s.collection_limit s.object_count
            then collect_objects host scan
            else (λ r. ok (tt, r)))
          s
        ≡ ok (tt, s'))
      × Survives (root_words s) s s'
collect_if_full host s scan can h = elim (Bool-cases (leb s.collection_limit s.object_count)) [
  | inl full ↦ rw full (collect_objects_lem host s scan can h)
  | inr free ↦ (s, rw free, Survives-here s h (root_words s))
]

-- `make_room` succeeds and lets everything survive that the registered roots reach.
pub make_room_lem :
    (host : Host) (s : Runtime) (scan : Bool)
    → CanCollect host s scan
    → IsHeap s
    → (s' : Runtime) × (make_room host scan s ≡ ok (tt, s')) × Survives (root_words s) s s'
unfolding make_room root_words
make_room_lem host s true can h =
    let (top, known, below) = can.1 in
    let s₁ = with_top s top in
    let again : top_of host s₁ ≡ some top = ground arith in
    let (s', e, k) =
      collect_if_full host s₁ true (can.0, (top, again, below)) (IsHeap-with_top s top h) in
    (
      s',
      rw (stack_top_lem host s top known) e,
      record {
        heap = k.heap;
        live = k.live;
        old = k.old;
        statics = SameStatics-trans s s₁ s' (SameStatics-heap s _ _ _ _) k.statics;
      },
    )
make_room_lem host s false can h = collect_if_full host s false can h

-- calloc answers with an aligned block that is not one of the objects then alive.
pub record GivesBlock (host : Host) (s : Runtime) (scan : Bool) : Type 0 where
  pub ne_null : host.calloc ≢ 0
  pub aligned : host.calloc % 8 ≡ 0
  pub fresh :
      (s₁ : Runtime) → make_room host scan s ≡ ok (tt, s₁) → lookup host.calloc s₁.objects ≡ none

-- The state with a new zeroed object in front of the list.
abbrev pub with_blank : Host → Kind → ℕ → Runtime → Runtime
with_blank host k extra s = record s {
  objects = blank host.calloc k extra ∷ s.objects;
  object_count = s.object_count + 1;
}

new_object_lem :
    (host : Host) (k : Kind) (extra : ℕ) (s : Runtime)
    → extra ≤ size_max - object_size
    → host.calloc ≢ 0
    → host.calloc % 8 ≡ 0
    → new_object host k extra s ≡ ok (host.calloc, with_blank host k extra s)
unfolding new_object
new_object_lem host k extra s fits ne al =
    let low : (bit_and host.calloc 7 == 0) ≡ true = ground (arith, bit_and-seven host.calloc) in
    let non : (host.calloc == 0) ≡ false = ground arith in
    let small : ltb (size_max - object_size) extra ≡ false = ground arith in rw (small, non, low)

IsHeap-with_blank :
    (host : Host) (k : Kind) (extra : ℕ) (s : Runtime)
    → host.calloc ≢ 0
    → host.calloc % 8 ≡ 0
    → lookup host.calloc s.objects ≡ none
    → IsHeap s
    → IsHeap (with_blank host k extra s)
IsHeap-with_blank host k extra s ne al fresh h = record {
  distinct = (fresh, h.distinct);
  aligned = ((ne, al), h.aligned);
  unmarked = (refl, h.unmarked);
  sized = ((λ _. omega arith, λ _. omega arith), h.sized);
  counted = omega (arith, h.counted);
}

-- What an allocation makes of `s`: the object `new` at `a`, in front of what survives.
pub record Allocated (ws : List ℕ) (s s' : Runtime) (a : ℕ) (new : Object) : Type 0 where
  pub heap : IsHeap s'
  pub held : lookup a s'.objects ≡ some new
  pub live :
      (b : ℕ) (o : Object)
      → lookup b s.objects ≡ some o
      → Reach s.objects ws b
      → (lookup b s'.objects ≡ some o) × (b ≢ a)
  pub old :
      (b : ℕ) (o : Object) → lookup b s'.objects ≡ some o → (b ≡ a) ⊎ (lookup b s.objects ≡ some o)
  pub statics : SameStatics s s'

-- Allocation succeeds where the host provides memory and the size is representable. The new object
-- is zeroed, every object that the registered roots reach is kept unchanged at its own address, and
-- no third kind of object appears.
pub allocate_object_lem :
    (host : Host) (s : Runtime) (k : Kind) (extra : ℕ) (scan : Bool)
    → CanCollect host s scan
    → GivesBlock host s scan
    → extra ≤ size_max - object_size
    → IsHeap s
    → (s' : Runtime) × (allocate_object host k extra scan s ≡ ok (host.calloc, s'))
      × Allocated (root_words s) s s' host.calloc (blank host.calloc k extra)
unfolding allocate_object
allocate_object_lem host s k extra scan can block fits h =
    let (s₁, e, v) = make_room_lem host s scan can h in
    let fresh = block.fresh s₁ e in
    let s₂ = with_blank host k extra s₁ in
    (
      s₂,
      rw e (new_object_lem host k extra s₁ fits block.ne_null block.aligned),
      record {
        heap = IsHeap-with_blank host k extra s₁ block.ne_null block.aligned fresh v.heap;
        held = lookup-front (blank host.calloc k extra) s₁.objects;
        live = λ b o at r.
            let there = v.live b o at r in
            let apart : b ≢ host.calloc = λ p. cc (there, fresh, p) in
            (lookup-behind b (blank host.calloc k extra) s₁.objects apart ∙ there, apart);
        old = λ b o at. elim (Bool-cases (host.calloc == b)) [
          | inl here ↦ inl (ground arith)
          | inr further ↦
              let apart : b ≢ host.calloc = ground arith in
              inr (
                v.old b o (sym (lookup-behind b (blank host.calloc k extra) s₁.objects apart) ∙ at))
        ];
        statics = SameStatics-trans s s₁ s₂ v.statics (SameStatics-heap s₁ _ _ _ _);
      },
    )
