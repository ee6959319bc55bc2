-- ===== src/Gc/Survive.antt =====
-- What survives a collection of either kind, in the form that the allocator uses.
use portable_systems_lisp.Base.{
  ℕ, ◌+◌, ◌*◌, ◌/◌, ◌≤◌, ◌≡◌, ◌∷◌, refl, Bool, true, false, some, List, ◌++◌,
}
use mathlib.Core.List.Memᴰ
use portable_systems_lisp.Outcome.{ok}
use portable_systems_lisp.Machine.{Object, Runtime, Host, lookup}
use portable_systems_lisp.Machine.Statics.{SameStatics, SameStatics-heap, SameStatics-trans}
use portable_systems_lisp.Gc.{collect_objects, collect_precise, collect}
use portable_systems_lisp.Gc.Reach.{Reach, root, child, root_words, IsHeap}
use portable_systems_lisp.Gc.Collect.{top_of, with_top, collect_precise_lem, collect_lem}

collect-eq : (host : Host) → collect host ≡ collect_objects host true
unfolding collect
collect-eq host = refl

collect_precise-eq : (host : Host) → collect_precise host ≡ collect_objects host false
unfolding collect_precise
collect_precise-eq host = refl

-- What a collection needs of the host: memory for the work array and, where the stack is scanned,
-- a stack top that lies above the local of `mark_stack`.
abbrev pub CanCollect : Host → Runtime → Bool → Type 0
CanCollect host s true =
    (host.malloc ≡ true)
    × ((top : ℕ) × (top_of host s ≡ some top) × ((host.marker + 7) / 8 * 8 ≤ top))
CanCollect host s false = host.malloc ≡ true

-- What an operation that may collect leaves of `s`: the objects reached from the words `ws` are
-- kept unchanged and no others appear.
pub record Survives (ws : List ℕ) (s s' : Runtime) : Type 0 where
  pub heap : IsHeap s'
  pub live :
      (a : ℕ) (o : Object)
      → lookup a s.objects ≡ some o
      → Reach s.objects ws a
      → lookup a s'.objects ≡ some o
  pub old : (a : ℕ) (o : Object) → lookup a s'.objects ≡ some o → lookup a s.objects ≡ some o
  pub statics : SameStatics s s'

Reach-more :
    {os : List Object} {us : List ℕ} {a : ℕ} (vs : List ℕ) → Reach os us a → Reach os (us ++ vs) a
Reach-more vs (root i f) = root (Memᴰ.append_left vs i) f
Reach-more vs (child r i f) = child (Reach-more vs r) i f

pub Reach-cons :
    {os : List Object} {us : List ℕ} {a : ℕ} (v : ℕ) → Reach os us a → Reach os (v ∷ us) a
Reach-cons v (root i f) = root (Memᴰ.tail i) f
Reach-cons v (child r i f) = child (Reach-cons v r) i f

-- Either kind of collection lets everything survive that the registered roots reach.
pub collect_objects_lem :
    (host : Host) (s : Runtime) (scan : Bool)
    → CanCollect host s scan
    → IsHeap s
    → (s' : Runtime) × (collect_objects host scan s ≡ ok (tt, s')) × Survives (root_words s) s s'
collect_objects_lem host s true can h =
    let (top, known, below) = can.1 in
    let (s', e, c) = collect_lem host s top can.0 known below h in
    (
      s',
      rw (← collect-eq host) e,
      record {
        heap = c.heap;
        live = λ a o held r. (c.kept a o).1 (held, Reach-more _ r);
        old = λ a o held. ((c.kept a o).0 held).0;
        statics = SameStatics-trans s (with_top s top) s' (SameStatics-heap s _ _ _ _) c.statics;
      },
    )
collect_objects_lem host s false can h =
    let (s', e, c) = collect_precise_lem host s can h in
    (
      s',
      rw (← collect_precise-eq host) e,
      record {
        heap = c.heap;
        live = λ a o held r. (c.kept a o).1 (held, r);
        old = λ a o held. ((c.kept a o).0 held).0;
        statics = c.statics;
      },
    )
