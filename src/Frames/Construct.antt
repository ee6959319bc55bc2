-- ===== src/Frames/Construct.antt =====
-- The protocol of the runtime's constructors: root the arguments, allocate, write the fields of the
-- new object, pop the frame. It is that of make_cons, make_symbol, make_package and make_closure.
use portable_systems_lisp.Base.{
  ℕ, ◌-◌, ◌≤◌, ◌≡◌, ◌≢◌, refl, sym, Bool, true, false, some, List, [], ◌∷◌, ◌++◌, length, arith,
  inl, inr, ◌⊎◌, ◌∙◌, All, ◌==◌, Bool-cases, ==-refl,
}
use portable_systems_lisp.Outcome.{ok, abort}
use portable_systems_lisp.Machine.{
  Kind, Object, Root, Runtime, Host, object_size, size_max, M, pure, ◌>>=◌, ◌>>◌, lookup, update,
  modify, pop_roots,
}
use portable_systems_lisp.Machine.Objects.{
  lookup-update, modify_lem, Distinct-update, All-update, All-update_at, length-update,
}
use portable_systems_lisp.Machine.Statics.{SameStatics, SameStatics-heap, SameStatics-trans}
use portable_systems_lisp.Gc.{blank, allocate_object}
use portable_systems_lisp.Gc.Reach.{Reach, root_words, IsHeap, IsSized, IsAligned}
use portable_systems_lisp.Gc.Survive.{CanCollect}
use portable_systems_lisp.Gc.Allocate.{GivesBlock, Allocated, allocate_object_lem}
use portable_systems_lisp.Frames.{Frame, open_frame}
use portable_systems_lisp.Frames.Apart.{
  IsFresh, framed, written, open_frame_lem, root_words-framed, IsHeap-framed,
}

-- The writes to the new object, one after the other, and what follows them.
abbrev pub initialise : {A : Type 0} → ℕ → List (Object → Object) → M A → M A
initialise p [] k = k
initialise p (g ∷ gs) k = modify p g >> initialise p gs k

abbrev pub construct : Host → Frame → List ℕ → Kind → ℕ → Bool → List (Object → Object) → M ℕ
construct host f vs k extra scan gs = do
  open_frame f vs
  p ← allocate_object host k extra scan
  initialise p gs (do pop_roots f.root; pure p)

abbrev pub initialised : List (Object → Object) → Object → Object
initialised [] o = o
initialised (g ∷ gs) o = initialised gs (g o)

-- A write to a field other than those on which the heap rests.
pub record IsFieldWrite (g : Object → Object) : Type 0 where
  pub address : (o : Object) → (g o).address ≡ o.address
  pub marked : (o : Object) → (g o).marked ≡ o.marked

-- Every one of the writes leaves the object well sized.
abbrev pub StaySized : List (Object → Object) → Object → Type 0
StaySized [] o = Unit
StaySized (g ∷ gs) o = IsSized (g o) × StaySized gs (g o)

pub IsHeap-update :
    (g : Object → Object) (p : ℕ) (s : Runtime) (o : Object)
    → IsFieldWrite g
    → lookup p s.objects ≡ some o
    → IsSized (g o)
    → IsHeap s
    → IsHeap (record s { objects = update p g s.objects })
IsHeap-update g p s o w held sized h = record {
  distinct = Distinct-update g w.address p s.objects h.distinct;
  aligned = All-update IsAligned g (λ o a. rw (w.address o) a) p s.objects h.aligned;
  unmarked = All-update (λ o. o.marked ≡ false) g (λ o e. w.marked o ∙ e) p s.objects h.unmarked;
  sized = All-update_at IsSized g p s.objects o h.sized held sized;
  counted = h.counted ∙ sym (length-update g p s.objects);
}

-- A field write to the new object keeps all that the allocation promised.
pub Allocated-update :
    (ws : List ℕ) (s s' : Runtime) (a : ℕ) (new : Object) (g : Object → Object)
    → IsFieldWrite g
    → IsSized (g new)
    → Allocated ws s s' a new
    → Allocated ws s (record s' { objects = update a g s'.objects }) a (g new)
Allocated-update ws s s' a new g w sized h = record {
  heap = IsHeap-update g a s' new w h.held sized h.heap;
  held = rw (lookup-update g w.address a a s'.objects, ==-refl a, h.held);
  live = λ b o at r.
      let (there, apart) = h.live b o at r in
      let other : (a == b) ≡ false = ground arith in
      (rw (lookup-update g w.address a b s'.objects, other) there, apart);
  old = λ b o at. elim (Bool-cases (a == b)) [
    | inl here ↦ inl (ground arith)
    | inr other ↦ h.old b o (rw (lookup-update g w.address a b s'.objects, other) at at)
  ];
  statics = SameStatics-trans s s' _ h.statics (SameStatics-heap s' _ _ _ _);
}

pub initialise_lem :
    {A : Type 0} (ws : List ℕ) (s : Runtime) (a : ℕ) (k : M A) (gs : List (Object → Object))
    (s' : Runtime) (new : Object)
    → All IsFieldWrite gs
    → StaySized gs new
    → Allocated ws s s' a new
    → (t : Runtime) × (initialise a gs k s' ≡ k t) × Allocated ws s t a (initialised gs new)
initialise_lem ws s a k [] s' new all sized h = (s', refl, h)
initialise_lem ws s a k (g ∷ gs) s' new all sized h =
    let t = record s' { objects = update a g s'.objects } in
    let (t', e, h') =
      initialise_lem ws s a k gs t (g new) all.1 sized.1
        (Allocated-update ws s s' a new g all.0 sized.0 h) in
    (t', rw (modify_lem a g s' new h.held) e, h')

pub pop_roots_lem :
    (root : ℕ) (s : Runtime) (r : Root) (rest : List Root)
    → s.roots ≡ r ∷ rest
    → r.address ≡ root
    → pop_roots root s ≡ ok (tt, record s { roots = rest })
unfolding pop_roots
pop_roots_lem root s r rest e same =
    let hit : (r.address == root) ≡ true = ground arith in rw (e, pop_roots, hit)

pub pop_roots-other :
    (root : ℕ) (s : Runtime) (r : Root) (rest : List Root)
    → s.roots ≡ r ∷ rest
    → r.address ≢ root
    → pop_roots root s ≡ abort
unfolding pop_roots
pop_roots-other root s r rest e other =
    let miss : (r.address == root) ≡ false = ground arith in rw (e, pop_roots, miss)

-- What a constructor needs: the frame is memory of its own, the host can provide the object and, if
-- it comes to that, a collection.
pub record CanConstruct (host : Host) (f : Frame) (vs : List ℕ) (s : Runtime) (extra : ℕ)
    (scan : Bool) : Type 0 where
  pub heap : IsHeap s
  pub fresh : IsFresh f (length vs) s
  pub can_collect : CanCollect host s scan
  pub block : GivesBlock host (framed f vs s) scan
  pub fits : extra ≤ size_max - object_size

-- What a constructor makes of `s`: the object `new` at `a`; all that the arguments `vs` or the
-- registered roots reach is kept unchanged; the root frames are as before, and of the memory only
-- the constructor's own array was written.
pub record Constructed (f : Frame) (vs : List ℕ) (s s' : Runtime) (a : ℕ) (new : Object)
    : Type 0 where
  pub heap : IsHeap s'
  pub held : lookup a s'.objects ≡ some new
  pub live :
      (b : ℕ) (o : Object)
      → lookup b s.objects ≡ some o
      → Reach s.objects (vs ++ root_words s) b
      → (lookup b s'.objects ≡ some o) × (b ≢ a)
  pub old :
      (b : ℕ) (o : Object) → lookup b s'.objects ≡ some o → (b ≡ a) ⊎ (lookup b s.objects ≡ some o)
  pub statics : SameStatics (record s { memory = written s.memory f.values vs }) s'

pub IsHeap-roots : (s : Runtime) (rs : List Root) → IsHeap s → IsHeap (record s { roots = rs })
IsHeap-roots s rs h = record {
  distinct = h.distinct;
  aligned = h.aligned;
  unmarked = h.unmarked;
  sized = h.sized;
  counted = h.counted;
}

pub construct_lem :
    (host : Host) (f : Frame) (vs : List ℕ) (k : Kind) (extra : ℕ) (scan : Bool)
    (gs : List (Object → Object)) (s : Runtime)
    → All IsFieldWrite gs
    → StaySized gs (blank host.calloc k extra)
    → CanConstruct host f vs s extra scan
    → (s' : Runtime) × (construct host f vs k extra scan gs s ≡ ok (host.calloc, s'))
      × Constructed f vs s s' host.calloc (initialised gs (blank host.calloc k extra))
construct_lem host f vs k extra scan gs s writes sized c =
    let s₁ = framed f vs s in
    let (s₂, e₂, made) =
      allocate_object_lem host s₁ k extra scan (can scan c.can_collect) c.block c.fits
        (IsHeap-framed f vs s c.heap) in
    let (s₃, e₃, filled) =
      initialise_lem (root_words s₁) s₁ host.calloc (do pop_roots f.root; pure host.calloc) gs s₂
        (blank host.calloc k extra) writes sized made in
    let popped = pop_roots_lem f.root s₃ _ s.roots filled.statics.roots refl in
    (
      record s₃ { roots = s.roots },
      rw (open_frame_lem f vs s, e₂, e₃, popped),
      record {
        heap = IsHeap-roots s₃ s.roots filled.heap;
        held = filled.held;
        live = λ b o at r. filled.live b o at (rw (root_words-framed f vs s c.fresh) r);
        old = filled.old;
        statics = record {
          roots = refl;
          permanent_roots = filled.statics.permanent_roots;
          value_handles = filled.statics.value_handles;
          next_value_handle = filled.statics.next_value_handle;
          value_handle_count = filled.statics.value_handle_count;
          memory = filled.statics.memory;
          current_values = filled.statics.current_values;
          current_count = filled.statics.current_count;
          initialized = filled.statics.initialized;
        };
      },
    )
  where
    can : (b : Bool) → CanCollect host s b → CanCollect host (framed f vs s) b
    can true h = h
    can false h = h
