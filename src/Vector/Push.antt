-- ===== src/Vector/Push.antt =====
-- psl_rt_value_vector_push_precise against the list view.
use portable_systems_lisp.Base.{
  ℕ, ◌+◌, ◌*◌, ◌≤◌, ◌≡◌, ◌≢◌, refl, ◌∙◌, false, some, List, [], ◌∷◌, ◌++◌, ◌==◌, arith, length,
  Memᴰ, ap,
}
use portable_systems_lisp.Outcome.{ok}
use portable_systems_lisp.Machine.{Object, Root, Runtime, Host, size_max, lookup}
use portable_systems_lisp.Machine.Statics.{SameStatics, SameStatics-heap, SameStatics-trans}
use portable_systems_lisp.Gc.Reach.{Reach, IsHeap, root_words}
use portable_systems_lisp.Gc.Survive.{CanCollect}
use portable_systems_lisp.Gc.Allocate.{GivesBlock}
use portable_systems_lisp.Gc.Expect.{load-found}
use portable_systems_lisp.Frames.{Frame, open_frame}
use portable_systems_lisp.Frames.Apart.{
  framed, written, written-two, open_frame_lem, root_words-framed, IsHeap-framed,
}
use portable_systems_lisp.Frames.Construct.{CanConstruct, pop_roots_lem, IsHeap-roots}
use portable_systems_lisp.Vector.{value_vector_push, read}
use portable_systems_lisp.Vector.Capacity.{capacity_limit}
use portable_systems_lisp.Vector.Laws.{
  IsVector, load_header, storage_found, expect_vector_lem, vector_storage_lem, write_item_lem,
}
use portable_systems_lisp.Vector.Grow.{grow_if_full}
use portable_systems_lisp.Vector.Append.{
  appended, modify-placed, lookup-appended_other, IsHeap-appended, IsVector-appended,
}

-- The view of a vector depends on the heap alone.
pub IsVector-heap :
    (s t : Runtime) (value : ℕ) (xs : List ℕ)
    → t.objects ≡ s.objects
    → IsVector s value xs
    → IsVector t value xs
IsVector-heap s t value xs e v = record {
  header = v.header;
  held = rw e v.held;
  kind = v.kind;
  size = v.size;
  storage = v.storage;
  stored = rw e v.stored;
  storage_kind = v.storage_kind;
  rest = v.rest;
  items = v.items;
  capacity = v.capacity;
}

-- What a push makes of `s`: the vector with the item behind its values; all that the arguments or
-- the registered roots reach is kept unchanged, the vector's header and storage aside; of the state
-- outside the heap only the frame's own array is written.
pub record Pushed (f : Frame) (s s' : Runtime) (value slot item : ℕ) (xs : List ℕ) : Type 0 where
  pub heap : IsHeap s'
  pub vector : IsVector s' value (xs ++ item ∷ [])
  pub live :
      (a : ℕ) (o : Object)
      → lookup a s.objects ≡ some o
      → Reach s.objects (value ∷ item ∷ root_words s) a
      → a ≢ value
      → a ≢ slot
      → lookup a s'.objects ≡ some o
  pub statics : SameStatics (record s { memory = written s.memory f.values (value ∷ item ∷ []) }) s'

-- The push, once its frame is open in `s₁`.
module _ (host : Host) (f : Frame) (value item : ℕ) (xs : List ℕ) (s s₁ : Runtime) (r : Root)
    (opened : open_frame f (value ∷ item ∷ []) s ≡ ok (tt, s₁)) (top : s₁.roots ≡ r ∷ s.roots)
    (ours : r.address ≡ f.root) (at : s₁.memory f.values ≡ value)
    (at' : s₁.memory (f.values + 8) ≡ item) where
  push_framed :
      (h : IsHeap s₁) (v : IsVector s₁ value xs)
      → Memᴰ value (root_words s₁)
      → CanCollect host s₁ false
      → GivesBlock host s₁ false
      → 2 * (length xs + 1) ≤ capacity_limit
      → (t : Runtime) × (value_vector_push host f value item s
          ≡ ok (length xs, record t { roots = s.roots }))
        × IsHeap t
        × IsVector t value (xs ++ item ∷ [])
        × ((a : ℕ) (o : Object)
            → lookup a s₁.objects ≡ some o
            → Reach s₁.objects (root_words s₁) a
            → a ≢ value
            → a ≢ v.header.slot_0
            → lookup a t.objects ≡ some o)
        × SameStatics s₁ t
  unfolding value_vector_push read
  push_framed h v rooted can block fits =
      let (t, e, g) = grow_if_full host s₁ h value xs v rooted f.values at can block fits in
      let w = g.vector in
      let t₁ = appended t g.heap value xs w item g.room in
      let below : (length xs == size_max) ≡ false = ground arith in
      let again : t.memory f.values ≡ value = ap (λ m. m f.values) g.statics.memory ∙ at in
      let second : t.memory (f.values + 8) ≡ item =
        ap (λ m. m (f.values + 8)) g.statics.memory ∙ at' in
      (
        t₁,
        rw (
          opened,
          at,
          expect_vector_lem s₁ h value xs v,
          load_header s₁ h value xs v,
          below,
          vector_storage_lem s₁ h value xs v,
          load-found s₁ v.header.slot_0 (storage_found s₁ h value xs v),
          e,
          again,
          expect_vector_lem t g.heap value xs w,
          vector_storage_lem t g.heap value xs w,
          second,
          write_item_lem t g.heap value xs w (length xs) item (omega (arith, g.room)),
          modify-placed t g.heap value xs w item g.room,
          pop_roots_lem f.root t₁ r s.roots (g.statics.roots ∙ top) ours,
        ),
        IsHeap-appended t g.heap value xs w item g.room,
        IsVector-appended t g.heap value xs w item g.room,
        λ a o there reached x y.
            let (found, apart) = g.live a o there reached x y in
            lookup-appended_other t g.heap value xs w item g.room a o found x apart,
        SameStatics-trans s₁ t t₁ g.statics (SameStatics-heap t _ _ _ _),
      )

-- A push yields the index of the new value and appends it to the vector, growing the storage where
-- it is full. Whatever the arguments and the registered roots reach survives.
pub value_vector_push_lem :
    (host : Host) (f : Frame) (value item : ℕ) (xs : List ℕ) (s : Runtime)
    → CanConstruct host f (value ∷ item ∷ []) s 0 false
    → (v : IsVector s value xs) → 2 * (length xs + 1) ≤ capacity_limit
    → (s' : Runtime) × (value_vector_push host f value item s ≡ ok (length xs, s'))
      × Pushed f s s' value v.header.slot_0 item xs
unfolding IsVector-heap
value_vector_push_lem host f value item xs s c v fits =
    let vs = value ∷ item ∷ [] in
    let s₁ = framed f vs s in
    let (at, at') = written-two s.memory f.values value item in
    let words = root_words-framed f vs s c.fresh in
    let (t, e, h, w, live, statics) =
      push_framed host f value item xs s s₁ _ (open_frame_lem f vs s) refl refl at at'
        (IsHeap-framed f vs s c.heap) (IsVector-heap s s₁ value xs refl v)
        (rw words (Memᴰ.head refl)) c.can_collect c.block fits in
    (
      record t { roots = s.roots },
      e,
      record {
        heap = IsHeap-roots t s.roots h;
        vector = IsVector-heap t _ value (xs ++ item ∷ []) refl w;
        live = λ a o there r. live a o there (rw words r);
        statics = record {
          roots = refl;
          permanent_roots = statics.permanent_roots;
          value_handles = statics.value_handles;
          next_value_handle = statics.next_value_handle;
          value_handle_count = statics.value_handle_count;
          memory = statics.memory;
          current_values = statics.current_values;
          current_count = statics.current_count;
          initialized = statics.initialized;
        };
      },
    )
