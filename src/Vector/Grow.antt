-- ===== src/Vector/Grow.antt =====
-- Growth of a full vector.
use portable_systems_lisp.Base.{
  ℕ, ◌+◌, ◌*◌, ◌≤◌, ◌<◌, ◌≡◌, ◌≢◌, refl, ◌∙◌, false, some, List, ◌++◌, ◌==◌, if◌then◌else◌, ltb,
  arith, length, length-replicate, take, drop, Memᴰ, inl, inr, ap, Bool-cases,
}
use portable_systems_lisp.Outcome.{ok}
use portable_systems_lisp.Value.{nil}
use portable_systems_lisp.Machine.{Object, Runtime, Host, pure, lookup}
use portable_systems_lisp.Machine.Objects.{lookup-update, modify_lem}
use portable_systems_lisp.Machine.Statics.{SameStatics, SameStatics-heap, SameStatics-trans}
use portable_systems_lisp.Gc.{lift}
use portable_systems_lisp.Gc.Reach.{Reach, IsHeap, root_words}
use portable_systems_lisp.Gc.Survive.{CanCollect}
use portable_systems_lisp.Gc.Allocate.{GivesBlock}
use portable_systems_lisp.Gc.Expect.{find_object-held, load-found}
use portable_systems_lisp.Vector.{grown_capacity, grow_vector, read}
use portable_systems_lisp.Vector.Capacity.{capacity_limit, grown_capacity_lem}
use portable_systems_lisp.Vector.Laws.{
  IsVector, storage_found, expect_vector_lem, vector_storage_lem, length-items,
}
use portable_systems_lisp.Vector.Make.{make_storage_lem}
use portable_systems_lisp.Vector.Moved.{
  Reach-header, Reach-storage, copy_items_lem, take-append, moved, lookup-moved, IsHeap-moved,
  IsVector-moved,
}

-- The capacity of a full vector's next storage, where twice the required size is representable.
grown_capacity-full :
    (current required : ℕ)
    → current < required
    → 2 * required ≤ capacity_limit
    → (n : ℕ) × (grown_capacity current required ≡ ok n) × (required ≤ n) × (n ≤ capacity_limit)
grown_capacity-full current required full fits =
    let (n, room, sized, above, start, e) =
      grown_capacity_lem current required (omega arith) (omega arith) in
    let small : ltb capacity_limit n ≡ false = ground arith in
    (n, rw small at e, room, ground arith)

-- What making room makes of `s`: the same vector with room for `required` values; other objects
-- that the roots reach, the storage behind `slot` aside, are kept, and only the heap changes.
pub record Grown (s t : Runtime) (value slot : ℕ) (xs : List ℕ) (required : ℕ) : Type 0 where
  pub heap : IsHeap t
  pub vector : IsVector t value xs
  pub room : required ≤ length vector.storage.items
  pub live :
      (a : ℕ) (o : Object)
      → lookup a s.objects ≡ some o
      → Reach s.objects (root_words s) a
      → a ≢ value
      → a ≢ slot
      → (lookup a t.objects ≡ some o) × (a ≢ vector.header.slot_0)
  pub statics : SameStatics s t

module _ (host : Host) (s : Runtime) (h : IsHeap s) (value : ℕ) (xs : List ℕ)
    (v : IsVector s value xs) (rooted : Memᴰ value (root_words s)) where
  pub grow_vector_lem :
      (values required : ℕ)
      → s.memory values ≡ value
      → CanCollect host s false
      → GivesBlock host s false
      → v.storage.length < required
      → length xs ≤ required
      → 2 * required ≤ capacity_limit
      → (t : Runtime) × (grow_vector host values required s ≡ ok (tt, t))
        × Grown s t value v.header.slot_0 xs required
  unfolding grow_vector read
  grow_vector_lem values required at can block full longer fits =
      let (n, e, room, small) = grown_capacity-full v.storage.length required full fits in
      let (s₁, e₁, made) = make_storage_lem host n s small can block h in
      let (held, apart) =
        made.live value v.header v.held (Reach-header s h value xs v (root_words s) rooted) in
      let (kept, _) =
        made.live v.header.slot_0 v.storage v.stored
          (Reach-storage s h value xs v (root_words s) rooted) in
      let other : (host.calloc == value) ≡ false = ground arith in
      let copied =
        copy_items_lem host.calloc v.header.slot_0 (length xs) s₁ v.storage _ made.heap kept
          made.held (omega (arith, length-items s h value xs v))
          (omega (arith, length-replicate n nil)) in
      let whole : take (length xs) v.storage.items ≡ xs =
        ap (take (length xs)) v.items ∙ take-append xs v.rest in
      let still =
        lookup-update (λ o. record o { items = xs ++ drop (length xs) o.items }) (λ o. refl)
          host.calloc value s₁.objects in
      let (w, size, slot) =
        IsVector-moved s₁ made.heap value xs v.header host.calloc n made.held held v.kind v.size
          other (omega arith) in
      (
        moved s₁ value host.calloc xs,
        rw
            (
              at,
              expect_vector_lem s h value xs v,
              vector_storage_lem s h value xs v,
              load-found s v.header.slot_0 (storage_found s h value xs v),
              e,
              lift,
              e₁,
              load-found s₁ value (find_object-held made.heap value held),
              v.size,
              rw whole at copied,
            )
            (modify_lem value _ _ v.header (rw (still, other) held)),
        record {
          heap =
              IsHeap-moved s₁ made.heap value xs v.header host.calloc n made.held held v.kind other
                (omega arith);
          vector = w;
          room = omega arith;
          live = λ a o there r ne _.
              let (found, new) = made.live a o there r in
              let x : (value == a) ≡ false = ground arith in
              let y : (host.calloc == a) ≡ false = ground arith in
              (
                rw
                    (
                      lookup-moved s₁ made.heap value xs v.header host.calloc n made.held held other
                          a,
                      x,
                      y,
                    )
                    found,
                ground (arith, slot),
              );
          statics = SameStatics-trans s s₁ _ made.statics (SameStatics-heap s₁ _ _ _ _);
        },
      )

  -- Room for one more value is made where there is none.
  pub grow_if_full :
      (values : ℕ)
      → s.memory values ≡ value
      → CanCollect host s false
      → GivesBlock host s false
      → 2 * (length xs + 1) ≤ capacity_limit
      → (t : Runtime) × ((if ltb v.storage.length (length xs + 1)
              then grow_vector host values (length xs + 1)
              else pure tt)
            s
          ≡ ok (tt, t))
        × Grown s t value v.header.slot_0 xs (length xs + 1)
  grow_if_full values at can block fits = elim (Bool-cases (ltb v.storage.length (length xs + 1))) [
    | inl full ↦
        rw full
          (grow_vector_lem values (length xs + 1) at can block (ground arith) (omega arith) fits)
    | inr room ↦ (
      s,
      rw room,
      record {
        heap = h;
        vector = v;
        room = ground (arith, v.capacity);
        live = λ a o there r _ ne. (there, ne);
        statics = SameStatics-heap s _ _ _ _;
      },
    )
  ]
