-- ===== src/Vector/Filled.antt =====
-- psl_rt_make_value_vector_precise: a vector of equal values. `host` answers the allocation of the
-- header, `host'` that of the storage.
use portable_systems_lisp.Base.{
  ℕ, zero, suc, ◌+◌, ◌≤◌, ◌≡◌, refl, sym, ◌∙◌, true, false, some, List, [], ◌∷◌, Memᴰ, ◌==◌,
  is_some, arith, length-replicate, replicate, ap, ==-refl,
}
use mathlib.Core.List.{append-nil}
use portable_systems_lisp.Outcome.{ok}
use portable_systems_lisp.Value.{nil}
use portable_systems_lisp.Machine.{
  Kind, Object, Root, Runtime, Host, lookup, update, write, store, read_words,
}
use portable_systems_lisp.Machine.Objects.{lookup-update, modify_lem}
use portable_systems_lisp.Gc.{blank}
use portable_systems_lisp.Gc.Reach.{root, frame_words, root_words, IsHeap}
use portable_systems_lisp.Gc.Allocate.{GivesBlock, allocate_object_lem}
use portable_systems_lisp.Gc.Expect.{find_object-held}
use portable_systems_lisp.Frames.{Frame}
use portable_systems_lisp.Frames.Apart.{framed, written-two, open_frame_lem, IsHeap-framed}
use portable_systems_lisp.Frames.Construct.{
  CanConstruct, IsHeap-update, IsHeap-roots, pop_roots_lem,
}
use portable_systems_lisp.Text.{fill}
use portable_systems_lisp.Text.Make.{length-fill}
use portable_systems_lisp.Vector.{header_made, make_value_vector, read}
use portable_systems_lisp.Vector.Capacity.{capacity_limit}
use portable_systems_lisp.Vector.Laws.{IsVector}
use portable_systems_lisp.Vector.Make.{storage_object, make_storage_lem}

fill-over : (n v w : ℕ) → fill n v (replicate n w) ≡ replicate n v
unfolding fill
fill-over zero v w = refl
fill-over (suc n) v w = ap (λ l. v ∷ l) (fill-over n v w)

-- The header before it has a storage.
abbrev pub bare_header : ℕ → ℕ → Object
bare_header a size = record (blank a Kind.value_vector 0) { length = size }

IsHeap-memory : (s : Runtime) (m : ℕ → ℕ) → IsHeap s → IsHeap (record s { memory = m })
IsHeap-memory s m h = record {
  distinct = h.distinct;
  aligned = h.aligned;
  unmarked = h.unmarked;
  sized = h.sized;
  counted = h.counted;
}

first-rooted :
    (s : Runtime) (r : Root) (rest : List Root) (n : ℕ)
    → s.roots ≡ r ∷ rest
    → r.count ≡ suc n
    → Memᴰ (s.memory r.values) (root_words s)
unfolding root_words frame_words read_words
first-rooted s r rest n e count = rw (e, count) (Memᴰ.head refl)

-- What the first half leaves.
record HeaderMade (s t : Runtime) (f : Frame) (a size initial : ℕ) : Type 0 where
  heap : IsHeap t
  held : lookup a t.objects ≡ some (bare_header a size)
  rooted : Memᴰ a (root_words t)
  first : t.memory f.values ≡ a
  second : t.memory (f.values + 8) ≡ initial
  roots : t.roots ≡ record { address = f.root; values = f.values; count = 2 } ∷ s.roots

header_made_lem :
    (host : Host) (f : Frame) (size initial : ℕ) (s : Runtime)
    → CanConstruct host f (nil ∷ initial ∷ []) s 0 false
    → (t : Runtime) × (header_made host f size initial s ≡ ok (host.calloc, t))
      × HeaderMade s t f host.calloc size initial
unfolding store write
header_made_lem host f size initial s c =
    let a = host.calloc in
    let s₁ = framed f (nil ∷ initial ∷ []) s in
    let (s₂, e₂, made) =
      allocate_object_lem host s₁ Kind.value_vector 0 false c.can_collect c.block c.fits
        (IsHeap-framed f (nil ∷ initial ∷ []) s c.heap) in
    let s₃ = record s₂ { memory = write s₂.memory f.values a } in
    let g = λ (o : Object). record o { length = size } in
    let t = record s₃ { objects = update a g s₃.objects } in
    let (_, kept) = written-two s.memory f.values nil initial in
    let first : t.memory f.values ≡ a = rw (==-refl f.values) refl in
    let after : t.memory (f.values + 8) ≡ initial =
      ground (arith, ap (λ m. m (f.values + 8)) made.statics.memory, kept) in
    (
      t,
      rw (open_frame_lem f (nil ∷ initial ∷ []) s, e₂, modify_lem a g s₃ _ made.held) refl,
      record {
        heap =
            IsHeap-update g a s₃ _ (record { address = λ o. refl; marked = λ o. refl }) made.held
              (λ q. cc, λ q. cc) (IsHeap-memory s₂ _ made.heap);
        held = rw (lookup-update g (λ o. refl) a a s₃.objects, ==-refl a, made.held);
        rooted = rw first at (first-rooted t _ s.roots 1 made.statics.roots refl);
        first = first;
        second = after;
        roots = made.statics.roots;
      },
    )

-- A vector of `size` copies of a value is made where the host can provide the header and then the
-- storage, and the size is representable; the root frames are as before.
pub make_value_vector_lem :
    (host host' : Host) (f : Frame) (size initial : ℕ) (s : Runtime)
    → CanConstruct host f (nil ∷ initial ∷ []) s 0 false
    → size ≤ capacity_limit
    → host'.malloc ≡ true
    → ((t : Runtime)
        → header_made host f size initial s ≡ ok (host.calloc, t)
        → GivesBlock host' t false)
    → (s' : Runtime) × (make_value_vector host host' f size initial s ≡ ok (host.calloc, s'))
      × IsHeap s'
      × IsVector s' host.calloc (replicate size initial)
      × (s'.roots ≡ s.roots)
unfolding make_value_vector read
make_value_vector_lem host host' f size initial s c small memory block =
    let a = host.calloc in
    let b = host'.calloc in
    let (t, e, header) = header_made_lem host f size initial s c in
    let (t₂, e₂, made) = make_storage_lem host' size t small memory (block t e) header.heap in
    let (held, apart) =
      made.live a (bare_header a size) header.held
        (root header.rooted (ap is_some (find_object-held header.heap a header.held))) in
    let other : (b == a) ≡ false = ground arith in
    let backwards : (a == b) ≡ false = ground arith in
    let second : t₂.memory (f.values + 8) ≡ initial =
      ap (λ m. m (f.values + 8)) made.statics.memory ∙ header.second in
    let first : t₂.memory f.values ≡ a = ap (λ m. m f.values) made.statics.memory ∙ header.first in
    let g = λ (o : Object). record o { items = fill size initial o.items } in
    let k = λ (o : Object). record o { slot_0 = b } in
    let t₃ = record t₂ { objects = update b g t₂.objects } in
    let t₄ = record t₃ { objects = update a k t₃.objects } in
    let filled = length-fill size initial (replicate size nil) in
    let count = length-replicate size nil in
    let still : lookup a t₃.objects ≡ some (bare_header a size) =
      rw (lookup-update g (λ o. refl) b a t₂.objects, other) held in
    let heap₃ =
      IsHeap-update g b t₂ _ (record { address = λ o. refl; marked = λ o. refl }) made.held
        (λ q. omega (arith, filled, count), λ q. cc) made.heap in
    let heap₄ =
      IsHeap-update k a t₃ _ (record { address = λ o. refl; marked = λ o. refl }) still
        (λ q. cc, λ q. cc) heap₃ in
    (
      record t₄ { roots = s.roots },
      rw
          (
            e,
            e₂,
            second,
            modify_lem b g t₂ _ made.held,
            modify_lem a k t₃ _ still,
            first,
            pop_roots_lem f.root t₄ _ s.roots (made.statics.roots ∙ header.roots) refl,
          )
          refl,
      IsHeap-roots t₄ s.roots heap₄,
      record {
        header = record (bare_header a size) { slot_0 = b };
        held = rw (lookup-update k (λ o. refl) a a t₃.objects, ==-refl a, still);
        kind = refl;
        size = sym (length-replicate size initial);
        storage = g (storage_object b (replicate size nil));
        stored = rw (
          lookup-update k (λ o. refl) a b t₃.objects,
          backwards,
          lookup-update g (λ o. refl) b b t₂.objects,
          ==-refl b,
          made.held,
        );
        storage_kind = refl;
        rest = [];
        items = fill-over size initial nil ∙ sym (append-nil (replicate size initial));
        capacity = sym filled;
      },
      refl,
    )
