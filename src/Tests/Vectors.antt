-- ===== src/Tests/Vectors.antt =====
-- A runtime with one vector, at 8, of the values 5 and 7, whose storage at 16 is full.
use portable_systems_lisp.Base.{
  ℕ, ◌≡◌, ◌≢◌, refl, false, List, [], ◌∷◌, none, some, arith, get_elem?, set, subst, sym, ◌∙◌, inr,
}
use portable_systems_lisp.Outcome.{ok, abort}
use portable_systems_lisp.Machine.{
  Kind, Object, Runtime, Host, write, store, modify, update, push_roots, lookup,
}
use portable_systems_lisp.Gc.{blank, make_room, allocate_object, new_object}
use portable_systems_lisp.Gc.Reach.{IsHeap}
use portable_systems_lisp.Gc.Allocate.{GivesBlock}
use portable_systems_lisp.Frames.Apart.{framed}
use portable_systems_lisp.Frames.Construct.{CanConstruct}
use portable_systems_lisp.Frames.{store_words, open_frame}
use portable_systems_lisp.Vector.Filled.{make_value_vector_lem}
use portable_systems_lisp.Vector.{
  header_made, make_value_vector, value_vector_length, value_vector_ref, value_vector_set,
  value_vector_push,
}
use portable_systems_lisp.Vector.Laws.{IsVector, vector_reads, value_vector_set-set}
use portable_systems_lisp.Vector.Push.{Pushed, value_vector_push_lem}
use portable_systems_lisp.Tests.Sample.{sample, host, frame, sample-IsHeap}

abbrev values : List ℕ
values = 5 ∷ 7 ∷ []

abbrev header : Object
header = record (blank 8 Kind.value_vector 0) { length = 2; slot_0 = 16 }

abbrev storage : Object
storage = record (blank 16 Kind.value_vector_storage 16) { length = 2; items = values }

abbrev holder : Runtime
holder = record sample { objects = header ∷ storage ∷ []; object_count = 2 }

holder-IsHeap : IsHeap holder
unfolding lookup
holder-IsHeap = record {
  distinct = (refl, (refl, tt));
  aligned = omega arith;
  unmarked = (refl, (refl, tt));
  sized = ((λ e. cc, λ e. cc), ((λ _. omega arith, λ e. cc), tt));
  counted = refl;
}

holder-IsVector : IsVector holder 8 values
unfolding lookup
holder-IsVector = record {
  header = header;
  held = refl;
  kind = refl;
  size = refl;
  storage = storage;
  stored = refl;
  storage_kind = refl;
  rest = [];
  items = refl;
  capacity = refl;
}

vector_reads_example :
    (value_vector_length 8 holder ≡ ok (2, holder))
    × (value_vector_ref 8 1 holder
        ≡ elim (get_elem? values 1) [ none ↦ abort | some x ↦ ok (x, holder) ])
vector_reads_example = vector_reads holder holder-IsHeap 8 values holder-IsVector 1

value_vector_set-set_example :
    (s' : Runtime) × (value_vector_set 8 1 9 holder ≡ ok (9, s'))
    × IsHeap s'
    × IsVector s' 8 (set values 1 9)
    × ((a : ℕ) → a ≢ holder-IsVector.header.slot_0 → lookup a s'.objects ≡ lookup a holder.objects)
value_vector_set-set_example =
    value_vector_set-set holder holder-IsHeap 8 values holder-IsVector 1 9 (omega arith)

abbrev opened : Runtime
opened = framed frame (8 ∷ 9 ∷ []) holder

room_left : make_room host false opened ≡ ok (tt, opened)
unfolding make_room
room_left = refl

unused : lookup 64 holder.objects ≡ none
unfolding lookup
unused = refl

holder-CanConstruct : CanConstruct host frame (8 ∷ 9 ∷ []) holder 0 false
holder-CanConstruct = record {
  heap = holder-IsHeap;
  fresh = record { roots = (inr (omega arith), tt); permanent_roots = tt };
  can_collect = refl;
  block = record {
    ne_null = omega arith;
    aligned = omega arith;
    fresh = λ s₁ e. ground (arith, room_left, unused);
  };
  fits = omega arith;
}

value_vector_push_lem_example :
    (s' : Runtime) × (value_vector_push host frame 8 9 holder ≡ ok (2, s'))
    × Pushed frame holder s' 8 holder-IsVector.header.slot_0 9 values
value_vector_push_lem_example =
    value_vector_push_lem host frame 8 9 values holder holder-CanConstruct holder-IsVector
      (omega arith)

-- Answers the allocation of the storage.
abbrev host_after : Host
host_after = record host { calloc = 72 }

-- The state when the storage is allocated.
abbrev half : Runtime
half = record sample {
  objects = record (blank 64 Kind.value_vector 0) { length = 3 } ∷ sample.objects;
  roots = record { address = 5100; values = 4200; count = 2 } ∷ sample.roots;
  object_count = 6;
  memory = write (write (write sample.memory 4200 2) 4208 9) 4200 64;
}

half_made : header_made host frame 3 9 sample ≡ ok (64, half)
unfolding open_frame store_words push_roots allocate_object make_room new_object store modify update
    lookup
half_made = refl

half_room : make_room host_after false half ≡ ok (tt, half)
unfolding make_room
half_room = refl

half_unused : lookup 72 half.objects ≡ none
unfolding lookup
half_unused = refl

half-GivesBlock : GivesBlock host_after half false
half-GivesBlock = record {
  ne_null = omega arith;
  aligned = omega arith;
  fresh = λ s₁ e. ground (arith, half_room, half_unused);
}

made_half : (t : Runtime) → header_made host frame 3 9 sample ≡ ok (64, t) → half ≡ t
made_half t e = let same = sym half_made ∙ e in ground (arith, same)

sample_room :
    make_room host false (framed frame (2 ∷ 9 ∷ []) sample)
    ≡ ok (tt, framed frame (2 ∷ 9 ∷ []) sample)
unfolding make_room
sample_room = refl

sample_unused : lookup 64 sample.objects ≡ none
unfolding lookup
sample_unused = refl

sample-CanConstruct : CanConstruct host frame (2 ∷ 9 ∷ []) sample 0 false
sample-CanConstruct = record {
  heap = sample-IsHeap;
  fresh = record { roots = (inr (omega arith), tt); permanent_roots = tt };
  can_collect = refl;
  block = record {
    ne_null = omega arith;
    aligned = omega arith;
    fresh = λ s₁ e. ground (arith, sample_room, sample_unused);
  };
  fits = omega arith;
}

make_value_vector_lem_example :
    (s' : Runtime) × (make_value_vector host host_after frame 3 9 sample ≡ ok (64, s'))
    × IsHeap s'
    × IsVector s' 64 (9 ∷ 9 ∷ 9 ∷ [])
    × (s'.roots ≡ sample.roots)
make_value_vector_lem_example =
    make_value_vector_lem host host_after frame 3 9 sample sample-CanConstruct (omega arith) refl
      (λ t e. subst (λ r. GivesBlock host_after r false) (made_half t e) half-GivesBlock)
