-- ===== src/Tests/Runs.antt =====
-- Calls of the runtime from its first one on: a handle is opened, and a cons is made in a root frame.
-- The two forms of the constructors.
use portable_systems_lisp.Base.{none, ◌≡◌, refl, true, false, some, [], ◌∷◌, arith}
use portable_systems_lisp.Outcome.{ok}
use portable_systems_lisp.Machine.{
  Kind, Runtime, lookup, update, modify, write, store, push_roots, pop_roots,
}
use portable_systems_lisp.Gc.{collect_precise, make_room, new_object, allocate_object, blank}
use portable_systems_lisp.Gc.Collect.{Collected}
use portable_systems_lisp.Gc.Reach.{root_words}
use portable_systems_lisp.Frames.{store_words, open_frame}
use portable_systems_lisp.Frames.Apart.{framed}
use portable_systems_lisp.Cons.{make_cons}
use portable_systems_lisp.Handles.{value_handle_open}
use portable_systems_lisp.Steps.Sound.{IsSound}
use portable_systems_lisp.Steps.Step.{
  Serves, new_cons, open_handle, at_start, Reachable, here, later,
}
use portable_systems_lisp.Steps.Soundness.{Reachable-IsSound, Reachable-collects}
use portable_systems_lisp.Api.Laws.{with_stack, SamePrecise, Remembers, constructors-with_top}
use portable_systems_lisp.Gc.Total.{Returns}
use portable_systems_lisp.Frames.Total.{SameRoots}
use portable_systems_lisp.Closures.{make_closure}
use portable_systems_lisp.Symbols.{make_symbol, make_package}
use portable_systems_lisp.Api.Total.{constructors-Returns}
use portable_systems_lisp.Tests.Sample.{host, frame, sample, sample-IsHeap}

abbrev start : Runtime
start = at_start (λ a. 0) 8192

-- A handle was opened.
abbrev opened : Runtime
opened = record start {
  value_handles = record { token = 1; value = 2 } ∷ [];
  next_value_handle = 2;
  value_handle_count = 1;
}

opens : value_handle_open host start ≡ ok (1, opened)
unfolding value_handle_open
opens = refl

roomy :
    make_room host false (framed frame (3 ∷ 5 ∷ []) opened)
    ≡ ok (tt, framed frame (3 ∷ 5 ∷ []) opened)
unfolding make_room
roomy = refl

served : Serves host frame (3 ∷ 5 ∷ []) opened false
unfolding lookup
served = record {
  fresh = record { roots = tt; permanent_roots = tt };
  can_collect = refl;
  block = record {
    ne_null = omega arith;
    aligned = omega arith;
    fresh = λ s₁ e. ground (arith, roomy);
  };
}

-- The cons is in the heap, and the frame is popped again.
abbrev paired : Runtime
paired = record opened {
  objects = record (blank 64 Kind.cons 0) { slot_0 = 3; slot_1 = 5 } ∷ [];
  object_count = 1;
  memory = write (write (λ a. 0) 4200 3) 4208 5;
}

pairs : make_cons host frame 3 5 true opened ≡ ok (64, paired)
unfolding make_cons open_frame store_words store push_roots pop_roots allocate_object make_room
    new_object modify lookup update write
pairs = refl

abbrev reached : Reachable start paired
reached =
    later (later here (open_handle host 1 refl (omega arith) opens))
      (new_cons host frame 3 5 64 true served pairs)

Reachable-IsSound_example : IsSound paired
Reachable-IsSound_example = Reachable-IsSound (λ a. 0) 8192 paired reached

Reachable-collects_example :
    (s' : Runtime) × (collect_precise host paired ≡ ok (tt, s'))
    × Collected (root_words paired) paired s'
    × Reachable start s'
Reachable-collects_example = Reachable-collects (λ a. 0) 8192 paired host reached refl

-- The heap is full, so that the next allocation collects.
abbrev full : Runtime
full = record paired { collection_limit = 1 }

constructors-with_top_example :
    SamePrecise host
      (with_stack host 8 none)
      full
      frame
      frame
      3
      5
      (some (104 ∷ 105 ∷ 33 ∷ []))
      Kind.cons
    × Remembers host opened 4120 frame 3 5 (some (104 ∷ 105 ∷ 33 ∷ [])) Kind.cons
constructors-with_top_example =
    constructors-with_top host 8 none full opened 4120 frame frame 3 5 (some (104 ∷ 105 ∷ 33 ∷ []))
      Kind.cons refl refl

constructors-Returns_example :
    Returns (SameRoots sample) (make_cons host frame 3 5 true sample)
    × Returns (SameRoots sample) (make_closure host frame 3 5 true sample)
    × Returns (SameRoots sample) (make_symbol host frame 3 true sample)
    × Returns (SameRoots sample) (make_package host frame 3 true sample)
constructors-Returns_example = constructors-Returns host frame true sample sample-IsHeap 3 5
