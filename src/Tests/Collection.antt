-- ===== src/Tests/Collection.antt =====
-- Collections and allocations of the sample runtime.
use portable_systems_lisp.Base.{◌≡◌, ◌++◌, refl, false, none, arith}
use portable_systems_lisp.Outcome.{ok}
use portable_systems_lisp.Machine.{Kind, Runtime, Host, lookup, update, find_object, read_words}
use portable_systems_lisp.Value.{pointer_p}
use portable_systems_lisp.Gc.{
  mark_value, mark_values, mark_frames, mark_registered_roots, stack_words, mark_children,
  slot_count, trace, sweep_objects, collect_objects, collect_precise, collect, make_room,
  allocate_object, blank, start_marking, finish,
}
use portable_systems_lisp.Gc.Reach.{root_words}
use portable_systems_lisp.Gc.Collect.{Collected, with_top, collect_precise_lem, collect_lem}
use portable_systems_lisp.Gc.Allocate.{GivesBlock, Allocated, allocate_object_lem}
use portable_systems_lisp.Tests.Sample.{sample, full, host, collected, sample-IsHeap, full-IsHeap}

sample_collects : collect_precise host sample ≡ ok (tt, collected)
unfolding collect_precise start_marking finish mark_registered_roots mark_frames mark_values
    mark_value mark_children slot_count trace sweep_objects lookup find_object pointer_p read_words
    update
sample_collects = refl

collect_precise_lem_example :
    (s' : Runtime) × (collect_precise host sample ≡ ok (tt, s'))
    × Collected (root_words sample) sample s'
collect_precise_lem_example = collect_precise_lem host sample refl sample-IsHeap

collect_lem_example :
    (s' : Runtime) × (collect host sample ≡ ok (tt, s'))
    × Collected
        (root_words sample ++ stack_words sample.memory host.marker 4120)
        (with_top sample 4120)
        s'
collect_lem_example = collect_lem host sample 4120 refl refl (omega arith) sample-IsHeap

-- Allocation at the limit collects first, and calloc may then reuse a freed address.
full_makes_room : make_room host false full ≡ ok (tt, record collected { collection_limit = 256 })
unfolding make_room collect_objects start_marking finish mark_registered_roots mark_frames
    mark_values mark_value mark_children slot_count trace sweep_objects lookup find_object pointer_p
    read_words update
full_makes_room = refl

abbrev pub emptied : Runtime
emptied = record collected { collection_limit = 256 }

-- What the host answers where calloc gives the freed block again.
abbrev pub reusing : Host
reusing = record host { calloc = 24 }

reusing_makes_room : make_room reusing false full ≡ ok (tt, emptied)
unfolding make_room collect_objects start_marking finish mark_registered_roots mark_frames
    mark_values mark_value mark_children slot_count trace sweep_objects lookup find_object pointer_p
    read_words update
reusing_makes_room = refl

freed : lookup 24 emptied.objects ≡ none
unfolding lookup
freed = refl

pub reusing-GivesBlock : GivesBlock reusing full false
reusing-GivesBlock = record {
  ne_null = omega arith;
  aligned = omega arith;
  fresh = λ s₁ e. ground (arith, reusing_makes_room, freed);
}

allocate_object_lem_example :
    (s' : Runtime) × (allocate_object reusing Kind.cons 0 false full ≡ ok (24, s'))
    × Allocated (root_words full) full s' 24 (blank 24 Kind.cons 0)
allocate_object_lem_example =
    allocate_object_lem reusing full Kind.cons 0 false refl reusing-GivesBlock (omega arith)
      full-IsHeap
