-- ===== src/Tests/Constructors.antt =====
-- Conses, closures and calls over the sample runtime.
use portable_systems_lisp.Base.{
  ℕ, ◌≡◌, ◌≢◌, ◌≤◌, refl, true, false, List, [], ◌∷◌, none, some, arith, inr, ◌⊎◌, length,
}
use portable_systems_lisp.Outcome.{ok, abort}
use portable_systems_lisp.Value.{nil}
use portable_systems_lisp.Machine.{Kind, Object, Runtime, M, lookup, find_object}
use portable_systems_lisp.Gc.{make_room}
use portable_systems_lisp.Gc.Reach.{root_words}
use portable_systems_lisp.Gc.Allocate.{GivesBlock}
use portable_systems_lisp.Frames.Apart.{IsFresh, framed}
use portable_systems_lisp.Frames.Construct.{CanConstruct, Constructed}
use portable_systems_lisp.Cons.{make_cons, car, cdr}
use portable_systems_lisp.Cons.Laws.{cons_object, make_cons_lem, car-cdr-make_cons, car-cdr_cases}
use portable_systems_lisp.Closures.{make_closure, call_closure}
use portable_systems_lisp.Closures.Laws.{closure_object, make_closure_lem, call_closure-balanced}
use portable_systems_lisp.Tests.Sample.{sample, host, frame, adder, sample-IsHeap}

room :
    (vs : List ℕ) → make_room host false (framed frame vs sample) ≡ ok (tt, framed frame vs sample)
unfolding make_room
room vs = refl

free : lookup 64 sample.objects ≡ none
unfolding lookup
free = refl

sample-GivesBlock : (vs : List ℕ) → GivesBlock host (framed frame vs sample) false
sample-GivesBlock vs = record {
  ne_null = omega arith;
  aligned = omega arith;
  fresh = λ s₁ e. ground (arith, room vs, free);
}

sample-CanConstruct : (vs : List ℕ) → length vs ≤ 2 → CanConstruct host frame vs sample 0 false
sample-CanConstruct vs small = record {
  heap = sample-IsHeap;
  fresh = record { roots = (inr (omega arith), tt); permanent_roots = tt };
  can_collect = refl;
  block = sample-GivesBlock vs;
  fits = omega arith;
}

make_cons_lem_example :
    (s' : Runtime) × (make_cons host frame 24 nil true sample ≡ ok (64, s'))
    × Constructed frame (24 ∷ nil ∷ []) sample s' 64 (cons_object 64 24 nil)
make_cons_lem_example =
    make_cons_lem host frame 24 nil true sample (sample-CanConstruct (24 ∷ nil ∷ []) (omega arith))

car-cdr-make_cons_example :
    (s' : Runtime) × (p : ℕ) × (make_cons host frame 24 nil true sample ≡ ok (p, s'))
    × (car p s' ≡ ok (24, s'))
    × (cdr p s' ≡ ok (nil, s'))
car-cdr-make_cons_example =
    car-cdr-make_cons host frame 24 nil true sample
      (sample-CanConstruct (24 ∷ nil ∷ []) (omega arith))

make_closure_lem_example :
    (s' : Runtime) × (make_closure host frame 4000 24 true sample ≡ ok (64, s'))
    × Constructed frame (24 ∷ []) sample s' 64 (closure_object 64 4000 24)
make_closure_lem_example =
    make_closure_lem host frame 4000 24 true sample (omega arith)
      (sample-CanConstruct (24 ∷ []) (omega arith))

-- Code that returns its argument.
abbrev identity : ℕ → ℕ → ℕ → M ℕ
identity code environment argument s = ok (argument, s)

-- Code that leaves a frame of its own behind.
abbrev leaky : ℕ → ℕ → ℕ → M ℕ
leaky code environment argument s =
    ok
      (argument, record s { roots = record { address = 7000; values = 7100; count = 1 } ∷ s.roots })

abbrev called : Runtime
called = framed frame (40 ∷ 5 ∷ []) sample

adder-held : lookup 40 sample.objects ≡ some adder
unfolding lookup
adder-held = refl

sample-IsFresh : IsFresh frame 2 sample
sample-IsFresh = record { roots = (inr (omega arith), tt); permanent_roots = tt }

call_closure-balanced_example :
    (call_closure identity frame 40 5 sample ≡ ok (5, record called { roots = sample.roots }))
    × (root_words called ≡ 40 ∷ 5 ∷ root_words sample)
call_closure-balanced_example =
    call_closure-balanced identity frame 40 5 sample called adder 5 sample-IsHeap sample-IsFresh
      adder-held refl refl refl

car-cdr_cases_example :
    ((◌≡◌ {A = ℕ} 8 nil) × (car 8 sample ≡ ok (nil, sample)) × (cdr 8 sample ≡ ok (nil, sample)))
    ⊎ ((o : Object) × (find_object 8 sample.objects ≡ some o)
        × (o.kind ≡ Kind.cons)
        × (car 8 sample ≡ ok (o.slot_0, sample))
        × (cdr 8 sample ≡ ok (o.slot_1, sample)))
    ⊎ ((◌≢◌ {A = ℕ} 8 nil)
        × ((o : Object) → find_object 8 sample.objects ≡ some o → o.kind ≢ Kind.cons)
        × (car 8 sample ≡ abort)
        × (cdr 8 sample ≡ abort))
car-cdr_cases_example = car-cdr_cases 8 sample
