-- ===== src/Tests/Sample.antt =====
-- A small runtime: a cons at 8 that refers to the cons at 16, a cons at 24 that nothing refers to, a
-- string at 32 and a closure at 40; one root frame, whose array at 4096 holds the words 8, 32 and 40.
use portable_systems_lisp.Base.{ℕ, refl, true, false, some, [], ◌∷◌, ◌==◌, if◌then◌else◌, arith}
use portable_systems_lisp.Machine.{Kind, Object, Runtime, Host, lookup}
use portable_systems_lisp.Gc.{blank}
use portable_systems_lisp.Gc.Reach.{IsHeap}
use portable_systems_lisp.Frames.{Frame}

abbrev pub pair : ℕ → ℕ → ℕ → Object
pair a x y = record (blank a Kind.cons 0) { slot_0 = x; slot_1 = y }

abbrev pub hi : Object
hi = record (blank 32 Kind.string 3) { length = 2; bytes = 104 ∷ 105 ∷ 0 ∷ [] }

abbrev pub adder : Object
adder = record (blank 40 Kind.closure 0) { slot_0 = 8; code = 4000 }

abbrev pub stack : ℕ → ℕ
stack a = if a == 4096 then 8 else if a == 4104 then 32 else if a == 4112 then 40 else 0

abbrev pub sample : Runtime
sample = record {
  objects = pair 8 16 3 ∷ pair 16 5 2 ∷ pair 24 8 8 ∷ hi ∷ adder ∷ [];
  roots = record { address = 5000; values = 4096; count = 3 } ∷ [];
  permanent_roots = [];
  value_handles = record { token = 1; value = 2 } ∷ [];
  next_value_handle = 2;
  value_handle_count = 1;
  object_count = 5;
  collection_limit = 256;
  memory = stack;
  current_values = 8192;
  current_count = 0;
  initialized = false;
  stack_top = 0;
}

-- As `sample`, at the limit: the next allocation collects.
abbrev pub full : Runtime
full = record sample { collection_limit = 5 }

abbrev pub host : Host
host = record { calloc = 64; malloc = true; marker = 4096; platform_stack_top = some 4120 }

abbrev pub frame : Frame
frame = record { root = 5100; values = 4200 }

pub sample-IsHeap : IsHeap sample
unfolding lookup
sample-IsHeap = record {
  distinct = (refl, (refl, (refl, (refl, (refl, tt)))));
  aligned = omega arith;
  unmarked = (refl, (refl, (refl, (refl, (refl, tt)))));
  sized = (
    (λ _. omega arith, λ _. omega arith),
    (
      (λ _. omega arith, λ _. omega arith),
      (
        (λ _. omega arith, λ _. omega arith),
        ((λ e. cc, λ _. omega arith), ((λ _. omega arith, λ _. omega arith), tt)),
      ),
    ),
  );
  counted = refl;
}

pub full-IsHeap : IsHeap full
full-IsHeap = record {
  distinct = sample-IsHeap.distinct;
  aligned = sample-IsHeap.aligned;
  unmarked = sample-IsHeap.unmarked;
  sized = sample-IsHeap.sized;
  counted = refl;
}

-- The collection removes the cons at 24.
abbrev pub collected : Runtime
collected = record sample {
  objects = pair 8 16 3 ∷ pair 16 5 2 ∷ hi ∷ adder ∷ [];
  object_count = 4;
}
