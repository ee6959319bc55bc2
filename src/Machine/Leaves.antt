-- ===== src/Machine/Leaves.antt =====
-- Commands that leave the registries alone: the handles, the permanent roots and the array of the
-- multiple values. What a command is made of decides it, whatever its arguments.
use portable_systems_lisp.Base.{
  ℕ, ◌≡◌, refl, ◌∙◌, Bool, true, false, Option, none, some, List, [], ◌∷◌, if◌then◌else◌, ◌==◌,
}
use portable_systems_lisp.Outcome.{Outcome, ok, abort, fault, out_of_fuel}
use portable_systems_lisp.Machine.{
  Kind, kind_code, Object, Root, Runtime, M, and_then, lookup, find_object, load, modify,
  expect_object, store, push_roots, pop_roots,
}

pub record SameRegistries (s s' : Runtime) : Type 0 where
  pub value_handles : s'.value_handles ≡ s.value_handles
  pub next_value_handle : s'.next_value_handle ≡ s.next_value_handle
  pub value_handle_count : s'.value_handle_count ≡ s.value_handle_count
  pub permanent_roots : s'.permanent_roots ≡ s.permanent_roots
  pub current_values : s'.current_values ≡ s.current_values
  pub initialized : s'.initialized ≡ s.initialized

-- The end of a run of a command in the state `s`.
pub data Ends {A : Type 0} (s : Runtime) : Outcome (A × Runtime) → Type 0 where
  ended : (a : A) (s' : Runtime) → SameRegistries s s' → Ends s (ok (a, s'))
  aborted : Ends s abort
  faulted : Ends s fault
  unended : Ends s out_of_fuel

pub record Leaves {A : Type 0} (m : M A) : Type 0 where
  pub leaves : (s : Runtime) → Ends s (m s)

pub Same-refl : (s : Runtime) → SameRegistries s s
Same-refl s = record {
  value_handles = refl;
  next_value_handle = refl;
  value_handle_count = refl;
  permanent_roots = refl;
  current_values = refl;
  initialized = refl;
}

Same-trans :
    {s s' s'' : Runtime} → SameRegistries s s' → SameRegistries s' s'' → SameRegistries s s''
Same-trans h k = record {
  value_handles = k.value_handles ∙ h.value_handles;
  next_value_handle = k.next_value_handle ∙ h.next_value_handle;
  value_handle_count = k.value_handle_count ∙ h.value_handle_count;
  permanent_roots = k.permanent_roots ∙ h.permanent_roots;
  current_values = k.current_values ∙ h.current_values;
  initialized = k.initialized ∙ h.initialized;
}

Ends-later :
    {A : Type 0} {s s₁ : Runtime} {r : Outcome (A × Runtime)}
    → SameRegistries s s₁
    → Ends s₁ r
    → Ends s r
Ends-later first (ended a s' second) = ended a s' (Same-trans first second)
Ends-later first aborted = aborted
Ends-later first faulted = faulted
Ends-later first unended = unended

Ends-then :
    {A B : Type 0} {s : Runtime} {r : Outcome (A × Runtime)} (k : A → M B)
    → Ends s r
    → ((a : A) → Leaves (k a))
    → Ends s (and_then r k)
Ends-then k (ended a s' same) rest = Ends-later same ((rest a).leaves s')
Ends-then k aborted rest = aborted
Ends-then k faulted rest = faulted
Ends-then k unended rest = unended

pub Leaves-bind :
    {A B : Type 0} {m : M A} {k : A → M B}
    → Leaves m
    → ((a : A) → Leaves (k a))
    → Leaves {A = B} (λ s. and_then (m s) k)
Leaves-bind {k} first rest = record { leaves = λ s. Ends-then k (first.leaves s) rest }

pub Leaves-if :
    {A : Type 0} (b : Bool) {m n : M A} → Leaves m → Leaves n → Leaves (if b then m else n)
Leaves-if true first second = first
Leaves-if false first second = second

pub Leaves-pure : {A : Type 0} {a : A} → Leaves (λ s. ok (a, s))
Leaves-pure = record { leaves = λ s. ended _ s (Same-refl s) }

pub Leaves-aborts : {A : Type 0} → Leaves {A = A} (λ s. abort)
Leaves-aborts = record { leaves = λ s. aborted }

pub Leaves-faults : {A : Type 0} → Leaves {A = A} (λ s. fault)
Leaves-faults = record { leaves = λ s. faulted }

pub Leaves-get : Leaves (λ s. ok (s, s))
Leaves-get = record { leaves = λ s. ended s s (Same-refl s) }

-- A command that is a choice on an optional object.
pub Ends-option :
    {A B : Type 0} {s : Runtime} (found : Option B) (r : Outcome (A × Runtime))
    (k : B → Outcome (A × Runtime))
    → Ends s r
    → ((b : B) → Ends s (k b))
    → Ends s (elim found [ none ↦ r | some b ↦ k b ])
Ends-option none r k first rest = first
Ends-option (some b) r k first rest = rest b

pub Ends-if :
    {A : Type 0} {s : Runtime} (b : Bool) (m n : Outcome (A × Runtime))
    → Ends s m
    → Ends s n
    → Ends s (if b then m else n)
Ends-if true m n first second = first
Ends-if false m n first second = second

pub Same-state :
    (s : Runtime) (objects : List Object) (roots : List Root) (count limit top current : ℕ)
    (memory : ℕ → ℕ)
    → SameRegistries s (record s {
      objects = objects;
      roots = roots;
      object_count = count;
      collection_limit = limit;
      stack_top = top;
      current_count = current;
      memory = memory;
    })
Same-state s objects roots count limit top current memory = record {
  value_handles = refl;
  next_value_handle = refl;
  value_handle_count = refl;
  permanent_roots = refl;
  current_values = refl;
  initialized = refl;
}

pub Leaves-load : (p : ℕ) → Leaves (load p)
unfolding load
Leaves-load p = record {
  leaves = λ s.
      Ends-option (lookup p s.objects) fault (λ o. ok (o, s)) faulted
        (λ o. ended o s (Same-refl s));
}

pub Leaves-modify : (p : ℕ) (f : Object → Object) → Leaves (modify p f)
unfolding modify
Leaves-modify p f = record {
  leaves = λ s.
      Ends-option (lookup p s.objects) fault _ faulted
        (λ o. ended tt _ (Same-state s _ _ _ _ _ _ _));
}

pub Leaves-expect : (value : ℕ) (k : Option Kind) → Leaves (expect_object value k)
unfolding expect_object
Leaves-expect value none = record {
  leaves = λ s.
      Ends-option (find_object value s.objects) abort _ aborted
        (λ o. ended o.address s (Same-refl s));
}
Leaves-expect value (some k) = record {
  leaves = λ s. Ends-option (find_object value s.objects) abort _ aborted (λ o.
      Ends-if (kind_code o.kind == kind_code k) _ _ (ended o.address s (Same-refl s)) aborted);
}

pub Leaves-store : (a v : ℕ) → Leaves (store a v)
unfolding store
Leaves-store a v = record { leaves = λ s. ended tt _ (Same-state s _ _ _ _ _ _ _) }

pub Leaves-push_roots : (root values count : ℕ) → Leaves (push_roots root values count)
unfolding push_roots
Leaves-push_roots root values count = record {
  leaves = λ s. ended tt _ (Same-state s _ _ _ _ _ _ _);
}

pub Leaves-pop_roots : (root : ℕ) → Leaves (pop_roots root)
unfolding pop_roots
Leaves-pop_roots root = record { leaves = λ s. popped s s.roots }
  where
    popped :
        (s : Runtime) (roots : List Root)
        → Ends s (elim roots as (λ _. Outcome (Unit {0} × Runtime)) [
          | [] ↦ abort
          | r ∷ rest ↦ if r.address == root then ok (tt, record s { roots = rest }) else abort
        ])
    popped s [] = aborted
    popped s (r ∷ rest) =
        Ends-if (r.address == root) _ _ (ended tt _ (Same-state s _ _ _ _ _ _ _)) aborted

pub Leaves-any : {A : Type 0} (m : M A) → ((s : Runtime) → Ends s (m s)) → Leaves m
Leaves-any m ends = record { leaves = ends }

pub ruleset leaves_rules = (
  Leaves-bind, Leaves-if, Leaves-pure, Leaves-aborts, Leaves-faults, Leaves-get, Leaves-load,
  Leaves-modify, Leaves-expect, Leaves-store, Leaves-push_roots, Leaves-pop_roots,
)

-- A command that first reads the whole state.
pub Leaves-reads :
    {A : Type 0} (k : Runtime → M A) → ((s : Runtime) → Leaves (k s)) → Leaves (λ s. k s s)
Leaves-reads k all = record { leaves = λ s. (all s).leaves s }
