-- ===== src/Machine/Statics.antt =====
-- The state outside the heap: what allocation and collection leave alone.
use portable_systems_lisp.Base.{ℕ, List, ◌≡◌, refl, ◌∙◌}
use portable_systems_lisp.Machine.{Object, Runtime}

-- The two states agree but for the heap, its counters and the remembered stack top.
pub record SameStatics (s s' : Runtime) : Type 0 where
  pub roots : s'.roots ≡ s.roots
  pub permanent_roots : s'.permanent_roots ≡ s.permanent_roots
  pub value_handles : s'.value_handles ≡ s.value_handles
  pub next_value_handle : s'.next_value_handle ≡ s.next_value_handle
  pub value_handle_count : s'.value_handle_count ≡ s.value_handle_count
  pub memory : s'.memory ≡ s.memory
  pub current_values : s'.current_values ≡ s.current_values
  pub current_count : s'.current_count ≡ s.current_count
  pub initialized : s'.initialized ≡ s.initialized

pub SameStatics-heap :
    (s : Runtime) (os : List Object) (count limit top : ℕ)
    → SameStatics s
        (record s { objects = os; object_count = count; collection_limit = limit; stack_top = top })
SameStatics-heap s os count limit top = record {
  roots = refl;
  permanent_roots = refl;
  value_handles = refl;
  next_value_handle = refl;
  value_handle_count = refl;
  memory = refl;
  current_values = refl;
  current_count = refl;
  initialized = refl;
}

pub SameStatics-trans :
    (s s' s'' : Runtime) → SameStatics s s' → SameStatics s' s'' → SameStatics s s''
SameStatics-trans s s' s'' h k = record {
  roots = k.roots ∙ h.roots;
  permanent_roots = k.permanent_roots ∙ h.permanent_roots;
  value_handles = k.value_handles ∙ h.value_handles;
  next_value_handle = k.next_value_handle ∙ h.next_value_handle;
  value_handle_count = k.value_handle_count ∙ h.value_handle_count;
  memory = k.memory ∙ h.memory;
  current_values = k.current_values ∙ h.current_values;
  current_count = k.current_count ∙ h.current_count;
  initialized = k.initialized ∙ h.initialized;
}
