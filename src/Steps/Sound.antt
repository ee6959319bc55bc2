-- ===== src/Steps/Sound.antt =====
-- The invariant of the runtime's state between two operations, and what carries its parts over.
use portable_systems_lisp.Base.{
  ℕ, ◌<◌, ◌≡◌, refl, sym, ◌∙◌, subst, List, length, All, arith, Memᴰ, ap,
}
use portable_systems_lisp.Outcome.{Outcome, ok}
use portable_systems_lisp.Machine.{Runtime, ValueHandle, M}
use portable_systems_lisp.Machine.Leaves.{SameRegistries, Ends, ended, Leaves}
use portable_systems_lisp.Gc.Reach.{IsHeap}
use portable_systems_lisp.Handles.Registry.{DistinctTokens, IsRegistry}
use portable_systems_lisp.Multiple.Laws.{IsRegistered}

-- The heap is well formed, the handles are, and the multiple values are rooted from their first use.
pub record IsSound (s : Runtime) : Type 0 where
  pub heap : IsHeap s
  pub registry : IsRegistry s
  pub values : IsRegistered s

pub IsRegistry-same : (s s' : Runtime) → SameRegistries s s' → IsRegistry s → IsRegistry s'
IsRegistry-same s s' same r =
    let issued =
      subst (λ hs. All (λ h. (0 < h.token) × (h.token < s.next_value_handle)) hs)
        (sym same.value_handles) r.issued in
    record {
      distinct = subst DistinctTokens (sym same.value_handles) r.distinct;
      issued =
          subst (λ (n : ℕ). All (λ h. (0 < h.token) × (h.token < n)) s'.value_handles)
            (sym same.next_value_handle) issued;
      next = omega (arith, same.next_value_handle, r.next);
      counted =
          same.value_handle_count
          ∙ r.counted
          ∙ sym (ap (λ (hs : List ValueHandle). length hs) same.value_handles);
    }

pub IsRegistered-same : (s s' : Runtime) → SameRegistries s s' → IsRegistered s → IsRegistered s'
IsRegistered-same s s' same reg = λ done.
    let (r, listed, at, size) = reg (sym same.initialized ∙ done) in
    (
      r,
      subst (λ rs. Memᴰ r rs) (sym same.permanent_roots) listed,
      at ∙ sym same.current_values,
      size,
    )

pub same_end :
    {A : Type 0} {r : Outcome (A × Runtime)} {a b : A} {t u : Runtime}
    → r ≡ ok (a, t)
    → r ≡ ok (b, u)
    → t ≡ u
same_end e e' = cc

-- The end of a run that returned.
ended-Same :
    {A : Type 0} {s : Runtime} {r : Outcome (A × Runtime)} (a : A) (s' : Runtime)
    → Ends s r
    → r ≡ ok (a, s')
    → SameRegistries s s'
ended-Same {A} {s} a s' (ended b t same) e =
    let returned : Outcome (A × Runtime) = ok (b, t) in
    subst (λ u. SameRegistries s u) (same_end {r = returned} {a = b} refl e) same
ended-Same a s' _ e = cc

-- An operation that leaves the registries alone and a heap that it leaves well formed.
pub IsSound-heap :
    {A : Type 0} (m : M A) (a b : A) (s s' t : Runtime)
    → Leaves m
    → IsSound s
    → m s ≡ ok (a, s')
    → m s ≡ ok (b, t)
    → IsHeap t
    → IsSound s'
IsSound-heap m a b s s' t leaves sound ran total heap =
    let same = ended-Same a s' (leaves.leaves s) ran in
    record {
      heap = subst IsHeap (same_end total ran) heap;
      registry = IsRegistry-same s s' same sound.registry;
      values = IsRegistered-same s s' same sound.values;
    }
