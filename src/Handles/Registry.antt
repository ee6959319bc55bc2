-- ===== src/Handles/Registry.antt =====
-- The registry of handles: which tokens are open, and what the walks along the list do to it.
use portable_systems_lisp.Base.{
  ℕ, ◌+◌, ◌≤◌, ◌<◌, ◌≡◌, refl, true, false, Option, none, some, List, [], ◌∷◌, ◌==◌, if◌then◌else◌,
  is_some, length, arith, All, inl, inr, ◌⊎◌, Bool-cases, ap, sym, ◌∙◌,
}
use mathlib.Core.Option
use portable_systems_lisp.Machine.{Runtime, ValueHandle}
use portable_systems_lisp.Handles.{find_handle, set_handle, unlink_handle}

-- The value that a token keeps alive; none for a token that is not open.
abbrev pub value_of : List ValueHandle → ℕ → Option ℕ
value_of [] token = none
value_of (h ∷ hs) token = if h.token == token then some h.value else value_of hs token

-- The walk finds the handle of the token, if there is one.
pub find_handle-value_of :
    (token : ℕ) (hs : List ValueHandle)
    → Option.map (λ h. h.value) (find_handle token hs) ≡ value_of hs token
unfolding find_handle
find_handle-value_of token [] = refl
find_handle-value_of token (h ∷ hs) = ground (arith, find_handle-value_of token hs)

abbrev pub DistinctTokens : List ValueHandle → Type 0
DistinctTokens [] = Unit
DistinctTokens (h ∷ hs) = (find_handle h.token hs ≡ none) × DistinctTokens hs

-- The registry between two operations.
pub record IsRegistry (s : Runtime) : Type 0 where
  pub distinct : DistinctTokens s.value_handles
  pub issued : All (λ h. (0 < h.token) × (h.token < s.next_value_handle)) s.value_handles
  pub next : 0 < s.next_value_handle
  pub counted : s.value_handle_count ≡ length s.value_handles

pub find_handle-token :
    (token : ℕ) (hs : List ValueHandle) (h : ValueHandle)
    → find_handle token hs ≡ some h
    → h.token ≡ token
unfolding find_handle
find_handle-token token [] h e = ground arith
find_handle-token token (x ∷ hs) h e = ground (arith, find_handle-token token hs h)

pub find_handle-unissued :
    (token bound : ℕ) (hs : List ValueHandle)
    → All (λ h. (0 < h.token) × (h.token < bound)) hs
    → (token ≡ 0) ⊎ (bound ≤ token)
    → find_handle token hs ≡ none
unfolding find_handle
find_handle-unissued token bound [] all out = refl
find_handle-unissued token bound (h ∷ hs) all out =
    ground (arith, find_handle-unissued token bound hs all.1)

pub issued_mono :
    (bound : ℕ) (hs : List ValueHandle)
    → All (λ h. (0 < h.token) × (h.token < bound)) hs
    → All (λ h. (0 < h.token) × (h.token < bound + 1)) hs
issued_mono bound [] all = tt
issued_mono bound (h ∷ hs) all = ((all.0.0, omega arith), issued_mono bound hs all.1)

pub value_of-set_handle :
    (token value j : ℕ) (hs : List ValueHandle)
    → is_some (find_handle token hs) ≡ true
    → value_of (set_handle token value hs) j ≡ (if token == j then some value else value_of hs j)
unfolding find_handle set_handle
value_of-set_handle token value j [] known = ground arith
value_of-set_handle token value j (h ∷ hs) known =
    ground (arith, value_of-set_handle token value j hs)

pub find_handle-set_handle :
    (token value j : ℕ) (hs : List ValueHandle)
    → is_some (find_handle j (set_handle token value hs)) ≡ is_some (find_handle j hs)
unfolding find_handle set_handle
find_handle-set_handle token value j [] = refl
find_handle-set_handle token value j (h ∷ hs) =
    ground (arith, find_handle-set_handle token value j hs)

pub DistinctTokens-set :
    (token value : ℕ) (hs : List ValueHandle)
    → DistinctTokens hs
    → DistinctTokens (set_handle token value hs)
unfolding set_handle
DistinctTokens-set token value [] d = tt
DistinctTokens-set token value (h ∷ hs) d = elim (Bool-cases (h.token == token)) [
  | inl here ↦ rw here d
  | inr further ↦ rw further (
    ground (arith, find_handle-set_handle token value h.token hs),
    DistinctTokens-set token value hs d.1,
  )
]

pub All-set :
    (bound token value : ℕ) (hs : List ValueHandle)
    → All (λ h. (0 < h.token) × (h.token < bound)) hs
    → All (λ h. (0 < h.token) × (h.token < bound)) (set_handle token value hs)
unfolding set_handle
All-set bound token value [] all = tt
All-set bound token value (h ∷ hs) all = elim (Bool-cases (h.token == token)) [
  | inl here ↦ rw here all
  | inr further ↦ rw further (all.0, All-set bound token value hs all.1)
]

pub length-set_handle :
    (token value : ℕ) (hs : List ValueHandle) → length (set_handle token value hs) ≡ length hs
unfolding set_handle
length-set_handle token value [] = refl
length-set_handle token value (h ∷ hs) = ground (arith, length-set_handle token value hs)

-- An open token is not 0.
pub open-ne-zero :
    (token : ℕ) (s : Runtime)
    → IsRegistry s
    → is_some (find_handle token s.value_handles) ≡ true
    → (token == 0) ≡ false
open-ne-zero token s r known = elim (Bool-cases (token == 0)) [
  | inr ne ↦ ne
  | inl null ↦
      let free =
        find_handle-unissued token s.next_value_handle s.value_handles r.issued
          (inl (ground arith)) in
      ground arith
]

pub find_handle-unlink :
    (token j : ℕ) (hs : List ValueHandle)
    → DistinctTokens hs
    → find_handle j (unlink_handle token hs) ≡ (if token == j then none else find_handle j hs)
unfolding find_handle unlink_handle
find_handle-unlink token j [] d = ground arith
find_handle-unlink token j (h ∷ hs) d =
    ground (arith, find_handle-unlink token j hs d.1, ap (λ x. find_handle x hs))

pub value_of-unlink :
    (token j : ℕ) (hs : List ValueHandle)
    → DistinctTokens hs
    → value_of (unlink_handle token hs) j ≡ (if token == j then none else value_of hs j)
value_of-unlink token j hs d =
    let after = find_handle-unlink token j hs d in
    let kept = find_handle-value_of j hs in
    sym (find_handle-value_of j (unlink_handle token hs)) ∙ elim (Bool-cases (token == j)) [
      | inl here ↦ rw (after, here) refl
      | inr other ↦ rw (after, other) kept
    ]

pub DistinctTokens-unlink :
    (token : ℕ) (hs : List ValueHandle)
    → DistinctTokens hs
    → DistinctTokens (unlink_handle token hs)
unfolding unlink_handle
DistinctTokens-unlink token [] d = tt
DistinctTokens-unlink token (h ∷ hs) d = elim (Bool-cases (h.token == token)) [
  | inl here ↦ rw here d.1
  | inr further ↦ rw further (
    ground (arith, find_handle-unlink token h.token hs d.1, d.0),
    DistinctTokens-unlink token hs d.1,
  )
]

pub All-unlink :
    (bound token : ℕ) (hs : List ValueHandle)
    → All (λ h. (0 < h.token) × (h.token < bound)) hs
    → All (λ h. (0 < h.token) × (h.token < bound)) (unlink_handle token hs)
unfolding unlink_handle
All-unlink bound token [] all = tt
All-unlink bound token (h ∷ hs) all = elim (Bool-cases (h.token == token)) [
  | inl here ↦ rw here all.1
  | inr further ↦ rw further (all.0, All-unlink bound token hs all.1)
]

pub length-unlink :
    (token : ℕ) (hs : List ValueHandle)
    → is_some (find_handle token hs) ≡ true
    → length (unlink_handle token hs) + 1 ≡ length hs
unfolding find_handle unlink_handle
length-unlink token [] known = cc
length-unlink token (h ∷ hs) known = ground (arith, length-unlink token hs)
