-- ===== src/Handles/Tokens.antt =====
-- The handles as a map from tokens to values: each operation against that view, and the tokens.
use portable_systems_lisp.Base.{
  ℕ, ◌+◌, ◌-◌, ◌≡◌, ◌≢◌, refl, true, false, none, some, ◌∷◌, ◌==◌, if◌then◌else◌, is_some, arith,
  ◌⊎◌, inl, inr, Option-cases, sym, ◌∙◌,
}
use portable_systems_lisp.Outcome.{ok, abort}
use portable_systems_lisp.Machine.{Runtime, ValueHandle, Host, size_max}
use portable_systems_lisp.Value.{nil}
use portable_systems_lisp.Handles.{
  find_handle, find_value_handle, value_handle_open, value_handle_get, set_handle, value_handle_set,
  unlink_handle, value_handle_close,
}
use portable_systems_lisp.Handles.Registry.{
  value_of, find_handle-value_of, IsRegistry, find_handle-token, find_handle-unissued, issued_mono,
  value_of-set_handle, DistinctTokens-set, All-set, length-set_handle, open-ne-zero,
  value_of-unlink, DistinctTokens-unlink, All-unlink, length-unlink,
}

-- Opening yields a token that is not open and was never issued before, with the value NIL; the other
-- tokens keep their values.
pub value_handle_open_lem :
    (host : Host) (s : Runtime)
    → host.malloc ≡ true
    → s.next_value_handle ≢ size_max
    → IsRegistry s
    → (s' : Runtime) × (value_handle_open host s ≡ ok (s.next_value_handle, s'))
      × IsRegistry s'
      × (value_of s.value_handles s.next_value_handle ≡ none)
      × ((j : ℕ)
          → value_of s'.value_handles j
            ≡ (if s.next_value_handle == j then some nil else value_of s.value_handles j))
      × (s'.next_value_handle ≡ s.next_value_handle + 1)
unfolding value_handle_open find_handle
value_handle_open_lem host s memory more r =
    let open_ok : (s.next_value_handle == size_max) ≡ false = ground arith in
    let free =
      find_handle-unissued s.next_value_handle s.next_value_handle s.value_handles r.issued
        (inr (omega arith)) in
    (
      record s {
        value_handles = record { token = s.next_value_handle; value = nil } ∷ s.value_handles;
        next_value_handle = s.next_value_handle + 1;
        value_handle_count = s.value_handle_count + 1;
      },
      rw (open_ok, memory),
      record {
        distinct = (free, r.distinct);
        issued = ((r.next, omega arith), issued_mono s.next_value_handle s.value_handles r.issued);
        next = omega arith;
        counted = omega (arith, r.counted);
      },
      sym (find_handle-value_of s.next_value_handle s.value_handles) ∙ rw free refl,
      λ j. ground arith,
      refl,
    )

-- The tokens that find_value_handle accepts are those of the open handles.
find_value_handle-open :
    (token : ℕ) (s : Runtime) (h : ValueHandle)
    → IsRegistry s
    → find_handle token s.value_handles ≡ some h
    → find_value_handle token s ≡ ok (h, s)
unfolding find_value_handle
find_value_handle-open token s h r e = rw (open-ne-zero token s r (ground arith), e)

find_value_handle-closed :
    (token : ℕ) (s : Runtime)
    → find_handle token s.value_handles ≡ none
    → find_value_handle token s ≡ abort
unfolding find_value_handle
find_value_handle-closed token s e = ground arith

-- In a well-formed registry, reading a token yields the value that the list of handles gives it, and
-- aborts if no handle has the token.
pub value_handle_get_lem :
    (token : ℕ) (s : Runtime)
    → IsRegistry s
    → value_handle_get token s
      ≡ elim (value_of s.value_handles token) [ none ↦ abort | some v ↦ ok (v, s) ]
unfolding value_handle_get
value_handle_get_lem token s r =
    let kept = find_handle-value_of token s.value_handles in
    elim (Option-cases (find_handle token s.value_handles)) [
      | inl free ↦
          let none_kept : value_of s.value_handles token ≡ none = sym (rw free at kept) in
          rw (find_value_handle-closed token s free, value_handle_get, none_kept)
      | inr (h, e) ↦
          let one_kept : value_of s.value_handles token ≡ some h.value = sym (rw e at kept) in
          rw (find_value_handle-open token s h r e, value_handle_get, one_kept)
    ]

-- What writing to an open token makes of `s`.
pub record HandleSet (s s' : Runtime) (token value : ℕ) : Type 0 where
  pub registry : IsRegistry s'
  pub values :
      (j : ℕ)
      → value_of s'.value_handles j
        ≡ (if token == j then some value else value_of s.value_handles j)
  pub rest : s' ≡ record s { value_handles = s'.value_handles }

pub value_handle_set-open :
    (token value : ℕ) (s : Runtime)
    → IsRegistry s
    → is_some (find_handle token s.value_handles) ≡ true
    → (s' : Runtime) × (value_handle_set token value s ≡ ok (tt, s')) × HandleSet s s' token value
unfolding value_handle_set
value_handle_set-open token value s r known =
    elim (Option-cases (find_handle token s.value_handles)) [
      | inl free ↦ ground arith
      | inr (h, e) ↦
          let here = find_handle-token token s.value_handles h e in
          (
            record s { value_handles = set_handle token value s.value_handles },
            rw (find_value_handle-open token s h r e, value_handle_set, here),
            record {
              registry = record {
                distinct = DistinctTokens-set token value s.value_handles r.distinct;
                issued = All-set s.next_value_handle token value s.value_handles r.issued;
                next = r.next;
                counted = omega (arith, length-set_handle token value s.value_handles, r.counted);
              };
              values = λ j. value_of-set_handle token value j s.value_handles known;
              rest = refl;
            },
          )
    ]

-- In a well-formed registry, writing to a token that no handle has aborts. Writing to any other
-- changes the value of that token and nothing else, and keeps the registry well formed.
pub value_handle_set_lem :
    (token value : ℕ) (s : Runtime)
    → IsRegistry s
    → ((value_of s.value_handles token ≡ none) × (value_handle_set token value s ≡ abort))
      ⊎ ((is_some (value_of s.value_handles token) ≡ true)
          × ((s' : Runtime) × (value_handle_set token value s ≡ ok (tt, s'))
              × HandleSet s s' token value))
unfolding value_handle_set
value_handle_set_lem token value s r =
    let kept = find_handle-value_of token s.value_handles in
    elim (Option-cases (find_handle token s.value_handles)) [
      | inl free ↦
          inl (sym (rw free at kept), rw (find_value_handle-closed token s free, value_handle_set))
      | inr (h, e) ↦
          inr (ground (arith, kept, e), value_handle_set-open token value s r (ground (arith, e)))
    ]

-- Closing an open token takes it out of the map and leaves the other tokens alone; the count follows.
pub value_handle_close_lem :
    (token : ℕ) (s : Runtime)
    → IsRegistry s
    → is_some (find_handle token s.value_handles) ≡ true
    → (s' : Runtime) × (value_handle_close token s ≡ ok (tt, s'))
      × IsRegistry s'
      × ((j : ℕ)
          → value_of s'.value_handles j ≡ (if token == j then none else value_of s.value_handles j))
      × (s'.value_handle_count + 1 ≡ s.value_handle_count)
      × (s'.next_value_handle ≡ s.next_value_handle)
unfolding value_handle_close
value_handle_close_lem token s r known =
    let positive = open-ne-zero token s r known in
    let fewer = length-unlink token s.value_handles known in
    (
      record s {
        value_handles = unlink_handle token s.value_handles;
        value_handle_count = s.value_handle_count - 1;
      },
      rw (positive, known),
      record {
        distinct = DistinctTokens-unlink token s.value_handles r.distinct;
        issued = All-unlink s.next_value_handle token s.value_handles r.issued;
        next = r.next;
        counted = omega (arith, r.counted);
      },
      λ j. value_of-unlink token j s.value_handles r.distinct,
      omega (arith, r.counted),
      refl,
    )
