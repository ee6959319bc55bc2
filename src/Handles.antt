-- ===== src/Handles.antt =====
-- The value handles of runtime/gc.c: tokens that each keep one psl_value alive.
pub mod Registry
pub mod Tokens
use portable_systems_lisp.Base.{
  ℕ, ◌+◌, ◌-◌, Bool, not, ◌||◌, Option, none, some, List, [], ◌∷◌, ◌==◌, if◌then◌else◌, is_some,
}
use portable_systems_lisp.Outcome.{ok, abort}
use portable_systems_lisp.Machine.{Runtime, ValueHandle, Host, M, size_max}
use portable_systems_lisp.Value.{nil}

-- The loop of `find_value_handle`.
unfoldable pub find_handle : ℕ → List ValueHandle → Option ValueHandle
find_handle token [] = none
find_handle token (h ∷ hs) = if h.token == token then some h else find_handle token hs

unfoldable pub find_value_handle : ℕ → M ValueHandle
unfolding find_handle
find_value_handle token s =
    if token == 0
    then abort
    else elim (find_handle token s.value_handles) [ none ↦ abort | some h ↦ ok (h, s) ]

unfoldable pub value_handle_open : Host → M ℕ
value_handle_open host s =
    if s.next_value_handle == size_max
    then abort
    else if not host.malloc
    then abort
    else ok (
      s.next_value_handle,
      record s {
        value_handles = record { token = s.next_value_handle; value = nil } ∷ s.value_handles;
        next_value_handle = s.next_value_handle + 1;
        value_handle_count = s.value_handle_count + 1;
      },
    )

unfoldable pub value_handle_get : ℕ → M ℕ
value_handle_get token s = elim (find_value_handle token s) [
  | ok (h, s') ↦ ok (h.value, s')
  | _ ↦ abort
]

-- The write through the pointer that `find_value_handle` returned.
unfoldable pub set_handle : ℕ → ℕ → List ValueHandle → List ValueHandle
set_handle token value [] = []
set_handle token value (h ∷ hs) =
    if h.token == token then record h { value = value } ∷ hs else h ∷ set_handle token value hs

unfoldable pub value_handle_set : ℕ → ℕ → M (Unit {0})
value_handle_set token value s = elim (find_value_handle token s) [
  | ok (h, s') ↦ ok (tt, record s' { value_handles = set_handle h.token value s'.value_handles })
  | _ ↦ abort
]

-- The unlinking of the first handle with the token.
unfoldable pub unlink_handle : ℕ → List ValueHandle → List ValueHandle
unlink_handle token [] = []
unlink_handle token (h ∷ hs) = if h.token == token then hs else h ∷ unlink_handle token hs

unfoldable pub value_handle_close : ℕ → M (Unit {0})
unfolding find_handle unlink_handle
value_handle_close token s =
    if token == 0 || not (is_some (find_handle token s.value_handles))
    then abort
    else ok (
      tt,
      record s {
        value_handles = unlink_handle token s.value_handles;
        value_handle_count = s.value_handle_count - 1;
      },
    )

-- psl_rt_live_value_handles
unfoldable pub live_value_handles : M ℕ
live_value_handles s = ok (s.value_handle_count, s)
