-- ===== src/Multiple.antt =====
-- runtime/values.c: the two multiple values, kept in a static array that is registered as a
-- permanent root on first use.
pub mod Laws
use portable_systems_lisp.Base.{ℕ, ◌+◌, ◌*◌, Bool, true, false, ltb, if◌then◌else◌}
use portable_systems_lisp.Outcome.{ok}
use portable_systems_lisp.Machine.{
  Runtime, Host, M, pure, ◌>>=◌, ◌>>◌, and_then, get, store, register_permanent_roots,
}
use portable_systems_lisp.Value.{nil}

-- `root` is the address that malloc returns for the permanent root.
unfoldable pub ensure_values_roots : Host → ℕ → M (Unit {0})
unfolding register_permanent_roots
ensure_values_roots host root s =
    if s.initialized
    then ok (tt, s)
    else (do
      register_permanent_roots host root s.current_values 2
      λ t. ok (tt, record t { initialized = true }))
        s

unfoldable pub values2 : Host → ℕ → ℕ → ℕ → M ℕ
unfolding ensure_values_roots store
values2 host root first second = do
  ensure_values_roots host root
  s ← get
  store s.current_values first
  store (s.current_values + 8) second
  (λ t. ok (tt, record t { current_count = 2 }))
  pure first

unfoldable pub nth_value : ℕ → M ℕ
nth_value index s =
    ok ((if ltb index s.current_count then s.memory (s.current_values + 8 * index) else nil), s)

unfoldable pub value_count : M ℕ
value_count s = ok (s.current_count, s)
