-- ===== src/Cons.antt =====
-- runtime/cons.c: conses.
pub mod Laws
use portable_systems_lisp.Base.{ℕ, Bool, not, List, [], ◌∷◌, ◌==◌, if◌then◌else◌, some}
use portable_systems_lisp.Machine.{
  Kind, Object, Host, M, pure, ◌>>=◌, ◌>>◌, and_then, load, modify, expect_object, pop_roots,
}
use portable_systems_lisp.Gc.{allocate_object}
use portable_systems_lisp.Frames.{Frame, open_frame}
use portable_systems_lisp.Value.{nil}

unfoldable pub make_cons : Host → Frame → ℕ → ℕ → Bool → M ℕ
make_cons host f first rest precise = do
  open_frame f (first ∷ rest ∷ [])
  pair ← allocate_object host Kind.cons 0 (not precise)
  modify pair (λ o. record o { slot_0 = first })
  modify pair (λ o. record o { slot_1 = rest })
  pop_roots f.root
  pure pair

-- psl_rt_car
unfoldable pub car : ℕ → M ℕ
car pair =
    if pair == nil
    then pure nil
    else (do p ← expect_object pair (some Kind.cons); o ← load p; pure o.slot_0)

-- psl_rt_cdr
unfoldable pub cdr : ℕ → M ℕ
cdr pair =
    if pair == nil
    then pure nil
    else (do p ← expect_object pair (some Kind.cons); o ← load p; pure o.slot_1)
