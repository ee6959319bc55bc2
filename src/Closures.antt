-- ===== src/Closures.antt =====
-- runtime/closure.c: closures. A code pointer is an address, 0 for NULL; the code behind it is the
-- parameter `invoke` of `call_closure`.
pub mod Laws
use portable_systems_lisp.Base.{ℕ, Bool, not, List, [], ◌∷◌, some, ◌==◌, if◌then◌else◌}
use portable_systems_lisp.Machine.{
  Kind, Object, Host, M, pure, aborts, ◌>>=◌, ◌>>◌, and_then, load, modify, expect_object,
  pop_roots,
}
use portable_systems_lisp.Gc.{allocate_object}
use portable_systems_lisp.Frames.{Frame, open_frame}

unfoldable pub make_closure : Host → Frame → ℕ → ℕ → Bool → M ℕ
make_closure host f code environment precise = if code == 0 then aborts else do
  open_frame f (environment ∷ [])
  closure ← allocate_object host Kind.closure 0 (not precise)
  modify closure (λ o. record o { slot_0 = environment })
  modify closure (λ o. record o { code = code })
  pop_roots f.root
  pure closure

-- psl_rt_call_closure
unfoldable pub call_closure : (ℕ → ℕ → ℕ → M ℕ) → Frame → ℕ → ℕ → M ℕ
call_closure invoke f closure_value argument = do
  open_frame f (closure_value ∷ argument ∷ [])
  p ← expect_object closure_value (some Kind.closure)
  closure ← load p
  result ← invoke closure.code closure.slot_0 argument
  pop_roots f.root
  pure result
