-- ===== src/Symbols.antt =====
-- runtime/symbol.c and runtime/package.c: symbols, packages and interning. A package's symbols are
-- a chain through the third slot; the walk along it runs on fuel, a round for each object.
pub mod Laws
pub mod Chain
pub mod Intern
pub mod Kept
pub mod Link
pub mod Fresh
use portable_systems_lisp.Base.{
  ℕ, zero, suc, ◌+◌, Bool, true, false, not, Option, none, some, List, [], ◌∷◌, ◌==◌, if◌then◌else◌,
}
use portable_systems_lisp.Outcome.{out_of_fuel}
use portable_systems_lisp.Machine.{
  Kind, Object, Runtime, Host, M, pure, ◌>>=◌, ◌>>◌, and_then, get, load, modify, expect_object,
  pop_roots,
}
use portable_systems_lisp.Gc.{allocate_object}
use portable_systems_lisp.Frames.{Frame, open_frame}
use portable_systems_lisp.Text.{strings_equal}
use portable_systems_lisp.Value.{nil}

unfoldable pub make_symbol : Host → Frame → ℕ → Bool → M ℕ
make_symbol host f name precise = do
  expect_object name (some Kind.string)
  open_frame f (name ∷ [])
  symbol ← allocate_object host Kind.symbol 0 (not precise)
  modify symbol (λ o. record o { slot_0 = name })
  modify symbol (λ o. record o { slot_1 = nil })
  modify symbol (λ o. record o { slot_2 = nil })
  pop_roots f.root
  pure symbol

-- psl_rt_symbol_name
unfoldable pub symbol_name : ℕ → M ℕ
symbol_name symbol = do p ← expect_object symbol (some Kind.symbol); o ← load p; pure o.slot_0

unfoldable pub make_package : Host → Frame → ℕ → Bool → M ℕ
make_package host f name precise = do
  expect_object name (some Kind.string)
  open_frame f (name ∷ [])
  p ← allocate_object host Kind.package_object 0 (not precise)
  modify p (λ o. record o { slot_0 = name })
  modify p (λ o. record o { slot_1 = nil })
  pop_roots f.root
  pure p

-- psl_rt_package_name
unfoldable pub package_name : ℕ → M ℕ
package_name value = do
  p ← expect_object value (some Kind.package_object)
  o ← load p
  pure o.slot_0

-- The loop of `intern_symbol`: the symbol of the chain that has the name.
unfoldable pub find_symbol : ℕ → ℕ → ℕ → M (Option ℕ)
find_symbol zero current name = λ _. out_of_fuel
find_symbol (suc fuel) current name = if current == nil then pure none else do
  p ← expect_object current (some Kind.symbol)
  symbol ← load p
  same ← strings_equal symbol.slot_0 name
  if same then pure (some current) else find_symbol fuel symbol.slot_2 name

-- What follows the loop: a new symbol in front of the chain. `g` is the frame of `make_symbol`.
unfoldable pub intern_new : Host → Frame → Frame → ℕ → ℕ → Bool → M ℕ
intern_new host f g package_value name precise = do
  open_frame f (package_value ∷ name ∷ [])
  symbol_value ← make_symbol host g name precise
  p ← expect_object package_value (some Kind.package_object)
  symbol ← expect_object symbol_value (some Kind.symbol)
  modify symbol (λ o. record o { slot_1 = package_value })
  pack ← load p
  modify symbol (λ o. record o { slot_2 = pack.slot_1 })
  modify p (λ o. record o { slot_1 = symbol_value })
  pop_roots f.root
  pure symbol_value

-- The answer of the loop, or what follows it.
abbrev pub after_search : Host → Frame → Frame → ℕ → ℕ → Bool → Option ℕ → M ℕ
after_search host f g owner name precise none = intern_new host f g owner name precise
after_search host f g owner name precise (some current) = pure current

unfoldable pub intern_symbol : Host → Frame → Frame → ℕ → ℕ → Bool → M ℕ
intern_symbol host f g package_value name precise = do
  p ← expect_object package_value (some Kind.package_object)
  expect_object name (some Kind.string)
  pack ← load p
  s ← get
  found ← find_symbol (s.object_count + 1) pack.slot_1 name
  after_search host f g package_value name precise found
