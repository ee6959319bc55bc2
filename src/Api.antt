-- ===== src/Api.antt =====
-- runtime/psl_runtime.h: the functions of the interface that construct objects, which have a form that
-- may scan the stack and a precise form that does not.
pub mod Laws
pub mod Total
use portable_systems_lisp.Base.{ℕ, Bool, true, false, Option, List}
use portable_systems_lisp.Machine.{Kind, Host, M}
use portable_systems_lisp.Gc.{allocate_object}
use portable_systems_lisp.Frames.{Frame}
use portable_systems_lisp.Cons.{make_cons}
use portable_systems_lisp.Closures.{make_closure}
use portable_systems_lisp.Text.{make_string, copy_string_bytes}
use portable_systems_lisp.Symbols.{make_symbol, make_package, intern_symbol}

unfoldable pub rt_allocate : Host → Kind → ℕ → M ℕ
rt_allocate host k extra = allocate_object host k extra true

unfoldable pub rt_allocate_precise : Host → Kind → ℕ → M ℕ
rt_allocate_precise host k extra = allocate_object host k extra false

unfoldable pub rt_cons : Host → Frame → ℕ → ℕ → M ℕ
rt_cons host f first rest = make_cons host f first rest false

unfoldable pub rt_cons_precise : Host → Frame → ℕ → ℕ → M ℕ
rt_cons_precise host f first rest = make_cons host f first rest true

unfoldable pub rt_make_symbol : Host → Frame → ℕ → M ℕ
rt_make_symbol host f name = make_symbol host f name false

unfoldable pub rt_make_symbol_precise : Host → Frame → ℕ → M ℕ
rt_make_symbol_precise host f name = make_symbol host f name true

unfoldable pub rt_make_package : Host → Frame → ℕ → M ℕ
rt_make_package host f name = make_package host f name false

unfoldable pub rt_make_package_precise : Host → Frame → ℕ → M ℕ
rt_make_package_precise host f name = make_package host f name true

-- The frames are that of intern_symbol and that of the make_symbol it calls.
unfoldable pub rt_intern : Host → Frame → Frame → ℕ → ℕ → M ℕ
rt_intern host f g owner name = intern_symbol host f g owner name false

unfoldable pub rt_intern_precise : Host → Frame → Frame → ℕ → ℕ → M ℕ
rt_intern_precise host f g owner name = intern_symbol host f g owner name true

unfoldable pub rt_make_closure : Host → Frame → ℕ → ℕ → M ℕ
rt_make_closure host f code environment = make_closure host f code environment false

unfoldable pub rt_make_closure_precise : Host → Frame → ℕ → ℕ → M ℕ
rt_make_closure_precise host f code environment = make_closure host f code environment true

unfoldable pub rt_make_string : Host → ℕ → ℕ → M ℕ
rt_make_string host size byte = make_string host size byte false

unfoldable pub rt_make_string_precise : Host → ℕ → ℕ → M ℕ
rt_make_string_precise host size byte = make_string host size byte true

unfoldable pub rt_make_string_from_bytes : Host → Option (List ℕ) → ℕ → M ℕ
rt_make_string_from_bytes host source size = copy_string_bytes host source size false

-- The address is given as the bytes at it, none for 0.
unfoldable pub rt_make_string_from_bytes_precise : Host → Option (List ℕ) → ℕ → M ℕ
rt_make_string_from_bytes_precise host source size = copy_string_bytes host source size true
