-- ===== src/Frames.antt =====
-- The root frames of the runtime's own functions: `psl_value values[n] = {...}` on the stack, and
-- psl_rt_push_roots of that array.
pub mod Apart
pub mod Construct
pub mod Total
use portable_systems_lisp.Base.{ℕ, ◌+◌, List, [], ◌∷◌, length}
use portable_systems_lisp.Machine.{M, pure, ◌>>=◌, ◌>>◌, and_then, store, push_roots}

-- Where the compiler puts a function's psl_root and its array.
pub record Frame : Type 0 where
  pub root : ℕ
  pub values : ℕ

unfoldable pub store_words : ℕ → List ℕ → M (Unit {0})
unfolding store
store_words base [] = pure tt
store_words base (v ∷ vs) = store base v >> store_words (base + 8) vs

unfoldable pub open_frame : Frame → List ℕ → M (Unit {0})
unfolding push_roots
open_frame f vs = do store_words f.values vs; push_roots f.root f.values (length vs)
