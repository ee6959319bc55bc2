-- ===== src/Steps/Step.antt =====
-- One call of the runtime as a step, and the states that sequences of calls reach. A step's premises
-- are what the interface asks of a caller, and that the host gives the memory the call needs: a block
-- from calloc, a successful malloc and the top of the stack.
use portable_systems_lisp.Base.{
  ℕ, ◌+◌, ◌*◌, ◌-◌, ◌≤◌, ◌<◌, ◌≡◌, ◌≢◌, ◌⊎◌, ◌/◌, Bool, true, false, not, some, List, [], ◌∷◌,
  length, is_some, arith,
}
use portable_systems_lisp.Outcome.{ok}
use portable_systems_lisp.Machine.{
  object_size, size_max, Kind, Object, Runtime, Host, lookup, store, push_roots, pop_roots,
}
use portable_systems_lisp.Value.{nil}
use portable_systems_lisp.Gc.{collect_precise, collect}
use portable_systems_lisp.Gc.Allocate.{GivesBlock}
use portable_systems_lisp.Gc.Collect.{top_of}
use portable_systems_lisp.Gc.Reach.{IsHeap}
use portable_systems_lisp.Gc.Survive.{CanCollect}
use portable_systems_lisp.Frames.{Frame}
use portable_systems_lisp.Frames.Apart.{IsFresh, framed}
use portable_systems_lisp.Frames.Construct.{CanConstruct}
use portable_systems_lisp.Cons.{make_cons}
use portable_systems_lisp.Closures.{make_closure}
use portable_systems_lisp.Text.{make_string, copy_string_bytes, string_set_byte}
use portable_systems_lisp.Text.Laws.{IsString}
use portable_systems_lisp.Symbols.{make_symbol, make_package, intern_symbol}
use portable_systems_lisp.Symbols.Intern.{IsPackage}
use portable_systems_lisp.Vector.{
  header_made, make_value_vector, value_vector_set, value_vector_push,
}
use portable_systems_lisp.Vector.Capacity.{capacity_limit}
use portable_systems_lisp.Vector.Laws.{IsVector}
use portable_systems_lisp.Handles.{
  find_handle, value_handle_open, value_handle_set, value_handle_close,
}
use portable_systems_lisp.Multiple.{values2}

-- What the host does for a constructor that roots the words `vs` in the frame `f`.
pub record Serves (host : Host) (f : Frame) (vs : List ℕ) (s : Runtime) (scan : Bool) : Type 0 where
  pub fresh : IsFresh f (length vs) s
  pub can_collect : CanCollect host s scan
  pub block : GivesBlock host (framed f vs s) scan

pub can_construct :
    (host : Host) (f : Frame) (vs : List ℕ) (s : Runtime) (scan : Bool)
    → IsHeap s
    → Serves host f vs s scan
    → CanConstruct host f vs s 0 scan
can_construct host f vs s scan h serves = record {
  heap = h;
  fresh = serves.fresh;
  can_collect = serves.can_collect;
  block = serves.block;
  fits = omega arith;
}

pub data Step (s s' : Runtime) : Type 0 where
  collect_precisely :
      (host : Host) → host.malloc ≡ true → collect_precise host s ≡ ok (tt, s') → Step s s'
  collect_stack :
      (host : Host) (top : ℕ)
      → host.malloc ≡ true
      → top_of host s ≡ some top
      → (host.marker + 7) / 8 * 8 ≤ top
      → collect host s ≡ ok (tt, s')
      → Step s s'
  push_frame : (root values count : ℕ) → push_roots root values count s ≡ ok (tt, s') → Step s s'
  pop_frame : (root : ℕ) → pop_roots root s ≡ ok (tt, s') → Step s s'
  client_store : (a v : ℕ) → store a v s ≡ ok (tt, s') → Step s s'
  new_cons :
      (host : Host) (f : Frame) (first rest answer : ℕ) (precise : Bool)
      → Serves host f (first ∷ rest ∷ []) s (not precise)
      → make_cons host f first rest precise s ≡ ok (answer, s')
      → Step s s'
  new_closure :
      (host : Host) (f : Frame) (code environment answer : ℕ) (precise : Bool)
      → code ≢ 0
      → Serves host f (environment ∷ []) s (not precise)
      → make_closure host f code environment precise s ≡ ok (answer, s')
      → Step s s'
  new_symbol :
      (host : Host) (f : Frame) (name answer : ℕ) (precise : Bool) (o : Object)
      → lookup name s.objects ≡ some o
      → o.kind ≡ Kind.string
      → Serves host f (name ∷ []) s (not precise)
      → make_symbol host f name precise s ≡ ok (answer, s')
      → Step s s'
  new_package :
      (host : Host) (f : Frame) (name answer : ℕ) (precise : Bool) (o : Object)
      → lookup name s.objects ≡ some o
      → o.kind ≡ Kind.string
      → Serves host f (name ∷ []) s (not precise)
      → make_package host f name precise s ≡ ok (answer, s')
      → Step s s'
  intern :
      (host : Host) (f g : Frame) (owner name answer : ℕ) (precise : Bool) (es : List (ℕ × List ℕ))
      (bs : List ℕ)
      → IsPackage s owner es
      → IsString s name bs
      → IsFresh f 2 s
      → Serves host g (name ∷ []) (framed f (owner ∷ name ∷ []) s) (not precise)
      → intern_symbol host f g owner name precise s ≡ ok (answer, s')
      → Step s s'
  new_string :
      (host : Host) (size byte answer : ℕ) (precise : Bool)
      → size < size_max - object_size
      → CanCollect host s (not precise)
      → GivesBlock host s (not precise)
      → make_string host size byte precise s ≡ ok (answer, s')
      → Step s s'
  copied_string :
      (host : Host) (source : List ℕ) (size answer : ℕ) (precise : Bool)
      → size ≤ length source
      → size < size_max - object_size
      → CanCollect host s (not precise)
      → GivesBlock host s (not precise)
      → copy_string_bytes host (some source) size precise s ≡ ok (answer, s')
      → Step s s'
  set_byte :
      (value index byte : ℕ) (bs : List ℕ)
      → IsString s value bs
      → index < length bs
      → string_set_byte value index byte s ≡ ok (tt, s')
      → Step s s'
  new_vector :
      (host host' : Host) (f : Frame) (size initial answer : ℕ)
      → Serves host f (nil ∷ initial ∷ []) s false
      → size ≤ capacity_limit
      → host'.malloc ≡ true
      → ((t : Runtime)
          → header_made host f size initial s ≡ ok (host.calloc, t)
          → GivesBlock host' t false)
      → make_value_vector host host' f size initial s ≡ ok (answer, s')
      → Step s s'
  set_item :
      (value index item answer : ℕ) (xs : List ℕ)
      → IsVector s value xs
      → index < length xs
      → value_vector_set value index item s ≡ ok (answer, s')
      → Step s s'
  push_item :
      (host : Host) (f : Frame) (value item answer : ℕ) (xs : List ℕ)
      → Serves host f (value ∷ item ∷ []) s false
      → IsVector s value xs
      → 2 * (length xs + 1) ≤ capacity_limit
      → value_vector_push host f value item s ≡ ok (answer, s')
      → Step s s'
  open_handle :
      (host : Host) (token : ℕ)
      → host.malloc ≡ true
      → s.next_value_handle ≢ size_max
      → value_handle_open host s ≡ ok (token, s')
      → Step s s'
  set_handle :
      (token value : ℕ)
      → is_some (find_handle token s.value_handles) ≡ true
      → value_handle_set token value s ≡ ok (tt, s')
      → Step s s'
  close_handle :
      (token : ℕ)
      → is_some (find_handle token s.value_handles) ≡ true
      → value_handle_close token s ≡ ok (tt, s')
      → Step s s'
  two_values :
      (host : Host) (root first second answer : ℕ)
      → (s.initialized ≡ true) ⊎ (host.malloc ≡ true)
      → values2 host root first second s ≡ ok (answer, s')
      → Step s s'

-- The statics before the first call: no objects, roots or handles, and the memory as it happens to be.
abbrev pub at_start : (ℕ → ℕ) → ℕ → Runtime
at_start memory current = record {
  objects = [];
  roots = [];
  permanent_roots = [];
  value_handles = [];
  next_value_handle = 1;
  value_handle_count = 0;
  object_count = 0;
  collection_limit = 256;
  memory = memory;
  current_values = current;
  current_count = 0;
  initialized = false;
  stack_top = 0;
}

pub data Reachable (s : Runtime) : Runtime → Type 0 where
  here : Reachable s s
  later : {t u : Runtime} → Reachable s t → Step t u → Reachable s u
