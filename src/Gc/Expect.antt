-- ===== src/Gc/Expect.antt =====
-- psl_rt_expect_object: which values pass, and reads of the fields behind them.
use portable_systems_lisp.Base.{ℕ, ◌≡◌, ◌≢◌, true, false, Option, none, some, ◌==◌, arith, ap}
use portable_systems_lisp.Outcome.{ok, abort}
use portable_systems_lisp.Value.{nil, pointer_p}
use portable_systems_lisp.Value.Fixnum.{pointer_p-aligned, pointer_p-tags}
use portable_systems_lisp.Machine.{
  Kind, kind_code, Object, Runtime, pure, ◌>>=◌, lookup, find_object, load, expect_object,
}
use portable_systems_lisp.Machine.Objects.{lookup-address, find_object-eq-some}
use portable_systems_lisp.Gc.Reach.{IsHeap, IsAligned}
use portable_systems_lisp.Gc.Trace.{All-lookup}

-- The kinds have different numbers.
pub eq_of_kind_code : (j k : Kind) → kind_code j ≡ kind_code k → j ≡ k
eq_of_kind_code j k h = ground arith

pub Kind-discrete : Discrete Kind
Kind-discrete = hlevel

module _ {s : Runtime} (h : IsHeap s) (a : ℕ) {o : Object}
    (held : lookup a s.objects ≡ some o) where
  -- An object's address passes the test of `find_object`.
  pub pointer_p-held : pointer_p a ≡ true
  pointer_p-held =
      let (ne, al) = All-lookup IsAligned a s.objects o h.aligned held in
      let here = lookup-address a s.objects o held in
      pointer_p-aligned a (ground arith) (ground arith)

  pub find_object-held : find_object a s.objects ≡ some o
  unfolding find_object
  find_object-held = rw pointer_p-held held

  pub ne_nil : (a == nil) ≡ false
  ne_nil = ground (arith, pointer_p-tags a pointer_p-held)

module _ (s : Runtime) (value : ℕ) {o : Object} (found : find_object value s.objects ≡ some o) where
  pub expect_object_lem : {k : Kind} → o.kind ≡ k → expect_object value (some k) s ≡ ok (value, s)
  unfolding expect_object
  expect_object_lem {k} e =
      let same : (kind_code o.kind == kind_code k) ≡ true = ground arith in
      rw (found, expect_object, same)
        (ap (λ p. ok (p, s)) (find_object-eq-some value s.objects o found).0)

  pub load-found : load value s ≡ ok (o, s)
  unfolding load
  load-found = rw ((find_object-eq-some value s.objects o found).1, load)

  -- A field of an object of the kind that is asked for.
  pub read_found :
      {A : Type 0} {k : Kind}
      → o.kind ≡ k
      → (g : Object → A)
      → (do p ← expect_object value (some k); x ← load p; pure (g x)) s ≡ ok (g o, s)
  read_found e g = rw (expect_object_lem e, load-found)

  -- An object of another kind does not pass.
  pub expect_object-wrong : {k : Kind} → o.kind ≢ k → expect_object value (some k) s ≡ abort
  unfolding expect_object
  expect_object-wrong {k} ne =
      let other : (kind_code o.kind == kind_code k) ≡ false =
        ground (arith, eq_of_kind_code o.kind k) in
      rw (found, expect_object, other)

-- A value that denotes no object does not pass, whatever kind is asked for.
pub expect_object-none :
    (value : ℕ) (s : Runtime) (k : Option Kind)
    → find_object value s.objects ≡ none
    → expect_object value k s ≡ abort
unfolding expect_object
expect_object-none value s none free = rw (free, expect_object)
expect_object-none value s (some k) free = rw (free, expect_object)
