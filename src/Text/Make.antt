-- ===== src/Text/Make.antt =====
-- Construction of strings, filled or copied.
use portable_systems_lisp.Base.{
  ℕ, zero, suc, ◌+◌, ◌-◌, ◌<◌, ◌≡◌, refl, Bool, false, not, List, [], ◌∷◌, ◌++◌, ◌==◌, arith,
  length, length-replicate, set, replicate, ap, length-set, subst,
}
use native.Mathlib.Numerals.{add-one}
use portable_systems_lisp.Outcome.{ok}
use portable_systems_lisp.Machine.{Kind, Object, Runtime, Host, pure, object_size, size_max}
use portable_systems_lisp.Gc.{blank}
use portable_systems_lisp.Gc.Reach.{IsHeap, root_words}
use portable_systems_lisp.Gc.Survive.{CanCollect}
use portable_systems_lisp.Gc.Allocate.{GivesBlock, Allocated, allocate_object_lem}
use portable_systems_lisp.Frames.Construct.{StaySized, initialised, initialise_lem}
use portable_systems_lisp.Text.Laws.{IsString}
use portable_systems_lisp.Text.{fill, make_string}

-- A string object at `a` that holds the bytes `bs` and their terminator; `items` is what calloc left.
abbrev pub string_object : ℕ → List ℕ → Object
string_object a bs = record (blank a Kind.string (length bs + 1)) {
  length = length bs;
  bytes = bs ++ 0 ∷ [];
}

fill-replicate : (n v : ℕ) → fill n v (replicate (suc n) 0) ≡ replicate n v ++ 0 ∷ []
unfolding fill
fill-replicate zero v = refl
fill-replicate (suc n) v = ap (λ l. v ∷ l) (fill-replicate n v)

set-terminator : (n v : ℕ) → set (replicate n v ++ 0 ∷ []) n 0 ≡ replicate n v ++ 0 ∷ []
set-terminator zero v = refl
set-terminator (suc n) v = ap (λ l. v ∷ l) (set-terminator n v)

-- The writes of make_string.
abbrev string_writes : ℕ → ℕ → List (Object → Object)
string_writes size byte =
    (λ o. record o { length = size })
    ∷ (λ o. record o { bytes = fill size byte o.bytes })
    ∷ (λ o. record o { bytes = set o.bytes size 0 })
    ∷ []

string_writes-object :
    (a size byte : ℕ)
    → initialised (string_writes size byte) (blank a Kind.string (size + 1))
      ≡ string_object a (replicate size byte)
string_writes-object a size byte =
    let filled : set (fill size byte (replicate (size + 1) 0)) size 0
        ≡ replicate size byte ++ 0 ∷ [] =
      rw (add-one, fill-replicate size byte) (set-terminator size byte) in
    rw (length-replicate size byte, filled)

pub length-fill : (n v : ℕ) (xs : List ℕ) → length (fill n v xs) ≡ length xs
unfolding fill
length-fill zero v xs = refl
length-fill (suc n) v [] = refl
length-fill (suc n) v (x ∷ xs) = ap suc (length-fill n v xs)

string_writes-sized :
    (a size byte : ℕ) → StaySized (string_writes size byte) (blank a Kind.string (size + 1))
string_writes-sized a size byte =
    let zeros : length (replicate {A = ℕ} (size + 1) 0) ≡ size + 1 =
      length-replicate (size + 1) 0 in
    let filled = length-fill size byte (replicate (size + 1) 0) in
    let ended = length-set (fill size byte (replicate (size + 1) 0)) size 0 in
    ((λ e. cc, λ e. omega arith), ((λ e. cc, λ e. omega arith), ((λ e. cc, λ e. omega arith), tt)))

-- A string of `size` equal bytes and a terminator is made where its size is representable, and all
-- that the registered roots reach survives.
pub make_string_lem :
    (host : Host) (size byte : ℕ) (precise : Bool) (s : Runtime)
    → size < size_max - object_size
    → CanCollect host s (not precise)
    → GivesBlock host s (not precise)
    → IsHeap s
    → (s' : Runtime) × (make_string host size byte precise s ≡ ok (host.calloc, s'))
      × Allocated (root_words s) s s' host.calloc (string_object host.calloc (replicate size byte))
unfolding make_string
make_string_lem host size byte precise s fits can block h =
    let (s₁, e₁, made) =
      allocate_object_lem host s Kind.string (size + 1) (not precise) can block (omega arith) h in
    let (s₂, e₂, filled) =
      initialise_lem (root_words s) s host.calloc (pure host.calloc) (string_writes size byte) s₁
        (blank host.calloc Kind.string (size + 1))
        (
          record { address = λ o. refl; marked = λ o. refl },
          (
            record { address = λ o. refl; marked = λ o. refl },
            (record { address = λ o. refl; marked = λ o. refl }, tt),
          ),
        )
        (string_writes-sized host.calloc size byte) made in
    let below : (size == size_max) ≡ false = ground arith in
    (
      s₂,
      rw (below, e₁) e₂,
      subst (Allocated (root_words s) s s₂ host.calloc) (string_writes-object host.calloc size byte)
          filled,
    )

-- The new string has the bytes that were asked for.
pub make_string-IsString :
    (host : Host) (size byte : ℕ) (precise : Bool) (s : Runtime)
    → size < size_max - object_size
    → CanCollect host s (not precise)
    → GivesBlock host s (not precise)
    → IsHeap s
    → (s' : Runtime) × (p : ℕ) × (make_string host size byte precise s ≡ ok (p, s'))
      × IsHeap s'
      × IsString s' p (replicate size byte)
make_string-IsString host size byte precise s fits can block h =
    let (s', e, made) = make_string_lem host size byte precise s fits can block h in
    (
      s',
      host.calloc,
      e,
      made.heap,
      record {
        object = string_object host.calloc (replicate size byte);
        held = made.held;
        kind = refl;
        size = refl;
        rest = 0 ∷ [];
        bytes = refl;
      },
    )
