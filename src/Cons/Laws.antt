-- ===== src/Cons/Laws.antt =====
-- make_cons, and car and cdr of its result and of anything else.
use portable_systems_lisp.Base.{
  ℕ, ◌≡◌, ◌≢◌, refl, Bool, not, some, [], ◌∷◌, ◌==◌, arith, inl, inr, ◌⊎◌, Bool-cases, Option-cases,
}
use portable_systems_lisp.Outcome.{ok, abort}
use portable_systems_lisp.Value.{nil}
use portable_systems_lisp.Machine.{Kind, Object, Runtime, Host, lookup, find_object}
use portable_systems_lisp.Gc.Expect.{
  Kind-discrete, expect_object-none, expect_object-wrong, ne_nil, find_object-held, read_found,
}
use portable_systems_lisp.Gc.{blank}
use portable_systems_lisp.Gc.Reach.{IsHeap}
use portable_systems_lisp.Frames.{Frame}
use portable_systems_lisp.Frames.Construct.{CanConstruct, Constructed, construct_lem}
use portable_systems_lisp.Cons.{make_cons, car, cdr}

-- The cons of two values at `a`.
abbrev pub cons_object : ℕ → ℕ → ℕ → Object
cons_object a first rest = record (blank a Kind.cons 0) { slot_0 = first; slot_1 = rest }

module _ (s : Runtime) (h : IsHeap s) (a : ℕ) {o : Object} (held : lookup a s.objects ≡ some o)
    (k : o.kind ≡ Kind.cons) where
  pub car-cons : car a s ≡ ok (o.slot_0, s)
  unfolding car
  car-cons = rw (ne_nil h a held) (read_found s a (find_object-held h a held) k (λ o. o.slot_0))

  pub cdr-cons : cdr a s ≡ ok (o.slot_1, s)
  unfolding cdr
  cdr-cons = rw (ne_nil h a held) (read_found s a (find_object-held h a held) k (λ o. o.slot_1))

-- What car and cdr do with any value and any state: NIL for NIL, the field of a cons, and an abort
-- for everything else. They change nothing and never read through a dangling pointer.
pub car-cdr_cases :
    (value : ℕ) (s : Runtime)
    → ((value ≡ nil) × (car value s ≡ ok (nil, s)) × (cdr value s ≡ ok (nil, s)))
      ⊎ ((o : Object) × (find_object value s.objects ≡ some o)
          × (o.kind ≡ Kind.cons)
          × (car value s ≡ ok (o.slot_0, s))
          × (cdr value s ≡ ok (o.slot_1, s)))
      ⊎ ((value ≢ nil)
          × ((o : Object) → find_object value s.objects ≡ some o → o.kind ≢ Kind.cons)
          × (car value s ≡ abort)
          × (cdr value s ≡ abort))
unfolding car cdr
car-cdr_cases value s = elim (Bool-cases (value == nil)) [
  | inl is ↦ inl (ground arith, rw is, rw is)
  | inr not_nil ↦ inr (elim (Option-cases (find_object value s.objects)) [
    | inl free ↦ inr (
      ground arith,
      λ o found. cc,
      rw (not_nil, expect_object-none value s (some Kind.cons) free),
      rw (not_nil, expect_object-none value s (some Kind.cons) free),
    )
    | inr (o, found) ↦ elim (Kind-discrete o.kind Kind.cons) [
      | yes k ↦ inl (
        o,
        found,
        k,
        rw not_nil (read_found s value found k (λ o. o.slot_0)),
        rw not_nil (read_found s value found k (λ o. o.slot_1)),
      )
      | no other ↦ inr (
        ground arith,
        λ o' found' k. other (let same : o ≡ o' = ground arith in rw same k),
        rw (not_nil, expect_object-wrong s value found other),
        rw (not_nil, expect_object-wrong s value found other),
      )
    ]
  ])
]

-- Where the host can provide the object and the frame is memory of its own, make_cons succeeds for
-- whatever arguments; all that they or the registered roots reach survives unchanged, the root frames
-- are as before, and only the frame's own array is written.
pub make_cons_lem :
    (host : Host) (f : Frame) (first rest : ℕ) (precise : Bool) (s : Runtime)
    → CanConstruct host f (first ∷ rest ∷ []) s 0 (not precise)
    → (s' : Runtime) × (make_cons host f first rest precise s ≡ ok (host.calloc, s'))
      × Constructed f (first ∷ rest ∷ []) s s' host.calloc (cons_object host.calloc first rest)
unfolding make_cons
make_cons_lem host f first rest precise s c =
    construct_lem host f (first ∷ rest ∷ []) Kind.cons 0 (not precise)
      ((λ o. record o { slot_0 = first }) ∷ (λ o. record o { slot_1 = rest }) ∷ []) s
      (
        record { address = λ o. refl; marked = λ o. refl },
        (record { address = λ o. refl; marked = λ o. refl }, tt),
      )
      ((λ e. cc, λ e. cc), ((λ e. cc, λ e. cc), tt)) c

-- Where a cons can be constructed, car and cdr of the new cons yield the two arguments and leave the
-- state as it is.
pub car-cdr-make_cons :
    (host : Host) (f : Frame) (first rest : ℕ) (precise : Bool) (s : Runtime)
    → CanConstruct host f (first ∷ rest ∷ []) s 0 (not precise)
    → (s' : Runtime) × (p : ℕ) × (make_cons host f first rest precise s ≡ ok (p, s'))
      × (car p s' ≡ ok (first, s'))
      × (cdr p s' ≡ ok (rest, s'))
car-cdr-make_cons host f first rest precise s c =
    let (s', e, made) = make_cons_lem host f first rest precise s c in
    (
      s',
      host.calloc,
      e,
      car-cons s' made.heap host.calloc made.held refl,
      cdr-cons s' made.heap host.calloc made.held refl,
    )
