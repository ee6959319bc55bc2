-- ===== src/Api/Total.antt =====
-- The ends of the functions that construct an object in a root frame, the host's refusals included:
-- runtime/cons.c, closure.c, symbol.c and package.c.
use portable_systems_lisp.Base.{
  ℕ, refl, inl, inr, Bool, not, some, [], ◌∷◌, ◌==◌, Bool-cases, Option-cases,
}
use portable_systems_lisp.Machine.{
  Kind, kind_code, Runtime, Host, M, and_then, find_object, expect_object,
}
use portable_systems_lisp.Gc.Reach.{IsHeap}
use portable_systems_lisp.Gc.Total.{Returns}
use portable_systems_lisp.Frames.{Frame}
use portable_systems_lisp.Frames.Total.{SameRoots, construct-Returns}
use portable_systems_lisp.Cons.{make_cons}
use portable_systems_lisp.Closures.{make_closure}
use portable_systems_lisp.Symbols.{make_symbol, make_package}
use portable_systems_lisp.Value.{nil}

module _ (host : Host) (f : Frame) (precise : Bool) (s : Runtime) (h : IsHeap s) where
  make_cons-Returns :
      (first rest : ℕ) → Returns (SameRoots s) (make_cons host f first rest precise s)
  unfolding make_cons
  make_cons-Returns first rest =
      construct-Returns host f (first ∷ rest ∷ []) Kind.cons 0 (not precise)
        ((λ o. record o { slot_0 = first }) ∷ (λ o. record o { slot_1 = rest }) ∷ []) s
        (
          record { address = λ o. refl; marked = λ o. refl },
          (record { address = λ o. refl; marked = λ o. refl }, tt),
        )
        h

  make_closure-Returns :
      (code environment : ℕ)
      → Returns (SameRoots s) (make_closure host f code environment precise s)
  unfolding make_closure
  make_closure-Returns code environment = elim (Bool-cases (code == 0)) [
    | inl null ↦ inl (rw null refl)
    | inr given ↦ rw given (
        construct-Returns host f (environment ∷ []) Kind.closure 0 (not precise)
          ((λ o. record o { slot_0 = environment }) ∷ (λ o. record o { code = code }) ∷ []) s
          (
            record { address = λ o. refl; marked = λ o. refl },
            (record { address = λ o. refl; marked = λ o. refl }, tt),
          )
          h)
  ]

  -- What follows the test that a name is a string.
  named-Returns :
      (name : ℕ) (m : M ℕ)
      → Returns (SameRoots s) (m s)
      → Returns (SameRoots s) (and_then (expect_object name (some Kind.string) s) (λ _. m))
  unfolding expect_object
  named-Returns name m rest = elim (Option-cases (find_object name s.objects)) [
    | inl missing ↦ inl (rw (missing, expect_object) refl)
    | inr (o, found) ↦ elim (Bool-cases (kind_code o.kind == kind_code Kind.string)) [
      | inr other ↦ inl (rw (found, expect_object, other) refl)
      | inl named ↦ rw (found, expect_object, named) rest
    ]
  ]

  make_symbol-Returns : (name : ℕ) → Returns (SameRoots s) (make_symbol host f name precise s)
  unfolding make_symbol
  make_symbol-Returns name = named-Returns name _ (
      construct-Returns host f (name ∷ []) Kind.symbol 0 (not precise)
        ((λ o. record o { slot_0 = name })
          ∷ (λ o. record o { slot_1 = nil })
          ∷ (λ o. record o { slot_2 = nil })
          ∷ [])
        s
        (
          record { address = λ o. refl; marked = λ o. refl },
          (
            record { address = λ o. refl; marked = λ o. refl },
            (record { address = λ o. refl; marked = λ o. refl }, tt),
          ),
        )
        h)

  make_package-Returns : (name : ℕ) → Returns (SameRoots s) (make_package host f name precise s)
  unfolding make_package
  make_package-Returns name = named-Returns name _ (
      construct-Returns host f (name ∷ []) Kind.package_object 0 (not precise)
        ((λ o. record o { slot_0 = name }) ∷ (λ o. record o { slot_1 = nil }) ∷ []) s
        (
          record { address = λ o. refl; marked = λ o. refl },
          (record { address = λ o. refl; marked = λ o. refl }, tt),
        )
        h)

  -- In a well-formed heap, whatever the arguments and whatever the host answers, a constructor aborts
  -- or returns with the root frames as they were: it reads no dangling pointer, writes within the
  -- work array, ends, and leaves no frame behind.
  pub constructors-Returns :
      (a b : ℕ)
      → Returns (SameRoots s) (make_cons host f a b precise s)
        × Returns (SameRoots s) (make_closure host f a b precise s)
        × Returns (SameRoots s) (make_symbol host f a precise s)
        × Returns (SameRoots s) (make_package host f a precise s)
  constructors-Returns a b = (
    make_cons-Returns a b,
    make_closure-Returns a b,
    make_symbol-Returns a,
    make_package-Returns a,
  )
