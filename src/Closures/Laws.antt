-- ===== src/Closures/Laws.antt =====
-- Closures: construction, and calls of code that keeps the root frames balanced.
use portable_systems_lisp.Base.{
  ℕ, ◌≡◌, ◌≢◌, refl, Bool, false, not, some, List, [], ◌∷◌, ◌==◌, arith, ◌∙◌,
}
use portable_systems_lisp.Outcome.{ok, abort}
use portable_systems_lisp.Machine.{
  Kind, Object, Root, Runtime, Host, M, pure, pop_roots, ◌>>◌, lookup,
}
use portable_systems_lisp.Gc.{blank}
use portable_systems_lisp.Gc.Reach.{root_words, IsHeap}
use portable_systems_lisp.Gc.Expect.{find_object-held, expect_object_lem, load-found}
use portable_systems_lisp.Frames.{Frame}
use portable_systems_lisp.Frames.Apart.{
  IsFresh, framed, open_frame_lem, root_words-framed, IsHeap-framed,
}
use portable_systems_lisp.Frames.Construct.{
  CanConstruct, Constructed, construct_lem, pop_roots_lem, pop_roots-other,
}
use portable_systems_lisp.Closures.{make_closure, call_closure}

-- The closure of a code pointer and an environment at `a`.
abbrev pub closure_object : ℕ → ℕ → ℕ → Object
closure_object a code environment = record (blank a Kind.closure 0) {
  slot_0 = environment;
  code = code;
}

-- A closure of a code pointer that is not NULL is made, and all that its environment or the
-- registered roots reach survives.
pub make_closure_lem :
    (host : Host) (f : Frame) (code environment : ℕ) (precise : Bool) (s : Runtime)
    → code ≢ 0
    → CanConstruct host f (environment ∷ []) s 0 (not precise)
    → (s' : Runtime) × (make_closure host f code environment precise s ≡ ok (host.calloc, s'))
      × Constructed f
          (environment ∷ [])
          s
          s'
          host.calloc
          (closure_object host.calloc code environment)
unfolding make_closure
make_closure_lem host f code environment precise s ne c =
    let given : (code == 0) ≡ false = ground arith in
    rw given (
      construct_lem host f (environment ∷ []) Kind.closure 0 (not precise)
        ((λ o. record o { slot_0 = environment }) ∷ (λ o. record o { code = code }) ∷ []) s
        (
          record { address = λ o. refl; marked = λ o. refl },
          (record { address = λ o. refl; marked = λ o. refl }, tt),
        )
        ((λ e. cc, λ e. cc), ((λ e. cc, λ e. cc), tt)) c)

module _ (invoke : ℕ → ℕ → ℕ → M ℕ) (f : Frame) (closure argument : ℕ) (s t : Runtime) (o : Object)
    (result : ℕ) where
  -- The call, up to the pop of its frame.
  call_closure-eq :
      IsHeap s
      → lookup closure s.objects ≡ some o
      → o.kind ≡ Kind.closure
      → invoke o.code o.slot_0 argument (framed f (closure ∷ argument ∷ []) s) ≡ ok (result, t)
      → call_closure invoke f closure argument s ≡ (do pop_roots f.root; pure result) t
  unfolding call_closure
  call_closure-eq h held k ran =
      let vs = closure ∷ argument ∷ [] in
      let s₁ = framed f vs s in
      let found = find_object-held (IsHeap-framed f vs s h) closure held in
      rw (
        open_frame_lem f vs s,
        expect_object_lem s₁ closure found k,
        load-found s₁ closure found,
        ran,
      )

  -- The code behind a closure is given the closure's environment and the argument, with both the
  -- closure and the argument among the root words. If it returns with the root frames that it
  -- found, the call returns its result, with the root frames of before the call.
  pub call_closure-balanced :
      IsHeap s
      → IsFresh f 2 s
      → lookup closure s.objects ≡ some o
      → o.kind ≡ Kind.closure
      → invoke o.code o.slot_0 argument (framed f (closure ∷ argument ∷ []) s) ≡ ok (result, t)
      → t.roots ≡ (framed f (closure ∷ argument ∷ []) s).roots
      → (call_closure invoke f closure argument s ≡ ok (result, record t { roots = s.roots }))
        × (root_words (framed f (closure ∷ argument ∷ []) s) ≡ closure ∷ argument ∷ root_words s)
  call_closure-balanced h fresh held k ran balanced = (
    call_closure-eq h held k ran ∙ rw (pop_roots_lem f.root t _ s.roots balanced refl),
    root_words-framed f (closure ∷ argument ∷ []) s fresh,
  )

  -- Code that returns with another frame on top makes the call abort.
  pub call_closure-unbalanced :
      (r : Root) (rest : List Root)
      → IsHeap s
      → lookup closure s.objects ≡ some o
      → o.kind ≡ Kind.closure
      → invoke o.code o.slot_0 argument (framed f (closure ∷ argument ∷ []) s) ≡ ok (result, t)
      → t.roots ≡ r ∷ rest
      → r.address ≢ f.root
      → call_closure invoke f closure argument s ≡ abort
  call_closure-unbalanced r rest h held k ran top other =
      call_closure-eq h held k ran ∙ rw (pop_roots-other f.root t r rest top other)
