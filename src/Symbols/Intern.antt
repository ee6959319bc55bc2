-- ===== src/Symbols/Intern.antt =====
-- Interning: the symbol of a package that has a name, or a new one.
use portable_systems_lisp.Base.{ℕ, ◌+◌, ◌≡◌, ◌≢◌, Bool, Option, none, some, List, All}
use portable_systems_lisp.Outcome.{ok}
use portable_systems_lisp.Machine.{Kind, Object, Runtime, Host, lookup}
use portable_systems_lisp.Gc.Expect.{find_object-held, expect_object_lem, load-found}
use portable_systems_lisp.Gc.Reach.{IsHeap}
use portable_systems_lisp.Frames.{Frame}
use portable_systems_lisp.Text.Laws.{IsString}
use portable_systems_lisp.Symbols.{after_search, intern_symbol}
use portable_systems_lisp.Symbols.Chain.{IsChain, IsChain-le-count, IsFirst, find_symbol_lem}

-- The value denotes a package of the symbols `es`.
pub record IsPackage (s : Runtime) (p : ℕ) (es : List (ℕ × List ℕ)) : Type 0 where
  pub object : Object
  pub held : lookup p s.objects ≡ some object
  pub kind : object.kind ≡ Kind.package_object
  pub chain : IsChain s object.slot_1 es

module _ (host : Host) (f g : Frame) (owner name : ℕ) (precise : Bool) (s : Runtime)
    (es : List (ℕ × List ℕ)) (bs : List ℕ) (h : IsHeap s) (p : IsPackage s owner es)
    (n : IsString s name bs) where
  -- What interning does after its search.
  pub intern_symbol-cases :
      (found : Option ℕ) × IsFirst bs es found
      × (intern_symbol host f g owner name precise s
          ≡ after_search host f g owner name precise found s)
  unfolding intern_symbol
  intern_symbol-cases =
      let at = find_object-held h owner p.held in
      let (found, e, first) =
        find_symbol_lem s name bs h n (s.object_count + 1) p.object.slot_1 es p.chain
          (IsChain-le-count s p.object.slot_1 es h p.chain) in
      (
        found,
        first,
        rw (
          expect_object_lem s owner at p.kind,
          expect_object_lem s name (find_object-held h name n.held) n.kind,
          load-found s owner at,
          e,
        ),
      )

  -- Where some symbol of the package has the name, interning yields the first such symbol and
  -- changes nothing.
  pub intern_symbol-found :
      ¬ All (λ e. e.1 ≢ bs) es
      → (a : ℕ) × (intern_symbol host f g owner name precise s ≡ ok (a, s)) × IsFirst bs es (some a)
  intern_symbol-found some_has =
      settle intern_symbol-cases.0 intern_symbol-cases.1 intern_symbol-cases.2
    where
      settle :
          (found : Option ℕ)
          → IsFirst bs es found
          → intern_symbol host f g owner name precise s
            ≡ after_search host f g owner name precise found s
          → (a : ℕ) × (intern_symbol host f g owner name precise s ≡ ok (a, s))
            × IsFirst bs es (some a)
      settle none first e = absurd (some_has first)
      settle (some a) first e = (a, e, first)
