-- ===== src/Symbols/Fresh.antt =====
-- Interning a new name.
use portable_systems_lisp.Base.{
  ℕ, ◌≡◌, ◌≢◌, refl, ◌∙◌, Bool, false, not, subst, All-middle, Option, none, some, List, [], ◌∷◌,
  Memᴰ, ◌==◌, is_some, arith, All, ap, ==-refl,
}
use portable_systems_lisp.Outcome.{ok}
use portable_systems_lisp.Machine.{Kind, Object, Runtime, Host, pure, ◌>>◌, lookup, pop_roots}
use portable_systems_lisp.Gc.{slot_count}
use portable_systems_lisp.Gc.Expect.{find_object-held, expect_object_lem}
use portable_systems_lisp.Gc.Reach.{Reach, root, children, children_at, root_words, IsHeap}
use portable_systems_lisp.Gc.Survive.{Reach-cons}
use portable_systems_lisp.Frames.{Frame}
use portable_systems_lisp.Frames.Apart.{IsFresh, framed, open_frame_lem, root_words-framed}
use portable_systems_lisp.Frames.Construct.{CanConstruct, IsHeap-roots, pop_roots_lem}
use portable_systems_lisp.Text.Laws.{IsString}
use portable_systems_lisp.Symbols.{intern_new, intern_symbol, after_search}
use portable_systems_lisp.Symbols.Laws.{symbol_object, make_symbol_lem}
use portable_systems_lisp.Symbols.Chain.{IsFirst}
use portable_systems_lisp.Symbols.Kept.{Reach-child, IsString-kept, IsChain-kept}
use portable_systems_lisp.Symbols.Link.{linked, lookup-linked, IsHeap-linked, link_lem}
use portable_systems_lisp.Symbols.Intern.{IsPackage, intern_symbol-cases, intern_symbol-found}

package_children :
    (s : Runtime) (a : ℕ) (o : Object)
    → lookup a s.objects ≡ some o
    → o.kind ≡ Kind.package_object
    → children_at s.objects a ≡ o.slot_0 ∷ o.slot_1 ∷ []
unfolding children_at children slot_count
package_children s a o held k = rw (held, children_at, children, k)

-- A search for the name of the first symbol finds that symbol.
first-head :
    (a b : ℕ) (bs : List ℕ) (es : List (ℕ × List ℕ)) → IsFirst bs ((a, bs) ∷ es) (some b) → b ≡ a
first-head a b bs es ([], after, split, all) = cc split
first-head a b bs es (x ∷ before, after, split, all) = absurd (all.0 (cc split))

-- What interning the new name `bs` makes of `s`: the symbol `a` in front of the package's others;
-- all that the arguments or the registered roots reach is kept, the package itself aside.
pub record Interned (s s' : Runtime) (owner name a : ℕ) (bs : List ℕ) (es : List (ℕ × List ℕ))
    : Type 0 where
  pub heap : IsHeap s'
  pub members : IsPackage s' owner ((a, bs) ∷ es)
  pub live :
      (b : ℕ) (o : Object)
      → lookup b s.objects ≡ some o
      → Reach s.objects (owner ∷ name ∷ root_words s) b
      → b ≢ owner
      → lookup b s'.objects ≡ some o
  pub named : IsString s' name bs
  pub roots : s'.roots ≡ s.roots

module _ (host : Host) (f g : Frame) (owner name : ℕ) (precise : Bool) (s : Runtime)
    (es : List (ℕ × List ℕ)) (bs : List ℕ) (h : IsHeap s) (p : IsPackage s owner es)
    (n : IsString s name bs) (fresh : IsFresh f 2 s)
    (c : CanConstruct host g (name ∷ []) (framed f (owner ∷ name ∷ []) s) 0 (not precise)) where
  abbrev words : List ℕ
  words = owner ∷ name ∷ root_words s

  intern_new_lem :
      (s' : Runtime) × (intern_new host f g owner name precise s ≡ ok (host.calloc, s'))
      × Interned s s' owner name host.calloc bs es
  unfolding intern_new
  intern_new_lem =
      let s₁ = framed f (owner ∷ name ∷ []) s in
      let a = host.calloc in
      let same_words = root_words-framed f (owner ∷ name ∷ []) s fresh in
      let (s₂, e₂, made, _) = make_symbol_lem host g name precise s₁ n.object n.held n.kind c in
      let survives : (b : ℕ) (o : Object)
          → lookup b s.objects ≡ some o
          → Reach s.objects words b
          → (lookup b s₂.objects ≡ some o) × (b ≢ a) =
        λ b o at r. made.live b o at (Reach-cons name (rw same_words r)) in
      let reached : Reach s.objects words owner =
        root (Memᴰ.head refl) (ap is_some (find_object-held h owner p.held)) in
      let (held, other) = survives owner p.object p.held reached in
      let apart : (a == owner) ≡ false = ground arith in
      let t = linked s₂ made.heap owner a name p.object apart held p.kind made.held in
      let done = IsHeap-linked s₂ made.heap owner a name p.object apart held p.kind made.held in
      let live : (b : ℕ) (o : Object)
          → lookup b s.objects ≡ some o
          → Reach s.objects words b
          → b ≢ owner
          → lookup b t.objects ≡ some o =
        λ b o at r ne.
          let (there, new) = survives b o at r in
          let x : (owner == b) ≡ false = ground arith in
          let y : (a == b) ≡ false = ground arith in
          rw (lookup-linked s₂ made.heap owner a name p.object apart held p.kind made.held b, x, y)
            there in
      let t' = record t { roots = s.roots } in
      let keeps : (b : ℕ) (o : Object)
          → lookup b s.objects ≡ some o
          → Reach s.objects words b
          → o.kind ≢ Kind.package_object
          → lookup b t'.objects ≡ some o =
        λ b o at r other_kind. live b o at r (λ e.
          let here = ap (λ x. lookup x s.objects) e in
          absurd (other_kind (cc (at, here, p.held, p.kind)))) in
      let backwards : (owner == a) ≡ false = ground arith in
      let at_new = lookup-linked s₂ made.heap owner a name p.object apart held p.kind made.held a in
      let at_owner =
        lookup-linked s₂ made.heap owner a name p.object apart held p.kind made.held owner in
      (
        t',
        rw
            (
              open_frame_lem f (owner ∷ name ∷ []) s,
              e₂,
              expect_object_lem s₂ owner (find_object-held made.heap owner held) p.kind,
              expect_object_lem s₂ a (find_object-held made.heap a made.held) {k = Kind.symbol}
                  refl,
            )
            (link_lem s₂ made.heap owner a name p.object apart held p.kind made.held
                (do pop_roots f.root; pure a)
              ∙ rw (pop_roots_lem f.root t _ s.roots made.statics.roots refl)),
        record {
          heap = IsHeap-roots t s.roots done;
          members = record {
            object = record p.object { slot_1 = a };
            held = rw (at_owner, ==-refl owner);
            kind = p.kind;
            chain = (
              refl,
              (
                record {
                  object = symbol_object a name owner p.object.slot_1;
                  held = rw (at_new, backwards, ==-refl a);
                  kind = refl;
                  named = IsString-kept s t' h words keeps name bs n (
                      root (Memᴰ.tail (Memᴰ.head refl))
                        (ap is_some (find_object-held h name n.held)));
                },
                IsChain-kept s t' h words keeps es p.object.slot_1
                    (λ o at.
                      Reach-child s h words owner p.object.slot_1 o reached
                        (rw (package_children s owner p.object p.held p.kind)
                          (Memᴰ.tail (Memᴰ.head refl)))
                        at)
                    p.chain,
              ),
            );
          };
          live = live;
          named =
              IsString-kept s t' h words keeps name bs n
                (root (Memᴰ.tail (Memᴰ.head refl)) (ap is_some (find_object-held h name n.held)));
          roots = refl;
        },
      )

  -- Interning a name that no symbol of the package has makes a symbol of that name in front of the
  -- others. All that the arguments or the registered roots reach is kept unchanged, the package's own
  -- object aside, and the root frames are as before.
  pub intern_symbol-new :
      All (λ e. e.1 ≢ bs) es
      → (s' : Runtime) × (intern_symbol host f g owner name precise s ≡ ok (host.calloc, s'))
        × Interned s s' owner name host.calloc bs es
  intern_symbol-new unknown =
      let (found, first, e) = intern_symbol-cases host f g owner name precise s es bs h p n in
      settle found first e
    where
      settle :
          (found : Option ℕ)
          → IsFirst bs es found
          → intern_symbol host f g owner name precise s
            ≡ after_search host f g owner name precise found s
          → (s' : Runtime) × (intern_symbol host f g owner name precise s ≡ ok (host.calloc, s'))
            × Interned s s' owner name host.calloc bs es
      settle none first e = let (s', made, i) = intern_new_lem in (s', e ∙ made, i)
      settle (some a) (before, after, split, all) e =
          absurd
            (All-middle _ before (a, bs) after (subst (All (λ d. d.1 ≢ bs)) split unknown) refl)

  -- Interning a name twice, however the second call is framed and allocates, yields the symbol that
  -- the first call made, and the second changes nothing.
  pub intern_symbol-again :
      (host' : Host) (f' g' : Frame) (precise' : Bool)
      → All (λ e. e.1 ≢ bs) es
      → (s' : Runtime) × (intern_symbol host f g owner name precise s ≡ ok (host.calloc, s'))
        × (intern_symbol host' f' g' owner name precise' s' ≡ ok (host.calloc, s'))
  intern_symbol-again host' f' g' precise' unknown =
      let (s', e, i) = intern_symbol-new unknown in
      let (a, again, first) =
        intern_symbol-found host' f' g' owner name precise' s' ((host.calloc, bs) ∷ es) bs i.heap
          i.members i.named (λ all. all.0 refl) in
      (s', e, again ∙ ap (λ x. ok (x, s')) (first-head host.calloc a bs es first))
