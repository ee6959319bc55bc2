-- ===== src/Symbols/Kept.antt =====
-- What keeps a package's chain of symbols.
use portable_systems_lisp.Base.{ℕ, ◌≡◌, ◌≢◌, refl, ◌∙◌, some, List, [], ◌∷◌, Memᴰ, is_some, ap}
use portable_systems_lisp.Machine.{Kind, Object, Runtime, lookup}
use portable_systems_lisp.Gc.{slot_count}
use portable_systems_lisp.Gc.Expect.{find_object-held}
use portable_systems_lisp.Gc.Reach.{Reach, child, children, children_at, IsHeap}
use portable_systems_lisp.Text.Laws.{IsString}
use portable_systems_lisp.Symbols.Chain.{IsChain}

-- A held object that a reached object refers to is reached.
pub Reach-child :
    (s : Runtime) (h : IsHeap s) (ws : List ℕ) (a b : ℕ) (x : Object)
    → Reach s.objects ws a
    → Memᴰ b (children_at s.objects a)
    → lookup b s.objects ≡ some x
    → Reach s.objects ws b
Reach-child s h ws a b x r i held = child r i (ap is_some (find_object-held h b held))

symbol_children :
    (s : Runtime) (a : ℕ) (o : Object)
    → lookup a s.objects ≡ some o
    → o.kind ≡ Kind.symbol
    → children_at s.objects a ≡ o.slot_0 ∷ o.slot_1 ∷ o.slot_2 ∷ []
unfolding children_at children slot_count
symbol_children s a o held k = rw (held, children_at, children, k)

-- A chain is kept by a step that keeps every reached object but packages.
module _ (s t : Runtime) (h : IsHeap s) (ws : List ℕ)
    (keeps : (b : ℕ) (o : Object)
      → lookup b s.objects ≡ some o
      → Reach s.objects ws b
      → o.kind ≢ Kind.package_object
      → lookup b t.objects ≡ some o) where
  pub IsString-kept :
      (v : ℕ) (bs : List ℕ) (n : IsString s v bs) → Reach s.objects ws v → IsString t v bs
  IsString-kept v bs n r = record {
    object = n.object;
    held = keeps v n.object n.held r (λ e. cc (e, n.kind));
    kind = n.kind;
    size = n.size;
    rest = n.rest;
    bytes = n.bytes;
  }

  pub IsChain-kept :
      (es : List (ℕ × List ℕ)) (c : ℕ)
      → ((o : Object) → lookup c s.objects ≡ some o → Reach s.objects ws c)
      → IsChain s c es
      → IsChain t c es
  IsChain-kept [] c reached k = k
  IsChain-kept ((a, bs) ∷ es) c reached k =
      let e = k.1.0 in
      let at : lookup c s.objects ≡ some e.object = ap (λ x. lookup x s.objects) k.0 ∙ e.held in
      let r : Reach s.objects ws a = rw k.0 at (reached e.object at) in
      let refers = symbol_children s a e.object e.held e.kind in
      (
        k.0,
        (
          record {
            object = e.object;
            held = keeps a e.object e.held r (λ q. cc (q, e.kind));
            kind = e.kind;
            named = IsString-kept e.object.slot_0 bs e.named (
                Reach-child s h ws a e.object.slot_0 e.named.object r (rw refers (Memᴰ.head refl))
                  e.named.held);
          },
          IsChain-kept es e.object.slot_2
              (λ o held.
                Reach-child s h ws a e.object.slot_2 o r
                  (rw refers (Memᴰ.tail (Memᴰ.tail (Memᴰ.head refl)))) held)
              k.1.1,
        ),
      )
