-- ===== src/Symbols/Chain.antt =====
-- The chain of a package's symbols as a list of symbols and their names, and the walk along it.
use portable_systems_lisp.Base.{
  ℕ, zero, suc, ◌+◌, ◌≤◌, ◌<◌, ◌≡◌, ◌≢◌, refl, sym, ◌∙◌, true, Option, none, some, List, [], ◌∷◌,
  ◌++◌, ◌==◌, if◌then◌else◌, is_some, arith, inl, inr, Bool-cases, All, All-weaken, All-both,
  length, ap, subst,
}
use portable_systems_lisp.Outcome.{ok}
use portable_systems_lisp.Value.{nil}
use portable_systems_lisp.Machine.{Kind, Object, Runtime, lookup}
use portable_systems_lisp.Gc.Expect.{find_object-held, expect_object_lem, load-found, ne_nil}
use portable_systems_lisp.Gc.Reach.{IsHeap}
use portable_systems_lisp.Text.Laws.{IsString, strings_equal_lem}
use portable_systems_lisp.Symbols.{find_symbol}

-- From the value `current` on, the chain consists of the symbols `es`, each with the bytes of its
-- name, and ends in NIL.
pub record IsEntry (s : Runtime) (a : ℕ) (bs : List ℕ) : Type 0 where
  pub object : Object
  pub held : lookup a s.objects ≡ some object
  pub kind : object.kind ≡ Kind.symbol
  pub named : IsString s object.slot_0 bs

abbrev pub IsChain : Runtime → ℕ → List (ℕ × List ℕ) → Type 0
IsChain s current [] = current ≡ nil
IsChain s current ((a, bs) ∷ es) =
    (current ≡ a) × ((e : IsEntry s a bs) × IsChain s e.object.slot_2 es)

-- Two chains from one value are the same length.
IsChain-length :
    (s : Runtime)
    → IsHeap s
    → (c : ℕ) (es es' : List (ℕ × List ℕ)) → IsChain s c es
    → IsChain s c es'
    → length es ≡ length es'
IsChain-length s h c [] [] k k' = refl
IsChain-length s h c [] ((a, bs) ∷ es) k k' = absurd (ground (arith, ne_nil h a k'.1.0.held))
IsChain-length s h c ((a, bs) ∷ es) [] k k' = absurd (ground (arith, ne_nil h a k.1.0.held))
IsChain-length s h c ((a, bs) ∷ es) ((b, cs) ∷ es') k k' =
    let place : a ≡ b = sym k.0 ∙ k'.0 in
    let here : lookup a s.objects ≡ some k'.1.0.object =
      ap (λ x. lookup x s.objects) place ∙ k'.1.0.held in
    let first = k.1.0.held in
    let same : k.1.0.object ≡ k'.1.0.object = ground arith in
    let next = ap (λ (o : Object). o.slot_2) same in
    ap suc (IsChain-length s h _ es es' k.1.1 (subst (λ x. IsChain s x es') (sym next) k'.1.1))

-- Each entry of a chain starts a chain that is no longer.
suffixes :
    (s : Runtime) (n c : ℕ) (es : List (ℕ × List ℕ))
    → length es ≤ n
    → IsChain s c es
    → All (λ e. (es' : List (ℕ × List ℕ)) × IsChain s e.0 es' × (length es' ≤ n)) es
suffixes s n c [] bound k = tt
suffixes s n c ((a, bs) ∷ es) bound k =
    (((a, bs) ∷ es, (refl, k.1), bound), suffixes s n _ es (omega (arith, bound)) k.1.1)

abbrev Unrepeated : List (ℕ × List ℕ) → Type 0
Unrepeated [] = Unit
Unrepeated (e ∷ es) = All (λ d. d.0 ≢ e.0) es × Unrepeated es

-- No symbol stands twice in a chain, as the chain would not end.
IsChain-Unrepeated :
    (s : Runtime) → IsHeap s → (c : ℕ) (es : List (ℕ × List ℕ)) → IsChain s c es → Unrepeated es
IsChain-Unrepeated s h c [] k = tt
IsChain-Unrepeated s h c ((a, bs) ∷ es) k = (
  All-weaken _ (λ d. d.0 ≢ a)
      (λ d later e.
        let (es', k', short) = later in
        let long =
          IsChain-length s h a ((a, bs) ∷ es) es' (refl, k.1) (subst (λ x. IsChain s x es') e k') in
        absurd (omega (arith, long, short)))
      es (suffixes s (length es) _ es (omega arith) k.1.1),
  IsChain-Unrepeated s h _ es k.1.1,
)

erase : ℕ → List Object → List Object
erase a [] = []
erase a (o ∷ os) = if o.address == a then os else o ∷ erase a os

lookup-erase : (a b : ℕ) (os : List Object) → b ≢ a → lookup b (erase a os) ≡ lookup b os
unfolding erase lookup
lookup-erase a b [] ne = refl
lookup-erase a b (o ∷ os) ne = ground (arith, lookup-erase a b os)

length-erase :
    (a : ℕ) (os : List Object) → is_some (lookup a os) ≡ true → length (erase a os) + 1 ≡ length os
unfolding erase lookup
length-erase a [] held = ground arith
length-erase a (o ∷ os) held = ground (arith, length-erase a os)

-- Different symbols of the heap are no more than the heap has objects.
Unrepeated-le-length :
    (es : List (ℕ × List ℕ)) (os : List Object)
    → Unrepeated es
    → All (λ e. is_some (lookup e.0 os) ≡ true) es
    → length es ≤ length os
Unrepeated-le-length [] os u all = omega arith
Unrepeated-le-length (e ∷ es) os u all =
    let rest =
      All-weaken (λ d. (d.0 ≢ e.0) × (is_some (lookup d.0 os) ≡ true)) _
        (λ d both. ap is_some (lookup-erase e.0 d.0 os both.0) ∙ both.1) es
        (All-both _ _ es u.0 all.1) in
    omega (arith, Unrepeated-le-length es (erase e.0 os) u.1 rest, length-erase e.0 os all.0)

entries-held :
    (s : Runtime) (c : ℕ) (es : List (ℕ × List ℕ))
    → IsChain s c es
    → All (λ e. is_some (lookup e.0 s.objects) ≡ true) es
entries-held s c [] k = tt
entries-held s c ((a, bs) ∷ es) k = (ap is_some k.1.0.held, entries-held s _ es k.1.1)

-- A chain is no longer than the heap, so the fuel of the walk is enough.
pub IsChain-le-count :
    (s : Runtime) (c : ℕ) (es : List (ℕ × List ℕ))
    → IsHeap s
    → IsChain s c es
    → length es < s.object_count + 1
IsChain-le-count s c es h k = omega (
  arith,
  h.counted,
  Unrepeated-le-length es s.objects (IsChain-Unrepeated s h c es k) (entries-held s c es k),
)

-- The answer of a search for the name `bs`: the first symbol that has it, or none where no symbol
-- has it.
abbrev pub IsFirst : List ℕ → List (ℕ × List ℕ) → Option ℕ → Type 0
IsFirst bs es none = All (λ e. e.1 ≢ bs) es
IsFirst bs es (some a) =
    (before after : List (ℕ × List ℕ)) × (es ≡ before ++ (a, bs) ∷ after)
    × All (λ e. e.1 ≢ bs) before

IsFirst-later :
    (bs cs : List ℕ) (a : ℕ) (es : List (ℕ × List ℕ)) (found : Option ℕ)
    → cs ≢ bs
    → IsFirst bs es found
    → IsFirst bs ((a, cs) ∷ es) found
IsFirst-later bs cs a es none ne f = (ne, f)
IsFirst-later bs cs a es (some b) ne (before, after, e, all) =
    ((a, cs) ∷ before, after, ap (λ l. (a, cs) ∷ l) e, (ne, all))

pub find_symbol_lem :
    (s : Runtime) (name : ℕ) (bs : List ℕ)
    → IsHeap s
    → IsString s name bs
    → (fuel c : ℕ) (es : List (ℕ × List ℕ)) → IsChain s c es
    → length es < fuel
    → (found : Option ℕ) × (find_symbol fuel c name s ≡ ok (found, s)) × IsFirst bs es found
unfolding find_symbol
find_symbol_lem s name bs h n zero c es k more = absurd (omega (arith, more))
find_symbol_lem s name bs h n (suc fuel) c [] k more =
    let ends : (c == nil) ≡ true = ground arith in (none, rw ends, tt)
find_symbol_lem s name bs h n (suc fuel) c ((a, cs) ∷ es) k more =
    let e = k.1.0 in
    let at : lookup c s.objects ≡ some e.object = ap (λ x. lookup x s.objects) k.0 ∙ e.held in
    let here = find_object-held h c at in
    let (same, compared, agrees) = strings_equal_lem s e.object.slot_0 name cs bs h e.named n in
    elim (Bool-cases same) [
      | inl hit ↦ (
        some c,
        rw (ne_nil h c at, expect_object_lem s c here e.kind, load-found s c here, compared, hit),
        ([], es, cc (k.0, agrees.0 hit), tt),
      )
      | inr miss ↦
          let (found, r, first) =
            find_symbol_lem s name bs h n fuel e.object.slot_2 es k.1.1 (omega (arith, more)) in
          (
            found,
            rw
                (
                  ne_nil h c at,
                  expect_object_lem s c here e.kind,
                  load-found s c here,
                  compared,
                  miss,
                )
                r,
            IsFirst-later bs cs a es found (λ q. cc (agrees.1 q, miss)) first,
          )
    ]
