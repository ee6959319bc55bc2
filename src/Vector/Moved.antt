-- ===== src/Vector/Moved.antt =====
-- A new storage that takes the place of the full one, with the same values.
use portable_systems_lisp.Base.{
  ℕ, zero, suc, ◌-◌, ◌≤◌, ◌≡◌, refl, sym, ◌∙◌, false, some, List, [], ◌∷◌, ◌++◌, ◌==◌,
  if◌then◌else◌, ltb, arith, length, length-append, length-replicate, replicate, take, drop, Memᴰ,
  ap, is_some, ==-refl,
}
use portable_systems_lisp.Outcome.{ok}
use portable_systems_lisp.Value.{nil}
use portable_systems_lisp.Machine.{Kind, Object, Runtime, lookup, update}
use portable_systems_lisp.Machine.Objects.{lookup-update, modify_lem}
use portable_systems_lisp.Gc.{slot_count}
use portable_systems_lisp.Gc.Reach.{Reach, root, child, children, children_at, IsHeap}
use portable_systems_lisp.Gc.Expect.{find_object-held, load-found}
use portable_systems_lisp.Frames.Construct.{IsHeap-update}
use portable_systems_lisp.Vector.{copy_items}
use portable_systems_lisp.Vector.Laws.{IsVector, header_found, storage_found}
use portable_systems_lisp.Vector.Make.{storage_object}

pub take-append : (xs rest : List ℕ) → take (length xs) (xs ++ rest) ≡ xs
take-append [] rest = refl
take-append (x ∷ xs) rest = ap (λ l. x ∷ l) (take-append xs rest)

length-drop : (n : ℕ) (xs : List ℕ) → length (drop n xs) ≡ length xs - n
length-drop zero xs = omega arith
length-drop (suc n) [] = omega arith
length-drop (suc n) (x ∷ xs) = omega (arith, length-drop n xs)

-- The header and the storage of a vector that a root word denotes are reached.
module _ (s : Runtime) (h : IsHeap s) (value : ℕ) (xs : List ℕ) (v : IsVector s value xs)
    (ws : List ℕ) (rooted : Memᴰ value ws) where
  pub Reach-header : Reach s.objects ws value
  Reach-header = root rooted (ap is_some (header_found s h value xs v))

  header_children : children_at s.objects value ≡ v.header.slot_0 ∷ []
  unfolding children_at children slot_count
  header_children = rw (v.held, children_at, children, v.kind)

  pub Reach-storage : Reach s.objects ws v.header.slot_0
  Reach-storage =
      child Reach-header (rw header_children (Memᴰ.head refl))
        (ap is_some (storage_found s h value xs v))

-- memcpy of a whole vector into a storage that has room for it.
pub copy_items_lem :
    (to from : ℕ) (n : ℕ) (s : Runtime) (old new : Object)
    → IsHeap s
    → lookup from s.objects ≡ some old
    → lookup to s.objects ≡ some new
    → n ≤ length old.items
    → n ≤ length new.items
    → copy_items to from n s
      ≡ ok (
        tt,
        record s {
          objects =
              update to (λ x. record x { items = take n old.items ++ drop n x.items }) s.objects;
        },
      )
unfolding copy_items
copy_items_lem to from n s old new h at there fits room =
    let a : ltb (length old.items) n ≡ false = ground arith in
    let b : ltb (length new.items) n ≡ false = ground arith in
    rw
      (
        load-found s from (find_object-held h from at),
        load-found s to (find_object-held h to there),
        a,
        b,
      )
      (modify_lem to _ s new there)

-- The state after a vector's values moved to the storage at `new`.
abbrev pub moved : Runtime → ℕ → ℕ → List ℕ → Runtime
moved s value new xs = record s {
  objects =
      update value (λ o. record o { slot_0 = new })
        (update new (λ o. record o { items = xs ++ drop (length xs) o.items }) s.objects);
}

module _ (s : Runtime) (h : IsHeap s) (value : ℕ) (xs : List ℕ) (header : Object) (new n : ℕ) where
  abbrev pub target : Object
  target = storage_object new (replicate n nil)

  abbrev pub filled : Object
  filled = record target { items = xs ++ drop (length xs) target.items }

  pub lookup-moved :
      lookup new s.objects ≡ some target
      → lookup value s.objects ≡ some header
      → (new == value) ≡ false
      → (a : ℕ)
      → lookup a (moved s value new xs).objects ≡ (
          if value == a
          then some (record header { slot_0 = new })
          else if new == a
          then some filled
          else lookup a s.objects)
  lookup-moved there held apart a =
      let outer =
        lookup-update (λ o. record o { slot_0 = new }) (λ o. refl) value a
          (update new (λ o. record o { items = xs ++ drop (length xs) o.items }) s.objects) in
      let inner =
        lookup-update (λ o. record o { items = xs ++ drop (length xs) o.items }) (λ o. refl) new a
          s.objects in
      ground (arith, outer, inner, there, held, ap (λ b. lookup b s.objects))

  pub IsHeap-moved :
      lookup new s.objects ≡ some target
      → lookup value s.objects ≡ some header
      → header.kind ≡ Kind.value_vector
      → (new == value) ≡ false
      → length xs ≤ n
      → IsHeap (moved s value new xs)
  IsHeap-moved there held k apart room =
      let copied =
        IsHeap-update (λ o. record o { items = xs ++ drop (length xs) o.items }) new s target
          (record { address = λ o. refl; marked = λ o. refl }) there
          (
            λ _. omega (
              arith,
              length-append xs (drop (length xs) target.items),
              length-drop (length xs) target.items,
              length-replicate n nil,
            ),
            λ e. cc,
          )
          h in
      IsHeap-update _ value _ header (record { address = λ o. refl; marked = λ o. refl })
        (rw
          (
            lookup-update (λ o. record o { items = xs ++ drop (length xs) o.items }) (λ o. refl) new
                value s.objects,
            apart,
          )
          held)
        (λ e. cc (e, k), λ e. cc (e, k)) copied

  pub IsVector-moved :
      lookup new s.objects ≡ some target
      → lookup value s.objects ≡ some header
      → header.kind ≡ Kind.value_vector
      → header.length ≡ length xs
      → (new == value) ≡ false
      → length xs ≤ n
      → (w : IsVector (moved s value new xs) value xs) × (length w.storage.items ≡ n)
        × (w.header.slot_0 ≡ new)
  IsVector-moved there held k size apart room =
      let backwards : (value == new) ≡ false = ground arith in
      let sum : length (xs ++ drop (length xs) target.items) ≡ n = omega (
        arith,
        length-append xs (drop (length xs) target.items),
        length-drop (length xs) target.items,
        length-replicate n nil,
      ) in
      (
        record {
          header = record header { slot_0 = new };
          held = rw (lookup-moved there held apart value, ==-refl value);
          kind = k;
          size = size;
          storage = record target { items = xs ++ drop (length xs) target.items };
          stored = rw (lookup-moved there held apart new, ==-refl new, backwards);
          storage_kind = refl;
          rest = drop (length xs) target.items;
          items = refl;
          capacity = length-replicate n nil ∙ sym sum;
        },
        sum,
        refl,
      )
