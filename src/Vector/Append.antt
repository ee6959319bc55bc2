-- ===== src/Vector/Append.antt =====
-- A value put in the next place of a vector.
use portable_systems_lisp.Base.{
  ℕ, ◌+◌, ◌≤◌, ◌<◌, ◌≡◌, ◌≢◌, refl, sym, ◌∙◌, false, some, List, [], ◌∷◌, ◌++◌, ◌==◌, if◌then◌else◌,
  arith, length, length-append, length-set, set, ap, ==-refl,
}
use portable_systems_lisp.Outcome.{ok}
use portable_systems_lisp.Machine.{Object, Runtime, lookup, update, modify}
use portable_systems_lisp.Machine.Objects.{lookup-update, modify_lem}
use portable_systems_lisp.Gc.Reach.{IsHeap}
use portable_systems_lisp.Frames.Construct.{IsHeap-update}
use portable_systems_lisp.Vector.Laws.{
  IsVector, item_written, IsHeap-item_written, lookup-item_written, storage-ne-header,
}

-- The first item of the spare room is overwritten.
set-next :
    (xs rest : List ℕ) (item : ℕ)
    → length xs < length (xs ++ rest)
    → (rest' : List ℕ) × (set (xs ++ rest) (length xs) item ≡ (xs ++ item ∷ []) ++ rest')
set-next [] [] item room = absurd (omega arith)
set-next [] (r ∷ rest) item room = (rest, refl)
set-next (x ∷ xs) rest item room =
    let (rest', e) = set-next xs rest item (omega arith) in (rest', ap (λ l. x ∷ l) e)

-- The state after `item` was put in the next place of the vector and its length advanced.
module _ (s : Runtime) (h : IsHeap s) (value : ℕ) (xs : List ℕ) (v : IsVector s value xs) (item : ℕ)
    (room : length xs + 1 ≤ length v.storage.items) where
  abbrev pub longer : Object → Object
  longer o = record o { length = length xs + 1 }

  abbrev pub placed : Runtime
  placed = item_written s h value xs v (length xs) item

  abbrev pub appended : Runtime
  appended = record s { objects = update value longer placed.objects }

  pub header-placed : lookup value placed.objects ≡ some v.header
  header-placed =
      rw
        (
          lookup-item_written s h value xs v (length xs) item value,
          storage-ne-header s h value xs v,
        )
        v.held

  lookup-appended :
      (a : ℕ)
      → lookup a appended.objects
        ≡ (if value == a then some (longer v.header) else lookup a placed.objects)
  lookup-appended a = ground (
    arith,
    lookup-update longer (λ o. refl) value a placed.objects,
    header-placed,
    ap (λ b. lookup b placed.objects),
  )

  pub lookup-appended_other :
      (a : ℕ) (o : Object)
      → lookup a s.objects ≡ some o
      → a ≢ value
      → a ≢ v.header.slot_0
      → lookup a appended.objects ≡ some o
  lookup-appended_other a o there x y =
      let x' : (value == a) ≡ false = ground arith in
      let y' : (v.header.slot_0 == a) ≡ false = ground arith in
      rw (lookup-appended a, x', lookup-item_written s h value xs v (length xs) item a, y') there

  pub IsHeap-appended : IsHeap appended
  IsHeap-appended =
      IsHeap-update longer value placed v.header
        (record { address = λ o. refl; marked = λ o. refl }) header-placed
        (λ e. cc (e, v.kind), λ e. cc (e, v.kind))
        (IsHeap-item_written s h value xs v (length xs) item)

  pub IsVector-appended : IsVector appended value (xs ++ item ∷ [])
  IsVector-appended =
      let apart : (value == v.header.slot_0) ≡ false =
        ground (arith, storage-ne-header s h value xs v) in
      let (rest', e) = set-next xs v.rest item (omega (arith, ap length v.items)) in
      record {
        header = longer v.header;
        held = rw (lookup-appended value, ==-refl value);
        kind = v.kind;
        size = sym (length-append xs (item ∷ []));
        storage = record v.storage { items = set v.storage.items (length xs) item };
        stored = rw (
          lookup-appended v.header.slot_0,
          apart,
          lookup-item_written s h value xs v (length xs) item v.header.slot_0,
          ==-refl v.header.slot_0,
        );
        storage_kind = v.storage_kind;
        rest = rest';
        items = ap (λ l. set l (length xs) item) v.items ∙ e;
        capacity = v.capacity ∙ sym (length-set v.storage.items (length xs) item);
      }

  pub modify-placed : modify value longer placed ≡ ok (tt, appended)
  modify-placed = modify_lem value longer placed v.header header-placed
