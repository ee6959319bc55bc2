-- ===== src/Gc/Reach.antt =====
-- What the collector is to keep: the objects that chains of heap references lead to from given root
-- words. A heap is queried through `lookup` and `find_object`; the mark bits play no part.
use portable_systems_lisp.Base.{
  ℕ, ◌%◌, ◌≤◌, ◌≡◌, ◌≢◌, Bool, true, false, none, some, List, [], ◌∷◌, ◌++◌, map, Memᴰ, ◌==◌,
  if◌then◌else◌, length, take, All, is_some,
}
use portable_systems_lisp.Machine.{
  Kind, kind_code, Object, Root, Runtime, lookup, find_object, read_words,
}
use portable_systems_lisp.Machine.Objects.{Distinct}
use portable_systems_lisp.Gc.{slot_count, slots}

-- The psl_values in an object that can refer to objects.
unfoldable pub children : Object → List ℕ
unfolding slot_count
children o =
    if kind_code o.kind == kind_code Kind.value_vector_storage
    then take o.length o.items
    else elim (slot_count o.kind) [ none ↦ [] | some n ↦ take n (slots o) ]

-- The word denotes an object of the heap.
abbrev pub allocated : List Object → ℕ → Bool
allocated os v = is_some (find_object v os)

unfoldable pub children_at : List Object → ℕ → List ℕ
unfolding children
children_at os a = elim (lookup a os) [ none ↦ [] | some o ↦ children o ]

-- `Reach os roots a`: the object at `a` is referred to by one of the words `roots`, or by a word in
-- an object that is reached.
pub data Reach (os : List Object) (roots : List ℕ) : ℕ → Type 0 where
  root : {v : ℕ} → Memᴰ v roots → allocated os v ≡ true → Reach os roots v
  child :
      {a v : ℕ}
      → Reach os roots a
      → Memᴰ v (children_at os a)
      → allocated os v ≡ true
      → Reach os roots v

-- The words of the registered root frames, in the order of `mark_registered_roots`.
unfoldable pub frame_words : (ℕ → ℕ) → List Root → List ℕ
unfolding read_words
frame_words memory [] = []
frame_words memory (r ∷ rs) = read_words memory r.values r.count ++ frame_words memory rs

unfoldable pub root_words : Runtime → List ℕ
unfolding frame_words
root_words s =
    frame_words s.memory s.roots
    ++ (frame_words s.memory s.permanent_roots ++ map (λ h. h.value) s.value_handles)

-- The tail of an object has room for what its `length` counts: a storage for its elements, a string
-- for its bytes.
abbrev pub IsSized : Object → Type 0
IsSized o =
    (o.kind ≡ Kind.value_vector_storage → o.length ≤ length o.items)
    × (o.kind ≡ Kind.string → o.length ≤ length o.bytes)

abbrev pub IsAligned : Object → Type 0
IsAligned o = (o.address ≢ 0) × (o.address % 8 ≡ 0)

-- The heap between two operations.
pub record IsHeap (s : Runtime) : Type 0 where
  pub distinct : Distinct s.objects
  pub aligned : All IsAligned s.objects
  pub unmarked : All (λ o. o.marked ≡ false) s.objects
  pub sized : All IsSized s.objects
  pub counted : s.object_count ≡ length s.objects
