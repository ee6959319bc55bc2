-- ===== src/Vector/Laws.antt =====
-- Value vectors as lists of values: length, reads and writes against that view.
use portable_systems_lisp.Base.{
  get_elem?-append, get_elem?-lt, get_elem?-ge, set-append, ℕ, ◌+◌, ◌≤◌, ◌<◌, ◌≡◌, ◌≢◌, refl, sym,
  ◌∙◌, true, false, none, some, List, ◌++◌, ◌==◌, if◌then◌else◌, leb, arith, length, length-append,
  get_elem?, set, inl, inr, Bool-cases, ap, length-set,
}
use portable_systems_lisp.Outcome.{ok, abort}
use portable_systems_lisp.Machine.{
  Kind, Object, Runtime, and_then, lookup, update, find_object, load,
}
use portable_systems_lisp.Machine.Objects.{lookup-update, modify_lem}
use portable_systems_lisp.Gc.Reach.{IsHeap}
use portable_systems_lisp.Gc.Expect.{find_object-held, expect_object_lem, load-found}
use portable_systems_lisp.Frames.Construct.{IsHeap-update}
use portable_systems_lisp.Vector.{
  expect_vector, vector_storage, read_item, write_item, value_vector_length, value_vector_ref,
  value_vector_set,
}

-- The value denotes a vector of the values `xs`, whose storage has room for `rest` more.
pub record IsVector (s : Runtime) (value : ℕ) (xs : List ℕ) : Type 0 where
  pub header : Object
  pub held : lookup value s.objects ≡ some header
  pub kind : header.kind ≡ Kind.value_vector
  pub size : header.length ≡ length xs
  pub storage : Object
  pub stored : lookup header.slot_0 s.objects ≡ some storage
  pub storage_kind : storage.kind ≡ Kind.value_vector_storage
  pub rest : List ℕ
  pub items : storage.items ≡ xs ++ rest
  pub capacity : storage.length ≡ length storage.items

module _ (s : Runtime) (h : IsHeap s) (value : ℕ) (xs : List ℕ) (v : IsVector s value xs) where
  pub header_found : find_object value s.objects ≡ some v.header
  header_found = find_object-held h value v.held

  pub storage_found : find_object v.header.slot_0 s.objects ≡ some v.storage
  storage_found = find_object-held h v.header.slot_0 v.stored

  pub expect_vector_lem : expect_vector value s ≡ ok (value, s)
  unfolding expect_vector
  expect_vector_lem = expect_object_lem s value header_found v.kind

  pub vector_storage_lem : vector_storage value s ≡ ok (v.header.slot_0, s)
  unfolding vector_storage
  vector_storage_lem =
      rw (load-found s value header_found)
        (expect_object_lem s v.header.slot_0 storage_found v.storage_kind)

  -- The header as the code reads it, with its length given by the list.
  pub load_header : load value s ≡ ok (record v.header { length = length xs }, s)
  load_header =
      load-found s value header_found ∙ ap (λ n. ok (record v.header { length = n }, s)) v.size

  pub length-items : length v.storage.items ≡ length xs + length v.rest
  length-items = ap length v.items ∙ length-append xs v.rest

  read_item_lem :
      (index x : ℕ)
      → get_elem? v.storage.items index ≡ some x
      → read_item v.header.slot_0 index s ≡ ok (x, s)
  unfolding read_item
  read_item_lem index x inside = rw (load-found s v.header.slot_0 storage_found, and_then, inside)

  -- The length is that of the list, and a read yields the value at the index or aborts past the end;
  -- neither changes the state.
  pub vector_reads :
      (index : ℕ)
      → (value_vector_length value s ≡ ok (length xs, s))
        × (value_vector_ref value index s
            ≡ elim (get_elem? xs index) [ none ↦ abort | some x ↦ ok (x, s) ])
  unfolding value_vector_length value_vector_ref
  vector_reads index = (
    rw (expect_vector_lem, load-found s value header_found) (ap (λ n. ok (n, s)) v.size),
    elim (Bool-cases (leb v.header.length index)) [
      | inl past ↦
          let out = get_elem?-ge xs index (ground (arith, v.size)) in
          rw (expect_vector_lem, load-found s value header_found, past, out)
      | inr within ↦
          let below : index < length xs = ground (arith, v.size) in
          let (x, at) = get_elem?-lt xs index below in
          let inside : get_elem? v.storage.items index ≡ some x =
            ap (λ l. get_elem? l index) v.items ∙ get_elem?-append xs v.rest index below ∙ at in
          rw (
            expect_vector_lem,
            load-found s value header_found,
            within,
            vector_storage_lem,
            read_item_lem index x inside,
            at,
          )
    ],
  )

  -- The state after a write of `x` at `index` of the storage.
  abbrev pub item_written : ℕ → ℕ → Runtime
  item_written index x = record s {
    objects = update v.header.slot_0 (λ o. record o { items = set o.items index x }) s.objects;
  }

  pub write_item_lem :
      (index x : ℕ)
      → index < length v.storage.items
      → write_item v.header.slot_0 index x s ≡ ok (tt, item_written index x)
  unfolding write_item
  write_item_lem index x inside =
      let allocated : leb (length v.storage.items) index ≡ false = ground arith in
      rw (load-found s v.header.slot_0 storage_found, allocated)
        (modify_lem v.header.slot_0 _ s v.storage v.stored)

  pub IsHeap-item_written : (index x : ℕ) → IsHeap (item_written index x)
  IsHeap-item_written index x =
      IsHeap-update _ v.header.slot_0 s v.storage
        (record { address = λ o. refl; marked = λ o. refl }) v.stored
        (
          λ _. omega (arith, v.capacity, length-set v.storage.items index x),
          λ e. cc (e, v.storage_kind),
        )
        h

  pub lookup-item_written :
      (index x a : ℕ)
      → lookup a (item_written index x).objects ≡ (
          if v.header.slot_0 == a
          then some (record v.storage { items = set v.storage.items index x })
          else lookup a s.objects)
  lookup-item_written index x a =
      let after =
        lookup-update (λ o. record o { items = set o.items index x }) (λ o. refl) v.header.slot_0 a
          s.objects in
      ground (arith, after, v.stored, ap (λ b. lookup b s.objects))

  -- The header is another object than the storage.
  pub storage-ne-header : (v.header.slot_0 == value) ≡ false
  storage-ne-header = elim (Bool-cases (v.header.slot_0 == value)) [
    | inr apart ↦ apart
    | inl same ↦
        let at : v.header.slot_0 ≡ value = ground arith in
        let one = ap (λ a. lookup a s.objects) at in
        cc (v.held, v.stored, one, v.kind, v.storage_kind)
  ]

  -- A write within the vector sets that value and yields it; only the storage object changes.
  pub value_vector_set-set :
      (index x : ℕ)
      → index < length xs
      → (s' : Runtime) × (value_vector_set value index x s ≡ ok (x, s'))
        × IsHeap s'
        × IsVector s' value (set xs index x)
        × ((a : ℕ) → a ≢ v.header.slot_0 → lookup a s'.objects ≡ lookup a s.objects)
  unfolding value_vector_set
  value_vector_set-set index x inside =
      let within : leb v.header.length index ≡ false = ground (arith, v.size) in
      let s' = item_written index x in
      (
        s',
        rw (
          expect_vector_lem,
          load-found s value header_found,
          within,
          vector_storage_lem,
          write_item_lem index x (omega (arith, length-items)),
        ),
        IsHeap-item_written index x,
        record {
          header = v.header;
          held = rw (lookup-item_written index x value, storage-ne-header) v.held;
          kind = v.kind;
          size = v.size ∙ sym (length-set xs index x);
          storage = record v.storage { items = set v.storage.items index x };
          stored = ground (arith, lookup-item_written index x v.header.slot_0);
          storage_kind = v.storage_kind;
          rest = v.rest;
          items = ap (λ l. set l index x) v.items ∙ set-append xs v.rest index x inside;
          capacity = v.capacity ∙ sym (length-set v.storage.items index x);
        },
        λ a other. ground (arith, lookup-item_written index x a),
      )

  -- A write past the end aborts.
  value_vector_set-abort :
      (index x : ℕ) → length xs ≤ index → value_vector_set value index x s ≡ abort
  unfolding value_vector_set
  value_vector_set-abort index x past =
      let outside : leb v.header.length index ≡ true = ground (arith, v.size) in
      rw (expect_vector_lem, load-found s value header_found, outside)
