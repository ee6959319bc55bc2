-- ===== src/Text/Laws.antt =====
-- Strings as lists of bytes: length, reads, writes and comparison against that view.
use portable_systems_lisp.Base.{
  get_elem?-append, get_elem?-lt, get_elem?-ge, set-append, ℕ, ◌≤◌, ◌<◌, ◌≡◌, ◌↔◌, refl, sym, ◌∙◌,
  Bool, true, false, ◌||◌, none, some, List, [], ◌∷◌, ◌++◌, ◌==◌, if◌then◌else◌, ltb, leb, arith,
  length, length-append, get_elem?, set, inl, inr, Bool-cases, ap, length-set,
}
use portable_systems_lisp.Outcome.{ok, abort}
use portable_systems_lisp.Machine.{Kind, Object, Runtime, lookup, update, find_object}
use portable_systems_lisp.Machine.Objects.{lookup-update, modify_lem}
use portable_systems_lisp.Gc.Reach.{IsHeap}
use portable_systems_lisp.Gc.Expect.{find_object-held, expect_object_lem, load-found, read_found}
use portable_systems_lisp.Frames.Construct.{IsHeap-update}
use portable_systems_lisp.Text.{
  string_length, string_byte, string_set_byte, same_bytes, strings_equal,
}

-- The value denotes a string of the bytes `bs`.
pub record IsString (s : Runtime) (value : ℕ) (bs : List ℕ) : Type 0 where
  pub object : Object
  pub held : lookup value s.objects ≡ some object
  pub kind : object.kind ≡ Kind.string
  pub size : object.length ≡ length bs
  pub rest : List ℕ
  pub bytes : object.bytes ≡ bs ++ rest

same_bytes_lem :
    (xs ys us vs : List ℕ)
    → length xs ≡ length ys
    → (same_bytes (length xs) (xs ++ us) (ys ++ vs) ≡ true) ↔ (xs ≡ ys)
unfolding same_bytes
same_bytes_lem [] [] us vs e = (λ _. refl, λ _. refl)
same_bytes_lem [] (y ∷ ys) us vs e = absurd (omega arith)
same_bytes_lem (x ∷ xs) [] us vs e = absurd (omega arith)
same_bytes_lem (x ∷ xs) (y ∷ ys) us vs e = ground (arith, same_bytes_lem xs ys us vs)

module _ (s : Runtime) (h : IsHeap s) (value : ℕ) (bs : List ℕ) (v : IsString s value bs) where
  found : find_object value s.objects ≡ some v.object
  found = find_object-held h value v.held

  -- The length is that of the byte list, and a read yields the byte at the index or aborts past the
  -- end; neither changes the state nor touches the byte behind the last.
  pub string_reads :
      (index : ℕ)
      → (string_length value s ≡ ok (length bs, s))
        × (string_byte value index s
            ≡ elim (get_elem? bs index) [ none ↦ abort | some b ↦ ok (b, s) ])
  unfolding string_length string_byte
  string_reads index = (
    read_found s value found v.kind (λ o. o.length) ∙ rw v.size,
    elim (Bool-cases (leb v.object.length index)) [
      | inl past ↦
          let out = get_elem?-ge bs index (ground (arith, v.size)) in
          rw (expect_object_lem s value found v.kind, load-found s value found, past, out)
      | inr within ↦
          let below : index < length bs = ground (arith, v.size) in
          let (b, at) = get_elem?-lt bs index below in
          rw (
            expect_object_lem s value found v.kind,
            load-found s value found,
            within,
            v.bytes,
            get_elem?-append bs v.rest index below,
            at,
          )
    ],
  )

  -- A write within the string sets that byte and nothing else: the other fields of the object and the
  -- bytes behind the string, its terminator among them, stay as they were, and so do all other objects
  -- and the state outside the heap; the heap is still well formed.
  pub string_set_byte-set :
      (index byte : ℕ)
      → index < length bs
      → (s' : Runtime) × (string_set_byte value index byte s ≡ ok (tt, s'))
        × IsHeap s'
        × IsString s' value (set bs index byte)
        × (lookup value s'.objects ≡ some (record v.object { bytes = set bs index byte ++ v.rest }))
        × (s' ≡ record s { objects = s'.objects })
        × ((a : ℕ)
            → lookup a s'.objects
              ≡ (if value == a then lookup value s'.objects else lookup a s.objects))
  unfolding string_set_byte
  string_set_byte-set index byte inside =
      let g = λ (o : Object). record o { bytes = set o.bytes index byte } in
      let s' : Runtime = record s { objects = update value g s.objects } in
      let within : leb v.object.length index ≡ false = ground (arith, v.size) in
      let allocated : leb (length v.object.bytes) index ≡ false =
        ground (arith, ap length v.bytes, length-append bs v.rest) in
      let after = λ (a : ℕ). lookup-update g (λ o. refl) value a s.objects in
      let here : lookup value s'.objects ≡ some (g v.object) =
        ground (arith, after value, v.held) in
      let written : set v.object.bytes index byte ≡ set bs index byte ++ v.rest =
        ap (λ l. set l index byte) v.bytes ∙ set-append bs v.rest index byte inside in
      (
        s',
        rw (
          expect_object_lem s value found v.kind,
          load-found s value found,
          within,
          allocated,
          modify_lem value g s v.object v.held,
        ),
        IsHeap-update g value s v.object (record { address = λ o. refl; marked = λ o. refl }) v.held
            (
              λ e. cc (e, v.kind),
              λ e. omega (
                arith,
                length-set v.object.bytes index byte,
                ap length v.bytes,
                length-append bs v.rest,
                v.size,
              ),
            )
            h,
        record {
          object = g v.object;
          held = here;
          kind = v.kind;
          size = v.size ∙ sym (length-set bs index byte);
          rest = v.rest;
          bytes = written;
        },
        here ∙ ap (λ l. some (record v.object { bytes = l })) written,
        refl,
        λ a. ground (arith, after a, here, v.held, ap (λ x. lookup x s'.objects)),
      )

  -- A write past the end aborts.
  pub string_set_byte-abort :
      (index byte : ℕ) → length bs ≤ index → string_set_byte value index byte s ≡ abort
  unfolding string_set_byte
  string_set_byte-abort index byte past =
      let outside : leb v.object.length index ≡ true = ground (arith, v.size) in
      rw (expect_object_lem s value found v.kind, load-found s value found, outside)

-- Comparison answers whether the two strings have the same bytes, and reads within both.
pub strings_equal_lem :
    (s : Runtime) (left right : ℕ) (bs cs : List ℕ)
    → IsHeap s
    → IsString s left bs
    → IsString s right cs
    → (same : Bool) × (strings_equal left right s ≡ ok (same, s)) × ((same ≡ true) ↔ (bs ≡ cs))
unfolding strings_equal
strings_equal_lem s left right bs cs h x y =
    let fx = find_object-held h left x.held in
    let fy = find_object-held h right y.held in
    elim (Bool-cases (x.object.length == y.object.length)) [
      | inr differ ↦ (
        false,
        rw (
          expect_object_lem s left fx x.kind,
          expect_object_lem s right fy y.kind,
          load-found s left fx,
          load-found s right fy,
          differ,
        ),
        (λ e. cc, λ e. let sizes = ap length e in absurd (ground (arith, x.size, y.size))),
      )
      | inl agree ↦
          let sizes : length bs ≡ length cs = ground (arith, x.size, y.size) in
          let fits : (ltb (length x.object.bytes) x.object.length
                || ltb (length y.object.bytes) x.object.length)
              ≡ false =
            ground (
              arith,
              x.size,
              y.size,
              ap length x.bytes,
              ap length y.bytes,
              length-append bs x.rest,
              length-append cs y.rest,
            ) in
          (
            same_bytes (length bs) (bs ++ x.rest) (cs ++ y.rest),
            rw (
              expect_object_lem s left fx x.kind,
              expect_object_lem s right fy y.kind,
              load-found s left fx,
              load-found s right fy,
              agree,
              fits,
              x.size,
              x.bytes,
              y.bytes,
            ),
            same_bytes_lem bs cs x.rest y.rest sizes,
          )
    ]
