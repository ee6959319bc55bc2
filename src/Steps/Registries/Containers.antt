-- ===== src/Steps/Registries/Containers.antt =====
-- The containers and the registries: value vectors and the interning of symbols.
use portable_systems_lisp.Base.{ℕ, zero, suc, ◌+◌, Bool, Option, none, some, [], ◌∷◌, ◌==◌, ltb}
use portable_systems_lisp.Machine.{size_max, ◌>>=◌, Kind, Runtime, Host}
use portable_systems_lisp.Machine.Leaves.{
  ended, unended, Leaves, Same-refl, Leaves-reads, Leaves-bind, Leaves-if, Leaves-pure,
  Leaves-aborts, Leaves-load, Leaves-expect, Leaves-any,
}
use portable_systems_lisp.Frames.{Frame}
use portable_systems_lisp.Symbols.{find_symbol, intern_new, after_search, intern_symbol}
use portable_systems_lisp.Value.{nil}
use portable_systems_lisp.Text.{strings_equal}
use portable_systems_lisp.Vector.{
  vector_storage_bytes, grown_capacity, make_storage, expect_vector, vector_storage, read,
  make_value_vector, write_item, value_vector_set, copy_items, grow_vector, value_vector_push,
}
use portable_systems_lisp.Steps.Registries.{
  heap_rules, Leaves-lift, Leaves-open_frame, Leaves-make_symbol,
}

Leaves-make_storage : (host : Host) (capacity : ℕ) → Leaves (make_storage host capacity)
unfolding make_storage
Leaves-make_storage host capacity =
    Leaves-bind (Leaves-lift (vector_storage_bytes capacity)) (λ n. search heap_rules depth 16)

Leaves-read : (a : ℕ) → Leaves (read a)
unfolding read
Leaves-read a = record { leaves = λ s. ended (s.memory a) s (Same-refl s) }

Leaves-vector_storage : (vector : ℕ) → Leaves (vector_storage vector)
unfolding vector_storage
Leaves-vector_storage vector = search heap_rules

Leaves-write_item : (storage index v : ℕ) → Leaves (write_item storage index v)
unfolding write_item
Leaves-write_item storage index v = search heap_rules

ruleset vector_rules =
    (heap_rules, Leaves-make_storage, Leaves-read, Leaves-vector_storage, Leaves-write_item)

pub Leaves-make_value_vector :
    (host host' : Host) (f : Frame) (size initial : ℕ)
    → Leaves (make_value_vector host host' f size initial)
unfolding make_value_vector
Leaves-make_value_vector host host' f size initial = search vector_rules depth 20

pub Leaves-value_vector_set : (value index item : ℕ) → Leaves (value_vector_set value index item)
unfolding value_vector_set expect_vector
Leaves-value_vector_set value index item = search vector_rules depth 16

Leaves-copy_items : (to from n : ℕ) → Leaves (copy_items to from n)
unfolding copy_items
Leaves-copy_items to from n = search heap_rules depth 16

Leaves-grow_vector : (host : Host) (values required : ℕ) → Leaves (grow_vector host values required)
unfolding grow_vector expect_vector
Leaves-grow_vector host values required = Leaves-bind (Leaves-read values) λ value.
    Leaves-bind (Leaves-expect value (some Kind.value_vector)) λ vector.
      Leaves-bind (Leaves-vector_storage vector) λ old_storage.
        Leaves-bind (Leaves-load old_storage) λ old.
          Leaves-bind (Leaves-lift (grown_capacity old.length required))
            λ capacity. search (vector_rules, Leaves-copy_items) depth 24

pub Leaves-value_vector_push :
    (host : Host) (f : Frame) (value item : ℕ) → Leaves (value_vector_push host f value item)
unfolding value_vector_push expect_vector
Leaves-value_vector_push host f value item =
    Leaves-bind (Leaves-open_frame f (value ∷ item ∷ [])) λ _.
      Leaves-bind (Leaves-read f.values) λ v.
        Leaves-bind (Leaves-expect v (some Kind.value_vector)) λ vector.
          Leaves-bind (Leaves-load vector) λ o. Leaves-if (o.length == size_max) Leaves-aborts (
            Leaves-bind (Leaves-vector_storage vector) λ storage.
              Leaves-bind (Leaves-load storage) λ current.
                Leaves-bind
                  (Leaves-if (ltb current.length (o.length + 1))
                    (Leaves-grow_vector host f.values (o.length + 1)) Leaves-pure)
                  λ _. search vector_rules depth 24)

Leaves-strings_equal : (left right : ℕ) → Leaves (strings_equal left right)
unfolding strings_equal
Leaves-strings_equal left right = search heap_rules depth 16

Leaves-find_symbol : (fuel current name : ℕ) → Leaves (find_symbol fuel current name)
unfolding find_symbol
Leaves-find_symbol zero current name = Leaves-any (find_symbol zero current name) (λ s. unended)
Leaves-find_symbol (suc fuel) current name = Leaves-if (current == nil) Leaves-pure (
    Leaves-bind (Leaves-expect current (some Kind.symbol)) λ p.
      Leaves-bind (Leaves-load p) λ symbol.
        Leaves-bind (Leaves-strings_equal symbol.slot_0 name)
          λ same. Leaves-if same Leaves-pure (Leaves-find_symbol fuel symbol.slot_2 name))

Leaves-after_search :
    (host : Host) (f g : Frame) (owner name : ℕ) (precise : Bool) (found : Option ℕ)
    → Leaves (after_search host f g owner name precise found)
unfolding intern_new
Leaves-after_search host f g owner name precise none =
    search (heap_rules, Leaves-make_symbol) depth 24
Leaves-after_search host f g owner name precise (some current) = Leaves-pure

pub Leaves-intern_symbol :
    (host : Host) (f g : Frame) (owner name : ℕ) (precise : Bool)
    → Leaves (intern_symbol host f g owner name precise)
unfolding intern_symbol
Leaves-intern_symbol host f g owner name precise =
    Leaves-bind (Leaves-expect owner (some Kind.package_object)) λ p.
      Leaves-bind (Leaves-expect name (some Kind.string)) λ _. Leaves-bind (Leaves-load p) λ pack.
        let search_it = λ (s : Runtime). (do
          found ← find_symbol (s.object_count + 1) pack.slot_1 name
          after_search host f g owner name precise found) in
        let searched : Leaves (λ s. search_it s s) = Leaves-reads search_it (λ s.
          Leaves-bind (Leaves-find_symbol (s.object_count + 1) pack.slot_1 name)
            (Leaves-after_search host f g owner name precise)) in
        searched
