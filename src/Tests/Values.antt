-- ===== src/Tests/Values.antt =====
-- Fixnums, handles, multiple values and capacities at concrete inputs.
use portable_systems_lisp.Base.{
  ℕ, ◌+◌, ◌*◌, ◌≡◌, ◌≤◌, ◌<◌, refl, true, none, some, arith, inr, ◌⊎◌, ◌==◌, if◌then◌else◌, ltb,
  Memᴰ, is_some,
}
use portable_systems_lisp.Base.Int.{ℤ, negsuc}
use portable_systems_lisp.Outcome.{ok, abort, ◌>>=◌}
use portable_systems_lisp.Value.{nil, fixnum, fixnum_p, unbox_fixnum, pointer_p}
use portable_systems_lisp.Value.Fixnum.{IsFixnum, unbox_fixnum-fixnum, fixnum-unbox_fixnum}
use portable_systems_lisp.Machine.{size_max, Runtime}
use portable_systems_lisp.Gc.Reach.{root_words}
use portable_systems_lisp.Handles.{
  find_handle, value_handle_open, value_handle_get, value_handle_set, value_handle_close,
}
use portable_systems_lisp.Handles.Registry.{IsRegistry, value_of}
use portable_systems_lisp.Handles.Tokens.{
  value_handle_open_lem, value_handle_get_lem, HandleSet, value_handle_set_lem,
  value_handle_close_lem,
}
use portable_systems_lisp.Multiple.{values2, nth_value, value_count}
use portable_systems_lisp.Multiple.Laws.{IsRegistered, values2_lem}
use portable_systems_lisp.Vector.{grown_capacity}
use portable_systems_lisp.Vector.Capacity.{first_capacity, capacity_limit, grown_capacity_lem}
use portable_systems_lisp.Tests.Sample.{sample, host}

minus_seven : fixnum (negsuc 6) ≡ ok 0xffff_ffff_ffff_fff3
unfolding fixnum
minus_seven = refl

unbox_fixnum-fixnum_example : (fixnum (negsuc 6) >>= unbox_fixnum) ≡ ok (negsuc 6)
unbox_fixnum-fixnum_example = unbox_fixnum-fixnum (negsuc 6) (omega arith)

seven_tagged : fixnum_p 7 ≡ true
unfolding fixnum_p
seven_tagged = refl

fixnum-unbox_fixnum_example : (n : ℤ) × (unbox_fixnum 7 ≡ ok n) × IsFixnum n × (fixnum n ≡ ok 7)
fixnum-unbox_fixnum_example = fixnum-unbox_fixnum 7 (omega arith) seven_tagged

address_passes : pointer_p 64 ≡ true
unfolding pointer_p
address_passes = refl

sample-IsRegistry : IsRegistry sample
unfolding find_handle
sample-IsRegistry = record {
  distinct = (refl, tt);
  issued = omega arith;
  next = omega arith;
  counted = refl;
}

token_open : is_some (find_handle 1 sample.value_handles) ≡ true
unfolding find_handle
token_open = refl

value_handle_open_lem_example :
    (s' : Runtime) × (value_handle_open host sample ≡ ok (2, s'))
    × IsRegistry s'
    × (value_of sample.value_handles 2 ≡ none)
    × ((j : ℕ)
        → value_of s'.value_handles j
          ≡ (if 2 == j then some nil else value_of sample.value_handles j))
    × (s'.next_value_handle ≡ 2 + 1)
value_handle_open_lem_example =
    value_handle_open_lem host sample refl (omega arith) sample-IsRegistry

value_handle_get_lem_example :
    value_handle_get 1 sample
    ≡ elim (value_of sample.value_handles 1) [ none ↦ abort | some v ↦ ok (v, sample) ]
value_handle_get_lem_example = value_handle_get_lem 1 sample sample-IsRegistry

value_handle_set_lem_example :
    ((value_of sample.value_handles 1 ≡ none) × (value_handle_set 1 8 sample ≡ abort))
    ⊎ ((is_some (value_of sample.value_handles 1) ≡ true)
        × ((s' : Runtime) × (value_handle_set 1 8 sample ≡ ok (tt, s')) × HandleSet sample s' 1 8))
value_handle_set_lem_example = value_handle_set_lem 1 8 sample sample-IsRegistry

value_handle_close_lem_example :
    (s' : Runtime) × (value_handle_close 1 sample ≡ ok (tt, s'))
    × IsRegistry s'
    × ((j : ℕ)
        → value_of s'.value_handles j ≡ (if 1 == j then none else value_of sample.value_handles j))
    × (s'.value_handle_count + 1 ≡ 1)
    × (s'.next_value_handle ≡ 2)
value_handle_close_lem_example = value_handle_close_lem 1 sample sample-IsRegistry token_open

values2_lem_example :
    (s' : Runtime) × (values2 host 6000 8 16 sample ≡ ok (8, s'))
    × ((index : ℕ)
        → nth_value index s' ≡ ok ((if index == 0 then 8 else if index == 1 then 16 else nil), s'))
    × (value_count s' ≡ ok (2, s'))
    × Memᴰ 8 (root_words s')
    × Memᴰ 16 (root_words s')
    × IsRegistered s'
    × (s'.objects ≡ sample.objects)
    × (s'.roots ≡ sample.roots)
values2_lem_example = values2_lem host 6000 sample 8 16 (inr refl) (λ e. cc)

doubled : grown_capacity 4 5 ≡ ok 8
unfolding grown_capacity
doubled = refl

grown_capacity_lem_example :
    (n : ℕ) × (5 ≤ n)
    × (n ≤ size_max)
    × (first_capacity 4 ≤ n)
    × ((n ≡ first_capacity 4) ⊎ (n < 2 * 5))
    × (grown_capacity 4 5 ≡ (if ltb capacity_limit n then abort else ok n))
grown_capacity_lem_example = grown_capacity_lem 4 5 (omega arith) (omega arith)
