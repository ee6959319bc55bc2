-- ===== src/Tests/Strings.antt =====
-- The string "hi" of the sample runtime.
use portable_systems_lisp.Base.{
  ◌++◌, ℕ, ◌≡◌, ◌↔◌, refl, Bool, true, false, List, [], ◌∷◌, none, some, arith, get_elem?, set,
  ◌==◌, if◌then◌else◌,
}
use portable_systems_lisp.Outcome.{ok, abort}
use portable_systems_lisp.Machine.{Runtime, lookup}
use portable_systems_lisp.Gc.{make_room}
use portable_systems_lisp.Gc.Reach.{IsHeap}
use portable_systems_lisp.Gc.Reach.{root_words}
use portable_systems_lisp.Gc.Allocate.{Allocated}
use portable_systems_lisp.Text.Copy.{copy_string_bytes_lem}
use portable_systems_lisp.Text.Make.{string_object}
use portable_systems_lisp.Text.{
  copy_string_bytes, string_length, string_byte, string_set_byte, strings_equal,
}
use portable_systems_lisp.Text.Laws.{IsString, string_reads, string_set_byte-set, strings_equal_lem}
use portable_systems_lisp.Tests.Sample.{sample, host, hi, sample-IsHeap}

abbrev bytes : List ℕ
bytes = 104 ∷ 105 ∷ []

hi-IsString : IsString sample 32 bytes
unfolding lookup
hi-IsString = record {
  object = hi;
  held = refl;
  kind = refl;
  size = refl;
  rest = 0 ∷ [];
  bytes = refl;
}

string_reads_example :
    (string_length 32 sample ≡ ok (2, sample))
    × (string_byte 32 1 sample
        ≡ elim (get_elem? bytes 1) [ none ↦ abort | some b ↦ ok (b, sample) ])
string_reads_example = string_reads sample sample-IsHeap 32 bytes hi-IsString 1

string_set_byte-set_example :
    (s' : Runtime) × (string_set_byte 32 1 111 sample ≡ ok (tt, s'))
    × IsHeap s'
    × IsString s' 32 (set bytes 1 111)
    × (lookup 32 s'.objects ≡ some (record hi { bytes = set bytes 1 111 ++ hi-IsString.rest }))
    × (s' ≡ record sample { objects = s'.objects })
    × ((a : ℕ)
        → lookup a s'.objects ≡ (if 32 == a then lookup 32 s'.objects else lookup a sample.objects))
unfolding hi-IsString
string_set_byte-set_example =
    string_set_byte-set sample sample-IsHeap 32 bytes hi-IsString 1 111 (omega arith)

strings_equal_lem_example :
    (same : Bool) × (strings_equal 32 32 sample ≡ ok (same, sample))
    × ((same ≡ true) ↔ (bytes ≡ bytes))
strings_equal_lem_example =
    strings_equal_lem sample 32 32 bytes bytes sample-IsHeap hi-IsString hi-IsString

room : make_room host false sample ≡ ok (tt, sample)
unfolding make_room
room = refl

free : lookup 64 sample.objects ≡ none
unfolding lookup
free = refl

copy_string_bytes_lem_example :
    (s' : Runtime) × (copy_string_bytes host (some (1 ∷ 2 ∷ 3 ∷ [])) 2 true sample ≡ ok (64, s'))
    × Allocated (root_words sample) sample s' 64 (string_object 64 (1 ∷ 2 ∷ []))
copy_string_bytes_lem_example =
    copy_string_bytes_lem host (1 ∷ 2 ∷ 3 ∷ []) 2 true sample (omega arith) (omega arith) refl
      (record {
        ne_null = omega arith;
        aligned = omega arith;
        fresh = λ s₁ e. ground (arith, room, free);
      })
      sample-IsHeap
