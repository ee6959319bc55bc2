-- ===== src/Toolchain/Modules.antt =====
-- The runtime modules that a program needs: a set of bits, one for each source file of runtime/.
use portable_systems_lisp.Base.{
  ℕ, ◌<◌, ◌≡◌, refl, Bool, true, false, Option, none, some, List, [], ◌∷◌, ◌==◌, ◌&&◌, ltb,
  get_elem?, if◌then◌else◌, is_some, arith, inl, inr, ◌⊎◌, length, Bool-cases,
}
use portable_systems_lisp.Toolchain.Tools.{ascii, x86_64_windows}

-- strcmp(a, b) == 0
unfoldable pub same_text : List ℕ → List ℕ → Bool
same_text [] [] = true
same_text (x ∷ xs) (y ∷ ys) = (x == y) && same_text xs ys
same_text _ _ = false

abbrev pub entries : List (List ℕ × ℕ)
entries =
    (ascii "psl_rt_fixnum", 1)
    ∷ (ascii "psl_rt_unbox_fixnum", 1)
    ∷ (ascii "psl_rt_fixnum_p", 1)
    ∷ (ascii "psl_rt_nil_p", 1)
    ∷ (ascii "psl_rt_truthy", 1)
    ∷ (ascii "psl_rt_eq", 1)
    ∷ (ascii "psl_rt_cons", 2)
    ∷ (ascii "psl_rt_cons_precise", 2)
    ∷ (ascii "psl_rt_car", 2)
    ∷ (ascii "psl_rt_cdr", 2)
    ∷ (ascii "psl_rt_make_string", 4)
    ∷ (ascii "psl_rt_make_string_precise", 4)
    ∷ (ascii "psl_rt_make_string_from_bytes", 4)
    ∷ (ascii "psl_rt_make_string_from_bytes_precise", 4)
    ∷ (ascii "psl_rt_string_length", 4)
    ∷ (ascii "psl_rt_string_byte", 4)
    ∷ (ascii "psl_rt_string_set_byte", 4)
    ∷ (ascii "psl_rt_make_symbol", 8)
    ∷ (ascii "psl_rt_make_symbol_precise", 8)
    ∷ (ascii "psl_rt_symbol_name", 8)
    ∷ (ascii "psl_rt_make_package", 16)
    ∷ (ascii "psl_rt_make_package_precise", 16)
    ∷ (ascii "psl_rt_package_name", 16)
    ∷ (ascii "psl_rt_intern", 16)
    ∷ (ascii "psl_rt_intern_precise", 16)
    ∷ (ascii "psl_rt_make_closure", 32)
    ∷ (ascii "psl_rt_make_closure_precise", 32)
    ∷ (ascii "psl_rt_call_closure", 32)
    ∷ (ascii "psl_rt_values2", 64)
    ∷ (ascii "psl_rt_nth_value", 64)
    ∷ (ascii "psl_rt_value_count", 64)
    ∷ (ascii "psl_rt_collect", 128)
    ∷ (ascii "psl_rt_collect_precise", 128)
    ∷ (ascii "psl_rt_live_objects", 128)
    ∷ (ascii "psl_rt_live_value_handles", 128)
    ∷ (ascii "psl_rt_value_handle_open", 128)
    ∷ (ascii "psl_rt_value_handle_get", 128)
    ∷ (ascii "psl_rt_value_handle_set", 128)
    ∷ (ascii "psl_rt_value_handle_close", 128)
    ∷ (ascii "psl_rt_push_roots", 128)
    ∷ (ascii "psl_rt_pop_roots", 128)
    ∷ (ascii "psl_rt_kind", 128)
    ∷ (ascii "psl_rt_make_value_vector_precise", 1024)
    ∷ (ascii "psl_rt_value_vector_length", 1024)
    ∷ (ascii "psl_rt_value_vector_ref", 1024)
    ∷ (ascii "psl_rt_value_vector_set", 1024)
    ∷ (ascii "psl_rt_value_vector_push_precise", 1024)
    ∷ []

-- The loop of `runtime_symbol_module`. Its test of equal lengths is implied by strcmp.
unfoldable pub find_module : List ℕ → List (List ℕ × ℕ) → ℕ
unfolding same_text
find_module symbol [] = 0
find_module symbol ((prefix, module_bit) ∷ rest) =
    if (length symbol == length prefix) && same_text symbol prefix
    then module_bit
    else find_module symbol rest

unfoldable pub runtime_symbol_module : List ℕ → ℕ
unfolding find_module
runtime_symbol_module symbol = find_module symbol entries

unfoldable pub runtime_filename : ℕ → ℕ → Option (List ℕ)
runtime_filename bit target =
    if bit == 0
    then some (ascii "value.c")
    else if bit == 1
    then some (ascii "cons.c")
    else if bit == 2
    then some (ascii "string.c")
    else if bit == 3
    then some (ascii "symbol.c")
    else if bit == 4
    then some (ascii "package.c")
    else if bit == 5
    then some (ascii "closure.c")
    else if bit == 6
    then some (ascii "values.c")
    else if bit == 7
    then some (ascii "gc.c")
    else if bit == 8
    then some (ascii "startup.c")
    else if bit == 9
    then some
        (if target == x86_64_windows then ascii "platform_windows.c" else ascii "platform_linux.c")
    else if bit == 10
    then some (ascii "vector.c")
    else none

unfoldable pub runtime_bit : ℕ → ℕ
runtime_bit bit =
    elim (get_elem? {A = ℕ} (1 ∷ 2 ∷ 4 ∷ 8 ∷ 16 ∷ 32 ∷ 64 ∷ 128 ∷ 256 ∷ 512 ∷ 1024 ∷ []) bit) [
      | none ↦ 0
      | some value ↦ value
    ]

-- The position of a bit that the table names.
abbrev position : ℕ → ℕ
position m =
    if m == 1
    then 0
    else if m == 2
    then 1
    else if m == 4
    then 2
    else if m == 8
    then 3
    else if m == 16
    then 4
    else if m == 32
    then 5
    else if m == 64
    then 6
    else if m == 128
    then 7
    else 10

-- The bit has a runtime module: one of the eleven positions leads back to it, and has a file on
-- every target.
abbrev pub IsModule : ℕ → Type 0
IsModule m =
    (bit : ℕ) × (bit < 11)
    × (runtime_bit bit ≡ m)
    × ((target : ℕ) → is_some (runtime_filename bit target) ≡ true)

abbrev known : ℕ → Bool
known m = (runtime_bit (position m) == m) && (ltb (position m) 11)

filed : (bit target : ℕ) → bit < 11 → is_some (runtime_filename bit target) ≡ true
unfolding runtime_filename
filed bit target h = ground arith

known-IsModule : (m : ℕ) → known m ≡ true → IsModule m
known-IsModule m h =
    (position m, ground arith, ground arith, λ target. filed (position m) target (ground arith))

abbrev all_known : List (List ℕ × ℕ) → Bool
all_known [] = true
all_known ((prefix, module_bit) ∷ rest) = known module_bit && all_known rest

entries-known : all_known entries ≡ true
unfolding runtime_bit
entries-known = refl

find_module_lem :
    (symbol : List ℕ) (es : List (List ℕ × ℕ))
    → all_known es ≡ true
    → (find_module symbol es ≡ 0) ⊎ IsModule (find_module symbol es)
unfolding find_module
find_module_lem symbol [] h = inl refl
find_module_lem symbol ((prefix, module_bit) ∷ rest) h =
    elim (Bool-cases ((length symbol == length prefix) && same_text symbol prefix)) [
      | inl hit ↦ rw hit (inr (known-IsModule module_bit (ground arith)))
      | inr miss ↦ rw miss (find_module_lem symbol rest (ground arith))
    ]

-- The bit that a runtime symbol asks for is 0, or that of one of the eleven modules, which has a
-- source file on every target: the linker's loop over the modules compiles what the scan asks for.
pub runtime_symbol_module_lem :
    (symbol : List ℕ) → (runtime_symbol_module symbol ≡ 0) ⊎ IsModule (runtime_symbol_module symbol)
unfolding runtime_symbol_module
runtime_symbol_module_lem symbol = find_module_lem symbol entries entries-known
