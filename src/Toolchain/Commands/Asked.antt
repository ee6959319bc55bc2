-- ===== src/Toolchain/Commands/Asked.antt =====
-- The runtime modules that a hosted link compiles and where they are, for the test of their bits and
-- for PSL_RUNTIME_DIR in native_host_link_artifact.
use portable_systems_lisp.Base.{
  Bool-cases, Option-cases, List-cases, ltb, ◌≤◌, ℕ, ◌<◌, ◌^◌, suc, zero, ◌≡◌, refl, true, false,
  ◌==◌, bit_and, if◌then◌else◌, Option, none, List, inl, inr, arith,
}
use portable_systems_lisp.Base.Bits.{bit, bit_and-weight_zero}
use portable_systems_lisp.Toolchain.Modules.{runtime_bit, runtime_filename}
use portable_systems_lisp.Toolchain.Products.{selected_module, runtime_directory_of}
use portable_systems_lisp.Toolchain.Commands.{asked_module, module_directory}
use portable_systems_lisp.Toolchain.Actions.{System}
use portable_systems_lisp.Toolchain.Tools.{ascii}

at_weight :
    (modules index w : ℕ) (name : Option (List ℕ))
    → w ≡ 2 ^ index
    → 0 < w
    → (if bit_and modules w == 0 then none else name)
      ≡ (if bit index modules == 1 then name else none)
at_weight modules index w name e positive =
    elim (bit_and-weight_zero index modules (omega (arith, e))) [
      | inl (empty, off) ↦
          let masked : (bit_and modules w == 0) ≡ true = ground (arith, e, empty) in
          let unset : (bit index modules == 1) ≡ false = ground (arith, off) in
          rw (masked, unset) refl
      | inr (full, on) ↦
          let masked : (bit_and modules w == 0) ≡ false = ground (arith, e, full) in
          let set : (bit index modules == 1) ≡ true = ground (arith, on) in rw (masked, set) refl
    ]

runtime_bit-weight : (index : ℕ) → index < 11 → runtime_bit index ≡ 2 ^ index
unfolding runtime_bit
runtime_bit-weight zero below = refl
runtime_bit-weight (suc zero) below = refl
runtime_bit-weight (suc (suc zero)) below = refl
runtime_bit-weight (suc (suc (suc zero))) below = refl
runtime_bit-weight (suc (suc (suc (suc zero)))) below = refl
runtime_bit-weight (suc (suc (suc (suc (suc zero))))) below = refl
runtime_bit-weight (suc (suc (suc (suc (suc (suc zero)))))) below = refl
runtime_bit-weight (suc (suc (suc (suc (suc (suc (suc zero))))))) below = refl
runtime_bit-weight (suc (suc (suc (suc (suc (suc (suc (suc zero)))))))) below = refl
runtime_bit-weight (suc (suc (suc (suc (suc (suc (suc (suc (suc zero))))))))) below = refl
runtime_bit-weight (suc (suc (suc (suc (suc (suc (suc (suc (suc (suc zero)))))))))) below = refl
runtime_bit-weight (suc (suc (suc (suc (suc (suc (suc (suc (suc (suc (suc n))))))))))) below =
    absurd (omega arith)

runtime_filename-none : (target index : ℕ) → 11 ≤ index → runtime_filename index target ≡ none
unfolding runtime_filename
runtime_filename-none target index beyond = ground arith

weight-positive : (index : ℕ) → index < 11 → 0 < runtime_bit index
unfolding runtime_bit
weight-positive index below = ground arith

-- A module is compiled exactly if its bit is set.
pub selected_module_lem :
    (modules target index : ℕ)
    → selected_module modules target index ≡ asked_module modules target index
unfolding selected_module
selected_module_lem modules target index = elim (Bool-cases (ltb index 11)) [
  | inl listed ↦
      let below : index < 11 = ground arith in
      at_weight modules index (runtime_bit index) (runtime_filename index target)
        (runtime_bit-weight index below) (weight-positive index below)
  | inr unlisted ↦
      let beyond : 11 ≤ index = ground arith in
      let unnamed = runtime_filename-none target index beyond in rw unnamed (ground arith)
]

pub runtime_directory_of_lem : (sys : System) → runtime_directory_of sys ≡ module_directory sys
runtime_directory_of_lem sys = elim (Option-cases (sys.getenv (ascii "PSL_RUNTIME_DIR"))) [
  | inl unset ↦ rw (unset, runtime_directory_of) refl
  | inr (directory, there) ↦ elim (List-cases directory) [
    | inl nothing ↦ rw (there, nothing, runtime_directory_of) refl
    | inr (byte, rest, e) ↦ rw (there, e, runtime_directory_of) refl
  ]
]
