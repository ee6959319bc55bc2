-- ===== src/Toolchain/Roots/Bounds.antt =====
-- The range of native_host_runtime_roots: a set of the eleven modules, or UINT64_MAX.
use portable_systems_lisp.Base.{
  ℕ, ◌-◌, ◌*◌, ◌^◌, ◌<◌, ◌≡◌, ◌⊎◌, refl, Bool, false, not, ◌&&◌, ◌||◌, Option, List, ◌∷◌, ◌==◌,
  length, inl, inr, Bool-cases, Option-cases, arith, bit_or, bit_and,
}
use portable_systems_lisp.Base.Bits.{bit_or-lt, bit_and-high}
use portable_systems_lisp.Toolchain.Tools.{target_compiler, target_nm}
use portable_systems_lisp.Toolchain.Actions.{Action, System, compile_sources}
use portable_systems_lisp.Toolchain.Symbols.{Scan, found, unknown, out_of_rounds}
use portable_systems_lisp.Toolchain.Roots.{
  scan_inputs, roots_of, input_runtime_roots, roots_template, source_roots_in, source_runtime_roots,
  runtime_roots, no_roots,
}
use portable_systems_lisp.Toolchain.Roots.Settled.{IsSettled, scan_inputs-IsSettled}

-- UINT64_MAX, or a set of the eleven modules.
abbrev pub IsAnswer : ℕ → Type 0
IsAnswer roots = (roots ≡ no_roots) ⊎ (roots < 2 ^ 11)

roots_of-IsAnswer : (r : Scan) → IsSettled r → IsAnswer (roots_of r)
roots_of-IsAnswer (found roots) settled = inr settled
roots_of-IsAnswer unknown settled = inl refl
roots_of-IsAnswer out_of_rounds settled = absurd settled

input_runtime_roots-IsAnswer :
    (sys : System) (target : ℕ) (inputs : List (Option (List ℕ))) (h : List Action)
    → IsAnswer (input_runtime_roots sys target inputs h).0
unfolding input_runtime_roots
input_runtime_roots-IsAnswer sys target inputs h = elim (Option-cases (target_nm target)) [
  | inl missing ↦ rw (missing, input_runtime_roots) (inl refl)
  | inr (nm, e) ↦
      rw (e, input_runtime_roots)
        (roots_of-IsAnswer (scan_inputs sys nm 0 inputs h).0
          (scan_inputs-IsSettled sys nm inputs 0 h (omega arith)))
]

source_roots_in-IsAnswer :
    (sys : System) (compiler directory : List ℕ) (target : ℕ) (sources : List (List ℕ))
    (h : List Action)
    → IsAnswer (source_roots_in sys compiler directory target sources h).0
unfolding source_roots_in
source_roots_in-IsAnswer sys compiler directory target sources h =
    let array = Action.allocate (length sources * 8) in
    let h₁ = array ∷ h in
    let (compiled, h₃) = compile_sources sys compiler directory target 0 sources (array ∷ h₁) in
    elim (Bool-cases (sys.succeeds h array && sys.succeeds h₁ array)) [
      | inr missing ↦ rw missing (inl refl)
      | inl memory ↦ elim (Bool-cases compiled.0) [
        | inr failed ↦ rw (memory, failed) (inl refl)
        | inl done ↦ rw (memory, done) (input_runtime_roots-IsAnswer sys target compiled.1 h₃)
      ]
    ]

source_runtime_roots-IsAnswer :
    (sys : System) (target : ℕ) (sources : List (List ℕ)) (h : List Action)
    → IsAnswer (source_runtime_roots sys target sources h).0
unfolding source_runtime_roots
source_runtime_roots-IsAnswer sys target sources h =
    let make = Action.make_directory roots_template in
    elim (Bool-cases (length sources == 0)) [
      | inl nothing ↦ rw nothing (inr (omega arith))
      | inr some_left ↦ elim (Option-cases (target_compiler target)) [
        | inl missing ↦ rw (some_left, missing, source_runtime_roots) (inl refl)
        | inr (compiler, e) ↦ elim (Bool-cases (sys.succeeds h make)) [
          | inr refused ↦ rw (some_left, e, source_runtime_roots, refused) (inl refl)
          | inl made ↦
              rw (some_left, e, source_runtime_roots, made)
                (source_roots_in-IsAnswer sys compiler (sys.temporary h roots_template) target
                  sources (make ∷ h))
        ]
      ]
    ]

-- Whatever the host answers and prints, the search for the modules yields UINT64_MAX or a set of the
-- eleven modules, which passes the test that a link makes of the modules that it is given.
pub runtime_roots-IsAnswer :
    (sys : System) (target : ℕ) (sources : List (List ℕ)) (inputs : List (Option (List ℕ)))
    (has_inputs : Bool) (h : List Action)
    → let roots = (runtime_roots sys target sources inputs has_inputs h).0 in
      (roots ≡ no_roots) ⊎ ((roots < 2 ^ 11) × (bit_and roots (2 ^ 64 - 2 ^ 11) ≡ 0))
unfolding runtime_roots
runtime_roots-IsAnswer sys target sources inputs has_inputs h =
    let (roots, h₁) = source_runtime_roots sys target sources h in
    let (more, h₂) = input_runtime_roots sys target inputs h₁ in
    let stopped = (roots == no_roots) || (not (length inputs == 0) && not has_inputs) in
    elim (Bool-cases stopped) [
      | inl end ↦ rw end (inl refl)
      | inr on ↦ elim (Bool-cases (more == no_roots)) [
        | inl unknown_too ↦ rw (on, unknown_too) (inl refl)
        | inr known ↦
            let small =
              small_answer roots (source_runtime_roots-IsAnswer sys target sources h)
                (ground arith) in
            let small' =
              small_answer more (input_runtime_roots-IsAnswer sys target inputs h₁) known in
            let below = bit_or-lt 11 roots more small small' in
            rw (on, known) (inr (below, bit_and-high 11 (bit_or roots more) (2 ^ 53 - 1) below))
      ]
    ]
  where
    small_answer : (n : ℕ) → IsAnswer n → (n == no_roots) ≡ false → n < 2 ^ 11
    small_answer n answer known = ground (arith, answer)
