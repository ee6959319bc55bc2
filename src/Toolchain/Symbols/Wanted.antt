-- ===== src/Toolchain/Symbols/Wanted.antt =====
-- The modules that undefined symbols ask for, as a set of bits, for input_runtime_roots.
use portable_systems_lisp.Base.{
  ℕ, ◌≡◌, ◌⊎◌, ◌↔◌, refl, true, List, [], ◌∷◌, ◌==◌, inl, inr, Bool-cases, arith, bit_or,
}
use portable_systems_lisp.Base.Bits.{bit, bit-bit_or}
use portable_systems_lisp.Toolchain.Modules.{runtime_symbol_module}
use portable_systems_lisp.Toolchain.Symbols.{runtime_symbol, found, unknown, scan_symbol}
use portable_systems_lisp.Toolchain.Symbols.Printed.{wanted}

-- Some name asks for the module with the bit of weight 2 ^ i.
abbrev pub Asked : ℕ → List (List ℕ) → Type 0
Asked i [] = ⊥
Asked i (name ∷ names) =
    ((runtime_symbol name ≡ true) × (bit i (runtime_symbol_module name) ≡ 1)) ⊎ Asked i names

-- Some name is that of a runtime symbol without a module.
abbrev pub Homeless : List (List ℕ) → Type 0
Homeless [] = ⊥
Homeless (name ∷ names) =
    ((runtime_symbol name ≡ true) × (runtime_symbol_module name ≡ 0)) ⊎ Homeless names

-- The names ask for a set of modules that is united with `roots`, unless one has none.
pub wanted_lem :
    (names : List (List ℕ)) (roots : ℕ)
    → (Homeless names × (wanted roots names ≡ unknown))
      ⊎ (¬ Homeless names
          × ((m : ℕ) × (wanted roots names ≡ found m)
              × ((i : ℕ) → (bit i m ≡ 1) ↔ ((bit i roots ≡ 1) ⊎ Asked i names))))
unfolding scan_symbol
wanted_lem [] roots =
    inr (λ h. h, (roots, refl, λ i. (inl, λ e. elim e [ inl h ↦ h | inr h ↦ absurd h ])))
wanted_lem (name ∷ names) roots = elim (Bool-cases (runtime_symbol name)) [
  | inr other ↦ elim (wanted_lem names roots) [
    | inl (none_there, e) ↦ inl (inr none_there, rw other e)
    | inr (all_there, (m, e, bits)) ↦ inr (
      λ h. elim h [ inl here ↦ cc (here.0, other) | inr there ↦ all_there there ],
      (
        m,
        rw other e,
        λ i. (
          λ b. elim ((bits i).0 b) [ inl r ↦ inl r | inr asked ↦ inr (inr asked) ],
          λ b. elim b [
            | inl r ↦ (bits i).1 (inl r)
            | inr asked ↦ elim asked [
              | inl here ↦ cc (here.0, other)
              | inr there ↦ (bits i).1 (inr there)
            ]
          ],
        ),
      ),
    )
  ]
  | inl runtime ↦ elim (Bool-cases (runtime_symbol_module name == 0)) [
    | inl missing ↦ inl (inl (runtime, ground arith), rw (runtime, missing))
    | inr module_there ↦
        let more = bit_or roots (runtime_symbol_module name) in
        elim (wanted_lem names more) [
          | inl (none_there, e) ↦ inl (inr none_there, rw (runtime, module_there) e)
          | inr (all_there, (m, e, bits)) ↦ inr (
            λ h. elim h [
              | inl here ↦ absurd (ground (arith, here.1))
              | inr there ↦ all_there there
            ],
            (
              m,
              rw (runtime, module_there) e,
              λ i.
                  let either = bit-bit_or i roots (runtime_symbol_module name) in
                  (
                    λ b. elim ((bits i).0 b) [
                      | inl r ↦ elim (either.0 r) [
                        | inl old ↦ inl old
                        | inr new ↦ inr (inl (runtime, new))
                      ]
                      | inr asked ↦ inr (inr asked)
                    ],
                    λ b. elim b [
                      | inl r ↦ (bits i).1 (inl (either.1 (inl r)))
                      | inr asked ↦ elim asked [
                        | inl here ↦ (bits i).1 (inl (either.1 (inr here.1)))
                        | inr there ↦ (bits i).1 (inr there)
                      ]
                    ],
                  ),
            ),
          )
        ]
  ]
]
