-- ===== src/Toolchain/Roots/Answer.antt =====
-- input_runtime_roots on a host that serves every request, where nm prints the undefined symbols of
-- its input.
use portable_systems_lisp.Base.{
  ℕ, zero, suc, ◌≡◌, ◌⊎◌, ◌↔◌, refl, sym, ◌∙◌, ap, Bool, true, false, some, List, [], ◌∷◌, ◌++◌,
  map, if◌then◌else◌, length, All, inl, inr, arith,
}
use portable_systems_lisp.Base.Bits.{bit}
use portable_systems_lisp.Toolchain.Tools.{target_nm}
use portable_systems_lisp.Toolchain.Actions.{Action, System, Run}
use portable_systems_lisp.Toolchain.Symbols.{
  Scan, found, unknown, out_of_rounds, scan_symbol, then_scan, scan,
}
use portable_systems_lisp.Toolchain.Symbols.Wanted.{Asked, Homeless, wanted_lem}
use portable_systems_lisp.Toolchain.Symbols.Printed.{
  IsName, nm_text, wanted, scan-wanted, then_scan-ap,
}
use portable_systems_lisp.Toolchain.Roots.{
  nm_arguments, read_symbols, scan_input, then_run, scan_inputs, roots_of, input_runtime_roots,
  no_roots,
}

wanted-append :
    (xs ys : List (List ℕ)) (roots : ℕ)
    → wanted roots (xs ++ ys) ≡ then_scan (wanted roots xs) (λ more. wanted more ys)
wanted-append [] ys roots = refl
wanted-append (x ∷ xs) ys roots =
    then_scan-ap (scan_symbol roots x) _ _ (λ m. wanted-append xs ys m)
    ∙ regroup (scan_symbol roots x) (λ m. wanted m xs) (λ m. wanted m ys)
  where
    regroup :
        (r : Scan) (f g : ℕ → Scan)
        → then_scan r (λ m. then_scan (f m) g) ≡ then_scan (then_scan r f) g
    regroup (found roots) f g = refl
    regroup unknown f g = refl
    regroup out_of_rounds f g = refl

then_run-then_scan :
    (r : Scan) (k : ℕ → Run Scan) (f : ℕ → Scan) (h : List Action)
    → ((m : ℕ) → (k m h).0 ≡ f m)
    → (then_run r k h).0 ≡ then_scan r f
then_run-then_scan (found roots) k f h same = same roots
then_run-then_scan unknown k f h same = refl
then_run-then_scan out_of_rounds k f h same = refl

module _ (sys : System) (undefined : List ℕ → List (List ℕ))
    (serves : (h : List Action) (a : Action) → sys.succeeds h a ≡ true)
    (prints : (h : List Action) (nm input : List ℕ)
      → sys.prints h (nm_arguments nm input) ≡ nm_text (undefined input)) where
  -- The symbols of all inputs.
  abbrev pub undefined_in : List (List ℕ) → List (List ℕ)
  undefined_in [] = []
  undefined_in (input ∷ inputs) = undefined input ++ undefined_in inputs

  read_symbols-served :
      (tool : List (List ℕ)) (roots : ℕ) (h : List Action)
      → (read_symbols sys tool roots h).0
        ≡ scan (length (sys.prints h tool)) roots (sys.prints h tool)
  unfolding read_symbols
  read_symbols-served tool roots h =
      let text = sys.prints h tool in
      let exited = sys.succeeds (Action.close_stream ∷ h) Action.wait in
      kept (scan (length text) roots text) exited (serves (Action.close_stream ∷ h) Action.wait)
    where
      kept :
          (r : Scan) (exited : Bool)
          → exited ≡ true
          → (elim r as (λ _. Scan × List Action) [
            | found more ↦
                if exited
                then (found more, Action.wait ∷ Action.close_stream ∷ h)
                else (unknown, Action.wait ∷ Action.close_stream ∷ h)
            | unknown ↦ (unknown, Action.wait ∷ Action.close_stream ∷ h)
            | out_of_rounds ↦ (out_of_rounds, Action.wait ∷ Action.close_stream ∷ h)
          ]).0
            ≡ r
      kept (found more) true e = refl
      kept (found more) false e = cc
      kept unknown exited e = refl
      kept out_of_rounds exited e = refl

  scan_input-served :
      (nm : List ℕ) (roots : ℕ) (input : List ℕ) (h : List Action)
      → All IsName (undefined input)
      → (scan_input sys nm roots input h).0 ≡ wanted roots (undefined input)
  unfolding scan_input
  scan_input-served nm roots input h names =
      let tool = nm_arguments nm input in
      let h₃ = Action.close_end true ∷ Action.fork tool ∷ Action.pipe ∷ h in
      let h₄ = Action.open_stream ∷ h₃ in
      rw
        (
          serves h Action.pipe,
          serves (Action.pipe ∷ h) (Action.fork tool),
          serves h₃ Action.open_stream,
          read_symbols-served tool roots h₄,
          prints h₄ nm input,
        )
        (scan-wanted (undefined input) (length (nm_text (undefined input))) roots names
          (omega arith))

  scan_inputs-served :
      (nm : List ℕ) (inputs : List (List ℕ)) (roots : ℕ) (h : List Action)
      → All (λ input. All IsName (undefined input)) inputs
      → (scan_inputs sys nm roots (map some inputs) h).0 ≡ wanted roots (undefined_in inputs)
  unfolding scan_inputs
  scan_inputs-served nm [] roots h names = refl
  scan_inputs-served nm (input ∷ inputs) roots h names =
      let (one, h₁) = scan_input sys nm roots input h in
      then_run-then_scan one (λ more. scan_inputs sys nm more (map some inputs))
        (λ more. wanted more (undefined_in inputs)) h₁
        (λ more. scan_inputs-served nm inputs more h₁ names.1)
      ∙ ap (λ r. then_scan r (λ more. wanted more (undefined_in inputs)))
          (scan_input-served nm roots input h names.0)
      ∙ sym (wanted-append (undefined input) (undefined_in inputs) roots)

  -- Where nm is there and serves every input, the answer is UINT64_MAX if some undefined runtime
  -- symbol has no module, and otherwise the set of exactly the modules that the symbols ask for.
  pub input_runtime_roots_lem :
      (target : ℕ) (nm : List ℕ) (inputs : List (List ℕ)) (h : List Action)
      → target_nm target ≡ some nm
      → All (λ input. All IsName (undefined input)) inputs
      → let roots = (input_runtime_roots sys target (map some inputs) h).0 in
        (Homeless (undefined_in inputs) × (roots ≡ no_roots))
        ⊎ (¬ Homeless (undefined_in inputs)
            × ((i : ℕ) → (bit i roots ≡ 1) ↔ Asked i (undefined_in inputs)))
  unfolding input_runtime_roots
  input_runtime_roots_lem target nm inputs h e names =
      let names_of = undefined_in inputs in
      rw (e, input_runtime_roots, scan_inputs-served nm inputs 0 h names)
        (elim (wanted_lem names_of 0) [
          | inl (none_there, failed) ↦ inl (none_there, ap roots_of failed)
          | inr (all_there, (m, answer, bits)) ↦ inr (
            all_there,
            rw answer (λ i. (
              λ b. elim ((bits i).0 b) [ inl nothing ↦ absurd (zero_bit i nothing) | inr a ↦ a ],
              λ a. (bits i).1 (inr a),
            )),
          )
        ])
    where
      zero_bit : (i : ℕ) → bit i 0 ≡ 1 → ⊥
      zero_bit zero h = omega arith
      zero_bit (suc i) h = zero_bit i h
