-- ===== src/Toolchain/Roots/Children.antt =====
-- The pipes and child processes of the scan of the inputs, for input_runtime_roots.
use portable_systems_lisp.Base.{
  ℕ, ◌+◌, ◌*◌, ◌≡◌, refl, true, false, Option, none, some, List, [], ◌∷◌, if◌then◌else◌, length,
  inl, inr, Bool-cases, Option-cases, arith, ap,
}
use portable_systems_lisp.Toolchain.Tools.{target_nm}
use portable_systems_lisp.Toolchain.Actions.{Action, System, Run}
use portable_systems_lisp.Toolchain.History.{Extends, Extends-weaken, Extends-tally, tally, one_if}
use portable_systems_lisp.Toolchain.Local.{local}
use portable_systems_lisp.Toolchain.Publish.{local-staged, staged-makes, staged-removes}
use portable_systems_lisp.Toolchain.Directories.{made, gone}
use portable_systems_lisp.Toolchain.Symbols.{Scan, found, unknown, out_of_rounds, scan}
use portable_systems_lisp.Toolchain.Roots.{
  nm_arguments, read_symbols, scan_input, then_run, scan_inputs, input_runtime_roots,
}

-- The ends of pipes that are opened and closed, and the children that are started and waited for.
abbrev pub opens : System → List Action → Action → ℕ
opens sys h Action.pipe = one_if (sys.succeeds h Action.pipe) * 2
opens sys h _ = 0

abbrev pub closes : List Action → Action → ℕ
closes h (Action.close_end end_to_write) = 1
closes h Action.close_stream = 1
closes h _ = 0

abbrev pub starts : System → List Action → Action → ℕ
starts sys h (Action.fork tool) = one_if (sys.succeeds h (Action.fork tool))
starts sys h _ = 0

abbrev pub waits : List Action → Action → ℕ
waits h Action.wait = 1
waits h _ = 0

-- Between two histories, as many ends of pipes were closed as opened, and as many children waited
-- for as started, and each directory was removed as often as it was made.
pub record Clean (sys : System) (h h' : List Action) : Type 0 where
  pub pipes : tally (opens sys) h' + tally closes h ≡ tally (opens sys) h + tally closes h'
  pub children : tally (starts sys) h' + tally waits h ≡ tally (starts sys) h + tally waits h'
  pub directories : (d : List ℕ) → made sys d h' + gone sys d h ≡ made sys d h + gone sys d h'

pub Clean-same : (sys : System) (h : List Action) → Clean sys h h
Clean-same sys h = record { pipes = refl; children = refl; directories = λ d. refl }

pub Clean-trans :
    (sys : System) {h h' h'' : List Action} → Clean sys h h' → Clean sys h' h'' → Clean sys h h''
Clean-trans sys first second = record {
  pipes = omega (arith, first.pipes, second.pipes);
  children = omega (arith, first.children, second.children);
  directories = λ d. omega (arith, first.directories d, second.directories d);
}

-- What neither starts nor ends a process.
pub local-Clean : (sys : System) {h h' : List Action} → Extends local h h' → Clean sys h h'
local-Clean sys more = record {
  pipes =
      omega
        (arith, Extends-tally (opens sys) opens-light more, Extends-tally closes closes-light more);
  children =
      omega
        (arith, Extends-tally (starts sys) starts-light more, Extends-tally waits waits-light more);
  directories = λ d.
      let quiet = Extends-weaken local-staged more in
      omega (arith, staged-makes sys d quiet, staged-removes d quiet);
}
  where
    opens-light : (g : List Action) (a : Action) → local a ≡ true → opens sys g a ≡ 0
    opens-light g Action.pipe ok = cc
    opens-light g _ ok = refl

    closes-light : (g : List Action) (a : Action) → local a ≡ true → closes g a ≡ 0
    closes-light g (Action.close_end e) ok = cc
    closes-light g Action.close_stream ok = cc
    closes-light g _ ok = refl

    starts-light : (g : List Action) (a : Action) → local a ≡ true → starts sys g a ≡ 0
    starts-light g (Action.fork tool) ok = cc
    starts-light g _ ok = refl

    waits-light : (g : List Action) (a : Action) → local a ≡ true → waits g a ≡ 0
    waits-light g Action.wait ok = cc
    waits-light g _ ok = refl

read_symbols-history :
    (sys : System) (tool : List (List ℕ)) (roots : ℕ) (h : List Action)
    → (read_symbols sys tool roots h).1 ≡ Action.wait ∷ Action.close_stream ∷ h
unfolding read_symbols
read_symbols-history sys tool roots h =
    let end = Action.close_stream ∷ h in
    elim (scan (length (sys.prints h tool)) roots (sys.prints h tool))
      as (λ r.
        (elim r as (λ _. Scan × List Action) [
          | found more ↦
              if sys.succeeds end Action.wait
              then (found more, Action.wait ∷ end)
              else (unknown, Action.wait ∷ end)
          | unknown ↦ (unknown, Action.wait ∷ end)
          | out_of_rounds ↦ (out_of_rounds, Action.wait ∷ end)
        ]).1
        ≡ Action.wait ∷ end) [
          | found more ↦ elim (Bool-cases (sys.succeeds end Action.wait)) [
            | inl done ↦ rw done
            | inr failed ↦ rw failed
          ]
          | unknown ↦ refl
          | out_of_rounds ↦ refl
        ]

scan_input-Clean :
    (sys : System) (nm : List ℕ) (roots : ℕ) (input : List ℕ) (h : List Action)
    → Clean sys h (scan_input sys nm roots input h).1
unfolding scan_input tally
scan_input-Clean sys nm roots input h =
    let tool = nm_arguments nm input in
    let h₁ = Action.pipe ∷ h in
    let h₂ = Action.fork tool ∷ h₁ in
    let h₃ = Action.close_end true ∷ h₂ in
    let h₄ = Action.open_stream ∷ h₃ in
    let h₅ = Action.close_end false ∷ h₄ in
    elim (Bool-cases (sys.succeeds h Action.pipe)) [
      | inr full ↦
          let clean : Clean sys h h₁ = record {
            pipes = omega (arith, ap one_if full);
            children = omega arith;
            directories = λ d. omega arith;
          } in
          rw full clean
      | inl piped ↦ elim (Bool-cases (sys.succeeds h₁ (Action.fork tool))) [
        | inr refused ↦
            let clean : Clean sys h (Action.close_end true ∷ Action.close_end false ∷ h₂) = record {
              pipes = omega (arith, ap one_if piped);
              children = omega (arith, ap one_if refused);
              directories = λ d. omega arith;
            } in
            rw (piped, refused) clean
        | inl forked ↦ elim (Bool-cases (sys.succeeds h₃ Action.open_stream)) [
          | inr closed ↦
              let clean : Clean sys h (Action.wait ∷ h₅) = record {
                pipes = omega (arith, ap one_if piped);
                children = omega (arith, ap one_if forked);
                directories = λ d. omega arith;
              } in
              rw (piped, forked, closed) clean
          | inl opened ↦
              let clean : Clean sys h (Action.wait ∷ Action.close_stream ∷ h₄) = record {
                pipes = omega (arith, ap one_if piped);
                children = omega (arith, ap one_if forked);
                directories = λ d. omega arith;
              } in
              rw (piped, forked, opened, read_symbols-history sys tool roots h₄) clean
        ]
      ]
    ]

then_run-Clean :
    (sys : System) (r : Scan) (k : ℕ → Run Scan) (h : List Action)
    → ((more : ℕ) → Clean sys h (k more h).1)
    → Clean sys h (then_run r k h).1
then_run-Clean sys (found more) k h rest = rest more
then_run-Clean sys unknown k h rest = Clean-same sys h
then_run-Clean sys out_of_rounds k h rest = Clean-same sys h

scan_inputs-Clean :
    (sys : System) (nm : List ℕ) (inputs : List (Option (List ℕ))) (roots : ℕ) (h : List Action)
    → Clean sys h (scan_inputs sys nm roots inputs h).1
unfolding scan_inputs
scan_inputs-Clean sys nm [] roots h = Clean-same sys h
scan_inputs-Clean sys nm (none ∷ inputs) roots h = Clean-same sys h
scan_inputs-Clean sys nm (some input ∷ inputs) roots h =
    let (one, h₁) = scan_input sys nm roots input h in
    Clean-trans sys (scan_input-Clean sys nm roots input h) (
      then_run-Clean sys one (λ more. scan_inputs sys nm more inputs) h₁
        (λ more. scan_inputs-Clean sys nm inputs more h₁))

pub input_runtime_roots-Clean :
    (sys : System) (target : ℕ) (inputs : List (Option (List ℕ))) (h : List Action)
    → Clean sys h (input_runtime_roots sys target inputs h).1
unfolding input_runtime_roots
input_runtime_roots-Clean sys target inputs h = elim (Option-cases (target_nm target)) [
  | inl missing ↦ rw (missing, input_runtime_roots) (Clean-same sys h)
  | inr (nm, e) ↦ rw (e, input_runtime_roots) (scan_inputs-Clean sys nm inputs 0 h)
]
