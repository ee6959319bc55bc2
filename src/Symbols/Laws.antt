-- ===== src/Symbols/Laws.antt =====
-- Construction of symbols and packages.
use portable_systems_lisp.Base.{ℕ, ◌≡◌, refl, Bool, not, some, [], ◌∷◌}
use portable_systems_lisp.Outcome.{ok}
use portable_systems_lisp.Value.{nil}
use portable_systems_lisp.Machine.{Kind, Object, Runtime, Host, lookup}
use portable_systems_lisp.Gc.{blank}
use portable_systems_lisp.Gc.Expect.{find_object-held, expect_object_lem, read_found}
use portable_systems_lisp.Frames.{Frame}
use portable_systems_lisp.Frames.Construct.{CanConstruct, Constructed, construct_lem}
use portable_systems_lisp.Symbols.{make_symbol, symbol_name, make_package, package_name}

-- A symbol of the name `name` in the package `owner`, in front of `next`.
abbrev pub symbol_object : ℕ → ℕ → ℕ → ℕ → Object
symbol_object a name owner next = record (blank a Kind.symbol 0) {
  slot_0 = name;
  slot_1 = owner;
  slot_2 = next;
}

-- A package of the name `name` whose chain of symbols starts at `first`.
abbrev pub package_value : ℕ → ℕ → ℕ → Object
package_value a name first = record (blank a Kind.package_object 0) {
  slot_0 = name;
  slot_1 = first;
}

module _ (host : Host) (f : Frame) (name : ℕ) (precise : Bool) (s : Runtime) (o : Object)
    (held : lookup name s.objects ≡ some o) (k : o.kind ≡ Kind.string)
    (c : CanConstruct host f (name ∷ []) s 0 (not precise)) where
  -- A symbol of a string is made, without package or successor, and its name is read back; all that
  -- the string or the registered roots reach survives.
  pub make_symbol_lem :
      (s' : Runtime) × (make_symbol host f name precise s ≡ ok (host.calloc, s'))
      × Constructed f (name ∷ []) s s' host.calloc (symbol_object host.calloc name nil nil)
      × (symbol_name host.calloc s' ≡ ok (name, s'))
  unfolding make_symbol symbol_name
  make_symbol_lem =
      let (s', e, made) =
        construct_lem host f (name ∷ []) Kind.symbol 0 (not precise)
          ((λ o. record o { slot_0 = name })
            ∷ (λ o. record o { slot_1 = nil })
            ∷ (λ o. record o { slot_2 = nil })
            ∷ [])
          s
          (
            record { address = λ o. refl; marked = λ o. refl },
            (
              record { address = λ o. refl; marked = λ o. refl },
              (record { address = λ o. refl; marked = λ o. refl }, tt),
            ),
          )
          ((λ e. cc, λ e. cc), ((λ e. cc, λ e. cc), ((λ e. cc, λ e. cc), tt))) c in
      (
        s',
        rw (expect_object_lem s name (find_object-held c.heap name held) k) e,
        made,
        read_found s' host.calloc (find_object-held made.heap host.calloc made.held) refl
            (λ o. o.slot_0),
      )

  -- A package of a string is made, with no symbols, and its name is read back; all that the string
  -- or the registered roots reach survives.
  pub make_package_lem :
      (s' : Runtime) × (make_package host f name precise s ≡ ok (host.calloc, s'))
      × Constructed f (name ∷ []) s s' host.calloc (package_value host.calloc name nil)
      × (package_name host.calloc s' ≡ ok (name, s'))
  unfolding make_package package_name
  make_package_lem =
      let (s', e, made) =
        construct_lem host f (name ∷ []) Kind.package_object 0 (not precise)
          ((λ o. record o { slot_0 = name }) ∷ (λ o. record o { slot_1 = nil }) ∷ []) s
          (
            record { address = λ o. refl; marked = λ o. refl },
            (record { address = λ o. refl; marked = λ o. refl }, tt),
          )
          ((λ e. cc, λ e. cc), ((λ e. cc, λ e. cc), tt)) c in
      (
        s',
        rw (expect_object_lem s name (find_object-held c.heap name held) k) e,
        made,
        read_found s' host.calloc (find_object-held made.heap host.calloc made.held) refl
            (λ o. o.slot_0),
      )
