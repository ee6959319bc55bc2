-- ===== src/Symbols/Link.antt =====
-- The writes that put a new symbol in front of a package's chain.
use portable_systems_lisp.Base.{ℕ, ◌≡◌, refl, false, some, ◌==◌, if◌then◌else◌, arith, ap, ==-refl}
use portable_systems_lisp.Value.{nil}
use portable_systems_lisp.Machine.{
  Kind, Object, Runtime, M, ◌>>=◌, ◌>>◌, lookup, update, load, modify,
}
use portable_systems_lisp.Machine.Objects.{lookup-update, modify_lem}
use portable_systems_lisp.Gc.Expect.{find_object-held, load-found}
use portable_systems_lisp.Gc.Reach.{IsHeap}
use portable_systems_lisp.Frames.Construct.{IsHeap-update}
use portable_systems_lisp.Symbols.Laws.{symbol_object}

-- The writes that put the new symbol `a` in front of the chain of `owner`.
module _ (t : Runtime) (h : IsHeap t) (owner a name : ℕ) (o : Object) (apart : (a == owner) ≡ false)
    (held : lookup owner t.objects ≡ some o) (package_kind : o.kind ≡ Kind.package_object)
    (new : lookup a t.objects ≡ some (symbol_object a name nil nil)) where
  abbrev once : Runtime
  once = record t { objects = update a (λ o. record o { slot_1 = owner }) t.objects }

  abbrev twice : Runtime
  twice = record t { objects = update a (λ x. record x { slot_2 = o.slot_1 }) once.objects }

  abbrev pub linked : Runtime
  linked = record t { objects = update owner (λ x. record x { slot_1 = a }) twice.objects }

  lookup-once :
      (b : ℕ)
      → lookup b once.objects
        ≡ (if a == b then some (symbol_object a name owner nil) else lookup b t.objects)
  lookup-once b = ground (
    arith,
    lookup-update (λ x. record x { slot_1 = owner }) (λ x. refl) a b t.objects,
    new,
    ap (λ x. lookup x t.objects),
  )

  lookup-twice :
      (b : ℕ)
      → lookup b twice.objects
        ≡ (if a == b then some (symbol_object a name owner o.slot_1) else lookup b t.objects)
  lookup-twice b = ground (
    arith,
    lookup-update (λ x. record x { slot_2 = o.slot_1 }) (λ x. refl) a b once.objects,
    lookup-once b,
  )

  pub lookup-linked :
      (b : ℕ)
      → lookup b linked.objects ≡ (
          if owner == b
          then some (record o { slot_1 = a })
          else if a == b
          then some (symbol_object a name owner o.slot_1)
          else lookup b t.objects)
  lookup-linked b = ground (
    arith,
    lookup-update (λ x. record x { slot_1 = a }) (λ x. refl) owner b twice.objects,
    lookup-twice b,
    held,
    apart,
    ap (λ x. lookup x t.objects),
  )

  owner-once : lookup owner once.objects ≡ some o
  owner-once = rw (lookup-once owner, apart) held

  owner-twice : lookup owner twice.objects ≡ some o
  owner-twice = rw (lookup-twice owner, apart) held

  new-once : lookup a once.objects ≡ some (symbol_object a name owner nil)
  new-once = rw (lookup-once a, ==-refl a)

  IsHeap-once : IsHeap once
  IsHeap-once =
      IsHeap-update (λ x. record x { slot_1 = owner }) a t _
        (record { address = λ x. refl; marked = λ x. refl }) new (λ e. cc, λ e. cc) h

  IsHeap-twice : IsHeap twice
  IsHeap-twice =
      IsHeap-update (λ x. record x { slot_2 = o.slot_1 }) a once _
        (record { address = λ x. refl; marked = λ x. refl }) new-once (λ e. cc, λ e. cc) IsHeap-once

  pub IsHeap-linked : IsHeap linked
  IsHeap-linked =
      IsHeap-update (λ x. record x { slot_1 = a }) owner twice o
        (record { address = λ x. refl; marked = λ x. refl }) owner-twice
        (λ e. cc (e, package_kind), λ e. cc (e, package_kind)) IsHeap-twice

  -- The writes of `intern_symbol`, and the pop behind them.
  pub link_lem :
      {A : Type 0} (k : M A)
      → (do
        modify a (λ x. record x { slot_1 = owner })
        pack ← load owner
        modify a (λ x. record x { slot_2 = pack.slot_1 })
        modify owner (λ x. record x { slot_1 = a })
        k)
          t
        ≡ k linked
  link_lem k =
      rw
        (
          modify_lem a (λ x. record x { slot_1 = owner }) t _ new,
          load-found once owner (find_object-held IsHeap-once owner owner-once),
          modify_lem a (λ x. record x { slot_2 = o.slot_1 }) once _ new-once,
          modify_lem owner (λ x. record x { slot_1 = a }) twice o owner-twice,
        )
        refl
