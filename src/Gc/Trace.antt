-- ===== src/Gc/Trace.antt =====
-- The loop over the work array of collect_objects: what is marked in the end, how many rounds it takes,
-- and the room in the array.
use portable_systems_lisp.Base.{
  ℕ, zero, suc, ◌+◌, ◌≤◌, ◌≡◌, ◌↔◌, refl, sym, true, false, some, List, [], ◌∷◌, ◌==◌, ltb, length,
  Memᴰ, Memᴰ-cons, arith, ap, inl, inr, ◌⊎◌, ⊎_elim, ◌∙◌, Bool-cases, List-cases, All, subst,
}
use mathlib.Core.List.Memᴰ
use portable_systems_lisp.Outcome.{ok}
use portable_systems_lisp.Machine.{Kind, Object, lookup}
use portable_systems_lisp.Gc.{Marking, set_marked, slot_count, mark_values, mark_children, trace}
use portable_systems_lisp.Gc.Reach.{Reach, root, child, children, children_at, allocated, IsSized}
use portable_systems_lisp.Gc.Unmark.{
  clear, marked_at, unmarked, lookup-clear, allocated-clear, children_at-clear,
}
use portable_systems_lisp.Gc.Mark.{Marked, HasRoom, mark_values_lem}

mark_children-eq :
    (o : Object) (m : Marking) → IsSized o → mark_children o m ≡ mark_values (children o) m
unfolding mark_children children slot_count
mark_children-eq o m items = by_kind o.kind refl
  where
    by_kind : (k : Kind) → o.kind ≡ k → mark_children o m ≡ mark_values (children o) m
    by_kind Kind.cons e = rw e
    by_kind Kind.string e = rw e
    by_kind Kind.symbol e = rw e
    by_kind Kind.package_object e = rw e
    by_kind Kind.closure e = rw e
    by_kind Kind.value_vector e = rw e
    by_kind Kind.value_vector_storage e =
        let fits : ltb (length o.items) o.length ≡ false = ground (arith, items.0 e) in rw (e, fits)

-- `mark_children` marks the psl_values of the object.
mark_children_lem :
    (o : Object) (m : Marking)
    → IsSized o
    → HasRoom m
    → (m' : Marking) × (mark_children o m ≡ ok m') × Marked m (children o) m'
mark_children_lem o m items room =
    let (m', e, h) = mark_values_lem (children o) m room in (m', mark_children-eq o m items ∙ e, h)

pub All-lookup {ℓ} :
    (P : Object → Type ℓ) (a : ℕ) (os : List Object) (o : Object)
    → All P os
    → lookup a os ≡ some o
    → P o
unfolding lookup
All-lookup P a [] o h e = ground arith
All-lookup P a (x ∷ os) o h e = elim (Bool-cases (x.address == a)) [
  | inl here ↦ let same : x ≡ o = ground arith in subst P same h.0
  | inr further ↦ All-lookup P a os o h.1 (rw (further, lookup) at e)
]

marked_at-held :
    (a : ℕ) (os : List Object) → marked_at os a ≡ true → (o : Object) × (lookup a os ≡ some o)
marked_at-held a os h = ground arith

module _ (objs : List Object) (roots : List ℕ) where
  -- A marking that the loop can be in, over the heap `objs`.
  pub record IsTracing (m : Marking) : Type 0 where
    pub same : clear m.objects ≡ objs
    pub room : HasRoom m
    pub seen : (v : ℕ) → Memᴰ v roots → allocated objs v ≡ true → marked_at m.objects v ≡ true
    pub queued : (v : ℕ) → Memᴰ v m.pending → marked_at m.objects v ≡ true
    pub sound : (v : ℕ) → marked_at m.objects v ≡ true → Reach objs roots v
    pub closed :
        (u v : ℕ)
        → marked_at m.objects u ≡ true
        → Memᴰ v (children_at objs u)
        → allocated objs v ≡ true
        → Memᴰ u m.pending ⊎ (marked_at m.objects v ≡ true)

  module _ (m : Marking) (h : IsTracing m) where
    open h use {same, room, seen, queued, sound, closed}

    allocated-eq : (v : ℕ) → allocated m.objects v ≡ allocated objs v
    allocated-eq v = sym (allocated-clear m.objects v) ∙ ap (λ os. allocated os v) same

    children_at-eq :
        (a : ℕ) (o : Object) → lookup a m.objects ≡ some o → children_at objs a ≡ children o
    unfolding children_at
    children_at-eq a o e =
        ap (λ os. children_at os a) (sym same) ∙ children_at-clear m.objects a ∙ rw (e, children_at)

    IsSized-held : All IsSized objs → (a : ℕ) (o : Object) → lookup a m.objects ≡ some o → IsSized o
    IsSized-held items a o e =
        All-lookup IsSized a objs (set_marked false o) items
          (ap (lookup a) (sym same) ∙ lookup-clear a m.objects ∙ rw e)

    -- One round, after `a` left the head of the queue.
    IsTracing-round :
        (a : ℕ) (rest : List ℕ) (o : Object) (m' : Marking)
        → m.pending ≡ a ∷ rest
        → lookup a m.objects ≡ some o
        → Marked (record m { pending = rest }) (children o) m'
        → IsTracing m'
    IsTracing-round a rest o m' e held k = record {
      same = k.same ∙ same;
      room = omega (arith, k.room, k.capacity, room);
      seen = λ v i f. (k.marks v).1 (inl (seen v i f));
      queued = λ v i. ground (arith, k.queue v, k.marks v, queued v, Memᴰ-cons v a rest);
      sound = λ v i.
          ⊎_elim (sound v)
            (λ j. child (to_a) (rw (children_at-eq a o held) j.0) (sym (allocated-eq v) ∙ j.1))
            ((k.marks v).0 i);
      closed = λ u v i c f.
          let of_a : u ≡ a → Memᴰ v (children o) =
            λ p. subst (λ ws. Memᴰ v ws) (ap (children_at objs) p ∙ children_at-eq a o held) c in
          ground (
            arith,
            of_a,
            closed u v,
            k.marks u,
            k.marks v,
            k.queue u,
            allocated-eq v,
            Memᴰ-cons u a rest,
          );
    }
      where
        to_a : Reach objs roots a
        to_a = sound a (queued a (simp e (Memᴰ.head refl)))

  -- The loop ends with an empty queue, within as many rounds as there are unmarked or queued objects.
  pub trace_lem :
      All IsSized objs
      → (fuel : ℕ) (m : Marking) → IsTracing m
      → unmarked m.objects + length m.pending ≤ fuel
      → (m' : Marking) × (trace fuel m ≡ ok m') × IsTracing m' × (m'.pending ≡ [])
  unfolding trace
  trace_lem items zero m h enough = elim (List-cases m.pending) [
    | inl empty ↦ (m, simp (empty, trace), h, empty)
    | inr (a, rest, e) ↦ absurd (omega (arith, ap length e))
  ]
  trace_lem items (suc fuel) m h enough = elim (List-cases m.pending) [
    | inl empty ↦ (m, simp (empty, trace), h, empty)
    | inr (a, rest, e) ↦
        let (o, held) = marked_at-held a m.objects (h.queued a (simp e (Memᴰ.head refl))) in
        let next = record m { pending = rest } in
        let (m₁, e₁, k) = mark_children_lem o next (IsSized-held m h items a o held) h.room in
        let (m₂, e₂, h₂, empty) =
          trace_lem items fuel m₁ (IsTracing-round m h a rest o m₁ e held k)
            (omega (arith, k.work, ap length e)) in
        (m₂, rw (e, trace, held, e₁) e₂, h₂, empty)
  ]

  -- With an empty queue, the marks are exactly on what is reached.
  pub marked_at-Reach :
      (m : Marking)
      → IsTracing m
      → m.pending ≡ []
      → (a : ℕ) → (marked_at m.objects a ≡ true) ↔ Reach objs roots a
  marked_at-Reach m h empty a = (h.sound a, complete)
    where
      complete : {a : ℕ} → Reach objs roots a → marked_at m.objects a ≡ true
      complete (root i f) = h.seen _ i f
      complete (child {a} {v} r i f) = elim (h.closed a v (complete r) i f) [
        | inl waiting ↦ absurd (Memᴰ.not-nil (subst (Memᴰ a) empty waiting))
        | inr done ↦ done
      ]
