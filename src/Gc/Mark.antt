-- ===== src/Gc/Mark.antt =====
-- One word, and then a list of words, through `mark_value`: which objects get a mark, what is queued
-- on the work array, and that the array has room for it.
use portable_systems_lisp.Base.{
  ℕ, ◌+◌, ◌≤◌, ◌≡◌, ◌↔◌, refl, sym, true, false, some, List, [], ◌∷◌, ◌++◌, ltb, length,
  length-append, Memᴰ, Memᴰ-singleton, Memᴰ-append, Memᴰ-concat, ⊎_elim, ◌∙◌, arith, ap, inl, inr,
  ◌⊎◌, Option-cases, Bool-cases,
}
use mathlib.Core.List.Memᴰ
use portable_systems_lisp.Outcome
use portable_systems_lisp.Outcome.{Outcome, ok, abort, fault, out_of_fuel}
use portable_systems_lisp.Machine.{Object, update, find_object}
use portable_systems_lisp.Machine.Objects.{find_object-eq-some, lookup-found}
use portable_systems_lisp.Gc.{Marking, set_marked, mark_value, mark_values}
use portable_systems_lisp.Gc.Reach.{allocated}
use portable_systems_lisp.Gc.Unmark.{
  clear, marked_at, unmarked, clear-update, unmarked-update, marked_at-update, allocated-clear,
}

-- `m'` is `m` after the words `vs` were marked.
pub record Marked (m : Marking) (vs : List ℕ) (m' : Marking) : Type 0 where
  pub same : clear m'.objects ≡ clear m.objects
  pub capacity : m'.capacity ≡ m.capacity
  pub room : m'.used + unmarked m'.objects ≡ m.used + unmarked m.objects
  pub work : unmarked m'.objects + length m'.pending ≡ unmarked m.objects + length m.pending
  pub marks :
      (w : ℕ)
      → (marked_at m'.objects w ≡ true)
        ↔ ((marked_at m.objects w ≡ true) ⊎ (Memᴰ w vs × (allocated m.objects w ≡ true)))
  pub queue :
      (w : ℕ)
      → Memᴰ w m'.pending
        ↔ (Memᴰ w m.pending ⊎ ((marked_at m'.objects w ≡ true) × (marked_at m.objects w ≡ false)))

-- The work array has a free element for each unmarked object.
abbrev pub HasRoom : Marking → Type 0
HasRoom m = m.used + unmarked m.objects ≤ m.capacity

-- The marking after an unmarked object was found.
abbrev with_mark : Marking → Object → Marking
with_mark m o = record m {
  objects = update o.address (set_marked true) m.objects;
  pending = m.pending ++ o.address ∷ [];
  used = m.used + 1;
}

module _ (v : ℕ) (m : Marking) where
  mark_value-old :
      (allocated m.objects v ≡ false) ⊎ (marked_at m.objects v ≡ true) → Marked m (v ∷ []) m
  mark_value-old h = record {
    same = refl;
    capacity = refl;
    room = refl;
    work = refl;
    marks = λ w. ground (arith, Memᴰ-singleton w v);
    queue = λ w. ground arith;
  }

  mark_value-new :
      (o : Object)
      → find_object v m.objects ≡ some o
      → o.marked ≡ false
      → Marked m (v ∷ []) (with_mark m o)
  mark_value-new o found new =
      let (here, at) = find_object-eq-some v m.objects o found in
      let held = lookup-found v m.objects o found in
      let fewer = unmarked-update o.address m.objects o held new in
      let after = λ (w : ℕ). marked_at-update o.address w m.objects o held in
      record {
        same = clear-update o.address m.objects;
        capacity = refl;
        room = omega arith;
        work = omega (arith, length-append m.pending (o.address ∷ []));
        marks = λ w. ground (arith, Memᴰ-singleton w v, after w);
        queue = λ w. ground (arith, Memᴰ-concat w o.address m.pending, after w);
      }

  mark_value_lem : HasRoom m → (m' : Marking) × (mark_value v m ≡ ok m') × Marked m (v ∷ []) m'
  unfolding mark_value
  mark_value_lem room = elim (Option-cases (find_object v m.objects)) [
    | inl free ↦ (m, rw (free, mark_value), mark_value-old (inl (rw free)))
    | inr (o, found) ↦ elim (Bool-cases o.marked) [
      | inl old ↦ (
        m,
        rw (found, mark_value, old),
        mark_value-old (inr (ground (arith, find_object-eq-some v m.objects o))),
      )
      | inr new ↦
          let fewer =
            unmarked-update o.address m.objects o (lookup-found v m.objects o found) new in
          let fits : ltb m.used m.capacity ≡ true = ground arith in
          (with_mark m o, rw (found, mark_value, new, fits), mark_value-new o found new)
    ]
  ]

Marked-nil : (m : Marking) → Marked m [] m
Marked-nil m = record {
  same = refl;
  capacity = refl;
  room = refl;
  work = refl;
  marks = λ w. (inl, ⊎_elim (λ h. h) (λ h. absurd (Memᴰ.not-nil h.0)));
  queue = λ w. ground arith;
}

allocated-same :
    (m n : Marking)
    → clear n.objects ≡ clear m.objects
    → (w : ℕ) → allocated n.objects w ≡ allocated m.objects w
allocated-same m n e w =
    sym (allocated-clear n.objects w) ∙ ap (λ os. allocated os w) e ∙ allocated-clear m.objects w

pub Marked-append :
    (m m' m'' : Marking) (us vs : List ℕ)
    → Marked m us m'
    → Marked m' vs m''
    → Marked m (us ++ vs) m''
Marked-append m m' m'' us vs h k = record {
  same = k.same ∙ h.same;
  capacity = k.capacity ∙ h.capacity;
  room = omega arith;
  work = omega arith;
  marks =
      λ w. ground (arith, h.marks w, k.marks w, Memᴰ-append w us vs, allocated-same m m' h.same w);
  queue = λ w. ground (arith, h.queue w, k.queue w, h.marks w, k.marks w);
}

-- Marking a list of words succeeds, and marks exactly the allocated objects among them.
pub mark_values_lem :
    (vs : List ℕ) (m : Marking)
    → HasRoom m
    → (m' : Marking) × (mark_values vs m ≡ ok m') × Marked m vs m'
unfolding mark_values
mark_values_lem [] m room = (m, refl, Marked-nil m)
mark_values_lem (v ∷ vs) m room =
    let (m₁, e₁, h₁) = mark_value_lem v m room in
    let (m₂, e₂, h₂) = mark_values_lem vs m₁ (omega arith) in
    (m₂, rw e₁ e₂, Marked-append m m₁ m₂ (v ∷ []) vs h₁ h₂)

pub mark_values-append :
    (us vs : List ℕ) (m : Marking)
    → mark_values (us ++ vs) m ≡ Outcome.◌>>=◌ (mark_values us m) (mark_values vs)
unfolding mark_values
mark_values-append [] vs m = refl
mark_values-append (u ∷ us) vs m = after (mark_value u m) (mark_values-append us vs)
  where
    after :
        (r : Outcome Marking)
        → ((n : Marking)
            → mark_values (us ++ vs) n ≡ Outcome.◌>>=◌ (mark_values us n) (mark_values vs))
        → Outcome.◌>>=◌ r (mark_values (us ++ vs))
          ≡ Outcome.◌>>=◌ (Outcome.◌>>=◌ r (mark_values us)) (mark_values vs)
    after (ok n) ih = ih n
    after abort ih = refl
    after fault ih = refl
    after out_of_fuel ih = refl
