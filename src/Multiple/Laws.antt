-- ===== src/Multiple/Laws.antt =====
-- values2, nth_value and value_count, and the rooting of the two values.
use portable_systems_lisp.Base.{
  ℕ, ◌+◌, ◌≡◌, refl, true, List, [], ◌∷◌, Memᴰ, ◌==◌, if◌then◌else◌, arith, inl, inr, ◌⊎◌, ⊎_elim,
  Bool-cases, subst,
}
use mathlib.Core.List.Memᴰ
use portable_systems_lisp.Outcome.{ok}
use portable_systems_lisp.Machine.{Root, Runtime, Host, read_words, write}
use portable_systems_lisp.Gc.Reach.{frame_words, root_words}
use portable_systems_lisp.Value.{nil}
use portable_systems_lisp.Multiple.{ensure_values_roots, values2, nth_value, value_count}

Memᴰ-frame_words :
    (memory : ℕ → ℕ) (v : ℕ) (r : Root) (rs : List Root)
    → Memᴰ r rs
    → Memᴰ v (read_words memory r.values r.count)
    → Memᴰ v (frame_words memory rs)
unfolding frame_words
Memᴰ-frame_words memory v r [] i j = absurd (Memᴰ.not-nil i)
Memᴰ-frame_words memory v r (x ∷ rs) i j =
    ⊎_elim (λ e. Memᴰ.append_left _ (subst (λ y. Memᴰ v (read_words memory y.values y.count)) e j))
      (λ i'.
        Memᴰ.append_right (read_words memory x.values x.count)
          (Memᴰ-frame_words memory v r rs i' j))
      (Memᴰ.cases_cons i)

-- Once initialized, some permanent root is the array of the two values.
abbrev pub IsRegistered : Runtime → Type 0
IsRegistered s =
    s.initialized ≡ true
    → (r : Root) × (Memᴰ r s.permanent_roots) × (r.values ≡ s.current_values) × (r.count ≡ 2)

-- The state after the two values were stored.
abbrev stored : Runtime → ℕ → ℕ → Runtime
stored s first second = record s {
  memory = write (write s.memory s.current_values first) (s.current_values + 8) second;
  current_count = 2;
}

ensure_values_roots_lem :
    (host : Host) (root : ℕ) (s : Runtime)
    → (s.initialized ≡ true) ⊎ (host.malloc ≡ true)
    → IsRegistered s
    → (t : Runtime) × (ensure_values_roots host root s ≡ ok (tt, t))
      × (t.initialized ≡ true)
      × IsRegistered t
      × (t.current_values ≡ s.current_values)
      × (t.objects ≡ s.objects)
      × (t.roots ≡ s.roots)
unfolding ensure_values_roots
ensure_values_roots_lem host root s can h = elim (Bool-cases s.initialized) [
  | inl done ↦ (s, rw (done, ensure_values_roots), done, h, refl, refl, refl)
  | inr first ↦
      let memory : host.malloc ≡ true = ground arith in
      (
        record s {
          permanent_roots =
              record { address = root; values = s.current_values; count = 2 } ∷ s.permanent_roots;
          initialized = true;
        },
        rw (first, ensure_values_roots, memory),
        refl,
        λ _. (_, Memᴰ.head refl, refl, refl),
        refl,
        refl,
        refl,
      )
]

stored-words :
    (s : Runtime) (first second : ℕ)
    → read_words (stored s first second).memory s.current_values 2 ≡ first ∷ second ∷ []
unfolding read_words write
stored-words s first second = ground arith

stored-rooted :
    (s : Runtime) (first second v : ℕ)
    → s.initialized ≡ true
    → IsRegistered s
    → Memᴰ v (first ∷ second ∷ [])
    → Memᴰ v (root_words (stored s first second))
unfolding root_words
stored-rooted s first second v done h i =
    let t = stored s first second in
    let (r, listed, at, size) = h done in
    let words : read_words t.memory r.values r.count ≡ first ∷ second ∷ [] =
      rw (at, size) (stored-words s first second) in
    Memᴰ.append_right (frame_words t.memory t.roots)
      (Memᴰ.append_left _ (Memᴰ-frame_words t.memory v r t.permanent_roots listed (rw words i)))

-- values2 yields its first argument; nth_value then gives the two values and NIL past them, and the
-- count is 2. Both values are root words from then on, so a collection keeps what they denote.
pub values2_lem :
    (host : Host) (root : ℕ) (s : Runtime) (first second : ℕ)
    → (s.initialized ≡ true) ⊎ (host.malloc ≡ true)
    → IsRegistered s
    → (s' : Runtime) × (values2 host root first second s ≡ ok (first, s'))
      × ((index : ℕ)
          → nth_value index s'
            ≡ ok ((if index == 0 then first else if index == 1 then second else nil), s'))
      × (value_count s' ≡ ok (2, s'))
      × Memᴰ first (root_words s')
      × Memᴰ second (root_words s')
      × IsRegistered s'
      × (s'.objects ≡ s.objects)
      × (s'.roots ≡ s.roots)
unfolding values2 nth_value value_count write
values2_lem host root s first second can h =
    let (t, e, done, reg, at, objects, frames) = ensure_values_roots_lem host root s can h in
    (
      stored t first second,
      rw e,
      λ index. ground arith,
      refl,
      stored-rooted t first second first done reg (Memᴰ.head refl),
      stored-rooted t first second second done reg (Memᴰ.tail (Memᴰ.head refl)),
      reg,
      objects,
      frames,
    )
