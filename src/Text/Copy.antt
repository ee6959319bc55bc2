-- ===== src/Text/Copy.antt =====
-- Strings made from bytes of the caller.
use portable_systems_lisp.Base.{
  ℕ, zero, suc, ◌-◌, ◌≤◌, ◌<◌, ◌≡◌, refl, sym, Bool, false, not, some, List, [], ◌∷◌, ◌++◌, ◌==◌,
  ltb, arith, length, length-append, length-replicate, take, drop, replicate, inl, inr, Bool-cases,
  ap, subst,
}
use portable_systems_lisp.Outcome.{ok}
use portable_systems_lisp.Machine.{
  Kind, Object, Runtime, Host, and_then, object_size, size_max, update,
}
use portable_systems_lisp.Machine.Objects.{modify_lem}
use portable_systems_lisp.Gc.Reach.{IsHeap, root_words}
use portable_systems_lisp.Gc.Survive.{CanCollect}
use portable_systems_lisp.Gc.Allocate.{GivesBlock, Allocated}
use portable_systems_lisp.Gc.Expect.{find_object-held, expect_object_lem}
use portable_systems_lisp.Frames.Construct.{Allocated-update}
use portable_systems_lisp.Text.Make.{string_object, make_string_lem}
use portable_systems_lisp.Text.{copy_string_bytes}

length-take : (n : ℕ) (xs : List ℕ) → n ≤ length xs → length (take n xs) ≡ n
length-take zero xs h = refl
length-take (suc n) [] h = absurd (omega arith)
length-take (suc n) (x ∷ xs) h = ap suc (length-take n xs (omega arith))

drop-replicate : (n v : ℕ) (ys : List ℕ) → drop n (replicate n v ++ ys) ≡ ys
drop-replicate zero v ys = refl
drop-replicate (suc n) v ys = drop-replicate n v ys

-- memcpy over the zeros of a new string.
abbrev copied : ℕ → List ℕ → Object → Object
copied size source o = record o { bytes = take size source ++ drop size o.bytes }

copied-object :
    (a size : ℕ) (source : List ℕ)
    → size ≤ length source
    → copied size source (string_object a (replicate size 0)) ≡ string_object a (take size source)
copied-object a size source fits =
    rw
      (
        length-replicate {A = ℕ} size 0,
        length-take size source fits,
        drop-replicate size 0 (0 ∷ []),
      )
      refl

-- A string of the first `size` bytes of the source is made where the source has as many, the size is
-- representable and the host provides memory; all that the registered roots reach survives.
pub copy_string_bytes_lem :
    (host : Host) (source : List ℕ) (size : ℕ) (precise : Bool) (s : Runtime)
    → size ≤ length source
    → size < size_max - object_size
    → CanCollect host s (not precise)
    → GivesBlock host s (not precise)
    → IsHeap s
    → (s' : Runtime) × (copy_string_bytes host (some source) size precise s ≡ ok (host.calloc, s'))
      × Allocated (root_words s) s s' host.calloc (string_object host.calloc (take size source))
unfolding copy_string_bytes
copy_string_bytes_lem host source size precise s enough fits can block h =
    let (s₁, e, made) = make_string_lem host size 0 precise s fits can block h in
    let a = host.calloc in
    let g = copied size source in
    let long : ltb (length source) size ≡ false = ground arith in
    elim (Bool-cases (size == 0)) [
      | inl nothing ↦
          let is : size ≡ 0 = ground arith in
          (
            s₁,
            rw (e, and_then, nothing) refl,
            subst (λ n. Allocated (root_words s) s s₁ a (string_object a (take n source))) (sym is)
                (subst (λ n. Allocated (root_words s) s s₁ a (string_object a (replicate n 0))) is
                  made),
          )
      | inr something ↦ (
        record s₁ { objects = update a g s₁.objects },
        rw
            (
              e,
              and_then,
              something,
              expect_object_lem s₁ a (find_object-held made.heap a made.held) {k = Kind.string}
                  refl,
              long,
            )
            (rw (modify_lem a g s₁ _ made.held) refl),
        subst (Allocated (root_words s) s _ a) (copied-object a size source enough) (
            Allocated-update (root_words s) s s₁ a _ g
              (record { address = λ o. refl; marked = λ o. refl })
              (
                λ q. cc,
                λ _. omega (
                  arith,
                  length-replicate {A = ℕ} size 0,
                  length-take size source enough,
                  length-append (take size source) (drop size (replicate size 0 ++ 0 ∷ [])),
                ),
              )
              made),
      )
    ]
