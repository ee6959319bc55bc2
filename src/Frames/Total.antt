-- ===== src/Frames/Total.antt =====
-- The ends of the common course of the constructors, the host's refusals included.
use portable_systems_lisp.Base.{
  ℕ, ◌≡◌, refl, ◌∙◌, inl, inr, Bool, some, List, [], ◌∷◌, All, ==-refl,
}
use portable_systems_lisp.Machine.{
  ◌>>◌, Kind, Object, Runtime, Host, M, pure, lookup, update, pop_roots,
}
use portable_systems_lisp.Machine.Objects.{lookup-update, modify_lem}
use portable_systems_lisp.Gc.Reach.{IsHeap}
use portable_systems_lisp.Gc.Total.{Returns, allocate_object-Returns}
use portable_systems_lisp.Frames.{Frame}
use portable_systems_lisp.Frames.Apart.{framed, open_frame_lem, IsHeap-framed}
use portable_systems_lisp.Frames.Construct.{construct, initialise, IsFieldWrite, pop_roots_lem}

-- The root frames of `s`.
abbrev pub SameRoots : Runtime → ℕ → Runtime → Type 0
SameRoots s a s' = s'.roots ≡ s.roots

initialise-held :
    (a : ℕ) (k : M ℕ) (gs : List (Object → Object)) (s : Runtime) (o : Object)
    → All IsFieldWrite gs
    → lookup a s.objects ≡ some o
    → (t : Runtime) × (initialise a gs k s ≡ k t) × (t.roots ≡ s.roots)
initialise-held a k [] s o all held = (s, refl, refl)
initialise-held a k (g ∷ gs) s o all held =
    let t = record s { objects = update a g s.objects } in
    let there : lookup a t.objects ≡ some (g o) =
      rw (lookup-update g all.0.address a a s.objects, ==-refl a, held) refl in
    let (t', e, roots) = initialise-held a k gs t (g o) all.1 there in
    (t', rw (modify_lem a g s o held) e, roots)

pub construct-Returns :
    (host : Host) (f : Frame) (vs : List ℕ) (k : Kind) (extra : ℕ) (scan : Bool)
    (gs : List (Object → Object)) (s : Runtime)
    → All IsFieldWrite gs
    → IsHeap s
    → Returns (SameRoots s) (construct host f vs k extra scan gs s)
construct-Returns host f vs k extra scan gs s all h =
    let s₁ = framed f vs s in
    elim (allocate_object-Returns host k extra scan s₁ (IsHeap-framed f vs s h)) [
      | inl refused ↦ inl (rw (open_frame_lem f vs s, refused) refl)
      | inr (a, s₂, made, ((o, held), roots)) ↦
          let (s₃, e, same) = initialise-held a (do pop_roots f.root; pure a) gs s₂ o all held in
          let popped = pop_roots_lem f.root s₃ _ s.roots (same ∙ roots) refl in
          inr (
            a,
            record s₃ { roots = s.roots },
            rw (open_frame_lem f vs s, made, e, popped) refl,
            refl,
          )
    ]
