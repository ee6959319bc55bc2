-- ===== src/Frames/Apart.antt =====
-- The root words when a frame that is apart from the registered arrays is pushed and popped.
use portable_systems_lisp.Base.{
  ℕ, zero, suc, ◌+◌, ◌*◌, ◌≤◌, ◌<◌, ◌≡◌, refl, List, [], ◌∷◌, ◌++◌, length, arith, ◌⊎◌, All,
}
use mathlib.Core.List.{append_assoc}
use portable_systems_lisp.Outcome.{ok}
use portable_systems_lisp.Machine.{Root, Runtime, read_words, write}
use portable_systems_lisp.Gc.Reach.{frame_words, root_words, IsHeap}
use portable_systems_lisp.Frames.{Frame, store_words, open_frame}

-- The memory after the words `vs` were stored from `base` on.
pub written : (ℕ → ℕ) → ℕ → List ℕ → ℕ → ℕ
unfolding write
written m base [] = m
written m base (v ∷ vs) = written (write m base v) (base + 8) vs

pub store_words_lem :
    (base : ℕ) (vs : List ℕ) (s : Runtime)
    → store_words base vs s ≡ ok (tt, record s { memory = written s.memory base vs })
unfolding store_words written
store_words_lem base [] s = refl
store_words_lem base (v ∷ vs) s =
    store_words_lem (base + 8) vs (record s { memory = write s.memory base v })

written-below : (m : ℕ → ℕ) (base a : ℕ) (vs : List ℕ) → a < base → written m base vs a ≡ m a
unfolding written
written-below m base a [] h = refl
written-below m base a (v ∷ vs) h = ground (arith, written-below (write m base v) (base + 8) a vs)

written-above :
    (m : ℕ → ℕ) (base a : ℕ) (vs : List ℕ) → base + 8 * length vs ≤ a → written m base vs a ≡ m a
unfolding written
written-above m base a [] h = refl
written-above m base a (v ∷ vs) h = ground (arith, written-above (write m base v) (base + 8) a vs)

read_words-written :
    (m : ℕ → ℕ) (base : ℕ) (vs : List ℕ) → read_words (written m base vs) base (length vs) ≡ vs
unfolding read_words written
read_words-written m base [] = refl
read_words-written m base (v ∷ vs) = ground (
  arith,
  read_words-written (write m base v) (base + 8) vs,
  written-below (write m base v) (base + 8) base vs,
)

pub written-two :
    (m : ℕ → ℕ) (base first second : ℕ)
    → (written m base (first ∷ second ∷ []) base ≡ first)
      × (written m base (first ∷ second ∷ []) (base + 8) ≡ second)
unfolding written write
written-two m base first second = (ground arith, ground arith)

-- The array `base`, of `size` words, does not meet the array of the frame.
abbrev pub IsApart : ℕ → ℕ → Root → Type 0
IsApart base size r = (base + 8 * size ≤ r.values) ⊎ (r.values + 8 * r.count ≤ base)

read_words-apart :
    (m : ℕ → ℕ) (base : ℕ) (vs : List ℕ) (from n : ℕ)
    → (base + 8 * length vs ≤ from) ⊎ (from + 8 * n ≤ base)
    → read_words (written m base vs) from n ≡ read_words m from n
unfolding read_words
read_words-apart m base vs from zero h = refl
read_words-apart m base vs from (suc n) h = ground (
  arith,
  written-below m base from vs,
  written-above m base from vs,
  read_words-apart m base vs (from + 8) n,
)

frame_words-apart :
    (m : ℕ → ℕ) (base : ℕ) (vs : List ℕ) (rs : List Root)
    → All (IsApart base (length vs)) rs
    → frame_words (written m base vs) rs ≡ frame_words m rs
unfolding frame_words
frame_words-apart m base vs [] h = refl
frame_words-apart m base vs (r ∷ rs) h =
    rw (read_words-apart m base vs r.values r.count h.0, frame_words-apart m base vs rs h.1)

-- The frame's array is memory of its own: no registered array meets it.
pub record IsFresh (f : Frame) (size : ℕ) (s : Runtime) : Type 0 where
  pub roots : All (IsApart f.values size) s.roots
  pub permanent_roots : All (IsApart f.values size) s.permanent_roots

abbrev pub framed : Frame → List ℕ → Runtime → Runtime
framed f vs s = record s {
  memory = written s.memory f.values vs;
  roots = record { address = f.root; values = f.values; count = length vs } ∷ s.roots;
}

pub open_frame_lem :
    (f : Frame) (vs : List ℕ) (s : Runtime) → open_frame f vs s ≡ ok (tt, framed f vs s)
unfolding open_frame
open_frame_lem f vs s = rw (store_words_lem f.values vs s)

pub root_words-framed :
    (f : Frame) (vs : List ℕ) (s : Runtime)
    → IsFresh f (length vs) s
    → root_words (framed f vs s) ≡ vs ++ root_words s
unfolding root_words frame_words
root_words-framed f vs s h =
    rw
      (
        read_words-written s.memory f.values vs,
        frame_words-apart s.memory f.values vs s.roots h.roots,
        frame_words-apart s.memory f.values vs s.permanent_roots h.permanent_roots,
      )
      (append_assoc vs _ _)

pub IsHeap-framed : (f : Frame) (vs : List ℕ) (s : Runtime) → IsHeap s → IsHeap (framed f vs s)
IsHeap-framed f vs s h = record {
  distinct = h.distinct;
  aligned = h.aligned;
  unmarked = h.unmarked;
  sized = h.sized;
  counted = h.counted;
}
