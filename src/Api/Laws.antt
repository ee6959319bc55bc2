-- ===== src/Api/Laws.antt =====
-- The two forms of the functions in runtime/psl_runtime.h that construct objects.
use portable_systems_lisp.Base.{
  ℕ, ◌+◌, ◌≡◌, ◌==◌, refl, inl, inr, Bool-cases, Option-cases, true, false, Option, none, some,
  List, [], ◌∷◌, leb,
}
use portable_systems_lisp.Machine.{
  and_then, size_max, find_object, expect_object, kind_code, Kind, Runtime, Host, M,
}
use portable_systems_lisp.Gc.{make_room, allocate_object, new_object, collect_objects, scan_part}
use portable_systems_lisp.Frames.{Frame}
use portable_systems_lisp.Frames.Apart.{framed, open_frame_lem}
use portable_systems_lisp.Gc.Collect.{top_of, with_top, stack_top_lem}
use portable_systems_lisp.Cons.{make_cons}
use portable_systems_lisp.Closures.{make_closure}
use portable_systems_lisp.Text.{make_string, copy_string_bytes}
use portable_systems_lisp.Symbols.{make_symbol, make_package, intern_new, intern_symbol}
use portable_systems_lisp.Api.{
  rt_allocate, rt_cons, rt_make_closure, rt_make_string, rt_make_symbol, rt_make_package,
  rt_make_string_from_bytes, rt_allocate_precise, rt_cons_precise, rt_make_symbol_precise,
  rt_make_package_precise, rt_make_closure_precise, rt_make_string_precise,
  rt_make_string_from_bytes_precise, rt_intern_precise,
}

-- With room below the limit, the stack is not scanned.
module _ (host : Host) (s : Runtime) (top : ℕ) (known : top_of host s ≡ some top)
    (room : leb s.collection_limit s.object_count ≡ false) where
  allocate_object-with_top :
      (k : Kind) (extra : ℕ)
      → allocate_object host k extra true s ≡ allocate_object host k extra false (with_top s top)
  unfolding allocate_object make_room
  allocate_object-with_top k extra = rw (stack_top_lem host s top known, room) refl

module _ (host : Host) (s : Runtime) (top : ℕ) (known : top_of host s ≡ some top)
    (room : leb s.collection_limit s.object_count ≡ false) where
  -- The allocation behind the frame of a constructor.
  allocate-framed :
      (f : Frame) (vs : List ℕ) (k : Kind)
      → allocate_object host k 0 true (framed f vs s)
        ≡ allocate_object host k 0 false (framed f vs (with_top s top))
  allocate-framed f vs k = allocate_object-with_top host (framed f vs s) top known room k 0

  rt_cons-with_top :
      (f : Frame) (first rest : ℕ)
      → rt_cons host f first rest s ≡ rt_cons_precise host f first rest (with_top s top)
  unfolding rt_cons rt_cons_precise make_cons
  rt_cons-with_top f first rest =
      let vs = first ∷ rest ∷ [] in
      rw
        (
          open_frame_lem f vs s,
          open_frame_lem f vs (with_top s top),
          allocate-framed f vs Kind.cons,
        )
        refl

  rt_make_closure-with_top :
      (f : Frame) (code environment : ℕ)
      → rt_make_closure host f code environment s
        ≡ rt_make_closure_precise host f code environment (with_top s top)
  unfolding rt_make_closure rt_make_closure_precise make_closure
  rt_make_closure-with_top f code environment =
      let vs = environment ∷ [] in
      elim (Bool-cases (code == 0)) [
        | inl null ↦ rw null refl
        | inr given ↦
            rw
              (
                given,
                open_frame_lem f vs s,
                open_frame_lem f vs (with_top s top),
                allocate-framed f vs Kind.closure,
              )
              refl
      ]

  rt_make_string-with_top :
      (size byte : ℕ)
      → rt_make_string host size byte s ≡ rt_make_string_precise host size byte (with_top s top)
  unfolding rt_make_string rt_make_string_precise make_string
  rt_make_string-with_top size byte = elim (Bool-cases (size == size_max)) [
    | inl huge ↦ rw huge refl
    | inr fits ↦
        rw (fits, allocate_object-with_top host s top known room Kind.string (size + 1)) refl
  ]

  -- What follows the test that a name is a string.
  named-with_top :
      (name : ℕ) (m m' : M ℕ)
      → m s ≡ m' (with_top s top)
      → and_then (expect_object name (some Kind.string) s) (λ _. m)
        ≡ and_then (expect_object name (some Kind.string) (with_top s top)) (λ _. m')
  unfolding expect_object
  named-with_top name m m' same = elim (Option-cases (find_object name s.objects)) [
    | inl missing ↦ rw (missing, expect_object) refl
    | inr (o, found) ↦ elim (Bool-cases (kind_code o.kind == kind_code Kind.string)) [
      | inr other ↦ rw (found, expect_object, other) refl
      | inl named ↦ rw (found, expect_object, named) same
    ]
  ]

  rt_make_symbol-with_top :
      (f : Frame) (name : ℕ)
      → rt_make_symbol host f name s ≡ rt_make_symbol_precise host f name (with_top s top)
  unfolding rt_make_symbol rt_make_symbol_precise make_symbol
  rt_make_symbol-with_top f name =
      let vs = name ∷ [] in
      named-with_top name _ _ (
        rw
          (
            open_frame_lem f vs s,
            open_frame_lem f vs (with_top s top),
            allocate-framed f vs Kind.symbol,
          )
          refl)

  rt_make_package-with_top :
      (f : Frame) (name : ℕ)
      → rt_make_package host f name s ≡ rt_make_package_precise host f name (with_top s top)
  unfolding rt_make_package rt_make_package_precise make_package
  rt_make_package-with_top f name =
      let vs = name ∷ [] in
      named-with_top name _ _ (
        rw
          (
            open_frame_lem f vs s,
            open_frame_lem f vs (with_top s top),
            allocate-framed f vs Kind.package_object,
          )
          refl)

  rt_make_string_from_bytes-with_top :
      (source : Option (List ℕ)) (size : ℕ)
      → rt_make_string_from_bytes host source size s
        ≡ rt_make_string_from_bytes_precise host source size (with_top s top)
  unfolding rt_make_string_from_bytes rt_make_string_from_bytes_precise copy_string_bytes
      rt_make_string rt_make_string_precise
  rt_make_string_from_bytes-with_top none size = elim (Bool-cases (size == 0)) [
    | inl empty ↦ rw empty (rt_make_string-with_top size 0)
    | inr some_bytes ↦ rw some_bytes refl
  ]
  rt_make_string_from_bytes-with_top (some source) size =
      let made : make_string host size 0 false s ≡ make_string host size 0 true (with_top s top) =
        rt_make_string-with_top size 0 in
      rw made refl

-- The host with another stack: the address of the marker and the top that the platform gives.
abbrev pub with_stack : Host → ℕ → Option ℕ → Host
with_stack host marker platform = record host { marker = marker; platform_stack_top = platform }

-- The precise constructors do the same in the state `t` with either host.
abbrev pub SamePrecise :
    Host → Host → Runtime → Frame → Frame → ℕ → ℕ → Option (List ℕ) → Kind → Type 0
SamePrecise host other t f g a b source k =
    (rt_allocate_precise other k a t ≡ rt_allocate_precise host k a t)
    × (rt_cons_precise other f a b t ≡ rt_cons_precise host f a b t)
    × (rt_make_symbol_precise other f a t ≡ rt_make_symbol_precise host f a t)
    × (rt_make_package_precise other f a t ≡ rt_make_package_precise host f a t)
    × (rt_make_closure_precise other f a b t ≡ rt_make_closure_precise host f a b t)
    × (rt_make_string_precise other a b t ≡ rt_make_string_precise host a b t)
    × (rt_make_string_from_bytes_precise other source a t
        ≡ rt_make_string_from_bytes_precise host source a t)
    × (rt_intern_precise other f g a b t ≡ rt_intern_precise host f g a b t)

precise-with_stack :
    (host : Host) (marker : ℕ) (platform : Option ℕ) (t : Runtime) (f g : Frame) (a b : ℕ)
    (source : Option (List ℕ)) (k : Kind)
    → SamePrecise host (with_stack host marker platform) t f g a b source k
unfolding allocate_object make_room new_object collect_objects scan_part make_cons make_symbol
    make_package make_closure make_string copy_string_bytes intern_new intern_symbol
    rt_allocate_precise rt_cons_precise rt_make_symbol_precise rt_make_package_precise
    rt_make_closure_precise rt_make_string_precise rt_make_string_from_bytes_precise
    rt_intern_precise
precise-with_stack host marker platform t f g a b (some source) k =
    (refl, refl, refl, refl, refl, refl, refl, refl)
precise-with_stack host marker platform t f g a b none k =
    (refl, refl, refl, refl, refl, refl, refl, refl)

-- The constructors in `s` do what the precise ones do once the stack top is remembered.
abbrev pub Remembers : Host → Runtime → ℕ → Frame → ℕ → ℕ → Option (List ℕ) → Kind → Type 0
Remembers host s top f a b source k =
    let s' = with_top s top in
    (rt_allocate host k a s ≡ rt_allocate_precise host k a s')
    × (rt_cons host f a b s ≡ rt_cons_precise host f a b s')
    × (rt_make_symbol host f a s ≡ rt_make_symbol_precise host f a s')
    × (rt_make_package host f a s ≡ rt_make_package_precise host f a s')
    × (rt_make_closure host f a b s ≡ rt_make_closure_precise host f a b s')
    × (rt_make_string host a b s ≡ rt_make_string_precise host a b s')
    × (rt_make_string_from_bytes host source a s
        ≡ rt_make_string_from_bytes_precise host source a s')

-- In any state `t`, full or not, the eight precise constructors of the interface give the same answer
-- or abort and the same state behind it whatever the address of the marker on the stack and the
-- platform's stack top are. In a state `s` whose heap is below the limit and where the stack top is
-- known, the other forms of all of these but rt_intern do what the precise form does once the stack
-- top is remembered.
pub constructors-with_top :
    (host : Host) (marker : ℕ) (platform : Option ℕ) (t s : Runtime) (top : ℕ) (f g : Frame)
    (a b : ℕ) (source : Option (List ℕ)) (k : Kind)
    → top_of host s ≡ some top
    → leb s.collection_limit s.object_count ≡ false
    → SamePrecise host (with_stack host marker platform) t f g a b source k
      × Remembers host s top f a b source k
unfolding rt_allocate rt_allocate_precise
constructors-with_top host marker platform t s top f g a b source k known room = (
  precise-with_stack host marker platform t f g a b source k,
  (
    allocate_object-with_top host s top known room k a,
    rt_cons-with_top host s top known room f a b,
    rt_make_symbol-with_top host s top known room f a,
    rt_make_package-with_top host s top known room f a,
    rt_make_closure-with_top host s top known room f a b,
    rt_make_string-with_top host s top known room a b,
    rt_make_string_from_bytes-with_top host s top known room source a,
  ),
)
