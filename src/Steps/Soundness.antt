-- ===== src/Steps/Soundness.antt =====
-- The invariant along the steps of a client.
use portable_systems_lisp.Base.{
  ℕ, ◌≡◌, refl, Bool, true, false, not, Option, none, some, List, [], ◌∷◌, arith,
}
use portable_systems_lisp.Outcome.{ok}
use portable_systems_lisp.Machine.{Runtime, Host}
use portable_systems_lisp.Gc.{collect_precise, collect}
use portable_systems_lisp.Gc.Collect.{Collected, collect_lem, collect_precise_lem}
use portable_systems_lisp.Gc.Reach.{IsHeap, root_words}
use portable_systems_lisp.Frames.{Frame}
use portable_systems_lisp.Frames.Apart.{IsFresh, framed, IsHeap-framed}
use portable_systems_lisp.Cons.Laws.{make_cons_lem}
use portable_systems_lisp.Closures.Laws.{make_closure_lem}
use portable_systems_lisp.Text.Make.{make_string_lem}
use portable_systems_lisp.Text.Copy.{copy_string_bytes_lem}
use portable_systems_lisp.Text.Laws.{IsString, string_set_byte-set}
use portable_systems_lisp.Symbols.{intern_symbol, after_search}
use portable_systems_lisp.Symbols.Chain.{IsFirst}
use portable_systems_lisp.Symbols.Intern.{IsPackage, intern_symbol-cases}
use portable_systems_lisp.Symbols.Fresh.{intern_symbol-new}
use portable_systems_lisp.Symbols.Laws.{make_symbol_lem, make_package_lem}
use portable_systems_lisp.Vector.Filled.{make_value_vector_lem}
use portable_systems_lisp.Vector.Push.{value_vector_push_lem}
use portable_systems_lisp.Vector.Laws.{value_vector_set-set}
use portable_systems_lisp.Steps.Sound.{IsSound, IsSound-heap}
use portable_systems_lisp.Steps.Registries.{
  Leaves-collect_objects, Leaves-make_cons, Leaves-make_closure, Leaves-make_symbol,
  Leaves-make_package, Leaves-make_string, Leaves-copy_string_bytes, Leaves-string_set_byte,
}
use portable_systems_lisp.Steps.Registries.Containers.{
  Leaves-intern_symbol, Leaves-make_value_vector, Leaves-value_vector_set, Leaves-value_vector_push,
}
use portable_systems_lisp.Steps.Outside.{
  push_roots-IsSound, pop_roots-IsSound, store-IsSound, value_handle_open-IsSound,
  value_handle_set-IsSound, value_handle_close-IsSound, values2-IsSound,
}
use portable_systems_lisp.Steps.Step.{
  Serves, can_construct, Step, collect_precisely, collect_stack, push_frame, pop_frame,
  client_store, new_cons, new_closure, new_symbol, new_package, intern, new_string, copied_string,
  set_byte, new_vector, set_item, push_item, open_handle, set_handle, close_handle, two_values,
  at_start, Reachable, here, later,
}

-- Interning leaves a well-formed heap, whether the package has the name or not.
intern_symbol-IsHeap :
    (host : Host) (f g : Frame) (owner name : ℕ) (precise : Bool) (s : Runtime)
    (es : List (ℕ × List ℕ)) (bs : List ℕ) (h : IsHeap s)
    → IsPackage s owner es
    → IsString s name bs
    → IsFresh f 2 s
    → Serves host g (name ∷ []) (framed f (owner ∷ name ∷ []) s) (not precise)
    → (a : ℕ) × (t : Runtime) × (intern_symbol host f g owner name precise s ≡ ok (a, t)) × IsHeap t
intern_symbol-IsHeap host f g owner name precise s es bs h p n fresh serves =
    let (found, first, e) = intern_symbol-cases host f g owner name precise s es bs h p n in
    settle found first e
  where
    settle :
        (found : Option ℕ)
        → IsFirst bs es found
        → intern_symbol host f g owner name precise s
          ≡ after_search host f g owner name precise found s
        → (a : ℕ) × (t : Runtime) × (intern_symbol host f g owner name precise s ≡ ok (a, t))
          × IsHeap t
    settle none unknown e =
        let framed_heap = IsHeap-framed f (owner ∷ name ∷ []) s h in
        let c = can_construct host g (name ∷ []) _ (not precise) framed_heap serves in
        let (t, made, i) =
          intern_symbol-new host f g owner name precise s es bs h p n fresh c unknown in
        (host.calloc, t, made, i.heap)
    settle (some a) first e = (a, s, e, h)

pub Step-IsSound : {s s' : Runtime} → Step s s' → IsSound s → IsSound s'
unfolding collect_precise collect
Step-IsSound {s} {s'} (collect_precisely host memory ran) sound =
    let (t, e, c) = collect_precise_lem host s memory sound.heap in
    IsSound-heap _ tt tt s s' t (Leaves-collect_objects host false) sound ran e c.heap
Step-IsSound {s} {s'} (collect_stack host top memory known below ran) sound =
    let (t, e, c) = collect_lem host s top memory known below sound.heap in
    IsSound-heap _ tt tt s s' t (Leaves-collect_objects host true) sound ran e c.heap
Step-IsSound {s} {s'} (push_frame root values count ran) sound =
    push_roots-IsSound root values count s s' ran sound
Step-IsSound {s} {s'} (pop_frame root ran) sound = pop_roots-IsSound root s s' ran sound
Step-IsSound {s} {s'} (client_store a v ran) sound = store-IsSound a v s s' ran sound
Step-IsSound {s} {s'} (new_cons host f first rest answer precise serves ran) sound =
    let c = can_construct host f _ s (not precise) sound.heap serves in
    let (t, e, made) = make_cons_lem host f first rest precise s c in
    IsSound-heap _ answer _ s s' t (Leaves-make_cons host f first rest precise) sound ran e
      made.heap
Step-IsSound {s} {s'} (new_closure host f code env answer precise ne serves ran) sound =
    let c = can_construct host f _ s (not precise) sound.heap serves in
    let (t, e, made) = make_closure_lem host f code env precise s ne c in
    IsSound-heap _ answer _ s s' t (Leaves-make_closure host f code env precise) sound ran e
      made.heap
Step-IsSound {s} {s'} (new_symbol host f name answer precise o held kind serves ran) sound =
    let c = can_construct host f _ s (not precise) sound.heap serves in
    let (t, e, made, named) = make_symbol_lem host f name precise s o held kind c in
    IsSound-heap _ answer _ s s' t (Leaves-make_symbol host f name precise) sound ran e made.heap
Step-IsSound {s} {s'} (new_package host f name answer precise o held kind serves ran) sound =
    let c = can_construct host f _ s (not precise) sound.heap serves in
    let (t, e, made, named) = make_package_lem host f name precise s o held kind c in
    IsSound-heap _ answer _ s s' t (Leaves-make_package host f name precise) sound ran e made.heap
Step-IsSound {s} {s'} (intern host f g owner name answer precise es bs p n fresh serves ran) sound =
    let (a, t, e, heap) =
      intern_symbol-IsHeap host f g owner name precise s es bs sound.heap p n fresh serves in
    IsSound-heap _ answer a s s' t (Leaves-intern_symbol host f g owner name precise) sound ran e
      heap
Step-IsSound {s} {s'} (new_string host size byte answer precise fits can block ran) sound =
    let (t, e, made) = make_string_lem host size byte precise s fits can block sound.heap in
    IsSound-heap _ answer _ s s' t (Leaves-make_string host size byte precise) sound ran e made.heap
Step-IsSound {s} {s'} (copied_string host source size answer precise enough fits can block ran)
      sound =
    let (t, e, made) =
      copy_string_bytes_lem host source size precise s enough fits can block sound.heap in
    IsSound-heap _ answer _ s s' t (Leaves-copy_string_bytes host (some source) size precise) sound
      ran e made.heap
Step-IsSound {s} {s'} (set_byte value index byte bs v inside ran) sound =
    let (t, e, heap, rest, written, outside, others) =
      string_set_byte-set s sound.heap value bs v index byte inside in
    IsSound-heap _ tt tt s s' t (Leaves-string_set_byte value index byte) sound ran e heap
Step-IsSound {s} {s'} (new_vector host host' f size initial answer serves small memory block ran)
      sound =
    let c = can_construct host f _ s false sound.heap serves in
    let (t, e, heap, rest, roots) =
      make_value_vector_lem host host' f size initial s c small memory block in
    IsSound-heap _ answer _ s s' t (Leaves-make_value_vector host host' f size initial) sound ran e
      heap
Step-IsSound {s} {s'} (set_item value index item answer xs v inside ran) sound =
    let (t, e, heap, rest, others) =
      value_vector_set-set s sound.heap value xs v index item inside in
    IsSound-heap _ answer _ s s' t (Leaves-value_vector_set value index item) sound ran e heap
Step-IsSound {s} {s'} (push_item host f value item answer xs serves v fits ran) sound =
    let c = can_construct host f _ s false sound.heap serves in
    let (t, e, pushed) = value_vector_push_lem host f value item xs s c v fits in
    IsSound-heap _ answer _ s s' t (Leaves-value_vector_push host f value item) sound ran e
      pushed.heap
Step-IsSound {s} {s'} (open_handle host token memory more ran) sound =
    value_handle_open-IsSound host s s' token memory more ran sound
Step-IsSound {s} {s'} (set_handle token value known ran) sound =
    value_handle_set-IsSound token value s s' known ran sound
Step-IsSound {s} {s'} (close_handle token known ran) sound =
    value_handle_close-IsSound token s s' known ran sound
Step-IsSound {s} {s'} (two_values host root first second answer can ran) sound =
    values2-IsSound host root first second answer s s' can ran sound

at_start-IsSound : (memory : ℕ → ℕ) (current : ℕ) → IsSound (at_start memory current)
at_start-IsSound memory current = record {
  heap = record { distinct = tt; aligned = tt; unmarked = tt; sized = tt; counted = refl };
  registry = record { distinct = tt; issued = tt; next = omega arith; counted = refl };
  values = λ done. cc;
}

-- Whatever calls a client makes from the first one on, within the interface's conditions and as long
-- as the host gives memory: the object list has distinct aligned addresses, its objects are unmarked
-- and sized, and it is counted; the handles have distinct tokens below the next one, and are counted;
-- and once the multiple values are initialized their array is rooted.
pub Reachable-IsSound :
    (memory : ℕ → ℕ) (current : ℕ) (s : Runtime) → Reachable (at_start memory current) s → IsSound s
Reachable-IsSound memory current s here = at_start-IsSound memory current
Reachable-IsSound memory current s (later {t} before step) =
    Step-IsSound step (Reachable-IsSound memory current t before)

-- From every state that calls reach, on a host with memory, a precise collection returns; it keeps
-- exactly the objects that the registered roots reach, and calls may go on from its result.
pub Reachable-collects :
    (memory : ℕ → ℕ) (current : ℕ) (s : Runtime) (host : Host)
    → Reachable (at_start memory current) s
    → host.malloc ≡ true
    → (s' : Runtime) × (collect_precise host s ≡ ok (tt, s'))
      × Collected (root_words s) s s'
      × Reachable (at_start memory current) s'
Reachable-collects memory current s host reached ready =
    let sound = Reachable-IsSound memory current s reached in
    let (s', e, c) = collect_precise_lem host s ready sound.heap in
    (s', e, c, later reached (collect_precisely host ready e))
