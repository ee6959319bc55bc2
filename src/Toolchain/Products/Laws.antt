-- ===== src/Toolchain/Products/Laws.antt =====
-- What making and linking the files of an artifact leaves of the host.
use portable_systems_lisp.Base.{
  ℕ, ◌+◌, ◌*◌, refl, Option, List, ◌∷◌, ◌++◌, ◌==◌, if◌then◌else◌, length, inl, inr, Bool-cases,
  arith,
}
use portable_systems_lisp.Toolchain.Tools.{ascii}
use portable_systems_lisp.Toolchain.Paths.{slash, format_path_lem}
use portable_systems_lisp.Toolchain.Actions.{Action, System, write_object, compile_sources}
use portable_systems_lisp.Toolchain.History.{Extends, here, next, Extends-trans}
use portable_systems_lisp.Toolchain.Local.{
  write_object-local, local, compile_sources-local, compile_runtime-local,
}
use portable_systems_lisp.Toolchain.Merge.Quiet.{Move}
use portable_systems_lisp.Toolchain.Publish.{
  Publishes, local-Publishes, Publishes-after, Publishes-rename,
}
use portable_systems_lisp.Toolchain.Freestanding.{Request}
use portable_systems_lisp.Toolchain.Products.{
  runtime_module_count, compile_runtime, runtime_directory_of, pic_runtime, link_items,
  link_command, link_items_to, link_products,
}

link_items_to-Publishes :
    (sys : System) (r : Request) (compiler output path : List ℕ) (items : List (Option (List ℕ)))
    (h : List Action)
    → Publishes sys
        (output, path)
        h
        (link_items_to sys r compiler output path items h).0
        (link_items_to sys r compiler output path items h).1
unfolding link_items_to
link_items_to-Publishes sys r compiler output path items h =
    let move : Move = (output, path) in
    let first =
      Action.allocate ((1 + length r.inputs + length r.sources + runtime_module_count) * 8) in
    let extra : ℕ = if r.kind == 1 then 4 else 10 in
    let second = Action.allocate ((length items + extra) * 8) in
    let link = Action.run (link_command r compiler output items) in
    let listed : Extends local h (first ∷ h) = next _ refl here in
    let ready : Extends local h (second ∷ first ∷ h) = next _ refl listed in
    let ran : Extends local h (link ∷ second ∷ first ∷ h) = next _ refl ready in
    elim (Bool-cases (sys.succeeds h first)) [
      | inr none_left ↦ rw none_left (local-Publishes sys move listed)
      | inl list ↦ elim (Bool-cases (sys.succeeds (first ∷ h) second)) [
        | inr none_left ↦ rw (list, none_left) (local-Publishes sys move ready)
        | inl vector ↦ elim (Bool-cases (sys.succeeds (second ∷ first ∷ h) link)) [
          | inr failed ↦ rw (list, vector, failed) (local-Publishes sys move ran)
          | inl linked ↦
              rw (list, vector, linked)
                (Publishes-after sys move _ ran (Publishes-rename sys output path _))
        ]
      ]
    ]

pub link_products-Publishes :
    (sys : System) (r : Request)
    (compiler path object directory stage_directory stage_name : List ℕ) (h : List Action)
    → Publishes sys
        (stage_directory ++ slash ∷ stage_name, path)
        h
        (link_products sys r compiler path object directory stage_directory stage_name h).0.ok
        (link_products sys r compiler path object directory stage_directory stage_name h).1
unfolding link_products
link_products-Publishes sys r compiler path object directory stage_directory stage_name h =
    let psl = directory ++ slash ∷ ascii "psl.o" in
    let output = stage_directory ++ slash ∷ stage_name in
    let move : Move = (output, path) in
    let fits = format_path_lem 64 directory (ascii "psl.o") (omega arith) in
    let fits' = format_path_lem (length stage_name + 2) stage_directory stage_name (omega arith) in
    let h₁ = (write_object sys psl object h).1 in
    let (compiled, h₂) = compile_sources sys compiler directory r.target 0 r.sources h₁ in
    let (runtime, h₃) =
      compile_runtime sys compiler directory (runtime_directory_of sys) r.target r.runtime_modules
        (pic_runtime r) 0 runtime_module_count h₂ in
    let wrote_it = write_object-local sys psl object h in
    let compiled_it =
      Extends-trans wrote_it
        (compile_sources-local sys compiler directory r.target r.sources 0 h₁) in
    let runtime_there = Extends-trans compiled_it (
      compile_runtime-local sys compiler directory (runtime_directory_of sys) r.target
        r.runtime_modules (pic_runtime r) runtime_module_count 0 h₂) in
    elim (Bool-cases (write_object sys psl object h).0) [
      | inr failed ↦ rw (fits, fits', failed) (local-Publishes sys move wrote_it)
      | inl wrote ↦ elim (Bool-cases compiled.0) [
        | inr failed ↦ rw (fits, fits', wrote, failed) (local-Publishes sys move compiled_it)
        | inl c ↦ elim (Bool-cases runtime.0) [
          | inr failed ↦ rw (fits, fits', wrote, c, failed) (local-Publishes sys move runtime_there)
          | inl k ↦
              rw (fits, fits', wrote, c, k)
                (Publishes-after sys move _ runtime_there (
                  link_items_to-Publishes sys r compiler output path
                    (link_items psl runtime.1 compiled.1 r.inputs) h₃))
        ]
      ]
    ]
