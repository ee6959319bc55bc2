-- ===== src/Toolchain/Commands/Files.antt =====
-- The items and the command of a hosted link, in native_host_link_artifact, against the files and the
-- line that the request asks for.
use portable_systems_lisp.Base.{
  ℕ, ◌+◌, zero, suc, ◌≡◌, refl, ◌∙◌, ap, Option, none, some, List, [], ◌∷◌, ◌++◌, ◌==◌, inl, inr,
  Bool-cases, Option-cases,
}
use mathlib.Core.List.{append_assoc}
use portable_systems_lisp.Toolchain.Tools.{ascii, x86_64_windows, target_archiver}
use portable_systems_lisp.Toolchain.Paths.{slash}
use portable_systems_lisp.Toolchain.Merge.{until_null}
use portable_systems_lisp.Toolchain.Freestanding.{Request}
use portable_systems_lisp.Toolchain.Products.{present, link_items, link_command}
use portable_systems_lisp.Toolchain.Commands.{
  asked_module, source_object, source_objects, module_object, runtime_objects, module_files,
  source_files, input_files, files, link_line,
}

until_null-inputs : (inputs : List (Option (List ℕ))) → until_null inputs ≡ input_files inputs
unfolding until_null
until_null-inputs [] = refl
until_null-inputs (none ∷ inputs) = refl
until_null-inputs (some path ∷ inputs) = ap (λ rest. path ∷ rest) (until_null-inputs inputs)

until_null-sources :
    (directory : List ℕ) (index : ℕ) (sources : List (List ℕ)) (rest : List (Option (List ℕ)))
    → until_null (source_objects directory index sources ++ rest)
      ≡ source_files directory index sources ++ until_null rest
unfolding until_null
until_null-sources directory index [] rest = refl
until_null-sources directory index (source ∷ sources) rest =
    ap (λ others. source_object directory index ∷ others)
      (until_null-sources directory (index + 1) sources rest)

until_null-modules :
    (directory : List ℕ) (target modules index rounds : ℕ) (rest : List (Option (List ℕ)))
    → until_null (present (runtime_objects directory target modules index rounds) ++ rest)
      ≡ module_files directory target modules index rounds ++ until_null rest
unfolding until_null present
until_null-modules directory target modules index zero rest = refl
until_null-modules directory target modules index (suc rounds) rest =
    let more = until_null-modules directory target modules (index + 1) rounds rest in
    elim (Option-cases (asked_module modules target index)) [
      | inl left_out ↦ rw left_out more
      | inr (filename, chosen) ↦
          rw chosen (ap (λ others. module_object directory index ∷ others) more)
    ]

-- The items of any arrays.
link_items-append :
    (psl : List ℕ) (modules objects inputs : List (Option (List ℕ)))
    → until_null (link_items psl modules objects inputs)
      ≡ psl ∷ until_null (present modules ++ (objects ++ inputs))
unfolding until_null
link_items-append psl modules objects inputs =
    ap (λ items. psl ∷ until_null items) (append_assoc (present modules) objects inputs)

-- The items are the files that are to be joined, in their order.
pub link_items_lem :
    (r : Request) (directory : List ℕ)
    → until_null (
        link_items
          (directory ++ slash ∷ ascii "psl.o")
          (runtime_objects directory r.target r.runtime_modules 0 11)
          (source_objects directory 0 r.sources)
          r.inputs)
      ≡ files r directory
link_items_lem r directory =
    let psl = directory ++ slash ∷ ascii "psl.o" in
    let modules = runtime_objects directory r.target r.runtime_modules 0 11 in
    let objects = source_objects directory 0 r.sources in
    let others = source_files directory 0 r.sources in
    link_items-append psl modules objects r.inputs
    ∙ ap (λ rest. psl ∷ rest)
        (until_null-modules directory r.target r.runtime_modules 0 11 (objects ++ r.inputs)
          ∙ ap (λ rest. module_files directory r.target r.runtime_modules 0 11 ++ rest)
              (until_null-sources directory 0 r.sources r.inputs
                ∙ ap (λ rest. others ++ rest) (until_null-inputs r.inputs)))

pub link_command_lem :
    (r : Request) (compiler output : List ℕ) (items : List (Option (List ℕ)))
    → link_command r compiler output items ≡ link_line r compiler output (until_null items)
link_command_lem r compiler output items = elim (Bool-cases (r.kind == 1)) [
  | inl archive ↦ elim (Option-cases (target_archiver r.target)) [
    | inl missing ↦ rw (archive, missing) refl
    | inr (archiver, e) ↦ rw (archive, e) refl
  ]
  | inr other ↦ elim (Bool-cases (r.target == x86_64_windows)) [
    | inl windows ↦ elim (Bool-cases (r.runtime_modules == 0)) [
      | inl bare ↦ elim (Bool-cases (r.kind == 2)) [
        | inl shared ↦ rw (other, windows, bare, shared) refl
        | inr program ↦ elim (Bool-cases (r.kind == 0)) [
          | inl zero_kind ↦ rw (other, windows, bare, program, zero_kind) refl
          | inr more ↦ rw (other, windows, bare, program, more) refl
        ]
      ]
      | inr hosted ↦ elim (Bool-cases (r.kind == 2)) [
        | inl shared ↦ rw (other, windows, hosted, shared) refl
        | inr program ↦ elim (Bool-cases (r.kind == 0)) [
          | inl zero_kind ↦ rw (other, windows, hosted, program, zero_kind) refl
          | inr more ↦ rw (other, windows, hosted, program, more) refl
        ]
      ]
    ]
    | inr unix ↦ elim (Bool-cases (r.runtime_modules == 0)) [
      | inl bare ↦ rw (other, unix, bare) refl
      | inr hosted ↦ rw (other, unix, hosted) refl
    ]
  ]
]
