-- ===== src/Toolchain/Products.antt =====
-- The steps of native_host_link_artifact that make its files: the objects of the C sources and of the
-- runtime modules, and the link of these with the inputs; and what removes them again. `kind` is 0
-- for a program, 1 for an archive, 2 for a shared library.
pub mod Laws
use portable_systems_lisp.Base.{
  ℕ, zero, suc, ◌+◌, ◌-◌, ◌*◌, ◌^◌, Bool, true, false, not, ◌&&◌, ◌||◌, Option, none, some, List,
  [], ◌∷◌, ◌++◌, ◌==◌, ltb, leb, if◌then◌else◌, is_some, length, take, replicate, bit_and, map,
}
use portable_systems_lisp.Machine.{size_max}
use portable_systems_lisp.Toolchain.Tools.{
  ascii, target_compiler, target_archiver, x86_64_windows, x86_64_none, riscv64_none,
}
use portable_systems_lisp.Toolchain.Modules.{runtime_filename, runtime_bit}
use portable_systems_lisp.Toolchain.Paths.{slash, empty, output_file_name, format_path}
use portable_systems_lisp.Toolchain.Actions.{
  Action, System, Run, ◌>>=◌, ◌>>◌, answer, perform, write_object, output_temporary_directory,
  no_objects, compile_sources, decimal,
}
use portable_systems_lisp.Toolchain.Merge.{until_null, unlink_objects, unlink_path}
use portable_systems_lisp.Toolchain.Inputs.{valid_link_inputs, compile_link_object}
use portable_systems_lisp.Toolchain.Freestanding.{Request, rmdir, link_freestanding}

-- NATIVE_RUNTIME_MODULE_COUNT
abbrev pub runtime_module_count : ℕ
runtime_module_count = 11

-- The file of a runtime module that is asked for.
unfoldable pub selected_module : ℕ → ℕ → ℕ → Option (List ℕ)
unfolding runtime_bit runtime_filename
selected_module modules target index =
    if bit_and modules (runtime_bit index) == 0 then none else runtime_filename index target

-- The name of the object of a runtime module, and the buffer of `capacity` bytes that holds it.
abbrev pub runtime_object : List ℕ → ℕ → List ℕ
runtime_object directory index = directory ++ ascii "/runtime-" ++ decimal index ++ ascii ".o"

-- What the loops fill, and how far they came.
abbrev pub Compiled : Type 0
Compiled = Bool × List (Option (List ℕ))

-- The loop over the runtime modules from `index` on, with the rounds that are left: its result and
-- the array of object paths.
unfoldable pub compile_runtime :
    System → List ℕ → List ℕ → List ℕ → ℕ → ℕ → Bool → ℕ → ℕ → Run Compiled
unfolding selected_module
compile_runtime sys compiler directory runtime_directory target modules pic index zero =
    answer (true, [])
compile_runtime sys compiler directory runtime_directory target modules pic index (suc rounds) =
    elim (selected_module modules target index) as (λ _. Run Compiled) [
      | none ↦ do
        rest ←
            compile_runtime sys compiler directory runtime_directory target modules pic (index + 1)
              rounds
        answer (rest.0, none ∷ rest.1)
      | some filename ↦ do
        let capacity = length directory + 64
        let source = runtime_directory ++ slash ∷ filename
        let object = take (capacity - 1) (runtime_object directory index)
        source_path ← perform sys (Action.allocate (length source + 1))
        object_path ← perform sys (Action.allocate capacity)
        if not (source_path && object_path)
            then answer (false, (if object_path then some [] else none) ∷ replicate rounds none)
            else do
              compiled ← compile_link_object sys compiler source object pic
              if not compiled then answer (false, some object ∷ replicate rounds none) else do
                rest ←
                    compile_runtime sys compiler directory runtime_directory target modules pic
                      (index + 1) rounds
                answer (rest.0, some object ∷ rest.1)
    ]

-- PSL_RUNTIME_DIR, or the directory runtime.
abbrev pub runtime_directory_of : System → List ℕ
runtime_directory_of sys = elim (sys.getenv (ascii "PSL_RUNTIME_DIR")) [
  | none ↦ ascii "runtime"
  | some directory ↦ if empty directory then ascii "runtime" else directory
]

-- The entries of an array that are not NULL.
unfoldable pub present : List (Option (List ℕ)) → List (Option (List ℕ))
present [] = []
present (none ∷ rest) = present rest
present (some path ∷ rest) = some path ∷ present rest

-- The items of `link_objects`: the program's object, the runtime, the C sources and the inputs.
abbrev pub link_items :
    List ℕ
    → List (Option (List ℕ))
    → List (Option (List ℕ))
    → List (Option (List ℕ))
    → List (Option (List ℕ))
link_items psl runtime objects inputs = some psl ∷ (present runtime ++ objects ++ inputs)

abbrev pub archive_arguments : List ℕ → List ℕ → List (Option (List ℕ)) → List (List ℕ)
archive_arguments archiver output items = archiver ∷ ascii "rcsD" ∷ output ∷ until_null items

abbrev pub program_arguments : List ℕ → ℕ → ℕ → ℕ → List ℕ → List (Option (List ℕ)) → List (List ℕ)
program_arguments compiler target kind modules output items =
    compiler
    ∷ ((if not (modules == 0) && not (target == x86_64_windows) then ascii "-pthread" ∷ [] else [])
        ++ ((if not (target == x86_64_windows)
              then []
              else if kind == 2
              then ascii "-Wl,--disable-auto-image-base,--no-insert-timestamp" ∷ []
              else if kind == 0
              then ascii "-Wl,--no-insert-timestamp" ∷ []
              else [])
            ++ ((if kind == 2 then ascii "-shared" ∷ [] else [])
                ++ ascii "-o" ∷ output ∷ until_null items)))

-- The command that makes the artifact; none where an archive has no archiver.
abbrev pub link_command : Request → List ℕ → List ℕ → List (Option (List ℕ)) → List (List ℕ)
link_command r compiler output items =
    if r.kind == 1
    then elim (target_archiver r.target) [
      | none ↦ []
      | some archiver ↦ archive_arguments archiver output items
    ]
    else program_arguments compiler r.target r.kind r.runtime_modules output items

-- The link itself and the rename of its result.
unfoldable pub link_items_to :
    System → Request → List ℕ → List ℕ → List ℕ → List (Option (List ℕ)) → Run Bool
link_items_to sys r compiler output path items = do
  let item_count = 1 + length r.inputs + length r.sources + runtime_module_count
  link_objects ← perform sys (Action.allocate (item_count * 8))
  if not link_objects then answer false else do
    let extra : ℕ = if r.kind == 1 then 4 else 10
    arguments ← perform sys (Action.allocate ((length items + extra) * 8))
    if not arguments then answer false else do
      linked ← perform sys (Action.run (link_command r compiler output items))
      if not linked then answer false else perform sys (Action.rename output path)

-- What the cleanup looks at: the arrays of object paths and the buffers, NULL where one was not
-- allocated. A NULL array is an empty one here.
pub record Product : Type 0 where
  pub ok : Bool
  pub objects : List (Option (List ℕ))
  pub runtime_objects : List (Option (List ℕ))
  pub psl_object : Option (List ℕ)
  pub stage_output : Option (List ℕ)

-- What stands behind the label `cleanup`.
unfoldable pub artifact_cleanup : System → Product → Option (List ℕ) → Option (List ℕ) → Run Bool
artifact_cleanup sys p directory stage_directory = do
  unlink_objects sys p.objects
  unlink_objects sys p.runtime_objects
  unlink_path sys p.psl_object
  unlink_path sys p.stage_output
  rmdir sys directory
  rmdir sys stage_directory
  answer p.ok

abbrev pub pic_runtime : Request → Bool
pic_runtime r = (r.kind == 2) || not (r.target == x86_64_windows)

abbrev pub product :
    List ℕ → List ℕ → Bool → List (Option (List ℕ)) → List (Option (List ℕ)) → Product
product psl output ok objects runtime = record {
  ok = ok;
  objects = objects;
  runtime_objects = runtime;
  psl_object = some psl;
  stage_output = some output;
}

-- The steps that need all the buffers, up to the first that fails.
unfoldable pub link_products :
    System → Request → List ℕ → List ℕ → List ℕ → List ℕ → List ℕ → List ℕ → Run Product
link_products sys r compiler path object directory stage_directory stage_name = do
  let psl = format_path (length directory + 64) directory (ascii "psl.o")
  let output =
      format_path (length stage_directory + (length stage_name + 2)) stage_directory stage_name
  let none_yet = replicate runtime_module_count none
  if not psl.0
      then answer (product psl.1 [] false (no_objects r.sources) none_yet)
      else if not output.0
      then answer (product psl.1 output.1 false (no_objects r.sources) none_yet)
      else do
        wrote ← write_object sys psl.1 object
        if not wrote
            then answer (product psl.1 output.1 false (no_objects r.sources) none_yet)
            else do
              compiled ← compile_sources sys compiler directory r.target 0 r.sources
              if not compiled.0
                  then answer (product psl.1 output.1 false compiled.1 none_yet)
                  else do
                    runtime ←
                        compile_runtime sys compiler directory (runtime_directory_of sys) r.target
                          r.runtime_modules (pic_runtime r) 0 runtime_module_count
                    if not runtime.0
                        then answer (product psl.1 output.1 false compiled.1 runtime.1)
                        else do
                          linked ←
                              link_items_to sys r compiler output.1 path
                                (link_items psl.1 runtime.1 compiled.1 r.inputs)
                          answer (product psl.1 output.1 linked compiled.1 runtime.1)
