-- ===== src/Toolchain/Artifact.antt =====
-- native_host_link_artifact: a program, an archive or a shared library for a hosted target is made of
-- the object, the C sources, the runtime modules and the inputs in two temporary directories beside
-- the output, and renamed to it; the freestanding targets are passed on to link_freestanding.
pub mod Steps
pub mod Laws
use portable_systems_lisp.Base.{
  ℕ, ◌+◌, ◌-◌, ◌*◌, ◌^◌, Bool, true, false, not, ◌&&◌, ◌||◌, Option, none, some, List, [], ◌∷◌,
  ◌==◌, ltb, if◌then◌else◌, is_some, length, replicate, bit_and,
}
use portable_systems_lisp.Machine.{size_max}
use portable_systems_lisp.Toolchain.Tools.{
  ascii, target_compiler, target_archiver, x86_64_windows, x86_64_none, riscv64_none,
}
use portable_systems_lisp.Toolchain.Paths.{output_file_name}
use portable_systems_lisp.Toolchain.Actions.{
  Action, System, Run, ◌>>=◌, ◌>>◌, answer, perform, output_temporary_directory, no_objects,
}
use portable_systems_lisp.Toolchain.Inputs.{valid_link_inputs}
use portable_systems_lisp.Toolchain.Freestanding.{Request, rmdir, link_freestanding}
use portable_systems_lisp.Toolchain.Products.{
  runtime_module_count, Product, artifact_cleanup, link_products,
}

-- The name of the artifact in the staging directory.
abbrev pub stage_name_of : Request → List ℕ → List ℕ
stage_name_of r requested_name =
    if r.kind == 1
    then ascii "artifact.a"
    else if (r.target == x86_64_windows) && (r.kind == 0)
    then ascii "artifact.exe"
    else requested_name

-- The number of elements in the array of the C sources' objects, one where there is no source.
abbrev pub source_room : Request → ℕ
source_room r = if length r.sources == 0 then 1 else length r.sources

-- What was allocated when not everything was.
abbrev pub unallocated : Request → Bool → Bool → Bool → Bool → Product
unallocated r psl objects runtime output = record {
  ok = false;
  objects = if objects then no_objects r.sources else [];
  runtime_objects = if runtime then replicate runtime_module_count none else [];
  psl_object = if psl then some [] else none;
  stage_output = if output then some [] else none;
}

-- The allocation of the buffers, and the steps that fill them where all are there.
unfoldable pub products_in :
    System → Request → List ℕ → List ℕ → List ℕ → List ℕ → List ℕ → List ℕ → Run Product
products_in sys r compiler path object directory stage_directory stage_name = do
  psl ← perform sys (Action.allocate (length directory + 64))
  objects ← perform sys (Action.allocate (source_room r * 8))
  runtime ← perform sys (Action.allocate (runtime_module_count * 8))
  if ltb (size_max - length stage_name - 2) (length stage_directory)
      then answer (unallocated r psl objects runtime false)
      else do
        output ← perform sys (Action.allocate (length stage_directory + length stage_name + 2))
        if not (psl && objects && runtime && output)
            then answer (unallocated r psl objects runtime output)
            else link_products sys r compiler path object directory stage_directory stage_name

-- The steps in the two directories and the cleanup, or the cleanup alone where one was not made.
unfoldable pub link_between :
    System
    → Request
    → List ℕ
    → List ℕ
    → List ℕ
    → List ℕ
    → Option (List ℕ)
    → Option (List ℕ)
    → Run Bool
link_between sys r compiler path object stage_name (some d) (some s) = do
  p ← products_in sys r compiler path object d s stage_name
  artifact_cleanup sys p (some d) (some s)
link_between sys r compiler path object stage_name (some d) none =
    rmdir sys (some d) >> answer false
link_between sys r compiler path object stage_name none (some s) =
    rmdir sys (some s) >> answer false
link_between sys r compiler path object stage_name none none = answer false

unfoldable pub artifact_in : System → Request → List ℕ → List ℕ → List ℕ → List ℕ → Run Bool
artifact_in sys r compiler path object stage_name = do
  directory ← output_temporary_directory sys (some path)
  stage_directory ← output_temporary_directory sys (some path)
  link_between sys r compiler path object stage_name directory stage_directory

-- The requests that a hosted link refuses, those without a path, an object or a compiler aside.
unfoldable pub artifact_refused : Request → Bool
artifact_refused r =
    ltb 2 r.kind
    || (not (length r.inputs == 0) && not r.has_inputs)
    || ((r.kind == 1) && not (is_some (target_archiver r.target)))
    || not (bit_and r.runtime_modules (2 ^ 64 - 2 ^ runtime_module_count) == 0)

-- The tests that follow those for NULL.
unfoldable pub artifact_checked : System → Request → List ℕ → List ℕ → List ℕ → List ℕ → Run Bool
artifact_checked sys r compiler path object requested_name =
    if artifact_refused r then answer false else do
      valid ← valid_link_inputs sys r.inputs r.kind r.target
      if not valid
          then answer false
          else artifact_in sys r compiler path object (stage_name_of r requested_name)

abbrev pub artifact_given :
    System
    → Request
    → Option (List ℕ)
    → Option (List ℕ)
    → Option (List ℕ)
    → Option (List ℕ)
    → Run Bool
artifact_given sys r (some path) (some object) (some compiler) (some requested_name) =
    artifact_checked sys r compiler path object requested_name
artifact_given sys r _ _ _ _ = answer false

-- native_host_link_artifact
unfoldable pub link_artifact : System → Request → Run Bool
link_artifact sys r =
    if (r.target == x86_64_none) || (r.target == riscv64_none)
    then link_freestanding sys r
    else artifact_given sys r r.path r.object (target_compiler r.target) (output_file_name r.path)
