-- ===== src/Toolchain/Merge.antt =====
-- native_host_merge_c_sources: the program's object and its C sources become one relocatable object,
-- made in a temporary directory beside the output and renamed to it.
pub mod Quiet
pub mod Laws
use portable_systems_lisp.Base.{
  ℕ, ◌+◌, ◌*◌, Bool, true, false, not, ◌&&◌, ◌||◌, Option, none, some, List, [], ◌∷◌, ◌++◌, ◌==◌,
  if◌then◌else◌, length,
}
use portable_systems_lisp.Toolchain.Tools.{ascii, target_compiler}
use portable_systems_lisp.Toolchain.Paths.{format_path}
use portable_systems_lisp.Toolchain.Actions.{
  Action, System, Run, ◌>>=◌, ◌>>◌, answer, perform, write_object, output_temporary_directory,
  no_objects, compile_sources,
}

-- The entries of an argument vector up to its first NULL.
unfoldable pub until_null : List (Option (List ℕ)) → List (List ℕ)
until_null [] = []
until_null (none ∷ rest) = []
until_null (some path ∷ rest) = path ∷ until_null rest

unfoldable pub merge_objects : System → List ℕ → List ℕ → List ℕ → List (Option (List ℕ)) → Run Bool
unfolding until_null
merge_objects sys compiler output psl objects = do
  memory ← perform sys (Action.allocate ((length objects + 6) * 8))
  if not memory
      then answer false
      else perform sys
          (Action.run (compiler ∷ ascii "-r" ∷ ascii "-o" ∷ output ∷ psl ∷ until_null objects))

unfoldable pub unlink_objects : System → List (Option (List ℕ)) → Run (Unit {0})
unlink_objects sys [] = answer tt
unlink_objects sys (none ∷ rest) = unlink_objects sys rest
unlink_objects sys (some path ∷ rest) = perform sys (Action.unlink path) >> unlink_objects sys rest

abbrev pub unlink_path : System → Option (List ℕ) → Run (Unit {0})
unlink_path sys none = answer tt
unlink_path sys (some path) = perform sys (Action.unlink path) >> answer tt

-- A NULL array of objects is an empty one here.
unfoldable pub remove_temporary_files :
    System → List (Option (List ℕ)) → Option (List ℕ) → Option (List ℕ) → List ℕ → Run (Unit {0})
unfolding unlink_objects
remove_temporary_files sys objects psl merged directory = do
  unlink_objects sys objects
  unlink_path sys psl
  unlink_path sys merged
  perform sys (Action.remove_directory directory)
  answer tt

-- What the chain of conditions has reached when it stops: its result, and the arrays to clean up.
pub record Attempt : Type 0 where
  pub ok : Bool
  pub objects : List (Option (List ℕ))
  pub psl : List ℕ
  pub merged : List ℕ

-- The chain, once the three arrays are allocated.
unfoldable pub attempt :
    System → List ℕ → List ℕ → List ℕ → List ℕ → List (List ℕ) → ℕ → Run Attempt
attempt sys compiler directory output object sources target = do
  let capacity = length directory + 10
  let psl = format_path capacity directory (ascii "psl.o")
  let merged = format_path capacity directory (ascii "merged.o")
  if not psl.0
      then answer (record { ok = false; objects = no_objects sources; psl = psl.1; merged = [] })
      else if not merged.0
      then answer
          (record { ok = false; objects = no_objects sources; psl = psl.1; merged = merged.1 })
      else do
        wrote ← write_object sys psl.1 object
        if not wrote
            then answer (record {
              ok = false;
              objects = no_objects sources;
              psl = psl.1;
              merged = merged.1;
            })
            else do
              compiled ← compile_sources sys compiler directory target 0 sources
              if not compiled.0
                  then answer
                      (record { ok = false; objects = compiled.1; psl = psl.1; merged = merged.1 })
                  else do
                    joined ← merge_objects sys compiler merged.1 psl.1 compiled.1
                    if not joined
                        then answer (record {
                          ok = false;
                          objects = compiled.1;
                          psl = psl.1;
                          merged = merged.1;
                        })
                        else do
                          renamed ← perform sys (Action.rename merged.1 output)
                          answer (record {
                            ok = renamed;
                            objects = compiled.1;
                            psl = psl.1;
                            merged = merged.1;
                          })

-- What follows the creation of the temporary directory.
unfoldable pub merge_in : System → List ℕ → List ℕ → List ℕ → List ℕ → List (List ℕ) → ℕ → Run Bool
unfolding attempt remove_temporary_files
merge_in sys compiler directory output object sources target = do
  psl ← perform sys (Action.allocate (length directory + 10))
  merged ← perform sys (Action.allocate (length directory + 10))
  objects ← perform sys (Action.allocate (length sources * 8))
  if psl && merged && objects
      then (do
        a ← attempt sys compiler directory output object sources target
        remove_temporary_files sys a.objects (some a.psl) (some a.merged) directory
        answer a.ok)
      else (do
        remove_temporary_files sys (if objects then no_objects sources else [])
            (if psl then some [] else none) (if merged then some [] else none) directory
        answer false)

-- native_host_merge_c_sources
unfoldable pub merge_c_sources : System → Option (List ℕ) → List ℕ → List (List ℕ) → ℕ → Run Bool
unfolding merge_in output_temporary_directory
merge_c_sources sys none object sources target h = (false, h)
merge_c_sources sys (some output) object sources target h = elim (target_compiler target) [
  | none ↦ (false, h)
  | some compiler ↦
      if length sources == 0
      then (false, h)
      else (let (made, h') = output_temporary_directory sys (some output) h in
          elim made [
            | none ↦ (false, h')
            | some directory ↦ merge_in sys compiler directory output object sources target h'
          ])
]
