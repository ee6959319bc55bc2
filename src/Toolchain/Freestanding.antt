-- ===== src/Toolchain/Freestanding.antt =====
-- link_freestanding: a freestanding program is linked in a temporary directory beside the output, and
-- its map in one beside the map file; both are renamed into place.
pub mod Renames
pub mod Steps
pub mod Laws
pub mod Puts
use portable_systems_lisp.Base.{
  ℕ, ◌+◌, ◌*◌, Bool, true, false, not, ◌&&◌, ◌||◌, Option, none, some, List, [], ◌∷◌, ◌++◌, ◌==◌,
  if◌then◌else◌, is_some, length,
}
use portable_systems_lisp.Toolchain.Tools.{ascii, target_linker}
use portable_systems_lisp.Toolchain.Modules.{same_text}
use portable_systems_lisp.Toolchain.Paths.{format_path}
use portable_systems_lisp.Toolchain.Actions.{
  Action, System, Run, ◌>>=◌, ◌>>◌, answer, perform, write_object, output_temporary_directory,
}
use portable_systems_lisp.Toolchain.Merge.{unlink_path, until_null}
use portable_systems_lisp.Toolchain.Inputs.{valid_link_inputs, default_freestanding_script}

-- What a link is asked for; the fields are the parameters of `link_freestanding`.
pub record Request : Type 0 where
  pub path : Option (List ℕ)
  pub object : Option (List ℕ)
  pub sources : List (List ℕ)
  pub target : ℕ
  pub profile : ℕ
  pub runtime_modules : ℕ
  pub kind : ℕ
  -- `inputs` as an array, and whether its pointer is other than NULL
  pub inputs : List (Option (List ℕ))
  pub has_inputs : Bool
  pub entry : Option (List ℕ)
  pub linker_script : Option (List ℕ)
  pub map_file : Option (List ℕ)

-- The buffers that the cleanup looks at, NULL where one was not allocated.
pub record Staged : Type 0 where
  pub ok : Bool
  pub stage_output : Option (List ℕ)
  pub stage_map : Option (List ℕ)
  pub object_path : Option (List ℕ)

abbrev pub failed : List ℕ → Option (List ℕ) → List ℕ → Staged
failed stage_output stage_map object_path = record {
  ok = false;
  stage_output = some stage_output;
  stage_map = stage_map;
  object_path = some object_path;
}

abbrev pub rmdir : System → Option (List ℕ) → Run (Unit {0})
rmdir sys none = answer tt
rmdir sys (some directory) = perform sys (Action.remove_directory directory) >> answer tt

-- What stands behind the label `cleanup`.
unfoldable pub link_cleanup : System → Staged → Option (List ℕ) → Option (List ℕ) → Run Bool
link_cleanup sys staged directory map_directory = do
  unlink_path sys staged.stage_output
  unlink_path sys staged.stage_map
  unlink_path sys staged.object_path
  rmdir sys directory
  rmdir sys map_directory
  answer staged.ok

abbrev pub link_arguments :
    List ℕ
    → List ℕ
    → List ℕ
    → Option (List ℕ)
    → List ℕ
    → List ℕ
    → List (Option (List ℕ))
    → List (List ℕ)
link_arguments linker entry_name script stage_map stage_output object_path inputs =
    linker
    ∷ ascii "-nostdlib"
    ∷ ascii "-static"
    ∷ ascii "--build-id=none"
    ∷ ascii "--fatal-warnings"
    ∷ ascii "-e"
    ∷ entry_name
    ∷ ascii "-T"
    ∷ script
    ∷ (elim stage_map [ none ↦ [] | some path ↦ ascii "-Map" ∷ path ∷ [] ]
        ++ (ascii "-o" ∷ stage_output ∷ object_path ∷ until_null inputs))

-- The two renames: the map first, then the program.
unfoldable pub publish : System → List ℕ → List ℕ → Option (List ℕ × List ℕ) → Run Bool
publish sys stage_output path none = perform sys (Action.rename stage_output path)
publish sys stage_output path (some (stage_map, map_file)) = do
  placed ← perform sys (Action.rename stage_map map_file)
  if not placed then answer false else perform sys (Action.rename stage_output path)

-- The link, once all its buffers are allocated; `map` is the map's directory and file.
unfoldable pub link_staged :
    System
    → Request
    → List ℕ
    → List ℕ
    → List ℕ
    → List ℕ
    → List ℕ
    → Option (List ℕ × List ℕ)
    → Run Staged
unfolding publish
link_staged sys r linker script path object directory placed = do
  let capacity = length directory + 10
  let output = format_path capacity directory (ascii "artifact")
  let psl = format_path capacity directory (ascii "psl.o")
  let empty_map : Option (List ℕ) = if is_some placed then some [] else none
  if not output.0
      then answer (failed output.1 empty_map [])
      else if not psl.0
      then answer (failed output.1 empty_map psl.1)
      else do
        wrote ← write_object sys psl.1 object
        if not wrote then answer (failed output.1 empty_map psl.1) else do
          let stage_map : Option (Bool × List ℕ) = elim placed [
            | none ↦ none
            | some (map_directory, _) ↦
                some (format_path (length map_directory + 10) map_directory (ascii "link.map"))
          ]
          let buffer : Option (List ℕ) = elim stage_map [ none ↦ none | some (_, b) ↦ some b ]
          let fits : Bool = elim stage_map [ none ↦ true | some (b, _) ↦ b ]
          let renames : Option (List ℕ × List ℕ) = elim placed [
            | none ↦ none
            | some (_, map_file) ↦ elim buffer [ none ↦ none | some b ↦ some (b, map_file) ]
          ]
          let entry_name : List ℕ = elim r.entry [ none ↦ ascii "_start" | some name ↦ name ]
          if not fits then answer (failed output.1 buffer psl.1) else do
            linked ← perform sys (
                Action.run (link_arguments linker entry_name script buffer output.1 psl.1 r.inputs))
            if not linked then answer (failed output.1 buffer psl.1) else do
              published ← publish sys output.1 path renames
              answer (record {
                ok = published;
                stage_output = some output.1;
                stage_map = buffer;
                object_path = some psl.1;
              })

-- What was allocated when not everything was.
abbrev pub unstaged : Bool → Bool → Bool → Staged
unstaged output psl map_buffer = record {
  ok = false;
  stage_output = if output then some [] else none;
  stage_map = if map_buffer then some [] else none;
  object_path = if psl then some [] else none;
}

-- The allocation of the buffers, and the link where all are there.
unfoldable pub link_allocated :
    System
    → Request
    → List ℕ
    → List ℕ
    → List ℕ
    → List ℕ
    → List ℕ
    → Option (List ℕ × List ℕ)
    → Run Bool
link_allocated sys r linker script path object directory placed = do
  let map_directory : Option (List ℕ) = elim placed [ none ↦ none | some (d, _) ↦ some d ]
  a ← perform sys (Action.allocate (length directory + 10))
  b ← perform sys (Action.allocate (length directory + 10))
  c ← elim placed as (λ _. Run Bool) [
    | none ↦ answer true
    | some (d, _) ↦ perform sys (Action.allocate (length d + 10))
  ]
  e ← perform sys (Action.allocate ((length r.inputs + 16) * 8))
  if not (a && b && c && e)
      then link_cleanup sys (unstaged a b (is_some placed && c)) (some directory) map_directory
      else (do
        staged ← link_staged sys r linker script path object directory placed
        link_cleanup sys staged (some directory) map_directory)

-- The creation of the map's directory, where there is a map, and then the rest.
unfoldable pub link_mapped :
    System → Request → List ℕ → List ℕ → List ℕ → List ℕ → List ℕ → Option (List ℕ) → Run Bool
link_mapped sys r linker script path object directory none h =
    link_allocated sys r linker script path object directory none h
link_mapped sys r linker script path object directory (some map_file) h =
    let (made, h₁) = output_temporary_directory sys (some map_file) h in
    elim made [
      | none ↦ (false, Action.remove_directory directory ∷ h₁)
      | some d ↦ link_allocated sys r linker script path object directory (some (d, map_file)) h₁
    ]

-- The creation of the program's directory, and then the rest.
unfoldable pub link_in : System → Request → List ℕ → List ℕ → List ℕ → List ℕ → Run Bool
link_in sys r linker script path object h =
    let (made, h₁) = output_temporary_directory sys (some path) h in
    elim made [
      | none ↦ (false, h₁)
      | some directory ↦ link_mapped sys r linker script path object directory r.map_file h₁
    ]

-- The requests that a freestanding link does not serve, one that has its map beside its program in
-- the same file included.
unfoldable pub link_refused : Request → List ℕ → Bool
link_refused r path =
    not (r.kind == 0)
    || not (r.profile == 0)
    || not (r.runtime_modules == 0)
    || not (length r.sources == 0)
    || (not (length r.inputs == 0) && not r.has_inputs)
    || elim r.map_file [ none ↦ false | some map_file ↦ same_text path map_file ]

-- The tests that follow those for NULL.
unfoldable pub link_checked : System → Request → List ℕ → List ℕ → List ℕ → List ℕ → Run Bool
link_checked sys r linker script path object = if link_refused r path then answer false else (do
  readable ← perform sys (Action.access script)
  if not readable then answer false else do
    valid ← valid_link_inputs sys r.inputs r.kind r.target
    if not valid then answer false else link_in sys r linker script path object)

-- The script that was given, or the default one.
abbrev pub chosen_script : System → Request → Option (List ℕ)
chosen_script sys r = elim r.linker_script [
  | some given ↦ some given
  | none ↦ default_freestanding_script sys r.target
]

abbrev pub link_given :
    System
    → Request
    → Option (List ℕ)
    → Option (List ℕ)
    → Option (List ℕ)
    → Option (List ℕ)
    → Run Bool
link_given sys r (some path) (some object) (some linker) (some script) =
    link_checked sys r linker script path object
link_given sys r _ _ _ _ = answer false

unfoldable pub link_freestanding : System → Request → Run Bool
link_freestanding sys r =
    link_given sys r r.path r.object (target_linker r.target) (chosen_script sys r)
