-- ===== src/Toolchain/Commands.antt =====
-- The tools that a hosted link runs, for native_host_link_artifact in
-- bootstrap/host/platform_toolchain.c: those that a history shows, and those that a request asks for.
pub mod Idle
pub mod Asked
pub mod Compiled
pub mod Files
pub mod Stages
pub mod Laws
use portable_systems_lisp.Base.{
  ℕ, ◌+◌, ◌-◌, zero, suc, Bool, true, false, not, ◌&&◌, ◌||◌, Option, none, some, List, [], ◌∷◌,
  ◌++◌, ◌==◌, if◌then◌else◌, length, take,
}
use portable_systems_lisp.Toolchain.Tools.{ascii, x86_64_windows, target_archiver}
use portable_systems_lisp.Base.Bits.{bit}
use portable_systems_lisp.Toolchain.Modules.{runtime_filename}
use portable_systems_lisp.Toolchain.Paths.{slash}
use portable_systems_lisp.Toolchain.Actions.{Action, System, decimal}
use portable_systems_lisp.Toolchain.Freestanding.{Request}

-- The command lines of the tools that ended with status 0, the last one first.
unfoldable pub ran : System → List Action → List (List (List ℕ))
ran sys [] = []
ran sys (Action.run tool ∷ h) =
    if sys.succeeds h (Action.run tool) then tool ∷ ran sys h else ran sys h
ran sys (_ ∷ h) = ran sys h

-- The commands are run one after the other, behind those before.
abbrev pub onto : List (List (List ℕ)) → List (List (List ℕ)) → List (List (List ℕ))
onto [] before = before
onto (command ∷ commands) before = onto commands (command ∷ before)

-- What holds of a run that yields `true`.
abbrev pub Done : Bool → Type 0 → Type 0
Done true P = P
Done false P = Unit

-- The line that compiles one file.
abbrev pub compile_line : List ℕ → List ℕ → List ℕ → Bool → List (List ℕ)
compile_line compiler source object true =
    compiler
    ∷ ascii "-std=c11"
    ∷ ascii "-fno-stack-protector"
    ∷ ascii "-fPIC"
    ∷ ascii "-c"
    ∷ source
    ∷ ascii "-o"
    ∷ object
    ∷ []
compile_line compiler source object false =
    compiler
    ∷ ascii "-std=c11"
    ∷ ascii "-fno-stack-protector"
    ∷ ascii "-c"
    ∷ source
    ∷ ascii "-o"
    ∷ object
    ∷ []

abbrev pub source_object : List ℕ → ℕ → List ℕ
source_object directory index = directory ++ ascii "/c" ++ decimal index ++ ascii ".o"

abbrev pub source_objects : List ℕ → ℕ → List (List ℕ) → List (Option (List ℕ))
source_objects directory index [] = []
source_objects directory index (source ∷ sources) =
    some (source_object directory index) ∷ source_objects directory (index + 1) sources

abbrev pub source_commands : List ℕ → List ℕ → ℕ → ℕ → List (List ℕ) → List (List (List ℕ))
source_commands compiler directory target index [] = []
source_commands compiler directory target index (source ∷ sources) =
    compile_line compiler source (source_object directory index) (not (target == x86_64_windows))
    ∷ source_commands compiler directory target (index + 1) sources

-- The file of a runtime module whose bit is set.
abbrev pub asked_module : ℕ → ℕ → ℕ → Option (List ℕ)
asked_module modules target index =
    if bit index modules == 1 then runtime_filename index target else none

-- Where the sources of the runtime are: in PSL_RUNTIME_DIR, unless it is unset or empty.
abbrev pub named_directory : Option (List ℕ) → List ℕ
named_directory none = ascii "runtime"
named_directory (some []) = ascii "runtime"
named_directory (some (byte ∷ rest)) = byte ∷ rest

abbrev pub module_directory : System → List ℕ
module_directory sys = named_directory (sys.getenv (ascii "PSL_RUNTIME_DIR"))

-- The object of a runtime module, cut to the buffer that holds its name.
abbrev pub module_object : List ℕ → ℕ → List ℕ
module_object directory index =
    take (length directory + 64 - 1) (directory ++ ascii "/runtime-" ++ decimal index ++ ascii ".o")

abbrev pub runtime_objects : List ℕ → ℕ → ℕ → ℕ → ℕ → List (Option (List ℕ))
runtime_objects directory target modules index zero = []
runtime_objects directory target modules index (suc rounds) =
    elim (asked_module modules target index) [
      | none ↦ none
      | some filename ↦ some (module_object directory index)
    ]
    ∷ runtime_objects directory target modules (index + 1) rounds

unfoldable pub runtime_commands :
    List ℕ → List ℕ → List ℕ → ℕ → ℕ → Bool → ℕ → ℕ → List (List (List ℕ))
runtime_commands compiler directory runtime_directory target modules pic index zero = []
runtime_commands compiler directory runtime_directory target modules pic index (suc rounds) =
    elim (asked_module modules target index) [
      | none ↦
          runtime_commands compiler directory runtime_directory target modules pic (index + 1)
            rounds
      | some filename ↦
          compile_line compiler (runtime_directory ++ slash ∷ filename)
            (module_object directory index) pic
          ∷ runtime_commands compiler directory runtime_directory target modules pic (index + 1)
              rounds
    ]

-- The files that a link joins: the program's object, the objects of the runtime modules that are
-- asked for, those of the C sources, and the inputs.
abbrev pub module_files : List ℕ → ℕ → ℕ → ℕ → ℕ → List (List ℕ)
module_files directory target modules index zero = []
module_files directory target modules index (suc rounds) =
    elim (asked_module modules target index) [
      | none ↦ []
      | some filename ↦ module_object directory index ∷ []
    ]
    ++ module_files directory target modules (index + 1) rounds

abbrev pub source_files : List ℕ → ℕ → List (List ℕ) → List (List ℕ)
source_files directory index [] = []
source_files directory index (source ∷ sources) =
    source_object directory index ∷ source_files directory (index + 1) sources

abbrev pub input_files : List (Option (List ℕ)) → List (List ℕ)
input_files [] = []
input_files (none ∷ inputs) = []
input_files (some path ∷ inputs) = path ∷ input_files inputs

abbrev pub files : Request → List ℕ → List (List ℕ)
files r directory =
    (directory ++ slash ∷ ascii "psl.o")
    ∷ (module_files directory r.target r.runtime_modules 0 11
        ++ (source_files directory 0 r.sources ++ input_files r.inputs))

-- The options of the compiler where it links: threads if there is a runtime, and what makes programs
-- and libraries for Windows reproducible.
abbrev pub link_options : Request → List (List ℕ)
link_options r =
    (if (r.runtime_modules == 0) || (r.target == x86_64_windows) then [] else ascii "-pthread" ∷ [])
    ++ ((if (r.target == x86_64_windows) && (r.kind == 2)
          then ascii "-Wl,--disable-auto-image-base,--no-insert-timestamp" ∷ []
          else if (r.target == x86_64_windows) && (r.kind == 0)
          then ascii "-Wl,--no-insert-timestamp" ∷ []
          else [])
        ++ (if r.kind == 2 then ascii "-shared" ∷ [] else []))

abbrev pub link_line : Request → List ℕ → List ℕ → List (List ℕ) → List (List ℕ)
link_line r compiler output items =
    if r.kind == 1
    then elim (target_archiver r.target) [
      | none ↦ []
      | some archiver ↦ archiver ∷ ascii "rcsD" ∷ output ∷ items
    ]
    else compiler ∷ (link_options r ++ (ascii "-o" ∷ output ∷ items))

-- The commands of a link: the C sources are compiled in the first directory, then the runtime modules,
-- and then all is linked to the file in the second.
abbrev pub commands : System → Request → List ℕ → List ℕ → List ℕ → List ℕ → List (List (List ℕ))
commands sys r compiler directory stage_directory stage_name =
    source_commands compiler directory r.target 0 r.sources
    ++ (runtime_commands compiler directory (module_directory sys) r.target r.runtime_modules
          ((r.kind == 2) || not (r.target == x86_64_windows)) 0 11
        ++ link_line r compiler (stage_directory ++ slash ∷ stage_name) (files r directory) ∷ [])
