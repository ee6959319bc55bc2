-- ===== src/Toolchain/Inputs.antt =====
-- The inputs of a link and the commands that make its objects.
use portable_systems_lisp.Base.{
  ℕ, ◌+◌, Bool, true, false, not, ◌&&◌, ◌||◌, Option, none, some, List, [], ◌∷◌, ◌==◌, leb, map,
  if◌then◌else◌,
}
use portable_systems_lisp.Toolchain.Tools.{ascii, x86_64_windows, x86_64_none}
use portable_systems_lisp.Toolchain.Modules.{same_text}
use portable_systems_lisp.Toolchain.Paths.{empty, format_path}
use portable_systems_lisp.Toolchain.Actions.{
  Action, System, Run, ◌>>=◌, answer, perform, compile_arguments,
}

-- strrchr(path, '.'): from the last dot on.
unfoldable pub from_dot : List ℕ → Option (List ℕ)
from_dot [] = none
from_dot (c ∷ cs) = elim (from_dot cs) [
  | some rest ↦ some rest
  | none ↦ if c == 46 then some (c ∷ cs) else none
]

-- strcasecmp(a, b) == 0, on ASCII.
abbrev pub lower : ℕ → ℕ
lower c = if leb 65 c && leb c 90 then c + 32 else c

abbrev pub same_letters : List ℕ → List ℕ → Bool
same_letters xs ys = same_text (map lower xs) (map lower ys)

-- Whether an archive member has the name of an object file.
unfoldable pub object_name : List ℕ → ℕ → Bool
unfolding from_dot same_text
object_name path target = elim (from_dot path) [
  | none ↦ false
  | some dot ↦
      same_letters dot (ascii ".o")
      || ((target == x86_64_windows) && same_letters dot (ascii ".obj"))
]

unfoldable pub valid_link_input : System → Option (List ℕ) → ℕ → ℕ → Run Bool
unfolding object_name
valid_link_input sys none kind target = answer false
valid_link_input sys (some path) kind target = do
  readable ← perform sys (Action.access path)
  if not readable
      then answer false
      else if not (kind == 1)
      then answer true
      else answer (object_name path target)

-- The loop over the inputs, up to the first that is not valid.
unfoldable pub valid_link_inputs : System → List (Option (List ℕ)) → ℕ → ℕ → Run Bool
unfolding valid_link_input
valid_link_inputs sys [] kind target = answer true
valid_link_inputs sys (input ∷ inputs) kind target = do
  valid ← valid_link_input sys input kind target
  if not valid then answer false else valid_link_inputs sys inputs kind target

unfoldable pub default_freestanding_script : System → ℕ → Option (List ℕ)
unfolding format_path
default_freestanding_script sys target =
    let given : List ℕ = elim (sys.getenv (ascii "PSL_LINKER_DIR")) [
      | none ↦ ascii "linker"
      | some directory ↦ if empty directory then ascii "linker" else directory
    ] in
    let name : List ℕ =
      if target == x86_64_none then ascii "x86_64-linux-user.ld" else ascii "riscv64-virt.ld" in
    let path = format_path 4096 given name in if path.0 then some path.1 else none

unfoldable pub compile_link_object : System → List ℕ → List ℕ → List ℕ → Bool → Run Bool
compile_link_object sys compiler source object pic =
    perform sys (Action.run (compile_arguments compiler source object pic))
