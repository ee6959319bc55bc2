-- ===== src/Toolchain/Actions.antt =====
-- What the toolchain asks of the host, as a history of actions. The host's answers are a parameter:
-- whether an action succeeds, given those before it, the name that mkdtemp makes up, and the
-- environment.
use portable_systems_lisp.Base.{
  ℕ, ◌+◌, ◌-◌, ◌/◌, ◌%◌, zero, suc, Bool, true, false, not, ◌&&◌, Option, none, some, List, [], ◌∷◌,
  ◌++◌, ◌==◌, ltb, if◌then◌else◌, length, take,
}
use portable_systems_lisp.Machine.{size_max}
use portable_systems_lisp.Toolchain.Tools.{ascii, x86_64_windows}
use portable_systems_lisp.Toolchain.Paths.{split_slash}

-- `run` is fork, execvp and waitpid of a tool. A file is opened, written and closed by `open_file`,
-- `write_file`, which succeeds if all bytes are written, and `close_file`. A tool whose output is read takes the actions from `pipe` on: `fork` starts it with its output on the pipe,
-- `close_end` closes the pipe's end to write (true) or to read, and `wait` succeeds if the child
-- ended with status 0.
pub data Action : Type 0 where
  allocate : ℕ → Action
  make_directory : List ℕ → Action
  open_file : List ℕ → Action
  write_file : List ℕ → Action
  close_file : Action
  run : List (List ℕ) → Action
  rename : List ℕ → List ℕ → Action
  unlink : List ℕ → Action
  remove_directory : List ℕ → Action
  access : List ℕ → Action
  pipe : Action
  fork : List (List ℕ) → Action
  close_end : Bool → Action
  open_stream : Action
  close_stream : Action
  wait : Action

-- A history has its newest action first.
pub record System : Type 0 where
  pub succeeds : List Action → Action → Bool
  pub temporary : List Action → List ℕ → List ℕ
  pub getenv : List ℕ → Option (List ℕ)
  -- the bytes that can be read of a tool's output
  pub prints : List Action → List (List ℕ) → List ℕ

abbrev pub Run : Type 0 → Type 0
Run A = List Action → A × List Action

module _ {A B : Type 0} where
  infixl 5 ◌>>=◌ ◌>>◌
  abbrev pub ◌>>=◌ : Run A → (A → Run B) → Run B
  m >>= k = λ h. k (m h).0 (m h).1

  abbrev pub ◌>>◌ : Run A → Run B → Run B
  m >> n = m >>= λ _. n

abbrev pub answer : {A : Type 0} → A → Run A
answer a h = (a, h)

abbrev pub perform : System → Action → Run Bool
perform sys a h = (sys.succeeds h a, a ∷ h)

-- write_object
unfoldable pub write_object : System → List ℕ → List ℕ → Run Bool
write_object sys path object = do
  opened ← perform sys (open_file path)
  if not opened then answer false else do
    written ← perform sys (write_file object)
    closed ← perform sys close_file
    answer (written && closed)

abbrev pub suffix : List ℕ
suffix = ascii ".psl-native-XXXXXX"

-- The part of an output path through its last slash, empty without one.
abbrev pub directory_of : List ℕ → List ℕ
directory_of output = elim (split_slash output) [ none ↦ [] | some (before, after) ↦ before ]

unfoldable pub output_temporary_directory : System → Option (List ℕ) → Run (Option (List ℕ))
output_temporary_directory sys none = answer none
output_temporary_directory sys (some output) =
    let template = directory_of output ++ suffix in
    if ltb (size_max - 19) (length (directory_of output)) then answer none else do
      memory ← perform sys (allocate (length (directory_of output) + 19))
      (if not memory then answer none else λ h. (
        if sys.succeeds h (make_directory template) then some (sys.temporary h template) else none,
        make_directory template ∷ h,
      ))

-- "%zu", on fuel; 20 digits are enough for size_t.
unfoldable pub decimal_digits : ℕ → ℕ → List ℕ
decimal_digits zero n = (48 + n % 10) ∷ []
decimal_digits (suc fuel) n =
    let more = decimal_digits fuel (n / 10) in
    (if ltb n 10 then [] else more) ++ ((48 + n % 10) ∷ [])

unfoldable pub decimal : ℕ → List ℕ
unfolding decimal_digits
decimal n = decimal_digits 19 n

abbrev pub compile_arguments : List ℕ → List ℕ → List ℕ → Bool → List (List ℕ)
compile_arguments compiler source object pic =
    compiler
    ∷ ascii "-std=c11"
    ∷ ascii "-fno-stack-protector"
    ∷ ((if pic then ascii "-fPIC" ∷ [] else []) ++ (ascii "-c" ∷ source ∷ ascii "-o" ∷ object ∷ []))

-- The array of object paths where nothing was compiled: NULL for each source.
abbrev pub no_objects : List (List ℕ) → List (Option (List ℕ))
no_objects [] = []
no_objects (source ∷ sources) = none ∷ no_objects sources

-- The loop of `compile_sources` from `index` on: its result and the array of object paths.
unfoldable pub compile_sources :
    System → List ℕ → List ℕ → ℕ → ℕ → List (List ℕ) → Run (Bool × List (Option (List ℕ)))
compile_sources sys compiler directory target index [] = answer (true, [])
compile_sources sys compiler directory target index (source ∷ sources) = do
  let size = length directory + 32
  let path = directory ++ ascii "/c" ++ decimal index ++ ascii ".o"
  memory ← perform sys (allocate size)
  if not memory
      then answer (false, none ∷ no_objects sources)
      else if not (ltb (length path) size)
      then answer (false, some (take (size - 1) path) ∷ no_objects sources)
      else do
        compiled ←
            perform sys
              (run (compile_arguments compiler source path (not (target == x86_64_windows))))
        if not compiled then answer (false, some path ∷ no_objects sources) else do
          rest ← compile_sources sys compiler directory target (index + 1) sources
          answer (rest.0, some path ∷ rest.1)
