-- ===== src/Toolchain/Roots.antt =====
-- native_host_runtime_roots: the runtime modules that C sources and inputs ask for, read from what nm
-- prints of their undefined symbols. The C sources are compiled in a temporary directory for that.
pub mod Children
pub mod Processes
pub mod Settled
pub mod Bounds
pub mod Answer
use portable_systems_lisp.Base.{
  ℕ, ◌+◌, ◌*◌, Bool, true, false, not, ◌&&◌, ◌||◌, Option, none, some, List, [], ◌∷◌, ◌==◌,
  if◌then◌else◌, length, bit_or,
}
use portable_systems_lisp.Machine.{size_max}
use portable_systems_lisp.Toolchain.Tools.{ascii, target_compiler, target_nm}
use portable_systems_lisp.Toolchain.Actions.{
  Action, System, Run, ◌>>=◌, ◌>>◌, answer, perform, no_objects, compile_sources,
}
use portable_systems_lisp.Toolchain.Merge.{unlink_objects}
use portable_systems_lisp.Toolchain.Freestanding.{rmdir}
use portable_systems_lisp.Toolchain.Symbols.{Scan, found, unknown, out_of_rounds, scan}

-- UINT64_MAX, the answer where the modules cannot be told.
abbrev pub no_roots : ℕ
no_roots = size_max

abbrev pub nm_arguments : List ℕ → List ℕ → List (List ℕ)
nm_arguments nm input = nm ∷ ascii "-u" ∷ input ∷ []

-- What follows fdopen: the lines, and the end of the stream and of the child.
unfoldable pub read_symbols : System → List (List ℕ) → ℕ → Run Scan
unfolding scan
read_symbols sys tool roots h =
    let text = sys.prints h tool in
    let h' = Action.wait ∷ Action.close_stream ∷ h in
    elim (scan (length text) roots text) [
      | found more ↦
          if sys.succeeds (Action.close_stream ∷ h) Action.wait
          then (found more, h')
          else (unknown, h')
      | unknown ↦ (unknown, h')
      | out_of_rounds ↦ (out_of_rounds, h')
    ]

-- The body of the loop over the inputs, for one that is not NULL; `unknown` stands for its returns of
-- UINT64_MAX.
unfoldable pub scan_input : System → List ℕ → ℕ → List ℕ → Run Scan
scan_input sys nm roots input = do
  let tool = nm_arguments nm input
  piped ← perform sys Action.pipe
  if not piped then answer unknown else do
    forked ← perform sys (Action.fork tool)
    if not forked
        then perform sys (Action.close_end false)
          >> (perform sys (Action.close_end true) >> answer unknown)
        else do
          perform sys (Action.close_end true)
          opened ← perform sys Action.open_stream
          if not opened
              then perform sys (Action.close_end false)
                >> (perform sys Action.wait >> answer unknown)
              else read_symbols sys tool roots

-- The modules so far are passed on; any other end of a scan is that of the loop.
abbrev pub then_run : Scan → (ℕ → Run Scan) → Run Scan
then_run (found roots) k = k roots
then_run unknown k = answer unknown
then_run out_of_rounds k = answer out_of_rounds

unfoldable pub scan_inputs : System → List ℕ → ℕ → List (Option (List ℕ)) → Run Scan
scan_inputs sys nm roots [] = answer (found roots)
scan_inputs sys nm roots (none ∷ inputs) = answer unknown
scan_inputs sys nm roots (some input ∷ inputs) = do
  one ← scan_input sys nm roots input
  then_run one (λ more. scan_inputs sys nm more inputs)

-- The answer as a uint64_t; the rounds never run out.
abbrev pub roots_of : Scan → ℕ
roots_of (found roots) = roots
roots_of unknown = no_roots
roots_of out_of_rounds = 0

unfoldable pub input_runtime_roots : System → ℕ → List (Option (List ℕ)) → Run ℕ
input_runtime_roots sys target inputs = elim (target_nm target) as (λ _. Run ℕ) [
  | none ↦ answer no_roots
  | some nm ↦ do result ← scan_inputs sys nm 0 inputs; answer (roots_of result)
]

abbrev pub roots_template : List ℕ
roots_template = ascii "/tmp/psl-native-roots-XXXXXX"

-- The part of `source_runtime_roots` behind mkdtemp.
unfoldable pub source_roots_in : System → List ℕ → List ℕ → ℕ → List (List ℕ) → Run ℕ
source_roots_in sys compiler directory target sources = do
  objects ← perform sys (Action.allocate (length sources * 8))
  paths ← perform sys (Action.allocate (length sources * 8))
  if not (objects && paths)
      then (do
        unlink_objects sys (if objects then no_objects sources else [])
        rmdir sys (some directory)
        answer no_roots)
      else (do
        compiled ← compile_sources sys compiler directory target 0 sources
        roots ← (if compiled.0 then input_runtime_roots sys target compiled.1 else answer no_roots)
        unlink_objects sys compiled.1
        rmdir sys (some directory)
        answer roots)

unfoldable pub source_runtime_roots : System → ℕ → List (List ℕ) → Run ℕ
source_runtime_roots sys target sources =
    if length sources == 0 then answer 0 else elim (target_compiler target) as (λ _. Run ℕ) [
      | none ↦ answer no_roots
      | some compiler ↦ λ h.
          let h' = Action.make_directory roots_template ∷ h in
          if sys.succeeds h (Action.make_directory roots_template)
          then source_roots_in sys compiler (sys.temporary h roots_template) target sources h'
          else (no_roots, h')
    ]

-- native_host_runtime_roots; `has_inputs` says whether the pointer to the inputs is other than NULL
unfoldable pub runtime_roots : System → ℕ → List (List ℕ) → List (Option (List ℕ)) → Bool → Run ℕ
runtime_roots sys target sources inputs has_inputs = do
  roots ← source_runtime_roots sys target sources
  if (roots == no_roots) || (not (length inputs == 0) && not has_inputs)
      then answer no_roots
      else do
        input_roots ← input_runtime_roots sys target inputs
        if input_roots == no_roots then answer no_roots else answer (bit_or roots input_roots)
