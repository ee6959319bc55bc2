-- ===== src/Tests/Hosts.antt =====
-- The toolchain with a host on which every action succeeds.
use portable_systems_lisp.Base.{Option, ℕ, ◌≡◌, refl, true, none, some, List, [], ◌∷◌, ◌++◌, ◌⊎◌}
use portable_systems_lisp.Toolchain.Tools.{ascii, target_compiler, target_linker}
use portable_systems_lisp.Toolchain.Modules.{
  runtime_symbol_module, IsModule, runtime_symbol_module_lem,
}
use portable_systems_lisp.Toolchain.Paths.{
  slash, split_slash, output_file_name, NoSlash, IsReserved, output_file_name_lem,
}
use portable_systems_lisp.Toolchain.Actions.{System, output_temporary_directory}
use portable_systems_lisp.Toolchain.Inputs.{
  valid_link_input, valid_link_inputs, default_freestanding_script,
}
use portable_systems_lisp.Toolchain.Freestanding.{
  Request, publish, link_cleanup, link_staged, link_allocated, link_mapped, link_in, link_refused,
  link_checked, link_freestanding,
}
use portable_systems_lisp.Toolchain.Modules.{same_text}
use portable_systems_lisp.Toolchain.Paths.{format_path}
use portable_systems_lisp.Toolchain.Actions.{write_object}
use portable_systems_lisp.Toolchain.Merge.{merge_c_sources}
use portable_systems_lisp.Toolchain.Merge.Quiet.{renamed}
use portable_systems_lisp.Toolchain.Merge.Laws.{RemovedLast, merge_c_sources-removed}

abbrev pub willing : System
willing = record {
  succeeds = λ h a. true;
  temporary = λ h template. ascii "out/.psl-native-a1b2c3";
  getenv = λ name. none;
  prints = λ h tool. ascii "                 U psl_rt_car\n                 U puts\n";
}

abbrev output : List ℕ
output = ascii "out/prog.o"

abbrev sources : List (List ℕ)
sources = ascii "a.c" ∷ ascii "b.c" ∷ []

runtime_symbol_module_lem_example :
    (runtime_symbol_module (ascii "psl_rt_car") ≡ 0)
    ⊎ IsModule (runtime_symbol_module (ascii "psl_rt_car"))
runtime_symbol_module_lem_example = runtime_symbol_module_lem (ascii "psl_rt_car")

output_file_name_lem_example :
    (before name : List ℕ) × (output ≡ before ++ name)
    × NoSlash name
    × ((before ≡ []) ⊎ ((directory : List ℕ) × (before ≡ directory ++ slash ∷ [])))
    × ((IsReserved name × (output_file_name (some output) ≡ none))
        ⊎ (¬ IsReserved name × (output_file_name (some output) ≡ some name)))
output_file_name_lem_example = output_file_name_lem output

has_compiler : target_compiler 0 ≡ some (ascii "gcc")
unfolding target_compiler
has_compiler = refl

gets_directory :
    (output_temporary_directory willing (some output) []).0 ≡ some (ascii "out/.psl-native-a1b2c3")
unfolding output_temporary_directory split_slash
gets_directory = refl

merge_c_sources-removed_example :
    RemovedLast
      (ascii "out/.psl-native-a1b2c3")
      (merge_c_sources willing (some output) (1 ∷ []) sources 0 []).1
merge_c_sources-removed_example =
    merge_c_sources-removed willing output (1 ∷ []) sources 0 [] (ascii "gcc")
      (ascii "out/.psl-native-a1b2c3") has_compiler refl gets_directory

-- A freestanding program with one input, with or without a map.
abbrev requested : Option (List ℕ) → Request
requested map_file = record {
  path = some (ascii "out/kernel");
  object = some (1 ∷ 2 ∷ []);
  sources = [];
  target = 5;
  profile = 0;
  runtime_modules = 0;
  kind = 0;
  inputs = some (ascii "boot.o") ∷ [];
  has_inputs = true;
  entry = none;
  linker_script = none;
  map_file = map_file;
}

abbrev request : Request
request = requested (some (ascii "out/kernel.map"))

links : (link_freestanding willing request []).0 ≡ true
unfolding link_freestanding link_checked link_refused link_in link_mapped link_allocated link_staged
    link_cleanup publish target_linker default_freestanding_script output_temporary_directory
    valid_link_inputs valid_link_input split_slash format_path write_object same_text
links = refl

-- Both files were put in place.
both_placed :
    renamed willing (link_freestanding willing request []).1
    ≡ (ascii "out/.psl-native-a1b2c3/artifact", ascii "out/kernel")
      ∷ (ascii "out/.psl-native-a1b2c3/link.map", ascii "out/kernel.map")
      ∷ []
unfolding link_freestanding link_checked link_refused link_in link_mapped link_allocated link_staged
    link_cleanup publish target_linker default_freestanding_script output_temporary_directory
    valid_link_inputs valid_link_input split_slash format_path write_object same_text renamed
both_placed = refl

abbrev unmapped : Request
unmapped = requested none

unmapped_links : (link_freestanding willing unmapped []).0 ≡ true
unfolding link_freestanding link_checked link_refused link_in link_mapped link_allocated link_staged
    link_cleanup publish target_linker default_freestanding_script output_temporary_directory
    valid_link_inputs valid_link_input split_slash format_path write_object same_text
unmapped_links = refl
