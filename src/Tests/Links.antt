-- ===== src/Tests/Links.antt =====
-- Hosted links with a host on which every action succeeds.
use portable_systems_lisp.Base.{ℕ, ◌+◌, ◌≡◌, refl, true, none, some, List, [], ◌∷◌}
use portable_systems_lisp.Toolchain.Tools.{ascii, target_compiler, target_archiver}
use portable_systems_lisp.Toolchain.Modules.{same_text, runtime_bit, runtime_filename}
use portable_systems_lisp.Toolchain.Paths.{split_slash, last_name, output_file_name, format_path}
use portable_systems_lisp.Toolchain.Actions.{
  Action, write_object, output_temporary_directory, compile_sources, decimal, decimal_digits,
}
use portable_systems_lisp.Toolchain.Inputs.{
  valid_link_input, valid_link_inputs, compile_link_object,
}
use portable_systems_lisp.Toolchain.Merge.{unlink_objects}
use portable_systems_lisp.Toolchain.Merge.Quiet.{renamed}
use portable_systems_lisp.Toolchain.Directories.{made, gone}
use portable_systems_lisp.Toolchain.History.{tally}
use portable_systems_lisp.Toolchain.Freestanding.{Request, publish}
use portable_systems_lisp.Toolchain.Products.{
  selected_module, compile_runtime, present, link_items_to, artifact_cleanup, link_products,
}
use portable_systems_lisp.Toolchain.Artifact.{
  products_in, link_between, artifact_in, artifact_refused, artifact_checked, link_artifact,
}
use portable_systems_lisp.Toolchain.Artifact.Laws.{Renames, link_artifact_lem}
use portable_systems_lisp.Toolchain.Commands.Laws.{LinkedBy, link_artifact-LinkedBy}
use portable_systems_lisp.Toolchain.Platform.{native_host}
use portable_systems_lisp.Toolchain.Platform.Laws.{Keeps, native_host-Keeps}
use portable_systems_lisp.Tests.Hosts.{willing}

-- An archive of one source and two runtime modules, those of values and conses.
abbrev archive : Request
archive = record {
  path = some (ascii "out/libprog.a");
  object = some (1 ∷ 2 ∷ []);
  sources = ascii "a.c" ∷ [];
  target = 0;
  profile = 0;
  runtime_modules = 3;
  kind = 1;
  inputs = [];
  has_inputs = true;
  entry = none;
  linker_script = none;
  map_file = none;
}

abbrev directory : List ℕ
directory = ascii "out/.psl-native-a1b2c3"

abbrev linked : List Action
linked = (link_artifact willing archive []).1

archives : (link_artifact willing archive []).0 ≡ true
unfolding link_artifact artifact_checked artifact_refused artifact_in link_between products_in
    link_products artifact_cleanup link_items_to present compile_runtime selected_module
    compile_link_object compile_sources decimal decimal_digits unlink_objects publish write_object
    output_temporary_directory valid_link_inputs valid_link_input format_path split_slash last_name
    output_file_name same_text runtime_bit runtime_filename target_compiler target_archiver
archives = refl

-- One file was put in place, and the two directories that were made are gone.
archive_placed :
    (renamed willing linked
      ≡ (ascii "out/.psl-native-a1b2c3/artifact.a", ascii "out/libprog.a") ∷ [])
    × (made willing directory linked ≡ 2)
    × (gone willing directory linked ≡ 2)
unfolding link_artifact artifact_checked artifact_refused artifact_in link_between products_in
    link_products artifact_cleanup link_items_to present compile_runtime selected_module
    compile_link_object compile_sources decimal decimal_digits unlink_objects publish write_object
    output_temporary_directory valid_link_inputs valid_link_input format_path split_slash last_name
    output_file_name same_text runtime_bit runtime_filename target_compiler target_archiver renamed
    tally
archive_placed = (refl, refl, refl)

link_artifact_lem_example :
    Renames willing archive (link_artifact willing archive []).0 [] linked
    × ((d : List ℕ)
        → made willing d linked + gone willing d [] ≡ made willing d [] + gone willing d linked)
link_artifact_lem_example = link_artifact_lem willing archive []

link_artifact-LinkedBy_example :
    LinkedBy willing archive archive.path
      (target_compiler 0)
      (output_file_name archive.path)
      []
      linked
link_artifact-LinkedBy_example = link_artifact-LinkedBy willing archive [] refl archives

native_host-Keeps_example : Keeps willing (native_host willing true)
native_host-Keeps_example = native_host-Keeps willing true
