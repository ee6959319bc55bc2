-- ===== src/Toolchain/Commands/Stages.antt =====
-- The steps of native_host_link_artifact that run tools, in bootstrap/host/platform_toolchain.c.
use portable_systems_lisp.Base.{
  ℕ, ◌+◌, ◌-◌, ◌*◌, ◌≡◌, refl, sym, ◌∙◌, ap, ◌&&◌, Option, List, [], ◌∷◌, ◌++◌, ◌==◌, ltb,
  if◌then◌else◌, length, inl, inr, Bool-cases, arith,
}
use portable_systems_lisp.Machine.{size_max}
use portable_systems_lisp.Toolchain.Tools.{ascii}
use portable_systems_lisp.Toolchain.Paths.{slash, format_path_lem}
use portable_systems_lisp.Toolchain.Actions.{Action, System, write_object, compile_sources}
use portable_systems_lisp.Toolchain.Freestanding.{Request}
use portable_systems_lisp.Toolchain.Products.{
  runtime_module_count, runtime_directory_of, link_items, link_command, link_items_to,
  compile_runtime, pic_runtime, link_products,
}
use portable_systems_lisp.Toolchain.Artifact.{source_room, products_in}
use portable_systems_lisp.Toolchain.Commands.{
  ran, onto, Done, module_directory, source_commands, runtime_commands, commands, runtime_objects,
  source_objects, files, link_line,
}
use portable_systems_lisp.Toolchain.Commands.Compiled.{
  Done-map, Done-true, compile_sources-Done, compile_runtime-Done,
}
use portable_systems_lisp.Toolchain.Commands.Asked.{runtime_directory_of_lem}
use portable_systems_lisp.Toolchain.Commands.Files.{link_items_lem, link_command_lem}
use portable_systems_lisp.Toolchain.Commands.Idle.{write_object-Idle}

onto-append :
    (first second before : List (List (List ℕ)))
    → onto (first ++ second) before ≡ onto second (onto first before)
onto-append [] second before = refl
onto-append (command ∷ first) second before = onto-append first second (command ∷ before)

-- The commands of three stages and the idle one before them.
stages-onto :
    (first second : List (List (List ℕ))) {last last' : List (List ℕ)}
    {before idle one two three : List (List (List ℕ))}
    → idle ≡ before
    → one ≡ onto first idle
    → two ≡ onto second one
    → three ≡ last' ∷ two
    → last' ≡ last
    → three ≡ onto (first ++ (second ++ last ∷ [])) before
stages-onto first second {last} {before} {two} e₀ e₁ e₂ e₃ same =
    let two_there : two ≡ onto second (onto first before) =
      e₂ ∙ ap (onto second) (e₁ ∙ ap (onto first) e₀) in
    e₃
    ∙ ap (λ tool. tool ∷ two) same
    ∙ ap (λ tools. last ∷ tools) two_there
    ∙ sym (
        onto-append first (second ++ last ∷ []) before
        ∙ onto-append second (last ∷ []) (onto first before))

module _ (sys : System) (r : Request) (compiler path : List ℕ) where
  link_items_to-Done :
      (output : List ℕ) (items : List (Option (List ℕ))) (h : List Action)
      → let (linked, h') = link_items_to sys r compiler output path items h in
        Done linked (ran sys h' ≡ link_command r compiler output items ∷ ran sys h)
  unfolding link_items_to ran
  link_items_to-Done output items h =
      let item_count = 1 + length r.inputs + length r.sources + runtime_module_count in
      let extra : ℕ = if r.kind == 1 then 4 else 10 in
      let a = Action.allocate (item_count * 8) in
      let b = Action.allocate ((length items + extra) * 8) in
      let link = Action.run (link_command r compiler output items) in
      elim (Bool-cases (sys.succeeds h a)) [
        | inr none_left ↦ rw none_left tt
        | inl first ↦ elim (Bool-cases (sys.succeeds (a ∷ h) b)) [
          | inr none_left ↦ rw (first, none_left) tt
          | inl second ↦ elim (Bool-cases (sys.succeeds (b ∷ a ∷ h) link)) [
            | inr failed ↦ rw (first, second, failed) tt
            | inl linked ↦
                let seen : ran sys (link ∷ b ∷ a ∷ h)
                    ≡ link_command r compiler output items ∷ ran sys h =
                  rw linked refl in
                elim (Bool-cases (sys.succeeds (link ∷ b ∷ a ∷ h) (Action.rename output path))) [
                  | inr lost ↦ rw (first, second, linked, lost) tt
                  | inl placed ↦ rw (first, second, linked, placed) seen
                ]
          ]
        ]
      ]

  items-command :
      (output directory : List ℕ) {modules objects : List (Option (List ℕ))}
      → modules ≡ runtime_objects directory r.target r.runtime_modules 0 11
      → objects ≡ source_objects directory 0 r.sources
      → let psl = directory ++ slash ∷ ascii "psl.o" in
        link_command r compiler output (link_items psl modules objects r.inputs)
        ≡ link_line r compiler output (files r directory)
  items-command output directory {objects} e f =
      let psl = directory ++ slash ∷ ascii "psl.o" in
      let modules' = runtime_objects directory r.target r.runtime_modules 0 11 in
      let objects' = source_objects directory 0 r.sources in
      ap (λ m. link_command r compiler output (link_items psl m objects r.inputs)) e
      ∙ ap (λ o. link_command r compiler output (link_items psl modules' o r.inputs)) f
      ∙ link_command_lem r compiler output (link_items psl modules' objects' r.inputs)
      ∙ ap (link_line r compiler output) (link_items_lem r directory)

  link_products-Done :
      (object directory stage_directory stage_name : List ℕ) (h : List Action)
      → let (p, h') =
          link_products sys r compiler path object directory stage_directory stage_name h in
        Done p.ok (
          ran sys h'
          ≡ onto (commands sys r compiler directory stage_directory stage_name) (ran sys h))
  unfolding link_products
  link_products-Done object directory stage_directory stage_name h =
      let psl = directory ++ slash ∷ ascii "psl.o" in
      let output = stage_directory ++ slash ∷ stage_name in
      let fits = format_path_lem 64 directory (ascii "psl.o") (omega arith) in
      let fits' =
        format_path_lem (length stage_name + 2) stage_directory stage_name (omega arith) in
      let h₁ = (write_object sys psl object h).1 in
      let idle = write_object-Idle sys psl object h in
      let (compiled, h₂) = compile_sources sys compiler directory r.target 0 r.sources h₁ in
      let sources_done = compile_sources-Done sys compiler directory r.target r.sources 0 h₁ in
      let (runtime, h₃) =
        compile_runtime sys compiler directory (runtime_directory_of sys) r.target r.runtime_modules
          (pic_runtime r) 0 runtime_module_count h₂ in
      let runtime_done =
        compile_runtime-Done sys compiler directory (runtime_directory_of sys) r.target
          r.runtime_modules (pic_runtime r) runtime_module_count 0 h₂ in
      elim (Bool-cases (write_object sys psl object h).0) [
        | inr failed ↦ rw (fits, fits', failed) tt
        | inl wrote ↦ elim (Bool-cases compiled.0) [
          | inr failed ↦ rw (fits, fits', wrote, failed) tt
          | inl c ↦ elim (Bool-cases runtime.0) [
            | inr failed ↦ rw (fits, fits', wrote, c, failed) tt
            | inl k ↦
                let (sources_there, first) = Done-true compiled.0 c sources_done in
                let (runtime_there, second) = Done-true runtime.0 k runtime_done in
                let second_there =
                  second
                  ∙ ap
                      (λ place.
                        onto
                          (runtime_commands compiler directory place r.target r.runtime_modules
                            (pic_runtime r) 0 runtime_module_count)
                          (ran sys h₂))
                      (runtime_directory_of_lem sys) in
                let items = link_items psl runtime.1 compiled.1 r.inputs in
                let (linked, h₄) = link_items_to sys r compiler output path items h₃ in
                let sources = source_commands compiler directory r.target 0 r.sources in
                let modules =
                  runtime_commands compiler directory (module_directory sys) r.target
                    r.runtime_modules (pic_runtime r) 0 runtime_module_count in
                rw (fits, fits', wrote, c, k)
                  (Done-map linked
                    (λ last.
                      stages-onto sources modules idle first second_there last
                        (items-command output directory runtime_there sources_there))
                    (link_items_to-Done output items h₃))
          ]
        ]
      ]

  pub products_in-Done :
      (object directory stage_directory stage_name : List ℕ) (h : List Action)
      → let (p, h') =
          products_in sys r compiler path object directory stage_directory stage_name h in
        Done p.ok (
          ran sys h'
          ≡ onto (commands sys r compiler directory stage_directory stage_name) (ran sys h))
  unfolding products_in ran
  products_in-Done object directory stage_directory stage_name h =
      let a = Action.allocate (length directory + 64) in
      let b = Action.allocate (source_room r * 8) in
      let c = Action.allocate (runtime_module_count * 8) in
      let e = Action.allocate (length stage_directory + length stage_name + 2) in
      let given =
        sys.succeeds h a
        && sys.succeeds (a ∷ h) b
        && sys.succeeds (b ∷ a ∷ h) c
        && sys.succeeds (c ∷ b ∷ a ∷ h) e in
      elim (Bool-cases (ltb (size_max - length stage_name - 2) (length stage_directory))) [
        | inl long ↦ rw long tt
        | inr short ↦ elim (Bool-cases given) [
          | inr missing ↦ rw (short, missing) tt
          | inl memory ↦
              rw (short, memory)
                (link_products-Done object directory stage_directory stage_name (e ∷ c ∷ b ∷ a ∷ h))
        ]
      ]
