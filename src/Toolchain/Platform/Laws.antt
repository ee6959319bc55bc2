-- ===== src/Toolchain/Platform/Laws.antt =====
-- What the compiler can rely on, on either platform.
use portable_systems_lisp.Base.{
  ℕ, ◌+◌, ◌-◌, ◌^◌, ◌<◌, ◌≡◌, ◌⊎◌, refl, inl, inr, Bool-cases, ◌||◌, ◌==◌, Bool, true, false,
  Option, some, List, bit_and, arith,
}
use portable_systems_lisp.Toolchain.Tools.{x86_64_none, riscv64_none}
use portable_systems_lisp.Toolchain.Actions.{Action, System}
use portable_systems_lisp.Toolchain.Merge.Laws.{Merged, merge_c_sources-Merged}
use portable_systems_lisp.Toolchain.Directories.{made, gone}
use portable_systems_lisp.Toolchain.Freestanding.{Request}
use portable_systems_lisp.Toolchain.Freestanding.Puts.{Puts-none}
use portable_systems_lisp.Toolchain.Artifact.Laws.{Renames, link_artifact_lem}
use portable_systems_lisp.Toolchain.Roots.{no_roots}
use portable_systems_lisp.Toolchain.Roots.Bounds.{runtime_roots-IsAnswer}
use portable_systems_lisp.Toolchain.Roots.Processes.{runtime_roots-Clean}
use portable_systems_lisp.Toolchain.Roots.Children.{Clean, Clean-same}
use portable_systems_lisp.Toolchain.Platform.{NativeHost, unix_host, other_host, native_host}

-- The contract of the interface: a search for modules cleans up and answers with modules that exist,
-- a link and a merge that succeed put in place the files that they are to make, and a platform that
-- does not support links never touches anything.
pub record Keeps (sys : System) (host : NativeHost) : Type 0 where
  pub roots :
      (target : ℕ) (sources : List (List ℕ)) (inputs : List (Option (List ℕ))) (has_inputs : Bool)
      (h : List Action)
      → let (roots, h') = host.runtime_roots target sources inputs has_inputs h in
        Clean sys h h'
        × ((roots ≡ no_roots) ⊎ ((roots < 2 ^ 11) × (bit_and roots (2 ^ 64 - 2 ^ 11) ≡ 0)))
  pub links :
      (r : Request) (h : List Action)
      → let (ok, h') = host.link_artifact r h in
        Renames sys r ok h h'
        × ((d : List ℕ) → made sys d h' + gone sys d h ≡ made sys d h + gone sys d h')
  pub merges :
      (output object : List ℕ) (sources : List (List ℕ)) (target : ℕ) (h : List Action)
      → let (ok, h') = host.merge_c_sources (some output) object sources target h in
        Merged sys output ok h h'
  pub unsupported :
      (r : Request) (h : List Action)
      → (host.link_supported ≡ true) ⊎ (host.link_artifact r h ≡ (false, h))

-- A failed link that did nothing renames nothing.
none-Renames : (sys : System) (r : Request) (h : List Action) → Renames sys r false h h
none-Renames sys r h = elim (Bool-cases ((r.target == x86_64_none) || (r.target == riscv64_none))) [
  | inl freestanding ↦ rw freestanding (Puts-none sys r.path r.map_file h h refl)
  | inr hosted ↦ rw hosted refl
]

unix_host-Keeps : (sys : System) → Keeps sys (unix_host sys)
unfolding unix_host
unix_host-Keeps sys = record {
  roots = λ target sources inputs has_inputs h. (
    runtime_roots-Clean sys target sources inputs has_inputs h,
    runtime_roots-IsAnswer sys target sources inputs has_inputs h,
  );
  links = λ r h. link_artifact_lem sys r h;
  merges =
      λ output object sources target h. merge_c_sources-Merged sys output object sources target h;
  unsupported = λ r h. inl refl;
}

other_host-Keeps : (sys : System) → Keeps sys other_host
unfolding other_host
other_host-Keeps sys = record {
  roots = λ target sources inputs has_inputs h. (Clean-same sys h, inl refl);
  links = λ r h. (none-Renames sys r h, λ d. omega arith);
  merges = λ output object sources target h. refl;
  unsupported = λ r h. inr refl;
}

-- Whichever platform the library is built for and whatever the host answers, the contract is kept: a
-- search for modules cleans up and answers UINT64_MAX or modules that exist; a link that returns 1
-- renames each file due from a directory made in the run to its place, and nothing else, one that
-- returns 0 renames nothing but, on a freestanding target, at most the map, and a link removes
-- directories as often as it makes them; a merge that returns 1 renames merged.o of its temporary
-- directory to the output, and nothing else, and one that returns 0 nothing; and where links are not
-- supported, a link returns 0 and does nothing.
pub native_host-Keeps : (sys : System) (unix : Bool) → Keeps sys (native_host sys unix)
unfolding native_host
native_host-Keeps sys true = unix_host-Keeps sys
native_host-Keeps sys false = other_host-Keeps sys
