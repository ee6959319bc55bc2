-- ===== src/Toolchain/Platform.antt =====
-- The interface of the native host, bootstrap/native_api.h with bootstrap/host/platform_toolchain.c:
-- what the compiler asks of the platform, on Unix and where the host has no tools.
pub mod Laws
use portable_systems_lisp.Base.{ℕ, Bool, true, false, if◌then◌else◌, Option, List}
use portable_systems_lisp.Toolchain.Actions.{System, Run, answer}
use portable_systems_lisp.Toolchain.Merge.{merge_c_sources}
use portable_systems_lisp.Toolchain.Freestanding.{Request}
use portable_systems_lisp.Toolchain.Artifact.{link_artifact}
use portable_systems_lisp.Toolchain.Roots.{no_roots, runtime_roots}

pub record NativeHost : Type 0 where
  pub link_supported : Bool
  pub runtime_roots : ℕ → List (List ℕ) → List (Option (List ℕ)) → Bool → Run ℕ
  pub link_artifact : Request → Run Bool
  pub merge_c_sources : Option (List ℕ) → List ℕ → List (List ℕ) → ℕ → Run Bool

unfoldable pub unix_host : System → NativeHost
unix_host sys = record {
  link_supported = true;
  runtime_roots = runtime_roots sys;
  link_artifact = link_artifact sys;
  merge_c_sources = merge_c_sources sys;
}

unfoldable pub other_host : NativeHost
other_host = record {
  link_supported = false;
  runtime_roots = λ target sources inputs has_inputs. answer no_roots;
  link_artifact = λ r. answer false;
  merge_c_sources = λ output object sources target. answer false;
}

-- The choice that the preprocessor makes.
unfoldable pub native_host : System → Bool → NativeHost
unfolding unix_host other_host
native_host sys unix = if unix then unix_host sys else other_host
