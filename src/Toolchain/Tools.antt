-- ===== src/Toolchain/Tools.antt =====
-- The tables of tools by target; the targets are those of enum native_target_id in
-- bootstrap/native_api.h.
use Prim.Native.Char.{code}
use Prim.Native.String.{String}
use portable_systems_lisp.Base.{
  ℕ, ◌<◌, ◌≤◌, ◌≡◌, ◌↔◌, true, Option, none, some, List, ◌==◌, if◌then◌else◌, is_some, arith,
}

-- The bytes of an ASCII literal.
abbrev pub ascii : String → List ℕ
ascii String.[] = List.[]
ascii (String.◌∷◌ letter more) = List.◌∷◌ (code letter) (ascii more)

abbrev pub x86_64_linux : ℕ
x86_64_linux = 0

abbrev pub aarch64_linux : ℕ
aarch64_linux = 1

abbrev pub riscv64_linux : ℕ
riscv64_linux = 2

abbrev pub x86_64_windows : ℕ
x86_64_windows = 3

abbrev pub x86_64_none : ℕ
x86_64_none = 4

abbrev pub riscv64_none : ℕ
riscv64_none = 5

unfoldable pub target_compiler : ℕ → Option (List ℕ)
target_compiler target =
    if target == x86_64_linux
    then some (ascii "gcc")
    else if target == aarch64_linux
    then some (ascii "aarch64-linux-gnu-gcc")
    else if target == riscv64_linux
    then some (ascii "riscv64-linux-gnu-gcc")
    else if target == x86_64_windows
    then some (ascii "x86_64-w64-mingw32-gcc")
    else none

unfoldable pub target_linker : ℕ → Option (List ℕ)
target_linker target =
    if target == x86_64_none
    then some (ascii "ld")
    else if target == riscv64_none
    then some (ascii "riscv64-unknown-elf-ld")
    else none

unfoldable pub target_archiver : ℕ → Option (List ℕ)
target_archiver target =
    if target == x86_64_linux
    then some (ascii "ar")
    else if target == aarch64_linux
    then some (ascii "aarch64-linux-gnu-ar")
    else if target == riscv64_linux
    then some (ascii "riscv64-linux-gnu-ar")
    else if target == x86_64_windows
    then some (ascii "x86_64-w64-mingw32-ar")
    else none

unfoldable pub target_nm : ℕ → Option (List ℕ)
target_nm target =
    if target == x86_64_linux
    then some (ascii "nm")
    else if target == aarch64_linux
    then some (ascii "aarch64-linux-gnu-nm")
    else if target == riscv64_linux
    then some (ascii "riscv64-linux-gnu-nm")
    else if target == x86_64_windows
    then some (ascii "x86_64-w64-mingw32-nm")
    else none

-- A target has a compiler exactly if it has an archiver and exactly if it has a symbol lister; no
-- target has both a compiler and a linker of its own, and each of the six has one of them.
pub tools_agree :
    (target : ℕ)
    → (is_some (target_archiver target) ≡ is_some (target_compiler target))
      × (is_some (target_nm target) ≡ is_some (target_compiler target))
      × ((is_some (target_compiler target) ≡ true) ↔ (target < 4))
      × ((is_some (target_linker target) ≡ true) ↔ ((4 ≤ target) × (target < 6)))
unfolding target_compiler target_linker target_archiver target_nm
tools_agree target = ground arith
