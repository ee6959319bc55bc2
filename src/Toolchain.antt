-- ===== src/Toolchain.antt =====
-- bootstrap/host/platform_toolchain.c: the native compiler's use of the host's C compiler, archiver
-- and linker. A `const char *` is an option of its bytes, none for NULL.
pub mod Tools
pub mod Paths
pub mod Modules
pub mod Actions
pub mod History
pub mod Symbols
pub mod Merge
pub mod Inputs
pub mod Freestanding
pub mod Products
pub mod Artifact
pub mod Commands
pub mod Roots
pub mod Platform
pub mod Local
pub mod Publish
pub mod Directories
