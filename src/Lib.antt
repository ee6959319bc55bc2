-- ===== src/Lib.antt =====
-- The hosted runtime of Portable Systems Lisp and the native compiler's use of the host's tools.
--
-- The runtime (runtime/*.c) gives compiled programs tagged 64-bit values, a mark-and-sweep heap of
-- conses, strings, symbols, packages, closures and value vectors, root frames and value handles that
-- keep values alive, and two multiple values. The toolchain part
-- (bootstrap/host/platform_toolchain.c) runs the C compiler, archiver and linker for the compiler.
--
-- The files and the code that each is about:
--   Base, Outcome: shared names, Boolean tests, lists, bits and integers; how a C run can end. A call
--     of abort() is `abort`, undefined behaviour is `fault`.
--   Value: runtime/value.c, psl_rt_fixnum to psl_rt_eq; a psl_value is a natural below 2 ^ 64.
--   Machine: runtime/internal.h and the static variables as one record, Runtime; the heap is the
--     linked list of objects with their addresses, the words outside it are a function of addresses.
--   Gc: runtime/gc.c and runtime/startup.c, mark_value to allocate_object. Gc.Reach says which objects
--     are reached; Mark, Trace, Sweep and Unmark are about the phases, Collect about a collection,
--     Survive and Allocate about what clients rely on.
--   Frames: the root frame of a C function and the common course of the constructors. Gc.Total,
--     Frames.Total and Api.Total are about how a call ends, the host's refusals included.
--   Cons, Closures, Text, Vector, Symbols, Multiple, Handles: runtime/cons.c, closure.c, string.c,
--     vector.c, symbol.c with package.c, values.c, and the value handles of gc.c.
--   Steps: the calls of the runtime as steps from state to state, and the states that calls reach;
--     Registries and Outside are about what an operation leaves alone, Sound about the invariant.
--   Toolchain: bootstrap/host/platform_toolchain.c. Tools and Modules are the tables, Paths the names;
--     Actions, History, Local, Publish and Directories are about what is done to the host and what of
--     it is renamed and removed; Merge is native_host_merge_c_sources, Freestanding link_freestanding,
--     Inputs, Products and Artifact native_host_link_artifact, Commands the tools it runs, Symbols the
--     loop over the lines that nm prints, and Roots native_host_runtime_roots with the functions that
--     it calls; Platform is the interface of all of them, with the host that has no tools.
--   Api: the functions of runtime/psl_runtime.h that construct objects, in both forms.
--   Tests: runs of the model and the theorems at concrete inputs.
--
-- The C functions that come in a precise and a conservative form are one definition with a flag. The
-- answers of calloc, malloc and the platform's stack top are the record Host, one for each call
-- that allocates; the code behind a closure is a parameter, and so is the host that runs tools.
--
-- Bounds. The loop over the work array has as much fuel as the heap has objects: each object is
-- queued at most once. The walk along a package's chain has one round for each object and one
-- more. The doubling of a capacity has 65 rounds, since 2 ^ 64 exceeds every size. A decimal has
-- room for the 20 digits of a size_t. The loop over what nm prints has a round for each byte, since
-- fgets takes one at least. Sizes that C counts in size_t are naturals, with the code's
-- own overflow tests kept; the product that doubles a capacity wraps around.
--
-- Not modelled: the platform's stack top (a question to the threads library), standard streams and
-- the driver's main (pure I/O), the child's side of fork, which execvp replaces, and the compilers
-- themselves, which are written in Lisp.
pub mod Base
pub mod Outcome
pub mod Value
pub mod Machine
pub mod Gc
pub mod Frames
pub mod Cons
pub mod Handles
pub mod Multiple
pub mod Text
pub mod Symbols
pub mod Closures
pub mod Vector
pub mod Toolchain
pub mod Steps
pub mod Api
mod Tests
