-- ===== src/Tests.antt =====
-- Concrete runs of the model, and the theorems at concrete inputs.
pub mod Sample
mod Collection
mod Constructors
mod Values
mod Strings
mod Vectors
mod Hosts
mod Packages
mod Runs
mod Links
mod Roots
