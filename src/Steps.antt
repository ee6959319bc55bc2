-- ===== src/Steps.antt =====
-- The operations of the runtime as steps from state to state.
pub mod Registries
pub mod Sound
pub mod Outside
pub mod Step
pub mod Soundness
