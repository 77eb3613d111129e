-- ===== src/State.antt =====
-- The package internal/state.
pub mod Target
pub mod Ring
pub mod ObsStore
pub mod TabRegistry
pub mod TabIdle
