-- ===== src/Store.antt =====
-- The package internal/store.
pub mod Record
pub mod Replay
pub mod Fold
pub mod State
pub mod Recovery
pub mod Sequence
mod Tests
