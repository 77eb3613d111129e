-- ===== src/Pool.antt =====
-- pkg/daemonclient/pool.go: a pool of daemons behind one client.
pub mod TabId
pub mod State
pub mod Tabs
pub mod Walk
pub mod Codec
pub mod Client
pub mod TabCalls
pub mod Calls
pub mod Inv
pub mod Order
pub mod Build
pub mod Observed
pub mod Keeps
pub mod KeepsWalks
pub mod Affinity
mod Tests
