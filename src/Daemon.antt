-- ===== src/Daemon.antt =====
-- internal/daemon: the watchdog of the browser connection, the idle tracking after a restart, who may
-- call, the lock of a tab, and the handlers of POST /v1.
pub mod Watchdog
pub mod Probes
pub mod Restart
pub mod Auth
pub mod TabLock
pub mod Rpc
mod Tests
