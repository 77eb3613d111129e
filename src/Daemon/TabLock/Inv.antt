-- ===== src/Daemon/TabLock/Inv.antt =====
-- What holds of the tab locks in every reachable state.
mod Defs
mod Moves
pub use Defs.*
use go_bb_browser.Prelude.{ℕ, ◌<◌, ◌≡◌, refl, arith}
use go_bb_browser.Prelude.Threads.{total, total-const}
use go_bb_browser.Prelude.Map
use go_bb_browser.Daemon.TabLock.{no_locks}
use go_bb_browser.Daemon.TabLock.Threads.{
  Step, pick, at_start, Reach, start, later, System, uses, holds, idle, Pc,
}
use Moves.{Move-Inv}

at_start-Inv : (n : ℕ) → Inv n no_locks (λ _. idle)
unfolding Map.get
at_start-Inv n = record {
  counted = λ e. omega (arith, total-const (uses e) n idle refl);
  token = λ e h. absurd (omega arith);
  unborn = λ e h. refl;
  linked = λ i s e h q. cc;
  named = λ s e q. cc;
  apart = λ s t e q r. cc;
  live = λ s e q r. cc;
}

pub Step-Inv : {n : ℕ} {s t : System} → Step n s t → Inv n s.locks s.pc → Inv n t.locks t.pc
Step-Inv (pick i lt mv) inv = Move-Inv inv i lt mv

pub Reach-Inv : {n : ℕ} {s : System} → Reach n s → Inv n s.locks s.pc
Reach-Inv {n} start = at_start-Inv n
Reach-Inv (later r st) = Step-Inv st (Reach-Inv r)
