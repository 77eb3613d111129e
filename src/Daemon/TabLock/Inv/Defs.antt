-- ===== src/Daemon/TabLock/Inv/Defs.antt =====
-- The invariant of the tab locks: the counters agree with the threads, and an entry in use is the
-- one in the map.
use go_bb_browser.Prelude.{ℕ, ◌+◌, ◌≤◌, ◌<◌, ◌≡◌, true, some, Text}
use go_bb_browser.Prelude.Map
use go_bb_browser.Prelude.Threads.{total}
use go_bb_browser.Daemon.TabLock.{TabLocks}
use go_bb_browser.Daemon.TabLock.Threads.{Pc, ref_of, uses, holds}

pub record Inv (n : ℕ) (l : TabLocks) (pc : ℕ → Pc) : Type 0 where
  pub counted : (e : ℕ) → (l.entries e).refs ≡ total (uses e) n pc
  pub token : (e : ℕ) → e < l.size → (l.entries e).sem + total (holds e) n pc ≡ 1
  pub unborn : (e : ℕ) → l.size ≤ e → (l.entries e).refs ≡ 0
  pub linked :
      (i : ℕ) (s : Text) (e : ℕ)
      → i < n
      → ref_of (pc i) ≡ some (s, e)
      → Map.get s l.tab_cdp_locks ≡ some e
  pub named : (s : Text) (e : ℕ) → Map.get s l.tab_cdp_locks ≡ some e → e < l.size
  pub apart :
      (s t : Text) (e : ℕ)
      → Map.get s l.tab_cdp_locks ≡ some e
      → Map.get t l.tab_cdp_locks ≡ some e
      → s ≡ t
  pub live :
      (s : Text) (e : ℕ)
      → Map.get s l.tab_cdp_locks ≡ some e
      → (l.entries e).forgotten ≡ true
      → 0 < (l.entries e).refs
