-- ===== src/Daemon/TabLock/Threads.antt =====
-- Threads that use the tab lock, interleaved in any order. A thread takes the lock of a tab, works,
-- and gives it back; any thread may forget a tab at any time, as a target's removal does.
use go_bb_browser.Prelude.{ℕ, ◌<◌, ◌≡◌, ◌≢◌, [], Option, none, some, Text, ◌==◌, if◌then◌else◌}
use go_bb_browser.Prelude.Threads.{update}
use go_bb_browser.Daemon.TabLock.{
  TabLocks, no_locks, acquire_ref, receive, send, release_tab_lock_ref, forget_tab_lock,
}

-- Where a thread stands in `lockTab` and in the function that this returns.
pub data Pc : Type 0 where
  idle : Pc
  unguarded : Pc  -- works on the empty short id, which has no lock
  waiting : Text → ℕ → Pc  -- at the `select`
  holding : Text → ℕ → Pc  -- `lockTab` has returned true
  leaving : Text → ℕ → Pc  -- before `releaseTabLockRef`

pub data Move (l : TabLocks) : Pc → TabLocks → Pc → Type 0 where
  skip : Move l idle l unguarded
  skipped : Move l unguarded l idle
  acquire :
      (short : Text)
      → short ≢ []
      → Move l idle (acquire_ref l short).1 (waiting short (acquire_ref l short).0)
  enter :
      {short : Text} {e : ℕ} {l' : TabLocks}
      → receive l e ≡ some l'
      → Move l (waiting short e) l' (holding short e)
  cancel : {short : Text} {e : ℕ} → Move l (waiting short e) l (leaving short e)
  unlock :
      {short : Text} {e : ℕ} {l' : TabLocks}
      → send l e ≡ some l'
      → Move l (holding short e) l' (leaving short e)
  release : {short : Text} {e : ℕ} → Move l (leaving short e) (release_tab_lock_ref l short e) idle
  forget : {p : Pc} (short : Text) → Move l p (forget_tab_lock l short) p

pub record System : Type 0 where
  pub locks : TabLocks
  pub pc : ℕ → Pc

-- One of `n` threads moves.
pub data Step (n : ℕ) (s : System) : System → Type 0 where
  pick :
      (i : ℕ) {l : TabLocks} {p : Pc}
      → i < n
      → Move s.locks (s.pc i) l p
      → Step n s (record { locks = l; pc = update s.pc i p })

abbrev pub at_start : System
at_start = record { locks = no_locks; pc = λ _. idle }

pub data Reach (n : ℕ) : System → Type 0 where
  start : Reach n at_start
  later : {s t : System} → Reach n s → Step n s t → Reach n t

-- The short id and the entry that a thread has counted itself on.
abbrev pub ref_of : Pc → Option (Text × ℕ)
ref_of idle = none
ref_of unguarded = none
ref_of (waiting s e) = some (s, e)
ref_of (holding s e) = some (s, e)
ref_of (leaving s e) = some (s, e)

abbrev same : Option (Text × ℕ) → ℕ → ℕ
same none e = 0
same (some (_, d)) e = if d == e then 1 else 0

-- 1 if the thread is counted on the entry `e`.
abbrev pub uses : ℕ → Pc → ℕ
uses e p = same (ref_of p) e

-- 1 if the thread has the token of the entry `e`.
abbrev pub holds : ℕ → Pc → ℕ
holds e (holding s d) = if d == e then 1 else 0
holds e _ = 0
