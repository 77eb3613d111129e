-- ===== src/Daemon/TabLock/Exclusion.antt =====
-- What the lock of a tab is for: who may work on the tab, who waits, and when an entry is dropped.
use go_bb_browser.Prelude.{ℕ, ◌<◌, ◌≡◌, ◌⊎◌, inl, inr, true, some, arith, Text, Option-cases}
use go_bb_browser.Prelude.Map
use native.Mathlib.Decide.{dec_lt}
use go_bb_browser.Prelude.Threads.{total, total_pos, add-le-total, le-total}
use go_bb_browser.Daemon.TabLock.{TabLocks, receive, send}
use go_bb_browser.Daemon.TabLock.Threads.{
  Pc, idle, unguarded, waiting, holding, leaving, System, Reach, ref_of, uses, holds,
}
use go_bb_browser.Daemon.TabLock.Inv.{Inv, Reach-Inv}

module _ {n : ℕ} {l : TabLocks} {pc : ℕ → Pc} (inv : Inv n l pc) where
  open inv use {counted, token, linked, named, apart, live}

  -- Of two holders of one token the first is the second.
  apart_holders :
      (i j e : ℕ) → i < n → j < n → e < l.size → holds e (pc i) ≡ 1 → holds e (pc j) ≡ 1 → i ≡ j
  apart_holders i j e h k le p q =
      ground (arith, token e, add-le-total (holds e) n pc i j, add-le-total (holds e) n pc j i)

-- In every reachable state at most one thread holds the lock of a tab, whichever entries the threads
-- found in the map and however often the tab was forgotten in between.
pub mutual_exclusion :
    {n : ℕ} {s : System}
    → Reach n s
    → (short : Text) (i j d e : ℕ) → i < n
    → j < n
    → s.pc i ≡ holding short d
    → s.pc j ≡ holding short e
    → i ≡ j
mutual_exclusion {s} r short i j d e h k p q =
    let inv = Reach-Inv r in
    let at_d = inv.linked i short d h (rw p) in
    let at_e = inv.linked j short e k (rw q) in
    let same : d ≡ e = cc in
    apart_holders inv i j e h k (inv.named short e at_e) (rw (p, same) (ground arith))
      (rw q (ground arith))

-- A thread with the token of `e` is at `holding`.
holds_pos : (e : ℕ) (p : Pc) → 0 < holds e p → (s : Text) × (p ≡ holding s e)
holds_pos e idle h = absurd (omega arith)
holds_pos e unguarded h = absurd (omega arith)
holds_pos e (waiting s d) h = absurd (omega arith)
holds_pos e (holding s d) h = (s, ground arith)
holds_pos e (leaving s d) h = absurd (omega arith)

uses_pos : (e : ℕ) (p : Pc) → 0 < uses e p → (s : Text) × (ref_of p ≡ some (s, e))
uses_pos e idle h = absurd (omega arith)
uses_pos e unguarded h = absurd (omega arith)
uses_pos e (waiting s d) h = (s, ground arith)
uses_pos e (holding s d) h = (s, ground arith)
uses_pos e (leaving s d) h = (s, ground arith)

receive_ready :
    (l : TabLocks) (e : ℕ) → 0 < (l.entries e).sem → (l' : TabLocks) × (receive l e ≡ some l')
unfolding receive
receive_ready l e h = elim (Option-cases (receive l e)) [
  | inl closed ↦ absurd (ground arith)
  | inr ready ↦ ready
]

send_ready : (l : TabLocks) (e : ℕ) → (l.entries e).sem ≡ 0 → (l' : TabLocks) × (send l e ≡ some l')
unfolding send
send_ready l e h = elim (Option-cases (send l e)) [
  | inl full ↦ absurd (ground arith)
  | inr ready ↦ ready
]

-- In every reachable state a thread that waits for the lock of a tab can take it at once, or another
-- thread holds the lock of the same tab.
pub waiting_progress :
    {n : ℕ} {s : System}
    → Reach n s
    → (short : Text) (i e : ℕ) → i < n
    → s.pc i ≡ waiting short e
    → ((l : TabLocks) × (receive s.locks e ≡ some l))
      ⊎ ((j : ℕ) × (j < n) × (s.pc j ≡ holding short e))
waiting_progress {n} {s} r short i e h p =
    let inv = Reach-Inv r in
    let here = inv.linked i short e h (rw p) in
    let one = inv.token e (inv.named short e here) in
    elim (dec_lt 0 (total (holds e) n s.pc)) [
      | yes busy ↦
          let (j, lt, held) = total_pos (holds e) n s.pc busy in
          let (t, q) = holds_pos e (s.pc j) held in
          let there = inv.linked j t e lt (rw q) in
          inr (j, lt, rw (inv.apart short t e here there) q)
      | no free ↦ inl (receive_ready s.locks e (omega arith))
    ]

-- In every reachable state the thread that holds the lock of a tab gives it back without waiting:
-- the channel has room for its token.
pub holding-send :
    {n : ℕ} {s : System}
    → Reach n s
    → (short : Text) (i e : ℕ) → i < n
    → s.pc i ≡ holding short e
    → (l : TabLocks) × (send s.locks e ≡ some l)
holding-send {n} {s} r short i e h p =
    let inv = Reach-Inv r in
    let here = inv.linked i short e h (rw p) in
    let one = inv.token e (inv.named short e here) in
    let mine : holds e (s.pc i) ≡ 1 = rw p (ground arith) in
    send_ready s.locks e (omega (arith, le-total (holds e) n s.pc i h))

-- In every reachable state an entry whose tab was forgotten is in the map only while some thread is
-- counted on it under the same short id.
pub forgotten-in_use :
    {n : ℕ} {s : System}
    → Reach n s
    → (short : Text) (e : ℕ) → Map.get short s.locks.tab_cdp_locks ≡ some e
    → (s.locks.entries e).forgotten ≡ true
    → (i : ℕ) × (i < n) × (ref_of (s.pc i) ≡ some (short, e))
forgotten-in_use {n} {s} r short e q f =
    let inv = Reach-Inv r in
    let (i, lt, used) =
      total_pos (uses e) n s.pc (omega (arith, inv.counted e, inv.live short e q f)) in
    let (t, at) = uses_pos e (s.pc i) used in
    (i, lt, rw (inv.apart short t e q (inv.linked i t e lt at)) at)
