-- ===== src/Daemon/TabLock/Tests.antt =====
-- Two threads at the lock of one tab, and the properties at the states that they reach.
use go_bb_browser.Prelude.{
  false, ◌∷◌, ℕ, ◌<◌, ◌≡◌, refl, ◌≢◌, ◌⊎◌, [], some, true, arith, Text, codes, str_eq,
}
use go_bb_browser.Prelude.Map
use go_bb_browser.Daemon.TabLock.{TabLocks, acquire_ref, receive, forget_tab_lock}
use go_bb_browser.Daemon.TabLock.Threads.{
  waiting, holding, System, Reach, start, later, pick, acquire, enter, forget,
}
use go_bb_browser.Daemon.TabLock.Exclusion.{mutual_exclusion, waiting_progress}
use native.Mathlib.Decide.{ℕ_discrete}

abbrev tab : Text
tab = codes "ab12"

tab_named : tab ≢ []
tab_named = λ h. cc

-- Thread 0 holds the lock, thread 1 waits for it, and the tab is forgotten meanwhile.
abbrev contended : (s : System) × Reach 2 s
unfolding acquire_ref receive forget_tab_lock Map.get Map.insert str_eq ℕ_discrete
contended = (
  _,
  later
      (later
        (later (later start (pick 0 (omega arith) (acquire tab tab_named)))
          (pick 1 (omega arith) (acquire tab tab_named)))
        (pick 0 (omega arith) (enter refl)))
      (pick 1 (omega arith) (forget tab)),
)

contended_first : contended.0.pc 0 ≡ holding tab 0
unfolding contended
contended_first = refl

contended_second : contended.0.pc 1 ≡ waiting tab 0
unfolding contended
contended_second = refl

mutual_exclusion_example : ◌≡◌ {A = ℕ} 0 0
mutual_exclusion_example =
    mutual_exclusion contended.1 tab 0 0 0 0 (omega arith) (omega arith) contended_first
      contended_first

waiting_progress_example :
    ((l : TabLocks) × (receive contended.0.locks 0 ≡ some l))
    ⊎ ((j : ℕ) × (j < 2) × (contended.0.pc j ≡ holding tab 0))
waiting_progress_example = waiting_progress contended.1 tab 1 0 (omega arith) contended_second

contended_entry : Map.get tab contended.0.locks.tab_cdp_locks ≡ some 0
unfolding contended Map.get str_eq
contended_entry = refl

contended_forgotten : (contended.0.locks.entries 0).forgotten ≡ true
unfolding contended
contended_forgotten = refl

-- A tab that nobody uses leaves the map when it is forgotten, and a later thread gets a new entry.
forget_unused :
    let l : TabLocks = record {
      entries = λ _. record { sem = 1; refs = 0; forgotten = false };
      size = 1;
      tab_cdp_locks = (tab, 0) ∷ [];
    } in
    (acquire_ref (forget_tab_lock l tab) tab).0 ≡ 1
unfolding acquire_ref forget_tab_lock Map.get Map.delete str_eq
forget_unused = refl
