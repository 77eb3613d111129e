-- ===== src/Daemon/TabLock.antt =====
-- internal/daemon/rpc_connections.go: the lock of a tab. Pointers to entries are addresses of a heap;
-- a function that holds `tabMuOps` for its body is one step. What `lockTab` does outside it, the
-- receive from `ent.sem`, is a step that waits, and so is the send in the function it returns.
pub mod Threads
pub mod Inv
pub mod Exclusion
mod Tests
use go_bb_browser.Prelude.{
  ℕ, zero, suc, ◌+◌, ◌-◌, Bool, true, false, ◌&&◌, [], Option, none, some, Text, str_eq, ◌==◌,
  if◌then◌else◌,
}
use go_bb_browser.Prelude.Map.{Map}
use go_bb_browser.Prelude.Map
use go_bb_browser.Prelude.Threads.{update}

-- `sem` is the number of tokens in the channel, whose capacity is 1.
pub record TabLockEntry : Type 0 where
  pub sem : ℕ
  pub refs : ℕ
  pub forgotten : Bool

-- The fields of `Server` that the lock uses, with the heap of entries. `size` is the next free
-- address.
pub record TabLocks : Type 0 where
  pub entries : ℕ → TabLockEntry
  pub size : ℕ
  pub tab_cdp_locks : Map ℕ

abbrev pub write : TabLocks → ℕ → TabLockEntry → TabLocks
write l e ent = record l { entries = update l.entries e ent }

abbrev pub no_entry : TabLockEntry
no_entry = record { sem = 0; refs = 0; forgotten = false }

abbrev pub no_locks : TabLocks
no_locks = record { entries = λ _. no_entry; size = 0; tab_cdp_locks = [] }

-- `ent.refs++`
unfoldable pub add_ref : TabLocks → ℕ → TabLocks
add_ref l e =
    let ent = l.entries e in
    write l e (record { sem = ent.sem; refs = ent.refs + 1; forgotten = ent.forgotten })

-- A new entry, its token sent, under `short`.
unfoldable pub new_entry : TabLocks → Text → TabLocks
new_entry l short = record {
  entries = update l.entries l.size (record { sem = 1; refs = 0; forgotten = false });
  size = suc l.size;
  tab_cdp_locks = Map.insert short l.size l.tab_cdp_locks;
}

-- The part of `lockTab` that holds `tabMuOps`: the entry's address, and the new state.
unfoldable pub acquire_ref : TabLocks → Text → ℕ × TabLocks
unfolding add_ref new_entry
acquire_ref l short = elim (Map.get short l.tab_cdp_locks) [
  | none ↦ (l.size, add_ref (new_entry l short) l.size)
  | some e ↦ (e, add_ref l e)
]

-- `<-ent.sem`: `none` if the channel is empty, and the thread waits.
unfoldable pub receive : TabLocks → ℕ → Option TabLocks
receive l e =
    let ent = l.entries e in
    if ent.sem == 0
    then none
    else some (write l e (record { sem = ent.sem - 1; refs = ent.refs; forgotten = ent.forgotten }))

-- `ent.sem <- struct{}{}`: `none` if the channel is full, and the thread waits.
unfoldable pub send : TabLocks → ℕ → Option TabLocks
send l e =
    let ent = l.entries e in
    if ent.sem == 0
    then some (write l e (record { sem = ent.sem + 1; refs = ent.refs; forgotten = ent.forgotten }))
    else none

-- `s.tabCDPLocks[short] == ent`
abbrev pub is_entry : Option ℕ → ℕ → Bool
is_entry none e = false
is_entry (some d) e = d == e

unfoldable pub release_tab_lock_ref : TabLocks → Text → ℕ → TabLocks
release_tab_lock_ref l short e =
    let ent = l.entries e in
    let l' = write l e (record { sem = ent.sem; refs = ent.refs - 1; forgotten = ent.forgotten }) in
    if ent.refs - 1 == 0 && ent.forgotten && is_entry (Map.get short l.tab_cdp_locks) e
    then record l' { tab_cdp_locks = Map.delete short l.tab_cdp_locks }
    else l'

unfoldable pub forget_tab_lock : TabLocks → Text → TabLocks
forget_tab_lock l short = if str_eq short [] then l else elim (Map.get short l.tab_cdp_locks) [
  | none ↦ l
  | some e ↦
      let ent = l.entries e in
      let l' = write l e (record { sem = ent.sem; refs = ent.refs; forgotten = true }) in
      if ent.refs == 0 then record l' { tab_cdp_locks = Map.delete short l.tab_cdp_locks } else l'
]
