-- ===== src/Daemon/Rpc/Close.antt =====
-- internal/daemon/tab_idle.go and resolveTab of v1.go: what is kept of a target that goes, and the
-- closing of tabs, by a request or when they have been idle.
use go_bb_browser.Prelude.{
  Bool, true, false, List, [], ◌∷◌, Option, none, some, Text, ℤ, pos, negsuc, zero, suc,
  if◌then◌else◌,
}
use go_bb_browser.State.Target.{Info}
use go_bb_browser.State.TabRegistry.{
  TabSnapshot, RemovedTab, sync_page_targets_detailed, remove_target, lookup, short_for_target,
}
use go_bb_browser.State.TabIdle.{forget, sync_present, expired, is_expired, touch, mark_managed}
use go_bb_browser.State.ObsStore.{clear_target}
use go_bb_browser.Browser.Errors.{GoError, request, timeout, target_gone, transport, error_kind_of}
use go_bb_browser.Daemon.Restart.{present_ids}
use go_bb_browser.Daemon.TabLock.{forget_tab_lock}
use go_bb_browser.Daemon.Watchdog.{ensure_browser_session}
use go_bb_browser.Daemon.Rpc.{Server, Env, TabConn, ok, err}

-- `errTabCloseNoConn`, `errTabCloseUnknownID`, `errTabLockTimeout`, or the browser's error.
pub data CloseError : Type 0 where
  no_conn unknown_id lock_timeout : CloseError
  call_failed : GoError → CloseError

-- `err != nil && browser.ErrorKindOf(err) == browser.ErrorTargetGone`
unfoldable pub is_gone : CloseError → Bool
unfolding error_kind_of
is_gone no_conn = false
is_gone unknown_id = false
is_gone lock_timeout = false
is_gone (call_failed e) = elim (error_kind_of (some e)) [
  | request ↦ false
  | timeout ↦ false
  | target_gone ↦ true
  | transport ↦ false
]

module _ {W : Type 0} where
  unfoldable pub touch_tab_activity : Server W → Text → Server W
  touch_tab_activity s tid = record s { tab_idle = touch s.tab_idle tid s.clock }

  unfoldable pub mark_tab_managed : Server W → Text → Server W
  mark_tab_managed s tid = record s { tab_idle = mark_managed s.tab_idle tid s.clock }

  unfoldable pub forget_tab_managed : Server W → Text → Server W
  forget_tab_managed s tid = record s { tab_idle = forget s.tab_idle tid }

  unfoldable pub sync_tab_idle_presence : Server W → List TabSnapshot → Server W
  sync_tab_idle_presence s snaps = record s {
    tab_idle = sync_present s.tab_idle (present_ids snaps);
  }

  module _ (env : Env (Server W)) where
    abbrev forget_target_of : Option (TabConn (Server W)) → Text → Server W → Server W
    forget_target_of none tid s = s
    forget_target_of (some c) tid s = c.forget_target tid s

    unfoldable pub clear_removed_target : Text → Text → Server W → Server W
    clear_removed_target tid short s =
        let s1 = record s { obs_store = clear_target s.obs_store tid } in
        let s2 = forget_tab_managed s1 tid in
        let s3 = record s2 { locks = forget_tab_lock s2.locks short } in
        forget_target_of env.conn tid s3

    -- The loop over the targets that a sync has removed.
    unfoldable pub clear_removed : List RemovedTab → Server W → Server W
    clear_removed [] s = s
    clear_removed (t ∷ ts) s = clear_removed ts (clear_removed_target t.target_id t.short_id s)

    unfoldable pub sync_tabs_from_targets :
        List (Option Info) → Server W → List TabSnapshot × Server W
    sync_tabs_from_targets infos s =
        let r = sync_page_targets_detailed s.tabs infos in
        let s' = clear_removed r.1 (record s { tabs = r.2 }) in (r.0, sync_tab_idle_presence s' r.0)

    unfoldable pub remove_target_state : Text → Server W → Server W
    remove_target_state tid s =
        let r = remove_target s.tabs tid in
        let s' = record s { tabs = r.1 } in
        elim r.0 [ none ↦ s' | some short ↦ clear_removed_target tid short s' ]

    -- The targets are listed again, and the tab is looked up once more unless that fails.
    unfoldable pub resync : TabConn (Server W) → Text → Server W → Option Text × Server W
    resync c tab s =
        let r = c.page_targets s in
        elim r.0 [
          | err e ↦ (none, r.1)
          | ok infos ↦ let s' = (sync_tabs_from_targets infos r.1).1 in (lookup s'.tabs tab, s')
        ]

    -- `resolveTab`, and the same lines of `closeTabByShortLocked`.
    unfoldable pub resolve_tab : TabConn (Server W) → Text → Server W → Option Text × Server W
    resolve_tab c tab s = elim (lookup s.tabs tab) [
      | some tid ↦ (some tid, s)
      | none ↦ resync c tab s
    ]

    unfoldable pub close_tab_by_short_locked :
        TabConn (Server W) → Text → Server W → Option CloseError × Server W
    close_tab_by_short_locked c tab s =
        let r = resolve_tab c tab s in
        elim r.0 [
          | none ↦ (some unknown_id, r.1)
          | some tid ↦
              let q = c.close_target tid r.1 in
              elim q.0 [
                | err e ↦ (some (call_failed e), q.1)
                | ok _ ↦ (none, remove_target_state tid q.1)
              ]
        ]

    unfoldable pub close_tab_by_short : Text → Server W → Option CloseError × Server W
    close_tab_by_short tab s = elim env.conn [
      | none ↦ (some no_conn, s)
      | some c ↦
          let l = env.lock_tab tab s in
          if l.0
          then (let r = close_tab_by_short_locked c tab l.1 in (r.0, env.unlock tab r.1))
          else (some lock_timeout, l.1)
    ]

    -- The lock is given back, and an unknown tab is no longer tracked.
    unfoldable pub after_error : Text → Text → CloseError → Server W → Server W
    unfolding forget_tab_managed
    after_error tid short no_conn s = env.unlock short s
    after_error tid short unknown_id s = forget_tab_managed (env.unlock short s) tid
    after_error tid short lock_timeout s = env.unlock short s
    after_error tid short (call_failed e) s = env.unlock short s

    -- The rest of a round of `closeExpiredTabs`, after the close of `tid`.
    unfoldable pub after_close : Text → Text → Option CloseError × Server W → Server W
    unfolding after_error
    after_close tid short (none, s) = env.unlock short s
    after_close tid short (some e, s) =
        if is_gone e
        then env.unlock short (forget_tab_managed (remove_target_state tid s) tid)
        else after_error tid short e s

    -- A round for a target that has a short id.
    unfoldable pub close_expired_tab : ℤ → Text → Text → Server W → Server W
    close_expired_tab limit tid short s = elim env.conn [
      | none ↦ s
      | some c ↦
          let l = env.lock_tab short s in
          if l.0
          then (if is_expired l.1.tab_idle tid l.1.clock limit
              then after_close tid short (close_tab_by_short_locked c short l.1)
              else env.unlock short l.1)
          else l.1
    ]

    -- The loop of `closeExpiredTabs`.
    unfoldable pub close_each : ℤ → List Text → Server W → Server W
    close_each limit [] s = s
    close_each limit (tid ∷ tids) s =
        let next : Server W = (elim (short_for_target s.tabs tid) [
          | none ↦ forget_tab_managed s tid
          | some short ↦ close_expired_tab limit tid short s
        ]) in
        let rest = close_each limit tids next in
        if env.is_done s then s else if ensure_browser_session s.link then rest else s

    unfoldable pub close_expired_tabs : ℤ → Server W → Server W
    close_expired_tabs (pos zero) s = s
    close_expired_tabs (pos (suc n)) s =
        close_each (pos (suc n)) (expired s.tab_idle s.clock (pos (suc n))) s
    close_expired_tabs (negsuc n) s = s
