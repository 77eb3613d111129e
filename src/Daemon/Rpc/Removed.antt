-- ===== src/Daemon/Rpc/Removed.antt =====
-- internal/daemon/tab_idle.go: what is left of a target that Chrome has closed, or that a sync no longer
-- finds.
use go_bb_browser.Prelude.{
  ◌≡◌, refl, ap, ◌∙◌, true, false, List, [], ◌∷◌, Option, none, some, Text, str_eq, map, trim_space,
  arith, Option-cases, inl, inr,
}
use go_bb_browser.Prelude.Map
use go_bb_browser.Prelude.Sort.{any-sort}
use go_bb_browser.State.Target.{Info, present, in_set}
use go_bb_browser.State.TabRegistry.{
  TabRegistry, TabSnapshot, lookup, remove_target, sync_page_targets_detailed,
}
use go_bb_browser.State.TabIdle.{forget}
use go_bb_browser.State.TabIdle.History.{get-forget, get-sync_present}
use go_bb_browser.State.ObsStore.Rings.{get-clear_target}
use go_bb_browser.State.TabRegistry.Sync.{remove_target_lem, sync-IsSorted}
use go_bb_browser.State.TabRegistry.Inv.{IsConsistent}
use go_bb_browser.Daemon.TabLock.{forget_tab_lock}
use go_bb_browser.Daemon.Restart.{present_ids}
use go_bb_browser.Daemon.Rpc.Sweep.{resolve_tab-found}
use go_bb_browser.State.ObsStore.{clear_target}
use go_bb_browser.Daemon.Rpc.{Server, Env, TabConn}
use go_bb_browser.Daemon.Rpc.Close.{
  call_failed, forget_tab_managed, clear_removed_target, clear_removed, remove_target_state,
  sync_tab_idle_presence, sync_tabs_from_targets, close_tab_by_short_locked,
}
use go_bb_browser.Daemon.Rpc.Keeps.Steps.{Result-cases}

lookup-get :
    (r : TabRegistry) (tab tid : Text)
    → lookup r tab ≡ some tid
    → Map.get (trim_space tab) r.short_to_target ≡ some tid
unfolding lookup
lookup-get r tab tid h = ground arith

in_set-present_ids :
    (tid : Text) (snaps : List TabSnapshot)
    → in_set (present_ids snaps) tid ≡ true
    → in_set (map (λ (t : TabSnapshot). t.target_id) snaps) tid ≡ true
unfolding present_ids
in_set-present_ids tid [] h = cc
in_set-present_ids tid (sn ∷ snaps) h = ground (arith, in_set-present_ids tid snaps)

module _ {W : Type 0} where
  -- No short id, no idle clock and no observations of the target.
  pub record IsGone (tid : Text) (s : Server W) : Type 0 where
    pub unregistered : Map.get tid s.tabs.target_to_short ≡ none
    pub untracked : Map.get tid s.tab_idle.managed ≡ none
    pub unobserved : Map.get tid s.obs_store.targets ≡ none

  -- Forgetting a target in the browser session changes nothing else.
  abbrev pub ForgetsOnly : Env (Server W) → Type 0
  ForgetsOnly env =
      (c : TabConn (Server W))
      → env.conn ≡ some c
      → (tid : Text) (s : Server W)
      → c.forget_target tid s ≡ record s { browser = (c.forget_target tid s).browser }

  -- The browser's work on a close changes nothing of the daemon.
  abbrev pub ClosesOnly : TabConn (Server W) → Type 0
  ClosesOnly c =
      (tid : Text) (s : Server W)
      → (c.close_target tid s).1 ≡ record s { browser = (c.close_target tid s).1.browser }

  module _ (env : Env (Server W)) (forgets : ForgetsOnly env) where
    -- What is cleared of a target, whatever the browser session does.
    clear_removed_target-only :
        (tid short : Text) (s : Server W)
        → (w : W) × (clear_removed_target env tid short s ≡ record s {
          obs_store = clear_target s.obs_store tid;
          tab_idle = forget s.tab_idle tid;
          locks = forget_tab_lock s.locks short;
          browser = w;
        })
    unfolding clear_removed_target forget_tab_managed
    clear_removed_target-only tid short s =
        let s' = record s {
          obs_store = clear_target s.obs_store tid;
          tab_idle = forget s.tab_idle tid;
          locks = forget_tab_lock s.locks short;
        } in
        elim (Option-cases env.conn) [
          | inl e ↦ (s.browser, rw (clear_removed_target, e) refl)
          | inr (c, e) ↦
              ((c.forget_target tid s').browser, rw (clear_removed_target, e) (forgets c e tid s'))
        ]

    -- After the removal of a registered target nothing of it is left, whatever was known of it.
    pub remove_target_state-IsGone :
        (tid short : Text) (s : Server W)
        → str_eq tid [] ≡ false
        → Map.get tid s.tabs.target_to_short ≡ some short
        → IsGone tid (remove_target_state env tid s)
    unfolding remove_target_state
    remove_target_state-IsGone tid short s named known =
        let (found, removed) = remove_target_lem s.tabs tid short known in
        let s1 = record s { tabs = (remove_target s.tabs tid).1 } in
        let (w, e) = clear_removed_target-only tid short s1 in
        rw (remove_target_state, found, e)
          (record {
            unregistered = removed;
            untracked = get-forget s.tab_idle tid named;
            unobserved = get-clear_target s.obs_store tid;
          })

    -- When a registered tab, of a target with a nonempty id, is closed under its short id without
    -- an error, by a request or by the sweeper, nothing is left of the target in the daemon: no
    -- short id, no idle clock, no observations. The conditions: the registry's two maps agree, and
    -- the browser changes nothing of the daemon while it closes a target or forgets one.
    pub close_locked-IsGone :
        (c : TabConn (Server W)) (tab tid : Text) (s : Server W)
        → ClosesOnly c
        → IsConsistent s.tabs
        → str_eq tid [] ≡ false
        → lookup s.tabs tab ≡ some tid
        → (close_tab_by_short_locked env c tab s).0 ≡ none
        → IsGone tid (close_tab_by_short_locked env c tab s).1
    unfolding close_tab_by_short_locked
    close_locked-IsGone c tab tid s closes v named found no_error =
        let direct = resolve_tab-found env c tab tid s found in
        let t = (c.close_target tid s).1 in
        let known : Map.get tid t.tabs.target_to_short ≡ some (trim_space tab) =
          ap (λ (u : Server W). Map.get tid u.tabs.target_to_short) (closes tid s)
          ∙ v.target_of (trim_space tab) tid (lookup-get s.tabs tab tid found) in
        elim (Result-cases (c.close_target tid s).0) [
          | inl (u, e) ↦
              rw (close_tab_by_short_locked, direct, direct, e, direct)
                (remove_target_state-IsGone tid (trim_space tab) t named known)
          | inr (g, e) ↦ absurd (
              let q : some (call_failed g) ≡ none =
                rw (close_tab_by_short_locked, direct, direct, e) at no_error in
              cc)
        ]

    -- After a sync the daemon tracks the idle time of no tab that the list of targets lacks.
    pub sync_tabs-tracked :
        (infos : List (Option Info)) (s : Server W) (tid : Text)
        → in_set (present infos) tid ≡ false
        → Map.get tid (sync_tabs_from_targets env infos s).1.tab_idle.managed ≡ none
    unfolding sync_tabs_from_targets sync_tab_idle_presence
    sync_tabs-tracked infos s tid absent_there =
        let r = sync_page_targets_detailed s.tabs infos in
        let s' = clear_removed env r.1 (record s { tabs = r.2 }) in
        let listed : in_set (map (λ (t : TabSnapshot). t.target_id) r.0) tid
            ≡ in_set (present infos) tid =
          ap (λ ids. in_set ids tid) (sync-IsSorted s.tabs infos).0
          ∙ any-sort (λ i. str_eq i tid) (present infos) in
        ground
          (arith, get-sync_present s'.tab_idle (present_ids r.0) tid, in_set-present_ids tid r.0)
