-- ===== src/Daemon/Rpc/Keeps/Steps.antt =====
-- The rules for the steps that the handlers share.
use go_bb_browser.Prelude.{
  ◌≡◌, refl, true, List, [], ◌∷◌, Option, Text, Bool-cases, Option-cases, inl, inr, arith, ◌⊎◌,
}
use go_bb_browser.Protocol.Message.{ResponseError, RpcResult, ErrData, seq_of}
use go_bb_browser.State.Target.{Info}
use go_bb_browser.State.TabRegistry.{RemovedTab, sync_page_targets_detailed, remove_target, lookup}
use go_bb_browser.State.TabIdle.{forget, sync_present}
use go_bb_browser.State.ObsStore.{clear_target}
use go_bb_browser.Daemon.TabLock.{forget_tab_lock}
use go_bb_browser.Daemon.Restart.{present_ids}
use go_bb_browser.Store.State.{next_seq}
use go_bb_browser.Browser.Errors.{GoError}
use go_bb_browser.Daemon.Rpc.{
  Server, Env, TabConn, Result, ok, err, Outcome, done, failed, cdp_hint, call,
}
use go_bb_browser.Daemon.Rpc.Close.{
  forget_tab_managed, sync_tab_idle_presence, clear_removed_target, clear_removed,
  sync_tabs_from_targets, remove_target_state, resync, resolve_tab, close_tab_by_short_locked,
  close_tab_by_short,
}
use go_bb_browser.Daemon.Rpc.Answer.{AuditMeta, answer}
use go_bb_browser.Daemon.Rpc.Keeps.{Keeps, Laws, ConnLaws}

pub Result-cases :
    {A : Type 0} (r : Result A) → ((a : A) × (r ≡ ok a)) ⊎ ((e : GoError) × (r ≡ err e))
Result-cases (ok a) = inl (a, refl)
Result-cases (err e) = inr (e, refl)

module _ {W : Type 0} {R : Server W → Server W → Type 0} {env : Env (Server W)}
    (laws : Laws R env) where
  open laws use {same, trans}

  pub cdp_hint-R : (e : GoError) → Keeps R (cdp_hint e)
  unfolding cdp_hint
  cdp_hint-R e s = ground (arith, laws.fatal_law s, laws.probe_law true s, same s)

  pub call-R :
      {A : Type 0} (f : Server W → Result A × Server W) (message : Text) (details : Text → ErrData)
      → Keeps R f
      → Keeps R (call f message details)
  unfolding call
  call-R f message details h s = elim (Result-cases (f s).0) [
    | inl (a, e) ↦ rw (call, e) (h s)
    | inr (g, e) ↦
        rw (call, e) (trans s (f s).1 (cdp_hint g (f s).1).1 (h s) (cdp_hint-R g (f s).1))
  ]

  -- `Q` relates a state, the outcome of a handler and the state behind it, before the answer is sent,
  -- and `Q'` the same once it is.
  pub record PostLaws (meta : AuditMeta) (Q Q' : Server W → Outcome RpcResult → Server W → Type 0)
      : Type 0 where
    pub before : (s t u : Server W) (o : Outcome RpcResult) → R s t → Q t o u → Q s o u
    pub rejected : (s t : Server W) (e : ResponseError) → R s t → Q s (failed e) t
    pub answered :
        (s : Server W) (r : RpcResult)
        → seq_of r ≡ (next_seq s.store).0
        → Q s (done r) (record s { store = (next_seq s.store).1 })
    pub finish :
        (s t : Server W) (o : Outcome RpcResult) → Q s o t → Q' s o (answer env meta (o, t)).1
    pub waits : (s t u : Server W) (o : Outcome RpcResult) → R s t → Q' t o u → Q' s o u
    pub behind : (s t u : Server W) (o : Outcome RpcResult) → Q' s o t → R t u → Q' s o u

  pub clear_removed_target-R :
      (tid short : Text) (s : Server W) → R s (clear_removed_target env tid short s)
  unfolding clear_removed_target forget_tab_managed
  clear_removed_target-R tid short s =
      let s1 = record s { obs_store = clear_target s.obs_store tid } in
      let s2 = record s1 { tab_idle = forget s1.tab_idle tid } in
      let s3 = record s2 { locks = forget_tab_lock s2.locks short } in
      let cleared : R s s3 =
        trans s s1 s3 (laws.obs_law s1.obs_store s)
          (trans s1 s2 s3 (laws.idle_law s2.tab_idle s1) (laws.locks_law s3.locks s2)) in
      elim (Option-cases env.conn) [
        | inl e ↦ rw (clear_removed_target, e) cleared
        | inr (c, e) ↦
            rw (clear_removed_target, e)
              (trans s s3 (c.forget_target tid s3) cleared ((laws.conn_law c e).forget_law tid s3))
      ]

  pub clear_removed-R : (ts : List RemovedTab) (s : Server W) → R s (clear_removed env ts s)
  unfolding clear_removed
  clear_removed-R [] s = same s
  clear_removed-R (t ∷ ts) s =
      trans _ _ _ (clear_removed_target-R t.target_id t.short_id s) (clear_removed-R ts _)

  pub sync_tabs-R : (infos : List (Option Info)) → Keeps R (sync_tabs_from_targets env infos)
  unfolding sync_tabs_from_targets sync_tab_idle_presence
  sync_tabs-R infos s =
      let r = sync_page_targets_detailed s.tabs infos in
      let s1 = record s { tabs = r.2 } in
      let s2 = clear_removed env r.1 s1 in
      trans s s2 (sync_tab_idle_presence s2 r.0)
        (trans s s1 s2 (laws.sync_law infos s) (clear_removed-R r.1 s1))
        (laws.idle_law (sync_present s2.tab_idle (present_ids r.0)) s2)

  pub remove_target_state-R : (tid : Text) (s : Server W) → R s (remove_target_state env tid s)
  unfolding remove_target_state
  remove_target_state-R tid s = elim (Option-cases (remove_target s.tabs tid).0) [
    | inl e ↦ rw (remove_target_state, e) (laws.remove_target_law tid s)
    | inr (short, e) ↦
        rw (remove_target_state, e)
          (trans _ _ _ (laws.remove_target_law tid s) (clear_removed_target-R tid short _))
  ]

  module _ {c : TabConn (Server W)} (claws : ConnLaws R c) where
    pub resync-R : (tab : Text) → Keeps R (resync env c tab)
    unfolding resync
    resync-R tab s = elim (Result-cases (c.page_targets s).0) [
      | inl (infos, e) ↦
          rw (resync, e) (trans _ _ _ (claws.page_targets_law s) (sync_tabs-R infos _))
      | inr (g, e) ↦ rw (resync, e) (claws.page_targets_law s)
    ]

    pub resolve_tab-R : (tab : Text) → Keeps R (resolve_tab env c tab)
    unfolding resolve_tab
    resolve_tab-R tab s = elim (Option-cases (lookup s.tabs tab)) [
      | inl e ↦ rw (resolve_tab, e) (resync-R tab s)
      | inr (tid, e) ↦ rw (resolve_tab, e) (same s)
    ]

    pub close_locked-R : (tab : Text) → Keeps R (close_tab_by_short_locked env c tab)
    unfolding close_tab_by_short_locked
    close_locked-R tab s =
        let r = resolve_tab env c tab s in
        elim (Option-cases r.0) [
          | inl e ↦ rw (close_tab_by_short_locked, e) (resolve_tab-R tab s)
          | inr (tid, e) ↦
              let q = c.close_target tid r.1 in
              let before = trans _ _ _ (resolve_tab-R tab s) (claws.close_law tid r.1) in
              elim (Result-cases q.0) [
                | inl (u, d) ↦
                    rw (close_tab_by_short_locked, e, d)
                      (trans _ _ _ before (remove_target_state-R tid q.1))
                | inr (g, d) ↦ rw (close_tab_by_short_locked, e, d) before
              ]
        ]

  pub close_tab_by_short-R : (tab : Text) → Keeps R (close_tab_by_short env tab)
  unfolding close_tab_by_short
  close_tab_by_short-R tab s = elim (Option-cases env.conn) [
    | inl e ↦ rw (close_tab_by_short, e) (same s)
    | inr (c, e) ↦
        let l = env.lock_tab tab s in
        let r = close_tab_by_short_locked env c tab l.1 in
        elim (Bool-cases l.0) [
          | inl d ↦
              rw (close_tab_by_short, e, d)
                (trans s r.1 (env.unlock tab r.1)
                  (trans s l.1 r.1 (laws.lock_law tab s)
                    (close_locked-R (laws.conn_law c e) tab l.1))
                  (laws.unlock_law tab r.1))
          | inr d ↦ rw (close_tab_by_short, e, d) (laws.lock_law tab s)
        ]
  ]
