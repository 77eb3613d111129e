-- ===== src/Daemon/Rpc/Keeps/Tabs.antt =====
-- The same for the methods on the list of tabs.
use go_bb_browser.Prelude.{
  ◌≡◌, refl, Bool, true, false, List, [], ◌∷◌, Option, none, some, Text, trim_space, Option-cases,
  inl, inr, if◌then◌else◌,
}
use go_bb_browser.Prelude.Json.{RawMessage}
use go_bb_browser.Protocol.Message.{RpcResult, seq_of}
use go_bb_browser.State.TabRegistry.{TabSnapshot, register_page_target}
use go_bb_browser.State.TabRegistry
use go_bb_browser.State.TabIdle.{mark_managed}
use go_bb_browser.Daemon.Rpc.{Server, Env, TabConn, Outcome, run}
use go_bb_browser.Daemon.Rpc.Answer.{AuditMeta}
use go_bb_browser.Daemon.Rpc.Close.{
  mark_tab_managed, CloseError, no_conn, unknown_id, lock_timeout, call_failed,
}
use go_bb_browser.Daemon.Rpc.Tabs.{
  listed, handle_tab_list, sync_registry_focus_from_browser, handle_tab_focus, handle_tab_select,
  handle_tab_new, close_error, closed_or, handle_tab_close,
}
use go_bb_browser.Daemon.Rpc.Keeps.{Keeps, Laws}
use go_bb_browser.Daemon.Rpc.Keeps.Steps.{
  PostLaws, call-R, cdp_hint-R, sync_tabs-R, close_tab_by_short-R,
}
use go_bb_browser.Daemon.Rpc.Keeps.Rules.{
  Posts, bind-R, bind-Posts, then-Posts, require-Posts, some_or-Posts, modify-Posts, run-Posts,
  seq-Posts,
}

module _ {W : Type 0} {R : Server W → Server W → Type 0} {env : Env (Server W)} (laws : Laws R env)
    {meta : AuditMeta} {Q Q' : Server W → Outcome RpcResult → Server W → Type 0}
    (post : PostLaws laws meta Q Q') where
  open laws use {same, trans}

  listed-R : {c : TabConn (Server W)} → env.conn ≡ some c → Keeps R (listed env c)
  unfolding listed run
  listed-R {c} at =
      bind-R laws _ _ (call-R laws _ _ _ (laws.conn_law c at).page_targets_law)
        (λ infos. sync_tabs-R laws infos)

  pub tab_list-Posts : (params : RawMessage) → Posts Q (handle_tab_list env params)
  unfolding handle_tab_list seq_of
  tab_list-Posts params = require-Posts laws post _ _ _ (
      some_or-Posts laws post _ _ _ (λ c at.
        bind-Posts laws post _ _ (listed-R at)
          (λ snaps. run-Posts laws post _ _ same (λ tabs. seq-Posts laws post _ (λ n. refl)))))

  focus-R :
      {c : TabConn (Server W)}
      → env.conn ≡ some c
      → (snaps : List TabSnapshot) (s : Server W)
      → R s (sync_registry_focus_from_browser env c snaps s)
  unfolding sync_registry_focus_from_browser
  focus-R at [] s = same s
  focus-R {c} at (sn ∷ snaps) s = elim (Option-cases c.detect_foreground_short) [
    | inl e ↦ rw (sync_registry_focus_from_browser, e) (same s)
    | inr (f, e) ↦
        let r = f (sn ∷ snaps) s in
        let found : R s r.1 = (laws.conn_law c at).detect_law f e (sn ∷ snaps) s in
        elim (Option-cases r.0) [
          | inl d ↦ rw (sync_registry_focus_from_browser, e, d) found
          | inr (short, d) ↦
              rw (sync_registry_focus_from_browser, e, d)
                (trans s r.1 (record r.1 { tabs = (TabRegistry.select r.1.tabs short).1 }) found
                  (laws.select_law short r.1))
        ]
  ]

  pub tab_focus-Posts : (params : RawMessage) → Posts Q (handle_tab_focus env params)
  unfolding handle_tab_focus seq_of
  tab_focus-Posts params = require-Posts laws post _ _ _ (
      some_or-Posts laws post _ _ _ (λ c at. bind-Posts laws post _ _ (listed-R at) (λ snaps.
        require-Posts laws post _ _ _ (
          modify-Posts laws post _ _ (focus-R at _)
            (run-Posts laws post _ _ same (λ tabs. seq-Posts laws post _ (λ n. refl)))))))

  pub tab_select-Posts : (params : RawMessage) → Posts Q (handle_tab_select env params)
  unfolding handle_tab_select seq_of
  tab_select-Posts params = some_or-Posts laws post _ _ _ (λ p _. require-Posts laws post _ _ _ (
      some_or-Posts laws post _ _ _ (λ c at. bind-Posts laws post _ _ (listed-R at) (λ _.
        run-Posts laws post _ _ (laws.select_law (trim_space p))
          (λ b. require-Posts laws post _ _ _ (seq-Posts laws post _ (λ n. refl)))))))

  silent-R :
      (b : Bool) (short : Text) (s : Server W)
      → R s (if b then s else record s { tabs = (TabRegistry.select s.tabs short).1 })
  silent-R true short s = same s
  silent-R false short s = laws.select_law short s

  pub tab_new-Posts : (params : RawMessage) → Posts Q (handle_tab_new env params)
  unfolding handle_tab_new seq_of mark_tab_managed
  tab_new-Posts params = some_or-Posts laws post _ _ _ (λ p _.
      some_or-Posts laws post _ _ _ (λ c at.
        bind-Posts laws post _ _ (call-R laws _ _ _ ((laws.conn_law c at).create_law _ _)) (λ tid.
          run-Posts laws post _ _ (laws.register_law tid) (λ short.
            modify-Posts laws post _ _ (λ s. laws.idle_law (mark_managed s.tab_idle tid s.clock) s)
              (modify-Posts laws post _ _ (silent-R p.silent short)
                (seq-Posts laws post _ (λ n. refl)))))))

  closed_or-R : (o : Option CloseError) → Keeps R (closed_or env o)
  unfolding closed_or close_error
  closed_or-R none s = same s
  closed_or-R (some no_conn) s = same s
  closed_or-R (some unknown_id) s = same s
  closed_or-R (some lock_timeout) s = same s
  closed_or-R (some (call_failed e)) s = cdp_hint-R laws e s

  pub tab_close-Posts : (params : RawMessage) → Posts Q (handle_tab_close env params)
  unfolding handle_tab_close seq_of
  tab_close-Posts params = some_or-Posts laws post _ _ _ (λ p _. require-Posts laws post _ _ _ (
      some_or-Posts laws post _ _ _ (λ c at.
        run-Posts laws post _ _ (close_tab_by_short-R laws _)
          (λ o. then-Posts laws post _ _ (closed_or-R o) (seq-Posts laws post _ (λ n. refl))))))
