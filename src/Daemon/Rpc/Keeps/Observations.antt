-- ===== src/Daemon/Rpc/Keeps/Observations.antt =====
-- The same for the methods on observations and network routes.
use go_bb_browser.Prelude.{◌≡◌, refl, some, Text, Option-cases, inl, inr}
use go_bb_browser.Prelude.Json.{RawMessage}
use go_bb_browser.Protocol.Message.{RpcResult, seq_of}
use go_bb_browser.State.ObsStore.{clear_network_only, clear_console_only, clear_errors_only}
use go_bb_browser.Daemon.Rpc.{Server, Env, TabConn, ObservationKind, Outcome}
use go_bb_browser.Daemon.Rpc.Answer.{AuditMeta}
use go_bb_browser.Daemon.Rpc.Observe.{
  ensured, handle_obs_query, handle_network_clear, handle_console_clear, handle_errors_clear,
  handle_network_route, handle_network_unroute,
}
use go_bb_browser.Daemon.Rpc.Keeps.{Keeps, Laws}
use go_bb_browser.Daemon.Rpc.Keeps.Steps.{PostLaws, call-R}
use go_bb_browser.Daemon.Rpc.Keeps.Rules.{
  Posts, bind-Posts, then-Posts, some_or-Posts, modify-Posts, run-Posts, seq-Posts, seq_read-Posts,
  start-require-Posts, start-some_or-Posts,
}
use go_bb_browser.Daemon.Rpc.Keeps.Pages.{on_tab-Posts}

module _ {W : Type 0} {R : Server W → Server W → Type 0} {env : Env (Server W)} (laws : Laws R env)
    {meta : AuditMeta} {Q Q' : Server W → Outcome RpcResult → Server W → Type 0}
    (post : PostLaws laws meta Q Q') where
  ensured-R :
      (c : TabConn (Server W))
      → env.conn ≡ some c
      → (tid : Text) (k : ObservationKind) → Keeps R (ensured c tid k)
  unfolding ensured
  ensured-R c at tid k s = elim (Option-cases c.ensure_observation) [
    | inl e ↦ rw (ensured, e) (laws.same s)
    | inr (f, e) ↦ rw (ensured, e) (call-R laws _ _ _ ((laws.conn_law c at).ensure_law f e tid k) s)
  ]

  pub obs_query-Posts :
      (kind : ObservationKind) (params : RawMessage)
      → Posts Q' (handle_obs_query env kind meta params)
  unfolding handle_obs_query seq_of
  obs_query-Posts kind params =
      let need = start-require-Posts laws post in
      start-some_or-Posts laws post _ _ _ (λ p _. need _ _ _ (
        start-some_or-Posts laws post _ _ _ (λ c at. on_tab-Posts laws post at _ _ _ (λ tid.
          then-Posts laws post _ _ (ensured-R c at tid kind) (
            run-Posts laws post _ _ laws.same (λ r.
              run-Posts laws post _ _ laws.same (λ lost. seq-Posts laws post _ (λ n. refl))))))))

  pub network_clear-Posts : (params : RawMessage) → Posts Q' (handle_network_clear env meta params)
  unfolding handle_network_clear seq_of
  network_clear-Posts params =
      let need = start-require-Posts laws post in
      start-some_or-Posts laws post _ _ _ (λ p _. need _ _ _ (
        start-some_or-Posts laws post _ _ _ (λ c at. on_tab-Posts laws post at _ _ _ (λ tid.
          modify-Posts laws post _ _ (λ s. laws.obs_law (clear_network_only s.obs_store tid) s)
            (seq-Posts laws post _ (λ n. refl))))))

  pub console_clear-Posts : (params : RawMessage) → Posts Q' (handle_console_clear env meta params)
  unfolding handle_console_clear seq_of
  console_clear-Posts params =
      let need = start-require-Posts laws post in
      start-some_or-Posts laws post _ _ _ (λ p _. need _ _ _ (
        start-some_or-Posts laws post _ _ _ (λ c at. on_tab-Posts laws post at _ _ _ (λ tid.
          modify-Posts laws post _ _ (λ s. laws.obs_law (clear_console_only s.obs_store tid) s)
            (seq-Posts laws post _ (λ n. refl))))))

  pub errors_clear-Posts : (params : RawMessage) → Posts Q' (handle_errors_clear env meta params)
  unfolding handle_errors_clear seq_of
  errors_clear-Posts params =
      let need = start-require-Posts laws post in
      start-some_or-Posts laws post _ _ _ (λ p _. need _ _ _ (
        start-some_or-Posts laws post _ _ _ (λ c at. on_tab-Posts laws post at _ _ _ (λ tid.
          modify-Posts laws post _ _ (λ s. laws.obs_law (clear_errors_only s.obs_store tid) s)
            (seq-Posts laws post _ (λ n. refl))))))

  pub network_route-Posts : (params : RawMessage) → Posts Q' (handle_network_route env meta params)
  unfolding handle_network_route seq_of
  network_route-Posts params =
      let need = start-require-Posts laws post in
      start-some_or-Posts laws post _ _ _ (λ p _. need _ _ _ (
        start-some_or-Posts laws post _ _ _ (λ c at. on_tab-Posts laws post at _ _ _ (λ tid.
          some_or-Posts laws post _ _ _ (λ rc is_rc.
            bind-Posts laws post _ _
              (call-R laws _ _ _ (((laws.conn_law c at).routes_law rc is_rc).append_law tid _))
              (λ _. seq_read-Posts laws post _ _ (λ n a. refl)))))))

  pub network_unroute-Posts :
      (params : RawMessage) → Posts Q' (handle_network_unroute env meta params)
  unfolding handle_network_unroute seq_of
  network_unroute-Posts params =
      let need = start-require-Posts laws post in
      start-some_or-Posts laws post _ _ _ (λ p _. need _ _ _ (
        start-some_or-Posts laws post _ _ _ (λ c at. on_tab-Posts laws post at _ _ _ (λ tid.
          some_or-Posts laws post _ _ _ (λ rc is_rc.
            bind-Posts laws post _ _
              (call-R laws _ _ _ (((laws.conn_law c at).routes_law rc is_rc).remove_law tid _))
              (λ _. seq_read-Posts laws post _ _ (λ n a. refl)))))))
