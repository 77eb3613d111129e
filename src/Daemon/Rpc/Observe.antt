-- ===== src/Daemon/Rpc/Observe.antt =====
-- internal/daemon/rpc_observation.go, obs_sink.go and v1.go: the observations and the network routes of
-- a tab.
use go_bb_browser.Prelude.{
  ℕ, ◌+◌, ◌%◌, ◌^◌, not, ◌||◌, [], Option, none, some, Text, codes, str_eq, trim_space,
}
use go_bb_browser.Prelude.Json.{RawMessage}
use go_bb_browser.Protocol.Params.{decode_tab}
use go_bb_browser.Protocol.Params.Page.{
  decode_network_route, decode_network_unroute, decode_obs_query,
}
use go_bb_browser.Protocol.Message.{
  ErrData, ResponseError, code_server_error, code_invalid_params, RpcResult, tab_seq, routes_result,
  obs_result,
}
use go_bb_browser.State.ObsStore.{
  TabObsStore, Reply, query_network, query_console, query_errors, clear_network_only,
  clear_console_only, clear_errors_only, push_network, push_console, push_error,
}
use go_bb_browser.Browser.Routes.{NetworkRouteRule}
use go_bb_browser.Daemon.Rpc.{
  Server, Env, done, TabConn, ObservationKind, network_kind, console_kind, errors_kind, Outcome, M,
  ◌>>=◌, ◌>>◌, pure, modify, run, require, some_or, take_seq, call, err_data, plain_error,
  invalid_params, not_ready, unknown_tab, stale_hint,
}
use go_bb_browser.Daemon.Rpc.Answer.{AuditMeta, start, locked}
use go_bb_browser.Daemon.Rpc.Page.{resolved, missing_tab, failure}

unfoldable pub obs_since : Option ℕ → ℕ
obs_since none = 0
obs_since (some n) = n

unfoldable pub query_kind : ObservationKind → TabObsStore → Text → ℕ → Reply
query_kind network_kind = query_network
query_kind console_kind = query_console
query_kind errors_kind = query_errors

unfoldable pub method_of : ObservationKind → Text
method_of network_kind = codes "network"
method_of console_kind = codes "console"
method_of errors_kind = codes "errors"

abbrev only_hint : Text → ErrData
only_hint hint = err_data [] hint []

abbrev plain_missing_tab : ResponseError
plain_missing_tab = plain_error code_invalid_params (codes "missing tab")

abbrev plain_unknown_tab : ResponseError
plain_unknown_tab = plain_error code_invalid_params (codes "unknown tab id")

module _ {W : Type 0} where
  -- `dropped` counts what the browser session has lost before it came to the store.
  abbrev dropped_by : TabConn (Server W) → Text → ObservationKind → Server W → ℕ
  dropped_by c tid kind s = elim c.observation_dropped [ none ↦ 0 | some f ↦ f tid kind s ]

  unfoldable pub ensured : TabConn (Server W) → Text → ObservationKind → M (Server W) (Unit {0})
  ensured c tid kind s = elim c.ensure_observation [
    | none ↦ (done tt, s)
    | some ensure ↦
        call (ensure tid kind) (codes "failed to enable observation")
          (failure (codes "failed to enable observation")) s
  ]

  -- `RecordNetwork`, `RecordConsole` and `RecordError` of the sink.
  unfoldable pub record_observation : ObservationKind → Text → ℕ → Text → Server W → Server W
  record_observation network_kind id seq raw s = record s {
    obs_store = push_network s.obs_store id seq raw;
  }
  record_observation console_kind id seq raw s = record s {
    obs_store = push_console s.obs_store id seq raw;
  }
  record_observation errors_kind id seq raw s = record s {
    obs_store = push_error s.obs_store id seq raw;
  }

  module _ (env : Env (Server W)) where
    unfoldable pub handle_obs_query :
        ObservationKind → AuditMeta → RawMessage → Server W → Outcome RpcResult × Server W
    handle_obs_query kind meta params = start env meta do
      p ← some_or (decode_obs_query params) invalid_params
      let tab = trim_space p.tab
      require (not (str_eq tab [])) (missing_tab [] (method_of kind))
      c ← some_or env.conn not_ready
      pure (
          locked env meta tab do
            tid ← resolved env c tab (unknown_tab stale_hint (method_of kind))
            ensured c tid kind
            r ← run (λ (s : Server W). (query_kind kind s.obs_store tid (obs_since p.since), s))
            lost ← run (λ (s : Server W). (dropped_by c tid kind s, s))
            seq ← take_seq
            pure (obs_result tab seq r.1 r.0 ((r.2 + lost) % 2 ^ 64)))

    unfoldable pub handle_network_clear :
        AuditMeta → RawMessage → Server W → Outcome RpcResult × Server W
    handle_network_clear meta params = start env meta do
      p ← some_or (decode_tab params) invalid_params
      let tab = trim_space p
      require (not (str_eq tab [])) plain_missing_tab
      c ← some_or env.conn not_ready
      pure (
          locked env meta tab do
            tid ← resolved env c tab plain_unknown_tab
            modify (λ (s : Server W). record s { obs_store = clear_network_only s.obs_store tid })
            seq ← take_seq
            pure (tab_seq tab seq))

    unfoldable pub handle_console_clear :
        AuditMeta → RawMessage → Server W → Outcome RpcResult × Server W
    handle_console_clear meta params = start env meta do
      p ← some_or (decode_tab params) invalid_params
      let tab = trim_space p
      require (not (str_eq tab [])) plain_missing_tab
      c ← some_or env.conn not_ready
      pure (
          locked env meta tab do
            tid ← resolved env c tab plain_unknown_tab
            modify (λ (s : Server W). record s { obs_store = clear_console_only s.obs_store tid })
            seq ← take_seq
            pure (tab_seq tab seq))

    unfoldable pub handle_errors_clear :
        AuditMeta → RawMessage → Server W → Outcome RpcResult × Server W
    handle_errors_clear meta params = start env meta do
      p ← some_or (decode_tab params) invalid_params
      let tab = trim_space p
      require (not (str_eq tab [])) plain_missing_tab
      c ← some_or env.conn not_ready
      pure (
          locked env meta tab do
            tid ← resolved env c tab plain_unknown_tab
            modify (λ (s : Server W). record s { obs_store = clear_errors_only s.obs_store tid })
            seq ← take_seq
            pure (tab_seq tab seq))

    unfoldable pub handle_network_route :
        AuditMeta → RawMessage → Server W → Outcome RpcResult × Server W
    handle_network_route meta params = start env meta do
      p ← some_or (decode_network_route params) invalid_params
      let tab = trim_space p.tab
      let url_pattern = trim_space p.url_pattern
      require (not (str_eq tab [] || str_eq url_pattern []))
          (plain_error code_invalid_params (codes "missing tab or url_pattern"))
      c ← some_or env.conn not_ready
      pure (
          locked env meta tab do
            tid ← resolved env c tab plain_unknown_tab
            rc ←
                some_or c.routes
                  (plain_error code_server_error (codes "network_route not supported"))
            let rule : NetworkRouteRule = record {
              url_pattern = url_pattern;
              abort = p.abort;
              mock_body = p.body;
              content_type = p.content_type;
              status = p.status;
            }
            _ ← call (rc.append_network_route tid rule) (codes "network_route failed") only_hint
            seq ← take_seq
            count ← run (λ (s : Server W). (rc.network_route_count tid s, s))
            pure (routes_result tab seq count))

    unfoldable pub handle_network_unroute :
        AuditMeta → RawMessage → Server W → Outcome RpcResult × Server W
    handle_network_unroute meta params = start env meta do
      p ← some_or (decode_network_unroute params) invalid_params
      let tab = trim_space p.tab
      require (not (str_eq tab [])) plain_missing_tab
      c ← some_or env.conn not_ready
      pure (
          locked env meta tab do
            tid ← resolved env c tab plain_unknown_tab
            rc ←
                some_or c.routes
                  (plain_error code_server_error (codes "network_unroute not supported"))
            _ ←
                call (rc.remove_network_routes tid p.url_pattern) (codes "network_unroute failed")
                  only_hint
            seq ← take_seq
            count ← run (λ (s : Server W). (rc.network_route_count tid s, s))
            pure (routes_result tab seq count))
