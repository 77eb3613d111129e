-- ===== src/Daemon/Rpc/V1.antt =====
-- internal/daemon/v1.go: handleV1, from the HTTP request to the answer.
use go_bb_browser.Prelude.{
  Bool, not, [], ◌∷◌, none, some, Text, codes, str_eq, trim_space, if◌then◌else◌,
}
use go_bb_browser.Prelude.Map.{Map}
use go_bb_browser.Prelude.Map
use go_bb_browser.Prelude.Json.{RawMessage, value, null}
use go_bb_browser.Protocol.{
  is_dispatched_method, method_tab_list, method_tab_focus, method_tab_select, method_tab_new,
  method_tab_close,
}
use go_bb_browser.Protocol.Message.{
  Request, decode_request, request_has_id, normalize_params, ResponseError, RpcResult,
  code_parse_error, code_invalid_request, code_method_not_found, code_server_error,
}
use go_bb_browser.Daemon.Auth as Auth
use go_bb_browser.Daemon.Watchdog.{ensure_browser_session}
use go_bb_browser.Daemon.Rpc.{
  Server, Env, Handler, Outcome, failed, plain_error, detailed, err_data, network_kind,
  console_kind, errors_kind,
}
use go_bb_browser.Daemon.Rpc.Answer.{AuditMeta, answer}
use go_bb_browser.Daemon.Rpc.Tabs.{
  handle_tab_list, handle_tab_focus, handle_tab_select, handle_tab_new, handle_tab_close,
}
use go_bb_browser.Daemon.Rpc.Page.{
  handle_goto, handle_reload, handle_screenshot, handle_eval, handle_click, handle_fill,
  handle_fetch, handle_snapshot,
}
use go_bb_browser.Daemon.Rpc.Observe.{
  handle_obs_query, handle_network_clear, handle_console_clear, handle_errors_clear,
  handle_network_route, handle_network_unroute,
}

-- What is read of an `*http.Request`; a body that cannot be read is `invalid`.
pub record HttpRequest : Type 0 where
  pub http_method : Text
  pub request : Auth.Request
  pub body : RawMessage
  pub sender_ip : Text

pub data HttpReply : Type 0 where
  method_not_allowed unauthorized : HttpReply
  rpc : RawMessage → Outcome RpcResult → HttpReply

abbrev pub null_id : RawMessage
null_id = value null

abbrev pub not_connected : ResponseError
not_connected =
    detailed code_server_error (codes "browser not connected")
      (err_data (codes "browser session unavailable") (codes "browser not connected") [])

abbrev method_not_found : Text → ResponseError
method_not_found method =
    detailed code_method_not_found (codes "method not found")
      (err_data (codes "unknown method") [] method)

module _ {W : Type 0} (env : Env (Server W)) where
  abbrev pub answered : Handler W → AuditMeta → Handler W
  answered h meta params s = answer env meta (h params s)

  -- The `switch` over the methods.
  unfoldable pub handlers : Map (AuditMeta → Handler W)
  handlers =
      (method_tab_list, answered (handle_tab_list env))
      ∷ (method_tab_focus, answered (handle_tab_focus env))
      ∷ (method_tab_select, answered (handle_tab_select env))
      ∷ (method_tab_new, answered (handle_tab_new env))
      ∷ (codes "goto", handle_goto env)
      ∷ (codes "reload", handle_reload env)
      ∷ (method_tab_close, answered (handle_tab_close env))
      ∷ (codes "screenshot", handle_screenshot env)
      ∷ (codes "eval", handle_eval env)
      ∷ (codes "click", handle_click env)
      ∷ (codes "fill", handle_fill env)
      ∷ (codes "network", handle_obs_query env network_kind)
      ∷ (codes "console", handle_obs_query env console_kind)
      ∷ (codes "errors", handle_obs_query env errors_kind)
      ∷ (codes "fetch", handle_fetch env)
      ∷ (codes "snapshot", handle_snapshot env)
      ∷ (codes "network_route", handle_network_route env)
      ∷ (codes "network_unroute", handle_network_unroute env)
      ∷ (codes "network_clear", handle_network_clear env)
      ∷ (codes "console_clear", handle_console_clear env)
      ∷ (codes "errors_clear", handle_errors_clear env)
      ∷ []

  unfoldable pub dispatch : Text → AuditMeta → Handler W
  dispatch method meta params s = elim (Map.get method handlers) [
    | none ↦ (failed (method_not_found method), s)
    | some handle ↦ handle meta params s
  ]

  -- `handleV1` behind the checks of the message: the request is logged from here on.
  unfoldable pub serve : Text → RawMessage → HttpRequest → Server W → Outcome RpcResult × Server W
  serve method params r s =
      let meta : AuditMeta = (record {
        action = method;
        body = r.body;
        sender_ip = r.sender_ip;
        at = s.clock;
      }) in
      if ensure_browser_session s.link
      then dispatch method meta params s
      else answer env meta (failed not_connected, s)

  abbrev reply_with : RawMessage → Outcome RpcResult × Server W → HttpReply × Server W
  reply_with id (r, s) = (rpc id r, s)

  abbrev pub id_or_null : RawMessage → RawMessage
  id_or_null id = if request_has_id id then id else null_id

  -- A message that could be decoded.
  unfoldable pub handle_request : Request → HttpRequest → Server W → HttpReply × Server W
  unfolding request_has_id
  handle_request req r s =
      let method = trim_space req.method in
      if not (str_eq req.jsonrpc (codes "2.0"))
      then (
        rpc (id_or_null req.id)
            (failed (plain_error code_invalid_request (codes "invalid jsonrpc version"))),
        s,
      )
      else if not (request_has_id req.id)
      then (rpc null_id (failed (plain_error code_invalid_request (codes "missing id"))), s)
      else if not (is_dispatched_method method)
      then (
        rpc req.id (
            failed (
              if str_eq method []
              then plain_error code_invalid_request (codes "missing method")
              else method_not_found method)),
        s,
      )
      else reply_with req.id (serve method (normalize_params req.params) r s)

  unfoldable pub handle_v1 : (Auth.Request → Bool) → HttpRequest → Server W → HttpReply × Server W
  handle_v1 authorized r s =
      if not (str_eq r.http_method (codes "POST"))
      then (method_not_allowed, s)
      else if not (authorized r.request)
      then (unauthorized, s)
      else (elim (decode_request r.body) [
        | none ↦ (rpc null_id (failed (plain_error code_parse_error (codes "Parse error"))), s)
        | some req ↦ handle_request req r s
      ])
