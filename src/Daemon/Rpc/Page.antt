-- ===== src/Daemon/Rpc/Page.antt =====
-- internal/daemon/v1.go: the methods that work on the page of one tab.
use go_bb_browser.Prelude.{not, [], none, some, Text, codes, str_eq, trim_space}
use go_bb_browser.Prelude.Json.{RawMessage}
use go_bb_browser.Protocol.Params.{
  decode_goto, decode_screenshot, decode_eval, decode_click, decode_fill, decode_tab,
}
use go_bb_browser.Protocol.Params.Page.{decode_fetch, decode_snapshot}
use go_bb_browser.Protocol.Message.{
  ErrData, ResponseError, code_server_error, RpcResult, tab_seq, screenshot_result, eval_result,
  snapshot_result, fetch_result,
}
use go_bb_browser.Daemon.Rpc.{
  Server, Env, TabConn, Outcome, done, failed, ◌>>=◌, ◌>>◌, pure, require, some_or, take_seq, call,
  detailed, err_data, plain_error, invalid_params, not_ready, missing, unknown_tab, stale_hint,
}
use go_bb_browser.Daemon.Rpc.Payload.{selector_of, base64, fetch_wrap}
use go_bb_browser.Daemon.Rpc.Close.{resolve_tab}
use go_bb_browser.Daemon.Rpc.Answer.{AuditMeta, start, locked}

abbrev pub missing_tab : Text → Text → ResponseError
missing_tab hint method = missing (codes "missing tab") (codes "missing tab") hint method

abbrev pub failure : Text → Text → ErrData
failure what hint = err_data what hint []

module _ {W : Type 0} (env : Env (Server W)) where
  -- `resolveTab`, and the error where the tab is unknown.
  unfoldable pub resolved :
      TabConn (Server W) → Text → ResponseError → Server W → Outcome Text × Server W
  unfolding resolve_tab
  resolved c tab e s =
      let r = resolve_tab env c tab s in
      elim r.0 [ none ↦ (failed e, r.1) | some tid ↦ (done tid, r.1) ]

  unfoldable pub handle_goto : AuditMeta → RawMessage → Server W → Outcome RpcResult × Server W
  handle_goto meta params = start env meta do
    p ← some_or (decode_goto params) invalid_params
    let tab = trim_space p.tab
    let url = trim_space p.url
    require (not (str_eq tab []))
        (missing_tab (codes "goto requires \"tab\" and \"url\"") (codes "goto"))
    require (not (str_eq url [])) (
        missing (codes "missing url") (codes "missing url") (codes "goto requires \"url\"")
          (codes "goto"))
    c ← some_or env.conn not_ready
    pure (
        locked env meta tab do
          tid ← resolved c tab (unknown_tab stale_hint (codes "goto"))
          _ ←
              call (c.navigate tid url) (codes "navigation failed")
                (failure (codes "navigation failed"))
          seq ← take_seq
          pure (tab_seq tab seq))

  unfoldable pub handle_reload : AuditMeta → RawMessage → Server W → Outcome RpcResult × Server W
  handle_reload meta params = start env meta do
    p ← some_or (decode_tab params) invalid_params
    let tab = trim_space p
    require (not (str_eq tab [])) (missing_tab (codes "reload requires \"tab\"") (codes "reload"))
    c ← some_or env.conn not_ready
    pure (
        locked env meta tab do
          tid ← resolved c tab (unknown_tab stale_hint (codes "reload"))
          _ ← call (c.reload tid) (codes "reload failed") (failure (codes "reload failed"))
          seq ← take_seq
          pure (tab_seq tab seq))

  unfoldable pub handle_screenshot :
      AuditMeta → RawMessage → Server W → Outcome RpcResult × Server W
  handle_screenshot meta params = start env meta do
    p ← some_or (decode_screenshot params) invalid_params
    let tab = trim_space p.tab
    require (not (str_eq tab [])) (missing_tab [] (codes "screenshot"))
    c ← some_or env.conn not_ready
    pure (
        locked env meta tab do
          tid ← resolved c tab (unknown_tab stale_hint (codes "screenshot"))
          shot ←
              call (c.screenshot tid p.format) (codes "screenshot failed")
                (failure (codes "screenshot failed"))
          seq ← take_seq
          pure (screenshot_result tab seq (base64 shot.0) shot.1))

  unfoldable pub handle_eval : AuditMeta → RawMessage → Server W → Outcome RpcResult × Server W
  handle_eval meta params = start env meta do
    p ← some_or (decode_eval params) invalid_params
    let tab = trim_space p.tab
    let script = trim_space p.script
    require (not (str_eq tab [])) (missing_tab [] (codes "eval"))
    require (not (str_eq script []))
        (missing (codes "missing script") (codes "missing script") [] (codes "eval"))
    c ← some_or env.conn not_ready
    pure (
        locked env meta tab do
          tid ← resolved c tab (unknown_tab stale_hint (codes "eval"))
          out ← call (c.eval tid script) (codes "eval failed") (failure (codes "eval failed"))
          seq ← take_seq
          pure (eval_result tab seq out))

  unfoldable pub handle_click : AuditMeta → RawMessage → Server W → Outcome RpcResult × Server W
  handle_click meta params = start env meta do
    p ← some_or (decode_click params) invalid_params
    let tab = trim_space p.tab
    let selector = selector_of p.selector p.ref
    require (not (str_eq tab [])) (missing_tab [] (codes "click"))
    require (not (str_eq selector []))
        (missing (codes "missing selector") (codes "missing selector or ref") [] (codes "click"))
    c ← some_or env.conn not_ready
    pure (
        locked env meta tab do
          tid ← resolved c tab (unknown_tab stale_hint (codes "click"))
          _ ← call (c.click tid selector) (codes "click failed") (failure (codes "click failed"))
          seq ← take_seq
          pure (tab_seq tab seq))

  unfoldable pub handle_fill : AuditMeta → RawMessage → Server W → Outcome RpcResult × Server W
  handle_fill meta params = start env meta do
    p ← some_or (decode_fill params) invalid_params
    let tab = trim_space p.tab
    let selector = selector_of p.selector p.ref
    require (not (str_eq tab [])) (missing_tab [] (codes "fill"))
    require (not (str_eq selector []))
        (missing (codes "missing selector") (codes "missing selector or ref") [] (codes "fill"))
    c ← some_or env.conn not_ready
    pure (
        locked env meta tab do
          tid ← resolved c tab (unknown_tab stale_hint (codes "fill"))
          _ ←
              call (c.fill tid selector p.text) (codes "fill failed")
                (failure (codes "fill failed"))
          seq ← take_seq
          pure (tab_seq tab seq))

  unfoldable pub handle_fetch : AuditMeta → RawMessage → Server W → Outcome RpcResult × Server W
  handle_fetch meta params = start env meta do
    p ← some_or (decode_fetch params) invalid_params
    let tab = trim_space p.tab
    let url = trim_space p.url
    require (not (str_eq tab [])) (missing_tab [] (codes "fetch"))
    require (not (str_eq url []))
        (missing (codes "missing url") (codes "missing url") [] (codes "fetch"))
    c ← some_or env.conn not_ready
    pure (
        locked env meta tab do
          tid ← resolved c tab (unknown_tab stale_hint (codes "fetch"))
          fetch_page ← some_or c.fetch_page (
              detailed code_server_error (codes "fetch not supported")
                (err_data (codes "browser backend does not implement fetch") [] []))
          out ←
              call (fetch_page tid url p.method (trim_space p.headers) p.body)
                (codes "fetch failed") (failure (codes "fetch failed"))
          let wrap = fetch_wrap out
          seq ← take_seq
          pure (fetch_result tab seq wrap.0 wrap.1 out))

  unfoldable pub handle_snapshot : AuditMeta → RawMessage → Server W → Outcome RpcResult × Server W
  handle_snapshot meta params = start env meta do
    p ← some_or (decode_snapshot params) invalid_params
    let tab = trim_space p.tab
    require (not (str_eq tab [])) (missing_tab [] (codes "snapshot"))
    c ← some_or env.conn not_ready
    pure (
        locked env meta tab do
          tid ← resolved c tab (unknown_tab [] (codes "snapshot"))
          snapshot ←
              some_or c.snapshot (plain_error code_server_error (codes "snapshot not supported"))
          page ←
              call
                (snapshot tid (record {
                  interactive_only = p.interactive_only;
                  prune_empty = p.prune_empty;
                  max_depth = p.max_depth;
                  selector_scope = trim_space p.selector_scope;
                }))
                (codes "snapshot failed") (failure (codes "snapshot failed"))
          seq ← take_seq
          pure (snapshot_result tab seq page.title page.page_url page.text page.refs))
