-- ===== src/Daemon/Rpc/Answer.antt =====
-- internal/daemon/v1.go and server.go: what an answer does to the state, the idle clock of the tab and
-- the log of requests.
use go_bb_browser.Prelude.{
  ℕ, Bool, true, false, not, ◌&&◌, ◌||◌, [], ◌∷◌, ◌++◌, none, some, Text, codes, str_eq, ltb,
  length, if◌then◌else◌,
}
use go_bb_browser.Prelude.Json.{RawMessage}
use go_bb_browser.Protocol.{
  is_tab_related_method, method_tab_list, method_tab_focus, method_tab_new, method_tab_close,
}
use go_bb_browser.Protocol.Message.{RpcResult, tab_focus_result, seq_of, tab_of}
use go_bb_browser.State.TabRegistry.{lookup}
use go_bb_browser.Store.Record.{LogRecord, tab_from_request_body}
use go_bb_browser.Store.State.{append_rpc}
use go_bb_browser.Daemon.Rpc.{Server, Env, Outcome, done, failed, M, lock_timed_out}
use go_bb_browser.Daemon.Rpc.Close.{touch_tab_activity}

-- `at` is the time in nanoseconds.
pub record AuditMeta : Type 0 where
  pub action : Text
  pub body : RawMessage
  pub sender_ip : Text
  pub at : ℕ

pub record Summary : Type 0 where
  pub tab : Text
  pub seq : ℕ
  pub is_ok : Bool
  pub error : Text

-- `ParseResponseSummary` of the response that carries this outcome.
unfoldable pub parse_response_summary : Outcome RpcResult → Summary
unfolding tab_of seq_of
parse_response_summary (done r) = record {
  tab = tab_of r;
  seq = seq_of r;
  is_ok = true;
  error = [];
}
parse_response_summary (failed e) = record {
  tab = [];
  seq = 0;
  is_ok = false;
  error = if str_eq e.message [] then codes "rpc error" else e.message;
}

abbrev pub audit_capacity : ℕ
audit_capacity = 256

-- The tab that the result of tab_focus names.
abbrev focused : RpcResult → Text
focused (tab_focus_result tab focus title url seq) = tab
focused _ = []

-- The tab whose idle clock a successful request of this action renews.
unfoldable pub touched_tab : AuditMeta → RpcResult → Text
unfolding tab_from_request_body
touched_tab meta result =
    let tab = tab_from_request_body meta.body in
    if str_eq tab [] && str_eq meta.action method_tab_focus then focused result else tab

module _ {W : Type 0} where
  -- The tab is looked up, and its idle clock is renewed.
  unfoldable pub touch_tab : Text → Server W → Server W
  unfolding touch_tab_activity
  touch_tab tab s = elim (lookup s.tabs tab) [ none ↦ s | some tid ↦ touch_tab_activity s tid ]

  unfoldable pub touch_successful_rpc : AuditMeta → RpcResult → Server W → Server W
  touch_successful_rpc meta result s =
      if not (is_tab_related_method meta.action)
      then s
      else if str_eq meta.action method_tab_new
          || (str_eq meta.action method_tab_close || str_eq meta.action method_tab_list)
      then s
      else touch_tab (touched_tab meta result) s

  -- `closeAudit` closes the channel, and later records go to the store at once.
  unfoldable pub close_audit : Server W → Server W
  close_audit s = record s { audit_closed = true }

  module _ (env : Env (Server W)) where
    unfoldable pub append_audit : LogRecord → Server W → Server W
    append_audit rec s = record s {
      store = (append_rpc env.line_length env.disk s.clock s.store rec).1;
    }

    unfoldable pub enqueue_audit : LogRecord → Server W → Server W
    enqueue_audit rec s =
        if s.audit_closed
        then append_audit rec s
        else if ltb (length s.audit_ch) audit_capacity
        then record s { audit_ch = s.audit_ch ++ rec ∷ [] }
        else append_audit rec s

    -- One round of `runAuditWriter`.
    unfoldable pub write_audit : Server W → Server W
    unfolding append_audit
    write_audit s = elim s.audit_ch [
      | [] ↦ s
      | rec ∷ recs ↦ append_audit rec (record s { audit_ch = recs })
    ]

    unfoldable pub audit_record : AuditMeta → Outcome RpcResult → LogRecord
    unfolding parse_response_summary
    audit_record meta r =
        let sum = parse_response_summary r in
        record {
          action = meta.action;
          body = meta.body;
          tab = if str_eq sum.tab [] then tab_from_request_body meta.body else sum.tab;
          sender_ip = meta.sender_ip;
          seq = sum.seq;
          ok = sum.is_ok;
          error = sum.error;
          time = meta.at;
        }

    unfoldable pub schedule_audit : AuditMeta → Outcome RpcResult → Server W → Server W
    schedule_audit meta r s = enqueue_audit (audit_record meta r) s

    -- `rpcOK` and `rpcErr`
    unfoldable pub answer : AuditMeta → Outcome RpcResult × Server W → Outcome RpcResult × Server W
    answer meta (done r, s) = (done r, schedule_audit meta (done r) (touch_successful_rpc meta r s))
    answer meta (failed e, s) = (failed e, schedule_audit meta (failed e) s)

    -- A handler that answers what fails before it takes the lock of a tab, and then goes on.
    unfoldable pub start :
        AuditMeta
        → M (Server W) (Server W → Outcome RpcResult × Server W)
        → Server W
        → Outcome RpcResult × Server W
    start meta m s =
        let r = m s in elim r.0 [ done rest ↦ rest r.1 | failed e ↦ answer meta (failed e, r.1) ]

    -- The part of a handler behind `lockTab`: it answers before the deferred `unlock`.
    unfoldable pub locked :
        AuditMeta → Text → M (Server W) RpcResult → Server W → Outcome RpcResult × Server W
    locked meta tab m s =
        let l = env.lock_tab tab s in
        if l.0
        then (let r = answer meta (m l.1) in (r.0, env.unlock tab r.1))
        else answer meta (failed lock_timed_out, l.1)
