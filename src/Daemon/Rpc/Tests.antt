-- ===== src/Daemon/Rpc/Tests.antt =====
-- Runs of the handlers of POST /v1, and the properties at them.
use go_bb_browser.Prelude.{
  ◌≡◌, ◌≢◌, ◌≤◌, ◌<◌, ◌↔◌, ◌+◌, refl, ap, Bool, true, List, [], ◌∷◌, some, Text, codes, str_eq,
  length, arith, pos, trim_space,
}
use go_bb_browser.Prelude.Map
use go_bb_browser.Prelude.Json.{Json, num, raw_field, string_field, string_member, value}
use go_bb_browser.Protocol.{is_dispatched_method, is_tab_related_method}
use go_bb_browser.Protocol.Params.{decode_goto}
use go_bb_browser.Protocol.Message.{
  Request, decode_request, request_has_id, normalize_params, RpcResult, tab_seq, seq_of,
}
use go_bb_browser.Browser.Errors.{GoError, plain}
use go_bb_browser.State.TabRegistry.{lookup}
use go_bb_browser.State.TabIdle.{is_expired}
use go_bb_browser.Store.State.{next_seq}
use go_bb_browser.Store.Record.{LogRecord, tab_from_request_body}
use go_bb_browser.Daemon.Watchdog.{ensure_browser_session}
use go_bb_browser.Daemon.Rpc.{
  Server, Result, err, Outcome, done, ◌>>=◌, ◌>>◌, pure, modify, run, require, some_or, take_seq,
  call,
}
use go_bb_browser.Daemon.Rpc.Close.{resolve_tab}
use go_bb_browser.Daemon.Rpc.Answer.{
  AuditMeta, audit_capacity, audit_record, enqueue_audit, write_audit, close_audit, answer, start,
  locked, schedule_audit, touch_successful_rpc, touch_tab, touched_tab,
}
use go_bb_browser.Daemon.Rpc.Page.{handle_goto, resolved}
use go_bb_browser.Daemon.Rpc.V1.{handle_request, handle_v1, handlers, dispatch, serve}
use go_bb_browser.Daemon.Rpc.Numbers.{serve-seq, IsRising}
use go_bb_browser.Daemon.Rpc.Logged.{serve-logged, IsAlone}
use go_bb_browser.Daemon.Rpc.Audit.{
  AuditOp, logs, writes, closes, Append, tally, tally_appends, handed, appended, run-appended,
}
use go_bb_browser.Daemon.Rpc.Audit as Audit
use go_bb_browser.Daemon.Rpc.Touch.{touch_successful_rpc-is_expired}
use go_bb_browser.Daemon.Rpc.Checks.{IsServed, handle_v1-IsServed}
use go_bb_browser.Daemon.Auth as Auth
use go_bb_browser.Daemon.Rpc.Sample.{
  Chrome, sample_tab, sample_target, sample_env, sample_server, goto_params, goto_body,
  sample_request, sample-ConnLaws,
}

goto_known : is_dispatched_method (codes "goto") ≡ true
unfolding is_dispatched_method str_eq
goto_known = refl

sample-IsRising : IsRising sample_env
sample-IsRising = record {
  lock = λ tab s. record { rise = λ h. (omega arith, h) };
  unlock = λ tab s. record { rise = λ h. (omega arith, h) };
  browser = sample-ConnLaws (λ s l. record { rise = λ h. (omega arith, h) });
}

sample-IsAlone : IsAlone sample_env
sample-IsAlone = record {
  lock = λ tab s. record { queue = refl; open_still = refl };
  unlock = λ tab s. record { queue = refl; open_still = refl };
  browser = sample-ConnLaws (λ s l. record { queue = refl; open_still = refl });
}

abbrev goto_run : Outcome RpcResult × Server Chrome
goto_run = serve sample_env (codes "goto") goto_params (sample_request goto_body) sample_server

goto_done : goto_run.0 ≡ done (tab_seq sample_tab 8)
unfolding ◌>>=◌ ◌>>◌ pure modify run require some_or take_seq call answer start locked handle_goto
    handlers dispatch serve decode_goto resolve_tab lookup Map.get str_eq trim_space
    ensure_browser_session next_seq resolved
goto_done = refl

serve-seq_example : (7 < 8) × (8 ≤ goto_run.1.store.seq)
unfolding seq_of
serve-seq_example =
    serve-seq sample-IsRising (codes "goto") goto_params (sample_request goto_body) sample_server
      goto_known (omega arith) (tab_seq sample_tab 8) goto_done (λ h. omega arith)

serve-logged_example :
    goto_run.1.audit_ch
    ≡ audit_record sample_env
        (record { action = codes "goto"; body = goto_body; sender_ip = codes "127.0.0.1"; at = 50 })
        goto_run.0
      ∷ []
serve-logged_example =
    serve-logged sample_env sample-IsAlone (codes "goto") goto_params (sample_request goto_body)
      sample_server goto_known refl (omega arith)

abbrev goto_record : LogRecord
goto_record =
    audit_record sample_env
      (record { action = codes "goto"; body = goto_body; sender_ip = []; at = 50 }) goto_run.0

-- One record is written by the writer, one waits when the channel is closed, and one comes later.
abbrev audit_ops : List AuditOp
audit_ops =
    logs 50 goto_record ∷ logs 51 goto_record ∷ writes 52 ∷ closes ∷ logs 53 goto_record ∷ []

one_waits : length (Audit.run sample_env audit_ops sample_server).audit_ch ≡ 1
unfolding enqueue_audit write_audit close_audit
one_waits = omega arith

run-appended_example :
    (calls : List Append) × ((Audit.run sample_env audit_ops sample_server).store
      ≡ appended sample_env sample_server.store calls)
    × ((p : LogRecord → Bool)
        → tally p (handed audit_ops) + tally p sample_server.audit_ch
          ≡ tally_appends p calls + tally p (Audit.run sample_env audit_ops sample_server).audit_ch)
    × (length (Audit.run sample_env audit_ops sample_server).audit_ch ≤ audit_capacity)
run-appended_example = run-appended sample_env audit_ops sample_server (omega arith)

abbrev goto_meta : AuditMeta
goto_meta = record { action = codes "goto"; body = goto_body; sender_ip = []; at = 50 }

goto_touches :
    lookup sample_server.tabs (touched_tab goto_meta (tab_seq sample_tab 8)) ≡ some sample_target
unfolding lookup touched_tab tab_from_request_body Map.get str_eq trim_space raw_field string_member
goto_touches = refl

touch_successful_rpc-is_expired_example :
    (is_expired
        (touch_successful_rpc goto_meta (tab_seq sample_tab 8) sample_server).tab_idle
        sample_target
        149
        (pos 100)
      ≡ true)
    ↔ (50 + 100 ≤ 149)
unfolding is_tab_related_method str_eq Map.get
touch_successful_rpc-is_expired_example =
    touch_successful_rpc-is_expired goto_meta (tab_seq sample_tab 8) sample_server sample_target 10
      149 100 refl refl refl refl goto_touches refl refl (omega arith)

-- Everybody is let in.
abbrev let_in : Auth.Request → Bool
let_in r = true

abbrev goto_message : Request
goto_message = record {
  jsonrpc = codes "2.0";
  method = codes "goto";
  params = goto_params;
  id = value (num (codes "1"));
}

goto_decoded : decode_request goto_body ≡ some goto_message
unfolding decode_request string_field raw_field str_eq
goto_decoded = refl

goto_posted : str_eq (codes "POST") (codes "POST") ≡ true
unfolding str_eq
goto_posted = refl

goto_handled :
    (handle_v1 sample_env let_in (sample_request goto_body) sample_server).1.store.seq ≡ 8
unfolding ◌>>=◌ ◌>>◌ pure modify run require some_or take_seq call answer start locked handle_goto
    handlers dispatch serve decode_goto resolve_tab lookup Map.get str_eq trim_space
    ensure_browser_session next_seq resolved handle_v1 decode_request handle_request string_field
    raw_field is_dispatched_method normalize_params request_has_id schedule_audit enqueue_audit
    touch_successful_rpc is_tab_related_method touch_tab touched_tab string_member
goto_handled = refl

goto_changes :
    (handle_v1 sample_env let_in (sample_request goto_body) sample_server).1 ≢ sample_server
goto_changes = λ h. absurd (omega (arith, goto_handled, ap (λ (s : Server Chrome). s.store.seq) h))

handle_v1-IsServed_example : IsServed sample_env let_in (sample_request goto_body)
handle_v1-IsServed_example =
    handle_v1-IsServed sample_env let_in (sample_request goto_body) sample_server goto_changes

-- A script of the page throws, with a word in its message that a lost connection has too.
abbrev thrown : Text
thrown = codes "exception \"Uncaught\": TypeError: WebSocket is not a constructor"

abbrev thrown_error : GoError
thrown_error = plain thrown

abbrev throws : Server Chrome → Result Json × Server Chrome
throws s = (err thrown_error, s)
