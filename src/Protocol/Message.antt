-- ===== src/Protocol/Message.antt =====
-- pkg/protocol/jsonrpc.go: requests, results and error objects of JSON-RPC.
use go_bb_browser.Prelude.{
  ℕ, Bool, true, false, List, [], Option, none, some, Text, codes, ℤ, negsuc,
}
use go_bb_browser.Prelude.Map.{Map}
use go_bb_browser.Prelude.Json.{
  Json, null, obj, Fields, end, RawMessage, empty, value, raw_field, string_field,
}
use go_bb_browser.Protocol.Params.{◌>>=◌}
use go_bb_browser.State.ObsStore.{ObsEvent}

abbrev pub code_parse_error : ℤ
code_parse_error = negsuc 32699

abbrev pub code_invalid_request : ℤ
code_invalid_request = negsuc 32599

abbrev pub code_method_not_found : ℤ
code_method_not_found = negsuc 32600

abbrev pub code_invalid_params : ℤ
code_invalid_params = negsuc 32601

abbrev pub code_internal_error : ℤ
code_internal_error = negsuc 32602

abbrev pub code_server_error : ℤ
code_server_error = negsuc 31999

pub record Request : Type 0 where
  pub jsonrpc : Text
  pub method : Text
  pub params : RawMessage
  pub id : RawMessage

request_of : Fields → Option Request
unfolding string_field raw_field
request_of fs = do
  jsonrpc ← string_field (codes "jsonrpc") fs (some [])
  method ← string_field (codes "method") fs (some [])
  some (record {
    jsonrpc = jsonrpc;
    method = method;
    params = raw_field (codes "params") fs empty;
    id = raw_field (codes "id") fs empty;
  })

-- json.Unmarshal of a request; `none` is an error.
unfoldable pub decode_request : RawMessage → Option Request
unfolding request_of
decode_request (value null) = request_of end
decode_request (value (obj fs)) = request_of fs
decode_request raw = none

pub record ErrData : Type 0 where
  pub error : Text
  pub hint : Text
  pub method : Text

pub record ResponseError : Type 0 where
  pub code : ℤ
  pub message : Text
  pub details : Option ErrData

pub record TabListItem : Type 0 where
  pub tab : Text
  pub title : Text
  pub url : Text

-- The payloads under `result`. `tab_seq` is the payload of the methods that answer with a tab and a
-- sequence number only, `routes_result` that of network_route and network_unroute.
pub data RpcResult : Type 0 where
  tab_list_result : Text → ℕ → List TabListItem → Text → RpcResult
  tab_focus_result : Text → Text → Text → Text → ℕ → RpcResult
  tab_seq : Text → ℕ → RpcResult
  screenshot_result : Text → ℕ → Text → Text → RpcResult
  eval_result : Text → ℕ → Json → RpcResult
  snapshot_result : Text → ℕ → Text → Text → Text → Map Text → RpcResult
  fetch_result : Text → ℕ → Bool → ℤ → Json → RpcResult
  routes_result : Text → ℕ → ℕ → RpcResult
  obs_result : Text → ℕ → ℕ → List ObsEvent → ℕ → RpcResult

unfoldable pub seq_of : RpcResult → ℕ
seq_of (tab_list_result tab seq tabs focus) = seq
seq_of (tab_focus_result tab focus title url seq) = seq
seq_of (tab_seq tab seq) = seq
seq_of (screenshot_result tab seq image mime) = seq
seq_of (eval_result tab seq result) = seq
seq_of (snapshot_result tab seq title url text refs) = seq
seq_of (fetch_result tab seq ok status result) = seq
seq_of (routes_result tab seq routes) = seq
seq_of (obs_result tab seq cursor events dropped) = seq

unfoldable pub tab_of : RpcResult → Text
tab_of (tab_list_result tab seq tabs focus) = tab
tab_of (tab_focus_result tab focus title url seq) = tab
tab_of (tab_seq tab seq) = tab
tab_of (screenshot_result tab seq image mime) = tab
tab_of (eval_result tab seq result) = tab
tab_of (snapshot_result tab seq title url text refs) = tab
tab_of (fetch_result tab seq ok status result) = tab
tab_of (routes_result tab seq routes) = tab
tab_of (obs_result tab seq cursor events dropped) = tab

unfoldable pub normalize_params : RawMessage → RawMessage
normalize_params empty = value (obj end)
normalize_params (value null) = value (obj end)
normalize_params raw = raw

unfoldable pub request_has_id : RawMessage → Bool
request_has_id empty = false
request_has_id (value null) = false
request_has_id raw = true
