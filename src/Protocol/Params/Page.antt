-- ===== src/Protocol/Params/Page.antt =====
-- pkg/protocol/jsonrpc.go: the parameters of fetch, snapshot, the network routes and the observations.
use go_bb_browser.Prelude.{ℕ, Bool, Option, none, some, Text, codes, ℤ}
use go_bb_browser.Prelude.Json.{RawMessage, string_field}
use go_bb_browser.Protocol.Params.{
  object_of, bool_field, int_field, pointer_field, ◌>>=◌, string_of, bool_of, int_of,
}

pub record FetchParams : Type 0 where
  pub tab : Text
  pub url : Text
  pub method : Text
  pub headers : Text
  pub body : Text

unfoldable pub decode_fetch : RawMessage → Option FetchParams
unfolding object_of string_field
decode_fetch raw = do
  fs ← object_of raw
  tab ← string_of (codes "tab") fs
  url ← string_of (codes "url") fs
  method ← string_of (codes "method") fs
  headers ← string_of (codes "headers") fs
  body ← string_of (codes "body") fs
  some (record { tab = tab; url = url; method = method; headers = headers; body = body })

pub record SnapshotParams : Type 0 where
  pub tab : Text
  pub interactive_only : Bool
  pub prune_empty : Bool
  pub max_depth : ℤ
  pub selector_scope : Text

unfoldable pub decode_snapshot : RawMessage → Option SnapshotParams
unfolding object_of string_field bool_field int_field
decode_snapshot raw = do
  fs ← object_of raw
  tab ← string_of (codes "tab") fs
  interactive ← bool_of (codes "interactive_only") fs
  prune ← bool_of (codes "prune_empty") fs
  depth ← int_of (codes "max_depth") fs
  scope ← string_of (codes "selector_scope") fs
  some (record {
    tab = tab;
    interactive_only = interactive;
    prune_empty = prune;
    max_depth = depth;
    selector_scope = scope;
  })

pub record NetworkRouteParams : Type 0 where
  pub tab : Text
  pub url_pattern : Text
  pub abort : Bool
  pub body : Text
  pub content_type : Text
  pub status : ℤ

unfoldable pub decode_network_route : RawMessage → Option NetworkRouteParams
unfolding object_of string_field bool_field int_field
decode_network_route raw = do
  fs ← object_of raw
  tab ← string_of (codes "tab") fs
  pattern_text ← string_of (codes "url_pattern") fs
  abort ← bool_of (codes "abort") fs
  body ← string_of (codes "body") fs
  content_type ← string_of (codes "content_type") fs
  status ← int_of (codes "status") fs
  some (record {
    tab = tab;
    url_pattern = pattern_text;
    abort = abort;
    body = body;
    content_type = content_type;
    status = status;
  })

pub record NetworkUnrouteParams : Type 0 where
  pub tab : Text
  pub url_pattern : Text

unfoldable pub decode_network_unroute : RawMessage → Option NetworkUnrouteParams
unfolding object_of string_field
decode_network_unroute raw = do
  fs ← object_of raw
  tab ← string_of (codes "tab") fs
  pattern_text ← string_of (codes "url_pattern") fs
  some (record { tab = tab; url_pattern = pattern_text })

-- `since` is `none` for a nil pointer.
pub record ObsQueryParams : Type 0 where
  pub tab : Text
  pub since : Option ℕ

unfoldable pub decode_obs_query : RawMessage → Option ObsQueryParams
unfolding object_of string_field pointer_field
decode_obs_query raw = do
  fs ← object_of raw
  tab ← string_of (codes "tab") fs
  since ← pointer_field (codes "since") fs (some none)
  some (record { tab = tab; since = since })
