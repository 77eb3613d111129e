-- ===== src/Store/Record.antt =====
-- internal/store/audit_parse.go and compact_body.go: what a log record keeps of a request.
use go_bb_browser.Prelude.{
  ℕ, ◌+◌, ◌-◌, Bool, true, false, ◌&&◌, List, [], ◌∷◌, ◌++◌, Option, none, some, Text, codes,
  str_eq, leb, ltb, length, take, drop, if◌then◌else◌,
}
use go_bb_browser.Prelude.Map.{Map}
use go_bb_browser.Prelude.Json.{
  Json, null, str, obj, Fields, end, field, RawMessage, empty, value, raw_field, string_field,
  string_member, fields_map, marshal_map,
}

-- A time is a number of nanoseconds, 0 the zero time.
pub record LogRecord : Type 0 where
  pub action : Text
  pub body : RawMessage
  pub tab : Text
  pub sender_ip : Text
  pub seq : ℕ
  pub ok : Bool
  pub error : Text
  pub time : ℕ

-- json.Unmarshal into a struct with one field `Params json.RawMessage`.
params_of : RawMessage → Option RawMessage
params_of (value null) = some empty
params_of (value (obj fs)) = some (raw_field (codes "params") fs empty)
params_of raw = none

unfoldable pub tab_from_request_body : RawMessage → Text
unfolding params_of
tab_from_request_body body = elim (params_of body) [
  | none ↦ []
  | some empty ↦ []
  | some params ↦ string_member (codes "tab") params
]

abbrev pub log_string_max_len : ℕ
log_string_max_len = 200

abbrev pub log_string_head : ℕ
log_string_head = 80

abbrev pub log_string_tail : ℕ
log_string_tail = 80

abbrev pub log_string_ellipsis : Text
log_string_ellipsis = codes "...."

-- `[]rune(s)` of valid UTF-8, each rune as its bytes: a rune begins at each byte but a continuation.
pub is_continuation : ℕ → Bool
is_continuation c = leb 0x80 c && ltb c 0xc0

glue : ℕ → List Text → List Text
glue c [] = (c ∷ []) ∷ []
glue c ([] ∷ rs) = (c ∷ []) ∷ rs
glue c ((d ∷ r) ∷ rs) = if is_continuation d then (c ∷ d ∷ r) ∷ rs else (c ∷ []) ∷ (d ∷ r) ∷ rs

pub runes : Text → List Text
unfolding glue is_continuation
runes [] = []
runes (c ∷ s) = glue c (runes s)

-- `string(runes)`
pub flat : List Text → Text
flat [] = []
flat (r ∷ rs) = r ++ flat rs

pub truncate_middle : Text → ℕ → ℕ → ℕ → Text
unfolding runes flat
truncate_middle s max_len head tail =
    let rs = runes s in
    if leb (length rs) max_len
    then s
    else if leb (length rs) (head + tail)
    then s
    else flat (take head rs) ++ (log_string_ellipsis ++ flat (drop (length rs - tail) rs))

-- The loop over the parameters: a long string is shortened; `true` if one was.
compact_params : Map Json → Map Json × Bool
unfolding truncate_middle
compact_params [] = ([], false)
compact_params ((k, str s) ∷ m) =
    let (m', changed) = compact_params m in
    let s' = truncate_middle s log_string_max_len log_string_head log_string_tail in
    if str_eq s' s then ((k, str s) ∷ m', changed) else ((k, str s') ∷ m', true)
compact_params ((k, v) ∷ m) = let (m', changed) = compact_params m in ((k, v) ∷ m', changed)

-- `req.ID` as it is marshalled: a missing one is null.
id_value : RawMessage → Json
id_value (value v) = v
id_value raw = null

compact_object : Fields → Text → Text → Map Json → RawMessage
unfolding compact_params id_value
compact_object fs jsonrpc method params =
    let (params', changed) = compact_params params in
    if changed
    then value (
        obj (
          field (codes "jsonrpc") (str jsonrpc) (
            field (codes "method") (str method) (
              field (codes "params") (marshal_map params')
                (field (codes "id") (id_value (raw_field (codes "id") fs empty)) end)))))
    else value (obj fs)

-- A request that cannot be decoded, has no parameters or none that is an object stays as it is.
pub compact_rpc_log_body : RawMessage → RawMessage
unfolding compact_object
compact_rpc_log_body (value (obj fs)) = elim (string_field (codes "jsonrpc") fs (some [])) [
  | none ↦ value (obj fs)
  | some jsonrpc ↦ elim (string_field (codes "method") fs (some [])) [
    | none ↦ value (obj fs)
    | some method ↦ elim (raw_field (codes "params") fs empty) [
      | value (obj ps) ↦ compact_object fs jsonrpc method (fields_map ps [])
      | raw ↦ value (obj fs)
    ]
  ]
]
compact_rpc_log_body raw = raw
