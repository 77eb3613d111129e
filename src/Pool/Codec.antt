-- ===== src/Pool/Codec.antt =====
-- pkg/daemonclient/pool.go: how a Pool reads and rewrites the JSON of params and results.
-- Where a JSON object repeats a key of a struct, the last one counts.
use go_bb_browser.Prelude.{
  ℕ, ◌⊎◌, inl, inr, Bool, false, Option, none, some, List, [], ◌∷◌, map, Text, codes, str_eq,
  trim_space, if◌then◌else◌, ◌>>=◌,
}
use go_bb_browser.Prelude.Map.{insert}
use go_bb_browser.Prelude.Json.{
  Json, null, bool, num, str, arr, obj, Items, nil, cons, Fields, end, field, RawMessage, value,
  names, string_field, string_member, fields_map, marshal_map,
}
use go_bb_browser.Pool.TabId.{format_tab_id}
use go_bb_browser.Pool.State.{Error, marshal_params, decode_params, unusable_tab_new_result}
use go_bb_browser.Prelude.Numbers.{itoa, parse_uint}

-- `params any`: nil, a value that json.Marshal refuses, or one that it turns into this JSON.
pub data Params : Type 0 where
  absent : Params
  unsupported : Params
  marshals : Json → Params

-- `result any`: nil, not a usable pointer, or one to a type that takes the JSON that the test allows.
pub data Dest : Type 0 where
  no_dest : Dest
  not_pointer : Dest
  pointer : (Json → Bool) → Dest

abbrev pub takes : Dest → Json → Bool
takes no_dest j = false
takes not_pointer j = false
takes (pointer accepts) j = accepts j

unfoldable pub tab_from_raw_result : RawMessage → Text
unfolding string_member
tab_from_raw_result raw = trim_space (string_member (codes "tab") raw)

-- `tabIDFromParams`
unfoldable pub json_tab_field : Params → Text
unfolding tab_from_raw_result
json_tab_field absent = []
json_tab_field unsupported = []
json_tab_field (marshals j) = tab_from_raw_result (value j)

-- json.Unmarshal into a `map[string]json.RawMessage`; null leaves it nil, which is `some []` here.
unfoldable pub raw_map : Json → Option (List (Text × Json))
unfolding fields_map
raw_map null = some []
raw_map (obj fs) = some (fields_map fs [])
raw_map (bool b) = none
raw_map (num n) = none
raw_map (str s) = none
raw_map (arr xs) = none

unfoldable pub replace_json_tab : Params → Text → Error ⊎ Params
unfolding raw_map insert marshal_map
replace_json_tab absent short = inr (marshals (obj (field (codes "tab") (str short) end)))
replace_json_tab unsupported short = inl marshal_params
replace_json_tab (marshals j) short = elim (raw_map j) [
  | none ↦ inl decode_params
  | some m ↦ inr (marshals (marshal_map (insert (codes "tab") (str short) m)))
]

unfoldable pub set_json_tab : RawMessage → Text → RawMessage
unfolding fields_map insert marshal_map
set_json_tab (value (obj fs)) tab =
    value (marshal_map (insert (codes "tab") (str tab) (fields_map fs [])))
set_json_tab raw tab = raw

abbrev pub probe : Json
probe = obj (field (codes "tab") (str (codes "x")) (field (codes "seq") (num (codes "1")) end))

unfoldable pub check_create_result : Dest → Option Error
check_create_result no_dest = none
check_create_result not_pointer = some unusable_tab_new_result
check_create_result (pointer accepts) = if accepts probe then none else some unusable_tab_new_result

pub record TabListItem : Type 0 where
  pub tab : Text
  pub title : Text
  pub url : Text

-- A nil slice of tabs is `[]`.
pub record TabListResult : Type 0 where
  pub tab : Text
  pub seq : ℕ
  pub tabs : List TabListItem
  pub focus : Text

pub record TabFocusResult : Type 0 where
  pub tab : Text
  pub focus : Text
  pub title : Text
  pub url : Text
  pub seq : ℕ

unfoldable pub uint_of : Option ℕ → Json → Option ℕ
unfolding parse_uint
uint_of none j = none
uint_of (some n) null = some n
uint_of (some n) (num s) = parse_uint 64 s
uint_of (some n) (bool b) = none
uint_of (some n) (str s) = none
uint_of (some n) (arr xs) = none
uint_of (some n) (obj fs) = none

unfoldable pub uint_field : Text → Fields → Option ℕ → Option ℕ
unfolding names uint_of
uint_field name end r = r
uint_field name (field key v fs) r = uint_field name fs (if names key name then uint_of r v else r)

unfoldable pub item_of : Json → Option TabListItem
unfolding string_field
item_of null = some (record { tab = []; title = []; url = [] })
item_of (obj fs) = do
  t ← string_field (codes "tab") fs (some [])
  title ← string_field (codes "title") fs (some [])
  url ← string_field (codes "url") fs (some [])
  some (record { tab = t; title = title; url = url })
item_of (bool b) = none
item_of (num n) = none
item_of (str s) = none
item_of (arr xs) = none

unfoldable pub items_of : Items → Option (List TabListItem)
unfolding item_of
items_of nil = some []
items_of (cons j js) = do item ← item_of j; rest ← items_of js; some (item ∷ rest)

unfoldable pub tabs_of : Option (List TabListItem) → Json → Option (List TabListItem)
unfolding items_of
tabs_of none j = none
tabs_of (some tabs) null = some []
tabs_of (some tabs) (arr xs) = items_of xs
tabs_of (some tabs) (bool b) = none
tabs_of (some tabs) (num n) = none
tabs_of (some tabs) (str s) = none
tabs_of (some tabs) (obj fs) = none

unfoldable pub tabs_field : Fields → Option (List TabListItem) → Option (List TabListItem)
unfolding names tabs_of
tabs_field end r = r
tabs_field (field key v fs) r = tabs_field fs (if names key (codes "tabs") then tabs_of r v else r)

-- json.Unmarshal into a TabListResult, and into a TabFocusResult.
unfoldable pub decode_tab_list : Json → Option TabListResult
unfolding string_field uint_field tabs_field
decode_tab_list null = some (record { tab = []; seq = 0; tabs = []; focus = [] })
decode_tab_list (obj fs) = do
  t ← string_field (codes "tab") fs (some [])
  seq ← uint_field (codes "seq") fs (some 0)
  tabs ← tabs_field fs (some [])
  focus ← string_field (codes "focus") fs (some [])
  some (record { tab = t; seq = seq; tabs = tabs; focus = focus })
decode_tab_list (bool b) = none
decode_tab_list (num n) = none
decode_tab_list (str s) = none
decode_tab_list (arr xs) = none

unfoldable pub decode_tab_focus : Json → Option TabFocusResult
unfolding string_field uint_field
decode_tab_focus null = some (record { tab = []; focus = []; title = []; url = []; seq = 0 })
decode_tab_focus (obj fs) = do
  t ← string_field (codes "tab") fs (some [])
  focus ← string_field (codes "focus") fs (some [])
  title ← string_field (codes "title") fs (some [])
  url ← string_field (codes "url") fs (some [])
  seq ← uint_field (codes "seq") fs (some 0)
  some (record { tab = t; focus = focus; title = title; url = url; seq = seq })
decode_tab_focus (bool b) = none
decode_tab_focus (num n) = none
decode_tab_focus (str s) = none
decode_tab_focus (arr xs) = none

-- A field with `omitempty`.
unfoldable pub text_field : Text → Text → Fields → Fields
text_field name [] fs = fs
text_field name (c ∷ s) fs = field name (str (c ∷ s)) fs

unfoldable pub encode_items : List TabListItem → Items
encode_items [] = nil
encode_items (item ∷ items) =
    cons
      (obj (
        field (codes "tab") (str item.tab)
          (field (codes "title") (str item.title) (field (codes "url") (str item.url) end))))
      (encode_items items)

unfoldable pub encode_tab_list : TabListResult → Json
unfolding text_field encode_items
encode_tab_list r = obj (
    text_field (codes "tab") r.tab (
      field (codes "seq") (num (itoa r.seq)) (
        field (codes "tabs") (arr (encode_items r.tabs)) (text_field (codes "focus") r.focus end))))

unfoldable pub encode_tab_focus : TabFocusResult → Json
unfolding text_field
encode_tab_focus r = obj (
    field (codes "tab") (str r.tab) (
      text_field (codes "focus") r.focus (
        field (codes "title") (str r.title)
          (field (codes "url") (str r.url) (field (codes "seq") (num (itoa r.seq)) end)))))

unfoldable pub prefix_pool_tab : Text → Text → Text
unfolding format_tab_id
prefix_pool_tab key short =
    let s = trim_space short in if str_eq s [] then [] else format_tab_id key s

unfoldable pub prefix_tab_list_result : Text → TabListResult → TabListResult
unfolding prefix_pool_tab
prefix_tab_list_result key r = record {
  tab = prefix_pool_tab key r.tab;
  seq = r.seq;
  tabs = map (λ (item : TabListItem). record item { tab = prefix_pool_tab key item.tab }) r.tabs;
  focus = prefix_pool_tab key r.focus;
}

unfoldable pub tab_ids_from_list : TabListResult → List Text
tab_ids_from_list r = map (λ item. item.tab) r.tabs
