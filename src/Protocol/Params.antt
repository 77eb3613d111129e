-- ===== src/Protocol/Params.antt =====
-- pkg/protocol/jsonrpc.go: the parameters of the methods, and json.Unmarshal into them. `none` is an
-- error: the value is no object, or a field has another type. `null` leaves a struct as it is.
pub mod Page
use go_bb_browser.Prelude.{
  ℕ, ◌+◌, ◌-◌, ◌^◌, Bool, true, false, List, [], ◌∷◌, Option, none, some, Text, codes, ltb, leb,
  ◌==◌, if◌then◌else◌, ℤ, pos, negsuc,
}
use go_bb_browser.Prelude.Numbers.{parse_uint}
use go_bb_browser.Prelude.Json.{
  Json, null, bool, num, str, arr, obj, Fields, end, field, RawMessage, empty, invalid, value,
  names, string_field,
}

-- The fields of the object that is decoded: none for `null`.
unfoldable pub object_of : RawMessage → Option Fields
object_of (value null) = some end
object_of (value (obj fs)) = some fs
object_of raw = none

abbrev pub set_bool : Option Bool → Json → Option Bool
set_bool none v = none
set_bool (some b) null = some b
set_bool (some b) (bool c) = some c
set_bool (some b) (str s) = none
set_bool (some b) (num n) = none
set_bool (some b) (arr xs) = none
set_bool (some b) (obj fs) = none

unfoldable pub bool_field : Text → Fields → Option Bool → Option Bool
unfolding names
bool_field name end r = r
bool_field name (field key v fs) r = bool_field name fs (if names key name then set_bool r v else r)

-- A JSON number as an `int` of 64 bits: digits, with a minus sign in front or not.
unfoldable pub parse_int : Text → Option ℤ
unfolding parse_uint
parse_int [] = none
parse_int (c ∷ s) =
    if c == b'-'
    then (elim (parse_uint 64 s) [
      | none ↦ none
      | some n ↦
          if n == 0 then some (pos 0) else if leb n (2 ^ 63) then some (negsuc (n - 1)) else none
    ])
    else (elim (parse_uint 63 (c ∷ s)) [ none ↦ none | some n ↦ some (pos n) ])

abbrev pub set_int : Option ℤ → Json → Option ℤ
set_int none v = none
set_int (some i) null = some i
set_int (some i) (num n) = parse_int n
set_int (some i) (bool b) = none
set_int (some i) (str s) = none
set_int (some i) (arr xs) = none
set_int (some i) (obj fs) = none

unfoldable pub int_field : Text → Fields → Option ℤ → Option ℤ
unfolding names parse_int
int_field name end r = r
int_field name (field key v fs) r = int_field name fs (if names key name then set_int r v else r)

-- A field of type `*uint64`: `null` makes the pointer nil.
abbrev pub set_pointer : Option (Option ℕ) → Json → Option (Option ℕ)
set_pointer none v = none
set_pointer (some p) null = some none
set_pointer (some p) (num n) = elim (parse_uint 64 n) [ none ↦ none | some k ↦ some (some k) ]
set_pointer (some p) (bool b) = none
set_pointer (some p) (str s) = none
set_pointer (some p) (arr xs) = none
set_pointer (some p) (obj fs) = none

unfoldable pub pointer_field : Text → Fields → Option (Option ℕ) → Option (Option ℕ)
unfolding names parse_uint
pointer_field name end r = r
pointer_field name (field key v fs) r =
    pointer_field name fs (if names key name then set_pointer r v else r)

infixl 5 ◌>>=◌
abbrev pub ◌>>=◌ {ℓ κ} : {A : Type ℓ} {B : Type κ} → Option A → (A → Option B) → Option B
none >>= f = none
some a >>= f = f a

abbrev pub string_of : Text → Fields → Option Text
string_of name fs = string_field name fs (some [])

abbrev pub bool_of : Text → Fields → Option Bool
bool_of name fs = bool_field name fs (some false)

abbrev pub int_of : Text → Fields → Option ℤ
int_of name fs = int_field name fs (some (pos 0))

-- TabListParams and TabFocusParams have no fields: any object will do.
unfoldable pub decode_nothing : RawMessage → Bool
unfolding object_of
decode_nothing raw = elim (object_of raw) [ none ↦ false | some fs ↦ true ]

-- The parameters with one field `tab`: those of tab_select, reload, tab_close and the three that clear
-- observations.
unfoldable pub decode_tab : RawMessage → Option Text
unfolding object_of string_field
decode_tab raw = do fs ← object_of raw; string_of (codes "tab") fs

pub record TabNewParams : Type 0 where
  pub url : Text
  pub silent : Bool

unfoldable pub decode_tab_new : RawMessage → Option TabNewParams
unfolding object_of string_field bool_field
decode_tab_new raw = do
  fs ← object_of raw
  url ← string_of (codes "url") fs
  silent ← bool_of (codes "silent") fs
  some (record { url = url; silent = silent })

pub record GotoParams : Type 0 where
  pub tab : Text
  pub url : Text

unfoldable pub decode_goto : RawMessage → Option GotoParams
unfolding object_of string_field
decode_goto raw = do
  fs ← object_of raw
  tab ← string_of (codes "tab") fs
  url ← string_of (codes "url") fs
  some (record { tab = tab; url = url })

pub record ScreenshotParams : Type 0 where
  pub tab : Text
  pub format : Text

unfoldable pub decode_screenshot : RawMessage → Option ScreenshotParams
unfolding object_of string_field
decode_screenshot raw = do
  fs ← object_of raw
  tab ← string_of (codes "tab") fs
  format ← string_of (codes "format") fs
  some (record { tab = tab; format = format })

pub record EvalParams : Type 0 where
  pub tab : Text
  pub script : Text

unfoldable pub decode_eval : RawMessage → Option EvalParams
unfolding object_of string_field
decode_eval raw = do
  fs ← object_of raw
  tab ← string_of (codes "tab") fs
  script ← string_of (codes "script") fs
  some (record { tab = tab; script = script })

-- ClickParams has no field `text`.
pub record FillParams : Type 0 where
  pub tab : Text
  pub selector : Text
  pub ref : Text
  pub text : Text

unfoldable pub decode_click : RawMessage → Option FillParams
unfolding object_of string_field
decode_click raw = do
  fs ← object_of raw
  tab ← string_of (codes "tab") fs
  selector ← string_of (codes "selector") fs
  ref ← string_of (codes "ref") fs
  some (record { tab = tab; selector = selector; ref = ref; text = [] })

unfoldable pub decode_fill : RawMessage → Option FillParams
unfolding object_of string_field
decode_fill raw = do
  fs ← object_of raw
  tab ← string_of (codes "tab") fs
  selector ← string_of (codes "selector") fs
  ref ← string_of (codes "ref") fs
  text ← string_of (codes "text") fs
  some (record { tab = tab; selector = selector; ref = ref; text = text })
