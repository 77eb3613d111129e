-- ===== src/Daemon/Rpc/Payload.antt =====
-- internal/daemon/v1.go: what the handlers make of the parameters for the browser, and of what it returns.
use go_bb_browser.Prelude.{
  ℕ, ◌+◌, ◌-◌, ◌*◌, ◌/◌, ◌%◌, Bool, false, [], ◌∷◌, ◌++◌, Option, none, some, Text, codes, str_eq,
  trim_space, has_prefix, drop, ltb, ◌==◌, if◌then◌else◌, ℤ, pos,
}
use go_bb_browser.Prelude.Json.{Json, bool, num, obj, Fields, end, field, names}
use go_bb_browser.Protocol.Params.{parse_int}

-- The selector for `"ref"` of a snapshot.
unfoldable pub escape_quotes : Text → Text
escape_quotes [] = []
escape_quotes (c ∷ s) =
    let rest = escape_quotes s in if c == b'"' then b'\\' ∷ b'"' ∷ rest else c ∷ rest

unfoldable pub selector_of : Text → Text → Text
unfolding escape_quotes has_prefix
selector_of selector ref =
    let r = trim_space ref in
    let r' = if has_prefix r (codes "@") then drop 1 r else r in
    if str_eq r []
    then trim_space selector
    else codes "[__bb_snap_ref=\"" ++ (escape_quotes r' ++ codes "\"]")

-- base64.StdEncoding.EncodeToString
abbrev digit : ℕ → ℕ
digit n =
    if ltb n 26
    then b'A' + n
    else if ltb n 52
    then n + 71
    else if ltb n 62
    then n - 4
    else if n == 62
    then b'+'
    else b'/'

unfoldable pub base64 : Text → Text
base64 [] = []
base64 (a ∷ []) = digit (a / 4) ∷ digit (a % 4 * 16) ∷ b'=' ∷ b'=' ∷ []
base64 (a ∷ b ∷ []) = digit (a / 4) ∷ digit (a % 4 * 16 + b / 16) ∷ digit (b % 16 * 4) ∷ b'=' ∷ []
base64 (a ∷ b ∷ c ∷ r) =
    digit (a / 4)
    ∷ digit (a % 4 * 16 + b / 16)
    ∷ digit (b % 16 * 4 + c / 64)
    ∷ digit (c % 64)
    ∷ base64 r

-- The fields `ok` and `status` of what a fetch returns. A value of another type is passed over, since
-- the error of json.Unmarshal is.
abbrev keep_bool : Bool → Json → Bool
keep_bool b (bool c) = c
keep_bool b _ = b

abbrev int_or : ℤ → Option ℤ → ℤ
int_or i none = i
int_or i (some j) = j

abbrev keep_int : ℤ → Json → ℤ
unfolding parse_int
keep_int i (num n) = int_or i (parse_int n)
keep_int i _ = i

unfoldable pub wrap_fields : Fields → Bool → ℤ → Bool × ℤ
unfolding names keep_int
wrap_fields end b i = (b, i)
wrap_fields (field key v fs) b i =
    wrap_fields fs (if names key (codes "ok") then keep_bool b v else b)
      (if names key (codes "status") then keep_int i v else i)

unfoldable pub fetch_wrap : Json → Bool × ℤ
unfolding wrap_fields
fetch_wrap (obj fs) = wrap_fields fs false (pos 0)
fetch_wrap _ = (false, pos 0)
