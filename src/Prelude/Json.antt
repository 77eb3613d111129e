-- ===== src/Prelude/Json.antt =====
-- encoding/json as the program uses it: values, raw messages, and decoding by field name.
use go_bb_browser.Prelude.Tests.{◌==◌, if◌then◌else◌}
use go_bb_browser.Prelude.Sort.{sort}
use go_bb_browser.Prelude.Map.{Map, get, insert, keys}
use go_bb_browser.Prelude.Strings.{Text, str_eq, lower}
use Prim.Native.Nat.{ℕ, zero, suc}
use mathlib.Core.Bool.{Bool, ◌&&◌}
use mathlib.Core.List.{List, [], ◌∷◌}
use mathlib.Core.Option.{Option, none, some}

-- A number is kept as it is spelled.
mutual
  pub data Json : Type 0 where
    null : Json
    bool : Bool → Json
    num : Text → Json
    str : Text → Json
    arr : Items → Json
    obj : Fields → Json

  pub data Items : Type 0 where
    nil : Items
    cons : Json → Items → Items

  pub data Fields : Type 0 where
    end : Fields
    field : Text → Json → Fields → Fields

-- A `json.RawMessage`: no bytes, bytes that are not JSON, or the text of a value.
pub data RawMessage : Type 0 where
  empty : RawMessage
  invalid : RawMessage
  value : Json → RawMessage

-- How many bytes behind this one belong to a letter that folds to ASCII: U+017F and U+212A.
unfoldable pub fold_extra : Text → ℕ
fold_extra (a ∷ b ∷ []) = if a == 0xc5 && b == 0xbf then 1 else 0
fold_extra (a ∷ b ∷ c ∷ r) =
    if a == 0xc5 && b == 0xbf then 1 else if a == 0xe2 && b == 0x84 && c == 0xaa then 2 else 0
fold_extra s = 0

unfoldable pub fold_from : ℕ → Text → Text
unfolding fold_extra lower
fold_from skip [] = []
fold_from (suc skip) (c ∷ s) = fold_from skip s
fold_from zero (c ∷ s) =
    let n = fold_extra (c ∷ s) in
    (elim n [ zero ↦ lower c | suc k ↦ if k == 0 then b's' else b'k' ]) ∷ fold_from n s

-- A key names a field if it is the same up to case.
unfoldable pub names : Text → Text → Bool
unfolding fold_from str_eq
names key name = str_eq (fold_from 0 key) name

-- The value of a `json.RawMessage` field of this name: that of the last key that names it.
unfoldable pub raw_field : Text → Fields → RawMessage → RawMessage
unfolding names
raw_field name end r = r
raw_field name (field key v fs) r = raw_field name fs (if names key name then value v else r)

-- A string field of this name: the last string; `none` if some key that names it has another type.
unfoldable pub string_field : Text → Fields → Option Text → Option Text
unfolding names
string_field name end r = r
string_field name (field key v fs) r =
    string_field name fs (if names key name then assign r v else r)
  where
    assign : Option Text → Json → Option Text
    assign none v = none
    assign (some s) null = some s
    assign (some s) (str t) = some t
    assign (some s) (bool b) = none
    assign (some s) (num n) = none
    assign (some s) (arr xs) = none
    assign (some s) (obj fs) = none

-- json.Unmarshal into a struct with one string field of this name, `""` on an error.
unfoldable pub string_member : Text → RawMessage → Text
unfolding string_field
string_member name (value (obj fs)) = elim (string_field name fs (some [])) [
  | none ↦ []
  | some s ↦ s
]
string_member name raw = []

-- json.Unmarshal into a `map[string]json.RawMessage`.
unfoldable pub fields_map : Fields → Map Json → Map Json
unfolding insert
fields_map end m = m
fields_map (field key v fs) m = fields_map fs (insert key v m)

-- json.Marshal of a map: the keys in ascending order.
unfoldable pub sorted_fields : List Text → Map Json → Fields
unfolding get
sorted_fields [] m = end
sorted_fields (k ∷ ks) m = elim (get k m) [
  | none ↦ sorted_fields ks m
  | some v ↦ field k v (sorted_fields ks m)
]

unfoldable pub marshal_map : Map Json → Json
unfolding sorted_fields sort
marshal_map m = obj (sorted_fields (sort (keys m)) m)
