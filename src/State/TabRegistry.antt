-- ===== src/State/TabRegistry.antt =====
-- internal/state/tab_registry.go. A method holds the mutex for its whole body, so each is one step
-- from a registry to its result and the new registry.
pub mod Inv
pub mod Short
pub mod Assign
pub mod Sync
pub mod Collision
mod Tests
use go_bb_browser.Prelude.{
  ℕ, zero, suc, ◌+◌, ◌-◌, Bool, true, false, ◌&&◌, not, List, [], ◌∷◌, Option, none, some, Text,
  str_eq, trim_space, ltb, leb, length, drop, if◌then◌else◌,
}
use go_bb_browser.Prelude.Map.{Map}
use go_bb_browser.Prelude.Map
use go_bb_browser.Prelude.Sort.{sort}
use go_bb_browser.State.Target.{Info, present, in_set}

pub record TabRegistry : Type 0 where
  pub target_to_short : Map Text
  pub short_to_target : Map Text
  pub selected : Text

pub record RemovedTab : Type 0 where
  pub target_id : Text
  pub short_id : Text

pub record TabSnapshot : Type 0 where
  pub short_id : Text
  pub target_id : Text
  pub title : Text
  pub url : Text

pub new_tab_registry : TabRegistry
new_tab_registry = record { target_to_short = []; short_to_target = []; selected = [] }

-- The hexadecimal digits of an id in lower case. Each byte of a rune outside ASCII is at least 0x80,
-- so none of them is taken for a digit.
pub hex_runes : Text → Text
hex_runes [] = []
hex_runes (c ∷ s) =
    let rest = hex_runes s in
    if leb b'0' c && leb c b'9'
    then c ∷ rest
    else if leb b'a' c && leb c b'f'
    then c ∷ rest
    else if leb b'A' c && leb c b'F'
    then (c + 32) ∷ rest
    else rest

-- The last `n` bytes.
abbrev pub suffix : ℕ → Text → Text
suffix n s = drop (length s - n) s

pub sanitize_short : Text → Text
sanitize_short s = let t = trim_space s in if ltb 64 (length t) then suffix 64 t else t

-- `oid, taken := r.shortToTarget[s]; taken && oid != id`
pub taken_by_other : TabRegistry → Text → Text → Bool
taken_by_other r id s = elim (Map.get s r.short_to_target) [
  | none ↦ false
  | some oid ↦ not (str_eq oid id)
]

pub register_locked : TabRegistry → Text → Text → TabRegistry
register_locked r id short = record r {
  target_to_short = Map.insert id short r.target_to_short;
  short_to_target = Map.insert short id r.short_to_target;
}

pub remove_locked : TabRegistry → Text → TabRegistry
remove_locked r id = elim (Map.get id r.target_to_short) [
  | none ↦ r
  | some short ↦ record {
    target_to_short = Map.delete id r.target_to_short;
    short_to_target = Map.delete short r.short_to_target;
    selected = if str_eq r.selected short then [] else r.selected;
  }
]

-- `for n := 4; n <= len(hexDigits); n++` with the rounds that are left and `n`: the first suffix
-- that no other target has.
pub find_free : TabRegistry → Text → Text → ℕ → ℕ → Option Text
find_free r id hex zero n = none
find_free r id hex (suc rounds) n =
    let rest = find_free r id hex rounds (n + 1) in
    if taken_by_other r id (suffix n hex) then rest else some (suffix n hex)

abbrev pub or_else : Option Text → Text → Text
or_else none s = s
or_else (some t) s = t

-- The short id that `assignShortLocked` registers for a target with no short id yet.
pub choose_short : TabRegistry → Text → Text
choose_short r id =
    let hex = hex_runes id in
    let s = sanitize_short id in
    if leb (length hex) 0
    then (if taken_by_other r id s then id else s)
    else or_else (find_free r id hex (length hex + 1 - 4) 4) hex

pub assign_short_locked : TabRegistry → Text → Text × TabRegistry
assign_short_locked r id = elim (Map.get id r.target_to_short) [
  | some s ↦ (s, r)
  | none ↦ let s = choose_short r id in (s, register_locked r id s)
]

pub register_page_target : TabRegistry → Text → Text × TabRegistry
register_page_target r id = assign_short_locked r id

pub remove_target : TabRegistry → Text → Option Text × TabRegistry
remove_target r id = elim (Map.get id r.target_to_short) [
  | none ↦ (none, r)
  | some short ↦ (some short, remove_locked r id)
]

pub tab_title : List (Option Info) → Text → Text
tab_title [] id = []
tab_title (none ∷ infos) id = tab_title infos id
tab_title (some info ∷ infos) id =
    let rest = tab_title infos id in if str_eq info.target_id id then info.title else rest

pub tab_url : List (Option Info) → Text → Text
tab_url [] id = []
tab_url (none ∷ infos) id = tab_url infos id
tab_url (some info ∷ infos) id =
    let rest = tab_url infos id in if str_eq info.target_id id then info.url else rest

-- The loop over `r.targetToShort`, whose entries are the list.
pub remove_absent : List Text → Map Text → TabRegistry → List RemovedTab × TabRegistry
remove_absent ids [] r = ([], r)
remove_absent ids ((id, short) ∷ m) r =
    let gone = remove_absent ids m (remove_locked r id) in
    let kept = remove_absent ids m r in
    if in_set ids id then kept else (record { target_id = id; short_id = short } ∷ gone.0, gone.1)

-- The loop over the sorted ids.
pub assign_all : List (Option Info) → List Text → TabRegistry → List TabSnapshot × TabRegistry
assign_all infos [] r = ([], r)
assign_all infos (id ∷ ids) r =
    let (short, r') = assign_short_locked r id in
    let (tabs, r'') = assign_all infos ids r' in
    (
      record {
        short_id = short;
        target_id = id;
        title = tab_title infos id;
        url = tab_url infos id;
      }
          ∷ tabs,
      r'',
    )

pub sync_page_targets_detailed :
    TabRegistry → List (Option Info) → List TabSnapshot × List RemovedTab × TabRegistry
sync_page_targets_detailed r infos =
    let ids = present infos in
    let (removed, r') = remove_absent ids r.target_to_short r in
    let (tabs, r'') = assign_all infos (sort ids) r' in (tabs, removed, r'')

pub short_for_target : TabRegistry → Text → Option Text
short_for_target r id = if str_eq id [] then none else Map.get id r.target_to_short

unfoldable pub lookup : TabRegistry → Text → Option Text
lookup r short =
    let s = trim_space short in if str_eq s [] then none else Map.get s r.short_to_target

pub select : TabRegistry → Text → Bool × TabRegistry
select r short =
    let s = trim_space short in
    if str_eq s []
    then (false, r)
    else if Map.has s r.short_to_target
    then (true, record r { selected = s })
    else (false, r)
