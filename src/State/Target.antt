-- ===== src/State/Target.antt =====
-- What internal/state reads of a CDP target: `target.Info` of cdproto, with the fields used.
use go_bb_browser.Prelude.{
  Bool, false, ◌||◌, List, [], ◌∷◌, Option, none, some, Text, codes, str_eq, if◌then◌else◌, any,
}

pub record Info : Type 0 where
  pub kind : Text
  pub target_id : Text
  pub title : Text
  pub url : Text

-- `isPageTarget`: a top-level browsing target; a nil pointer is none.
unfoldable pub is_page_target : Option Info → Bool
is_page_target none = false
is_page_target (some info) = str_eq info.kind (codes "page") || str_eq info.kind (codes "tab")

-- `_, ok := present[id]`
abbrev pub in_set : List Text → Text → Bool
in_set ids id = any (λ i. str_eq i id) ids

-- `present[id] = struct{}{}`
abbrev pub set_add : Text → List Text → List Text
set_add id ids = if in_set ids id then ids else id ∷ ids

-- The set `present` of `SyncPresence` and `SyncPageTargets`: the ids of the page targets.
unfoldable pub present : List (Option Info) → List Text
unfolding is_page_target
present [] = []
present (none ∷ infos) = present infos
present (some info ∷ infos) =
    let rest = present infos in
    if is_page_target (some info) then set_add info.target_id rest else rest
