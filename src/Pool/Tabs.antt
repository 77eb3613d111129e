-- ===== src/Pool/Tabs.antt =====
-- pkg/daemonclient/pool.go: the operations on the tab map of a Pool, under its mutex.
use go_bb_browser.Prelude.{
  ℕ, ◌⊎◌, inl, inr, Option, none, some, List, [], ◌∷◌, Text, str_eq, trim_space, ◌==◌,
  if◌then◌else◌, get_elem?,
}
use go_bb_browser.Prelude.Map.{get, insert, delete}
use go_bb_browser.Pool.TabId.{split_tab_id}
use go_bb_browser.Pool.State.{
  Client, Pool, Error, malformed, unknown_backend_key, unknown_tab, invalid_tab_id, tab_collision,
  empty_tab_id,
}

unfoldable pub bind : Text → ℕ → Pool → Option Error × Pool
unfolding insert get
bind tab idx p =
    let t = trim_space tab in
    if str_eq t [] then (some empty_tab_id, p) else elim (get t p.tabs) [
      | none ↦ (none, record p { tabs = insert t idx p.tabs })
      | some prev ↦
          if prev == idx
          then (none, record p { tabs = insert t idx p.tabs })
          else (some (tab_collision t), p)
    ]

unfoldable pub unbind : Text → Pool → Pool
unfolding delete
unbind tab p =
    let t = trim_space tab in if str_eq t [] then p else record p { tabs = delete t p.tabs }

abbrev pub forget_tab : Text → Pool → Pool
forget_tab = unbind

unfoldable pub lookup_tab : Text → Pool → Option ℕ
unfolding get
lookup_tab tab p = let t = trim_space tab in if str_eq t [] then none else get t p.tabs

unfoldable pub client_for_tab : Text → Pool → Option Client
unfolding lookup_tab
client_for_tab tab p = elim (lookup_tab tab p) [ none ↦ none | some idx ↦ get_elem? p.clients idx ]

-- The backend and the daemon's short id that an id stands for.
unfoldable pub resolve_tab : Text → Pool → Error ⊎ (ℕ × Text)
unfolding split_tab_id lookup_tab get
resolve_tab tab p =
    let t = trim_space tab in
    elim (split_tab_id t) [
      | none ↦ inl (invalid_tab_id t malformed)
      | some (key, short) ↦ elim (get key p.by_key) [
        | none ↦ inl (invalid_tab_id t (unknown_backend_key key))
        | some idx ↦ elim (lookup_tab t p) [
          | none ↦ inl (unknown_tab t)
          | some mapped ↦ inr (idx, short)
        ]
      ]
    ]

-- `bindObservedTabs`
unfoldable pub bind_observed_tabs : ℕ → List Text → Pool → Pool
unfolding bind
bind_observed_tabs idx [] p = p
bind_observed_tabs idx (tab ∷ tabs) p =
    let t = trim_space tab in
    let rest = bind_observed_tabs idx tabs in if str_eq t [] then rest p else rest (bind t idx p).1
