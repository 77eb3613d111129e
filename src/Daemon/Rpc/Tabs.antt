-- ===== src/Daemon/Rpc/Tabs.antt =====
-- internal/daemon/v1.go: tab_list, tab_focus, tab_select, tab_new and tab_close.
use go_bb_browser.Prelude.{
  Bool, true, false, not, List, [], ◌∷◌, Option, none, some, map, Text, codes, str_eq, str_lt,
  trim_space, if◌then◌else◌,
}
use go_bb_browser.Protocol.{method_tab_focus, method_tab_select, method_tab_close}
use go_bb_browser.Protocol.Params.{decode_nothing, decode_tab, decode_tab_new}
use go_bb_browser.Protocol.Message.{
  ErrData, ResponseError, code_server_error, code_invalid_params, TabListItem, tab_list_result,
  tab_focus_result, tab_seq,
}
use go_bb_browser.State.TabRegistry.{TabRegistry, TabSnapshot, register_page_target}
use go_bb_browser.State.TabRegistry
use go_bb_browser.Daemon.Rpc.{
  Server, Env, done, failed, Handler, TabConn, M, ◌>>=◌, ◌>>◌, pure, modify, run, require, some_or,
  take_seq, cdp_hint, call, detailed, err_data, invalid_params, not_ready, lock_timed_out, missing,
  unknown_tab, stale_hint,
}
use go_bb_browser.Daemon.Rpc.Close.{
  sync_tabs_from_targets, mark_tab_managed, close_tab_by_short, CloseError, no_conn, unknown_id,
  lock_timeout, call_failed,
}

-- `sort.Slice` by short id.
unfoldable pub place_snapshot : TabSnapshot → List TabSnapshot → List TabSnapshot
place_snapshot x [] = x ∷ []
place_snapshot x (y ∷ ys) =
    if str_lt y.short_id x.short_id then y ∷ place_snapshot x ys else x ∷ y ∷ ys

unfoldable pub sort_snapshots : List TabSnapshot → List TabSnapshot
unfolding place_snapshot
sort_snapshots [] = []
sort_snapshots (x ∷ xs) = place_snapshot x (sort_snapshots xs)

abbrev item_of : TabSnapshot → TabListItem
item_of sn = record { tab = sn.short_id; title = sn.title; url = sn.url }

unfoldable pub find_snapshot : Text → List TabSnapshot → Option TabSnapshot
find_snapshot short [] = none
find_snapshot short (sn ∷ snaps) =
    let rest = find_snapshot short snaps in if str_eq sn.short_id short then some sn else rest

unfoldable pub operational_tab_short : TabRegistry → List TabSnapshot → Text
unfolding find_snapshot
operational_tab_short r [] = []
operational_tab_short r (sn ∷ snaps) =
    if str_eq r.selected []
    then sn.short_id
    else (elim (find_snapshot r.selected (sn ∷ snaps)) [ some _ ↦ r.selected | none ↦ sn.short_id ])

abbrev list_failed : Text → ErrData
list_failed hint = err_data (codes "failed to list targets") hint []

abbrev title_of : Option TabSnapshot → Text
title_of none = []
title_of (some sn) = sn.title

abbrev url_of : Option TabSnapshot → Text
url_of none = []
url_of (some sn) = sn.url

module _ {W : Type 0} (env : Env (Server W)) where
  -- The steps at the start of the three methods that list the targets.
  unfoldable pub listed : TabConn (Server W) → M (Server W) (List TabSnapshot)
  listed c = do
    infos ← call c.page_targets (codes "failed to list targets") list_failed
    run (sync_tabs_from_targets env infos)

  unfoldable pub handle_tab_list : Handler W
  handle_tab_list params = do
    require (decode_nothing params) invalid_params
    c ← some_or env.conn not_ready
    snaps ← listed c
    tabs ← run (λ (s : Server W). (s.tabs, s))
    seq ← take_seq
    let sorted = sort_snapshots snaps
    let tab = operational_tab_short tabs sorted
    pure (tab_list_result tab seq (map item_of sorted) tabs.selected)

  -- `syncRegistryFocusFromBrowser`
  unfoldable pub sync_registry_focus_from_browser :
      TabConn (Server W) → List TabSnapshot → Server W → Server W
  sync_registry_focus_from_browser c [] s = s
  sync_registry_focus_from_browser c (sn ∷ snaps) s = elim c.detect_foreground_short [
    | none ↦ s
    | some detect ↦
        let r = detect (sn ∷ snaps) s in
        elim r.0 [
          | none ↦ r.1
          | some short ↦ record r.1 { tabs = (TabRegistry.select r.1.tabs short).1 }
        ]
  ]

  abbrev no_focused_tab : ResponseError
  no_focused_tab = detailed code_invalid_params (codes "no focused tab") (
      err_data (codes "no page tabs")
        (codes "open a tab in Chrome or attach to a session with at least one page target")
        method_tab_focus)

  abbrev is_empty : List TabSnapshot → Bool
  is_empty [] = true
  is_empty (sn ∷ snaps) = false

  unfoldable pub handle_tab_focus : Handler W
  handle_tab_focus params = do
    require (decode_nothing params) invalid_params
    c ← some_or env.conn not_ready
    snaps ← listed c
    require (not (is_empty snaps)) no_focused_tab
    let sorted = sort_snapshots snaps
    modify (sync_registry_focus_from_browser c sorted)
    tabs ← run (λ (s : Server W). (s.tabs, s))
    let tab = operational_tab_short tabs sorted
    let shown = find_snapshot tab sorted
    seq ← take_seq
    pure (tab_focus_result tab tabs.selected (title_of shown) (url_of shown) seq)

  unfoldable pub handle_tab_select : Handler W
  handle_tab_select params = do
    p ← some_or (decode_tab params) invalid_params
    let tab = trim_space p
    require (not (str_eq tab [])) (
        missing (codes "missing tab") (codes "missing tab") (codes "tab_select requires \"tab\"")
          method_tab_select)
    c ← some_or env.conn not_ready
    _ ← listed c
    selected ←
        run (λ (s : Server W).
          let r = TabRegistry.select s.tabs tab in (r.0, record s { tabs = r.1 }))
    require selected (unknown_tab stale_hint method_tab_select)
    seq ← take_seq
    pure (tab_seq tab seq)

  unfoldable pub handle_tab_new : Handler W
  handle_tab_new params = do
    p ← some_or (decode_tab_new params) invalid_params
    c ← some_or env.conn not_ready
    tid ←
        call (c.create_page_target (trim_space p.url) p.silent) (codes "failed to create tab")
          (λ hint. err_data (codes "failed to create tab") hint [])
    short ← run (λ (s : Server W).
        let r = register_page_target s.tabs tid in (r.0, record s { tabs = r.1 }))
    modify (λ (s : Server W). mark_tab_managed s tid)
    modify (λ (s : Server W).
        if p.silent then s else record s { tabs = (TabRegistry.select s.tabs short).1 })
    seq ← take_seq
    pure (tab_seq short seq)

  -- The answer of tab_close to an error of `closeTabByShort`.
  unfoldable pub close_error : CloseError → Server W → ResponseError × Server W
  unfolding cdp_hint
  close_error unknown_id s = (unknown_tab stale_hint method_tab_close, s)
  close_error no_conn s = (not_ready, s)
  close_error lock_timeout s = (lock_timed_out, s)
  close_error (call_failed e) s =
      let h = cdp_hint e s in
      (
        detailed code_server_error (codes "failed to close tab")
            (err_data (codes "failed to close tab") h.0 []),
        h.1,
      )

  unfoldable pub closed_or : Option CloseError → M (Server W) (Unit {0})
  unfolding close_error
  closed_or none s = (done tt, s)
  closed_or (some e) s = let r = close_error e s in (failed r.0, r.1)

  unfoldable pub handle_tab_close : Handler W
  handle_tab_close params = do
    p ← some_or (decode_tab params) invalid_params
    let tab = trim_space p
    require (not (str_eq tab [])) (
        missing (codes "missing tab") (codes "missing tab") (codes "tab_close requires \"tab\"")
          method_tab_close)
    _ ← some_or env.conn not_ready
    outcome ← run (close_tab_by_short env tab)
    closed_or outcome
    seq ← take_seq
    pure (tab_seq tab seq)
