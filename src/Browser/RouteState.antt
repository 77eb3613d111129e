-- ===== src/Browser/RouteState.antt =====
-- internal/browser/network_routes.go: the rules and the workers of the tabs. A change of the rules and
-- the sync that follows it are one step. Whether `tabChromeCtxContext` finds the tab's context is an
-- argument of the sync; Chrome's answer to its command changes nothing of the state.
use go_bb_browser.Prelude.{
  ℕ, ◌+◌, ◌%◌, ◌^◌, Bool, true, false, not, Option, none, some, List, [], ◌∷◌, ◌++◌, Text, str_eq,
  trim_space, if◌then◌else◌, length, filter,
}
use go_bb_browser.Prelude.Map.{Map, get, insert, delete}
use go_bb_browser.Browser.Routes.{NetworkRouteRule, EventRequestPaused}

pub record RouteWorker : Type 0 where
  pub queue : List EventRequestPaused
  pub listening : Bool

pub record RouteState : Type 0 where
  pub rules : Map (List NetworkRouteRule)
  pub workers : Map RouteWorker
  pub gen : Map ℕ

abbrev pub new_route_state : RouteState
new_route_state = record { rules = []; workers = []; gen = [] }

-- A missing key reads as nil.
unfoldable pub rules_of : RouteState → Text → List NetworkRouteRule
unfolding get
rules_of rs tab = elim (get tab rs.rules) [ none ↦ [] | some rules ↦ rules ]

abbrev pub is_nil : List NetworkRouteRule → Bool
is_nil [] = true
is_nil (r ∷ rules) = false

-- `delete(rs.rules, tab)` for no rules, `rs.rules[tab] = rules` otherwise.
unfoldable pub store_rules : Text → List NetworkRouteRule → RouteState → RouteState
unfolding insert delete
store_rules tab rules rs =
    if is_nil rules
    then record rs { rules = delete tab rs.rules }
    else record rs { rules = insert tab rules rs.rules }

unfoldable pub stop_listening : RouteWorker → RouteWorker
stop_listening w = record w { listening = false }

unfoldable pub start_listening : RouteWorker → RouteWorker
start_listening w = record w { listening = true }

unfoldable pub ensure_worker : Text → RouteState → RouteWorker
unfolding get
ensure_worker tab rs = elim (get tab rs.workers) [
  | none ↦ record { queue = []; listening = false }
  | some w ↦ w
]

-- The patterns of the rules that have one.
unfoldable pub route_patterns : List NetworkRouteRule → List Text
route_patterns [] = []
route_patterns (r ∷ rules) =
    let p = trim_space r.url_pattern in
    let rest = route_patterns rules in if str_eq p [] then rest else p ∷ rest

-- What is sent to Chrome.
pub data Command : Type 0 where
  disable : Command
  enable : List Text → Command

unfoldable pub enable_patterns : List Text → Option Command
enable_patterns [] = none
enable_patterns (p ∷ ps) = some (enable (p ∷ ps))

-- What becomes of a sync: the tab's context is not found, or this is sent to Chrome, if anything.
pub data Synced : Type 0 where
  tab_lost : Synced
  synced : Option Command → Synced

unfoldable pub sync_routes : Bool → Text → RouteState → Synced × RouteState
unfolding rules_of stop_listening start_listening ensure_worker enable_patterns route_patterns get
    insert
sync_routes false tab rs = (tab_lost, rs)
sync_routes true tab rs =
    let rules = rules_of rs tab in
    if is_nil rules
    then elim (get tab rs.workers) [
      | none ↦ (synced (some disable), rs)
      | some w ↦
          (synced (some disable), record rs { workers = insert tab (stop_listening w) rs.workers })
    ]
    else (
      synced (enable_patterns (route_patterns rules)),
      record rs { workers = insert tab (start_listening (ensure_worker tab rs)) rs.workers },
    )

unfoldable pub set_network_routes :
    Bool → Text → List NetworkRouteRule → RouteState → Synced × RouteState
unfolding store_rules sync_routes
set_network_routes found tab rules rs = sync_routes found tab (store_rules tab rules rs)

unfoldable pub append_rule : Text → NetworkRouteRule → RouteState → RouteState
unfolding rules_of insert
append_rule tab rule rs = record rs { rules = insert tab (rules_of rs tab ++ rule ∷ []) rs.rules }

unfoldable pub append_network_route :
    Bool → Text → NetworkRouteRule → RouteState → Synced × RouteState
unfolding append_rule sync_routes
append_network_route found tab rule rs = sync_routes found tab (append_rule tab rule rs)

-- The rules that have another pattern.
abbrev pub others : Text → List NetworkRouteRule → List NetworkRouteRule
others pat = filter (λ (r : NetworkRouteRule). not (str_eq r.url_pattern pat))

unfoldable pub remove_network_routes : Bool → Text → Text → RouteState → Synced × RouteState
unfolding rules_of store_rules sync_routes
remove_network_routes found tab url_pattern rs =
    let pat = trim_space url_pattern in
    let kept = if str_eq pat [] then [] else others pat (rules_of rs tab) in
    sync_routes found tab (store_rules tab kept rs)

unfoldable pub network_route_count : RouteState → Text → ℕ
unfolding rules_of
network_route_count rs tab = length (rules_of rs tab)

unfoldable pub next_gen : Option ℕ → ℕ
next_gen none = 1
next_gen (some n) = (n + 1) % 2 ^ 64

unfoldable pub clear_routes_for_target : Text → RouteState → RouteState
unfolding delete insert get next_gen
clear_routes_for_target tab rs = record {
  rules = delete tab rs.rules;
  workers = delete tab rs.workers;
  gen = insert tab (next_gen (get tab rs.gen)) rs.gen;
}

-- The end of a worker's loop when the tab's context is cancelled: what is paused is dispatched, and the
-- worker stops listening; it stays in the map.
unfoldable pub end_loop : Text → RouteState → RouteState
unfolding get insert stop_listening
end_loop tab rs = elim (get tab rs.workers) [
  | none ↦ rs
  | some w ↦ record rs {
    workers = insert tab (stop_listening (record w { queue = [] })) rs.workers;
  }
]
