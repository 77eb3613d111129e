-- ===== src/Browser/RouteRuns.antt =====
-- Series of what changes the rules of the tabs and their workers (internal/browser/network_routes.go),
-- and what it comes to for one tab.
use go_bb_browser.Prelude.{
  Bool, false, not, none, some, List, [], ◌∷◌, ◌++◌, Text, str_eq, trim_space, ◌&&◌, if◌then◌else◌,
}
use go_bb_browser.Prelude.Map.{get}
use go_bb_browser.Browser.Routes.{NetworkRouteRule}
use go_bb_browser.Browser.RouteState.{
  RouteState, is_nil, set_network_routes, append_network_route, others, end_loop,
  remove_network_routes, clear_routes_for_target,
}

-- The calls, each with whether the sync finds the tab's context, and the ends of the workers' loops.
pub data Op : Type 0 where
  sets : Bool → Text → List NetworkRouteRule → Op
  appends : Bool → Text → NetworkRouteRule → Op
  removes : Bool → Text → Text → Op
  clears : Text → Op
  ends : Text → Op

abbrev pub step : RouteState → Op → RouteState
step rs (sets found tab rules) = (set_network_routes found tab rules rs).1
step rs (appends found tab rule) = (append_network_route found tab rule rs).1
step rs (removes found tab pattern) = (remove_network_routes found tab pattern rs).1
step rs (clears tab) = clear_routes_for_target tab rs
step rs (ends tab) = end_loop tab rs

abbrev pub run : RouteState → List Op → RouteState
run rs [] = rs
run rs (op ∷ ops) = run (step rs op) ops

-- What an operation does to the rules of the tab `t`.
abbrev pub rules_after : Text → List NetworkRouteRule → Op → List NetworkRouteRule
rules_after t old (sets found tab rules) = if str_eq tab t then rules else old
rules_after t old (appends found tab rule) = if str_eq tab t then old ++ rule ∷ [] else old
rules_after t old (removes found tab pattern) =
    if str_eq tab t
    then (if str_eq (trim_space pattern) [] then [] else others (trim_space pattern) old)
    else old
rules_after t old (clears tab) = if str_eq tab t then [] else old
rules_after t old (ends tab) = old

abbrev pub history : Text → List NetworkRouteRule → List Op → List NetworkRouteRule
history t old [] = old
history t old (op ∷ ops) = history t (rules_after t old op) ops

-- A sync of the tab itself that finds its context has it listen exactly if it has rules.
abbrev pub heard : Bool → Text → Text → List NetworkRouteRule → Bool → Bool
heard found tab t rules was = if found && str_eq tab t then not (is_nil rules) else was

-- Whether the tab `t` listens after an operation that leaves it with these rules.
abbrev pub listens_after : Text → List NetworkRouteRule → Bool → Op → Bool
listens_after t rules was (sets found tab _) = heard found tab t rules was
listens_after t rules was (appends found tab _) = heard found tab t rules was
listens_after t rules was (removes found tab _) = heard found tab t rules was
listens_after t rules was (clears tab) = if str_eq tab t then false else was
listens_after t rules was (ends tab) = if str_eq tab t then false else was

abbrev pub listening_history : Text → List NetworkRouteRule → Bool → List Op → Bool
listening_history t old was [] = was
listening_history t old was (op ∷ ops) =
    let rules = rules_after t old op in listening_history t rules (listens_after t rules was op) ops

-- The tab has a worker that listens to Chrome.
unfoldable pub is_listening : RouteState → Text → Bool
unfolding get
is_listening rs t = elim (get t rs.workers) [ none ↦ false | some w ↦ w.listening ]
