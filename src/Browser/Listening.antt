-- ===== src/Browser/Listening.antt =====
-- internal/browser/network_routes.go: what a series of calls leaves of a tab's rules, and whether the
-- tab's worker listens.
use go_bb_browser.Prelude.{
  ◌≡◌, refl, ap, subst, ◌∙◌, inl, inr, Bool, true, false, none, List, [], ◌∷◌, ◌++◌, Text, str_eq,
  trim_space, if◌then◌else◌, Bool-cases, Option-cases, str_eq_iff,
}
use go_bb_browser.Prelude.Map.{get, insert, get-insert, get-delete}
use go_bb_browser.Browser.Routes.{NetworkRouteRule}
use go_bb_browser.Browser.RouteState.{
  RouteWorker, RouteState, new_route_state, rules_of, is_nil, store_rules, stop_listening,
  start_listening, ensure_worker, sync_routes, set_network_routes, append_rule,
  append_network_route, others, end_loop, remove_network_routes, clear_routes_for_target,
}
use go_bb_browser.Browser.RouteRuns.{
  Op, sets, appends, removes, clears, ends, step, run, rules_after, history, heard, listens_after,
  listening_history, is_listening,
}

rules_of-store :
    (tab t : Text) (rules : List NetworkRouteRule) (rs : RouteState)
    → rules_of (store_rules tab rules rs) t ≡ (if str_eq tab t then rules else rules_of rs t)
unfolding rules_of store_rules
rules_of-store tab t [] rs = elim (Bool-cases (str_eq tab t)) [
  | inl e ↦ rw (rules_of, get-delete t tab rs.rules, e) refl
  | inr e ↦ rw (rules_of, get-delete t tab rs.rules, e) refl
]
rules_of-store tab t (r ∷ rules) rs = elim (Bool-cases (str_eq tab t)) [
  | inl e ↦ rw (rules_of, get-insert t tab (r ∷ rules) rs.rules, e) refl
  | inr e ↦ rw (rules_of, get-insert t tab (r ∷ rules) rs.rules, e) refl
]

rules_of-sync :
    (found : Bool) (tab t : Text) (rs : RouteState)
    → rules_of (sync_routes found tab rs).1 t ≡ rules_of rs t
unfolding sync_routes rules_of
rules_of-sync false tab t rs = refl
rules_of-sync true tab t rs = elim (Bool-cases (is_nil (rules_of rs tab))) [
  | inl e ↦ elim (Option-cases (get tab rs.workers)) [
    | inl w ↦ rw (sync_routes, e, w) refl
    | inr (worker, w) ↦ rw (sync_routes, e, w) refl
  ]
  | inr e ↦ rw (sync_routes, e) refl
]

-- Whether a tab listens after its worker has been put in its place.
listening-insert :
    (tab t : Text) (w : RouteWorker) (rs : RouteState)
    → is_listening (record rs { workers = insert tab w rs.workers }) t
      ≡ (if str_eq tab t then w.listening else is_listening rs t)
unfolding is_listening
listening-insert tab t w rs = elim (Bool-cases (str_eq tab t)) [
  | inl e ↦ rw (is_listening, get-insert t tab w rs.workers, e) refl
  | inr e ↦ rw (is_listening, get-insert t tab w rs.workers, e) refl
]

listening-none :
    (tab t : Text) (rs : RouteState)
    → get tab rs.workers ≡ none
    → is_listening rs t ≡ (if str_eq tab t then false else is_listening rs t)
unfolding is_listening
listening-none tab t rs w = elim (Bool-cases (str_eq tab t)) [
  | inl e ↦
      let gone : get t rs.workers ≡ none =
        subst (λ x. get x rs.workers ≡ none) ((str_eq_iff tab t).0 e) w in
      rw (is_listening, e, gone) refl
  | inr e ↦ rw e refl
]

listening-sync :
    (found : Bool) (tab t : Text) (rs : RouteState)
    → is_listening (sync_routes found tab rs).1 t
      ≡ heard found tab t (rules_of rs tab) (is_listening rs t)
unfolding sync_routes start_listening stop_listening
listening-sync false tab t rs = refl
listening-sync true tab t rs = elim (Bool-cases (is_nil (rules_of rs tab))) [
  | inl e ↦ elim (Option-cases (get tab rs.workers)) [
    | inl w ↦ rw (sync_routes, e, w) (listening-none tab t rs w)
    | inr (worker, w) ↦ rw (sync_routes, e, w) (listening-insert tab t (stop_listening worker) rs)
  ]
  | inr e ↦ rw (sync_routes, e) (listening-insert tab t (start_listening (ensure_worker tab rs)) rs)
]

-- The tab has these rules, and listens or not.
View : RouteState → Text → List NetworkRouteRule → Bool → Type 0
View rs t rules on = (rules_of rs t ≡ rules) × (is_listening rs t ≡ on)

sync-View :
    (found : Bool) (tab t : Text) (rs : RouteState) (rules : List NetworkRouteRule) (on : Bool)
    → View rs t rules on
    → View (sync_routes found tab rs).1 t rules (heard found tab t rules on)
unfolding View sync_routes
sync-View false tab t rs rules on v = v
sync-View true tab t rs rules on v = (
  rules_of-sync true tab t rs ∙ v.0,
  listening-sync true tab t rs ∙ elim (Bool-cases (str_eq tab t)) [
    | inl q ↦ rw (q, ap (λ x. is_nil (rules_of rs x)) ((str_eq_iff tab t).0 q) ∙ ap is_nil v.0) refl
    | inr q ↦ rw q v.1
  ],
)

listening-store :
    (tab t : Text) (rules : List NetworkRouteRule) (rs : RouteState)
    → is_listening (store_rules tab rules rs) t ≡ is_listening rs t
unfolding is_listening store_rules
listening-store tab t [] rs = refl
listening-store tab t (r ∷ rules) rs = refl

store-View :
    (tab t : Text) (rules old : List NetworkRouteRule) (on : Bool) (rs : RouteState)
    → View rs t old on
    → View (store_rules tab rules rs) t (if str_eq tab t then rules else old) on
unfolding View
store-View tab t rules old on rs v = (
  rules_of-store tab t rules rs ∙ ap (λ x. if str_eq tab t then rules else x) v.0,
  listening-store tab t rules rs ∙ v.1,
)

-- What is made of the rules of the tab itself may be read off its view.
if-View :
    (f : List NetworkRouteRule → List NetworkRouteRule) (tab t : Text) (old : List NetworkRouteRule)
    (rs : RouteState)
    → rules_of rs t ≡ old
    → (if str_eq tab t then f (rules_of rs tab) else old) ≡ (if str_eq tab t then f old else old)
if-View f tab t old rs v = elim (Bool-cases (str_eq tab t)) [
  | inl q ↦ rw q (ap f (ap (rules_of rs) ((str_eq_iff tab t).0 q) ∙ v))
  | inr q ↦ rw q refl
]

append-View :
    (tab t : Text) (rule : NetworkRouteRule) (old : List NetworkRouteRule) (on : Bool)
    (rs : RouteState)
    → View rs t old on
    → View (append_rule tab rule rs) t (if str_eq tab t then old ++ rule ∷ [] else old) on
unfolding View append_rule rules_of is_listening
append-View tab t rule old on rs v =
    (here ∙ if-View (λ rules. rules ++ rule ∷ []) tab t old rs v.0, v.1)
  where
    here :
        rules_of (record rs { rules = insert tab (rules_of rs tab ++ rule ∷ []) rs.rules }) t
        ≡ (if str_eq tab t then rules_of rs tab ++ rule ∷ [] else old)
    here = elim (Bool-cases (str_eq tab t)) [
      | inl e ↦ rw (rules_of, get-insert t tab (rules_of rs tab ++ rule ∷ []) rs.rules, e) refl
      | inr e ↦ rw (rules_of, get-insert t tab (rules_of rs tab ++ rule ∷ []) rs.rules, e) v.0
    ]

remove-View :
    (tab t pattern : Text) (old : List NetworkRouteRule) (on : Bool) (rs : RouteState)
    → View rs t old on
    → let kept =
        if str_eq (trim_space pattern) []
        then []
        else others (trim_space pattern) (rules_of rs tab) in
      View (store_rules tab kept rs) t (rules_after t old (removes true tab pattern)) on
unfolding View
remove-View tab t pattern old on rs v =
    let kept = λ (rules : List NetworkRouteRule).
      if str_eq (trim_space pattern) [] then [] else others (trim_space pattern) rules in
    let s = store-View tab t (kept (rules_of rs tab)) old on rs v in
    (s.0 ∙ if-View kept tab t old rs v.0, s.1)

clear-View :
    (tab t : Text) (old : List NetworkRouteRule) (on : Bool) (rs : RouteState)
    → View rs t old on
    → View
        (clear_routes_for_target tab rs)
        t
        (if str_eq tab t then [] else old)
        (if str_eq tab t then false else on)
unfolding View clear_routes_for_target rules_of is_listening
clear-View tab t old on rs v = elim (Bool-cases (str_eq tab t)) [
  | inl q ↦ rw q (
      (
        rw (rules_of, get-delete t tab rs.rules, q) refl,
        rw (is_listening, get-delete t tab rs.workers, q) refl,
      ))
  | inr q ↦ rw q (
      (
        rw (rules_of, get-delete t tab rs.rules, q) v.0,
        rw (is_listening, get-delete t tab rs.workers, q) v.1,
      ))
]

end-View :
    (tab t : Text) (old : List NetworkRouteRule) (on : Bool) (rs : RouteState)
    → View rs t old on
    → View (end_loop tab rs) t old (if str_eq tab t then false else on)
unfolding View end_loop rules_of is_listening stop_listening
end-View tab t old on rs v = elim (Option-cases (get tab rs.workers)) [
  | inl w ↦
      rw (end_loop, w)
        (v.0, listening-none tab t rs w ∙ ap (λ x. if str_eq tab t then false else x) v.1)
  | inr (worker, w) ↦
      rw (end_loop, w)
        (
          v.0,
          listening-insert tab t (record { queue = []; listening = false }) rs
              ∙ ap (λ x. if str_eq tab t then false else x) v.1,
        )
]

step-View :
    (t : Text) (op : Op) (old : List NetworkRouteRule) (on : Bool) (rs : RouteState)
    → View rs t old on
    → View (step rs op) t (rules_after t old op) (listens_after t (rules_after t old op) on op)
unfolding set_network_routes append_network_route remove_network_routes
step-View t (sets found tab rules) old on rs v =
    sync-View found tab t _ _ on (store-View tab t rules old on rs v)
step-View t (appends found tab rule) old on rs v =
    sync-View found tab t _ _ on (append-View tab t rule old on rs v)
step-View t (removes found tab pattern) old on rs v =
    sync-View found tab t _ _ on (remove-View tab t pattern old on rs v)
step-View t (clears tab) old on rs v = clear-View tab t old on rs v
step-View t (ends tab) old on rs v = end-View tab t old on rs v

run-View :
    (t : Text) (ops : List Op) (old : List NetworkRouteRule) (on : Bool) (rs : RouteState)
    → View rs t old on
    → View (run rs ops) t (history t old ops) (listening_history t old on ops)
run-View t [] old on rs v = v
run-View t (op ∷ ops) old on rs v =
    let rules = rules_after t old op in
    run-View t ops rules (listens_after t rules on op) (step rs op) (step-View t op old on rs v)

-- After any series of calls and of ends of workers' loops on a new state, where each call is one step
-- with its sync, a tab has the rules that the calls on this tab give one after the other, whether or not
-- the syncs found its context. Its worker listens to Chrome exactly when the last sync that found it
-- came with a rule and neither the target's removal nor the end of the worker's loop came since.
pub rules_of-run :
    (t : Text) (ops : List Op)
    → (rules_of (run new_route_state ops) t ≡ history t [] ops)
      × (is_listening (run new_route_state ops) t ≡ listening_history t [] false ops)
unfolding View rules_of is_listening
rules_of-run t ops = run-View t ops [] false new_route_state begin
  where
    begin : View new_route_state t [] false
    begin = (refl, refl)
