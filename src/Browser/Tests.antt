-- ===== src/Browser/Tests.antt =====
-- Runs of the interception, and the properties at them.
use go_bb_browser.Prelude.{
  ◌≡◌, refl, ◌↔◌, true, false, ◌||◌, Option, some, List, [], ◌∷◌, ◌++◌, Text, codes, str_eq,
  trim_space, contains, All,
}
use go_bb_browser.Prelude.{pos, has_prefix, to_lower}
use go_bb_browser.Browser.Errors.{plain, target_gone, error_kind_of}
use go_bb_browser.Browser.Wildcard.{wildcard_match, Matches, wildcard_match_iff}
use go_bb_browser.Browser.Routes.{
  NetworkRouteRule, EventRequestPaused, fail_request, fulfill_request, match_route, apply_paused,
}
use go_bb_browser.Browser.Routes.Match.{UrlMatches, match_route_iff}
use go_bb_browser.Browser.RouteState.{new_route_state, rules_of}
use go_bb_browser.Browser.RouteRuns.{
  Op, sets, appends, removes, clears, ends, run, history, listening_history, is_listening,
}
use go_bb_browser.Browser.Listening.{rules_of-run}

abbrev api : NetworkRouteRule
api = record {
  url_pattern = codes "*/api/?";
  abort = false;
  mock_body = codes "{}";
  content_type = codes " ";
  status = pos 0;
}

abbrev ads : NetworkRouteRule
ads = record {
  url_pattern = codes "ads.example";
  abort = true;
  mock_body = [];
  content_type = [];
  status = pos 0;
}

-- An answer of url.Parse.
abbrev parse : Text → Option (Text × Text)
parse url = some (codes "x.Ads.example", codes "/")

abbrev request : Text → EventRequestPaused
request url = record {
  request_id = codes "7";
  url = url;
  response_status_code = pos 0;
  response_error_reason = [];
}

mocked :
    apply_paused parse (api ∷ ads ∷ []) (request (codes "http://h/api/1"))
    ≡ fulfill_request (codes "7") (pos 200) (codes "application/json") (codes "{}")
unfolding apply_paused trim_space
mocked = refl

blocked :
    apply_paused parse (api ∷ ads ∷ []) (request (codes "http://x.ads.example"))
    ≡ fail_request (codes "7")
unfolding apply_paused trim_space
blocked = refl

wildcard_match_iff_example :
    (wildcard_match (codes "a*c?") (codes "abbcd") ≡ true) ↔ Matches (codes "a*c?") (codes "abbcd")
wildcard_match_iff_example = wildcard_match_iff (codes "a*c?") (codes "abbcd")

nonblank : str_eq (trim_space (codes "*/api/?")) [] ≡ false
unfolding trim_space str_eq
nonblank = refl

starred :
    (contains (trim_space (codes "*/api/?")) (codes "://")
      || has_prefix (trim_space (codes "*/api/?")) (codes "*"))
    ≡ true
unfolding trim_space contains has_prefix
starred = refl

match_route_iff_example :
    (match_route parse (api ∷ ads ∷ []) (codes "http://h/api/1") ≡ some api) ↔ (
      (before after : List NetworkRouteRule) × (api ∷ ads ∷ [] ≡ before ++ api ∷ after)
      × All (λ r'. ¬ UrlMatches parse r'.url_pattern (codes "http://h/api/1")) before
      × UrlMatches parse api.url_pattern (codes "http://h/api/1"))
match_route_iff_example = match_route_iff parse (api ∷ ads ∷ []) (codes "http://h/api/1") api

abbrev calls : List Op
calls =
    sets true (codes "T") (api ∷ ads ∷ [])
    ∷ appends true (codes "U") ads
    ∷ ends (codes "U")
    ∷ removes false (codes "T") (codes " ads.example ")
    ∷ clears (codes "U")
    ∷ []

calls_on_t : history (codes "T") [] calls ≡ api ∷ []
unfolding str_eq trim_space
calls_on_t = refl

t_listens : listening_history (codes "T") [] false calls ≡ true
unfolding str_eq trim_space
t_listens = refl

rules_of-run_example :
    (rules_of (run new_route_state calls) (codes "T") ≡ history (codes "T") [] calls)
    × (is_listening (run new_route_state calls) (codes "T")
        ≡ listening_history (codes "T") [] false calls)
rules_of-run_example = rules_of-run (codes "T") calls

gone_kind : error_kind_of (some (plain (codes "No target with given id"))) ≡ target_gone
unfolding error_kind_of to_lower contains
gone_kind = refl
