-- ===== src/Daemon/Tests.antt =====
-- Runs of the daemon's parts, and the properties at them.
use go_bb_browser.Prelude.{
  ℕ, ◌≡◌, refl, ◌↔◌, Bool, true, false, ◌&&◌, Option, none, some, List, [], ◌∷◌, arith, Text, codes,
  str_eq, trim_space, ltb, ◌==◌, if◌then◌else◌, is_some, any,
}
use go_bb_browser.Prelude.{cut, pos}
use go_bb_browser.Prelude.Map.{Map, get, insert}
use go_bb_browser.State.Target.{in_set}
use go_bb_browser.State.TabRegistry.{TabRegistry, TabSnapshot, lookup}
use go_bb_browser.State.TabIdle.{new_tab_idle_tracker, is_expired, mark_managed_if_absent_at}
use go_bb_browser.Daemon.Restart.{
  present_ids, reconcile_idle_from_log, reconcile-managed, reconcile-is_expired,
}
use go_bb_browser.Daemon.Auth.{
  normalize_api_tokens, normalize_api_tokens_lem, Config, Request, authorized,
  direct_loopback_request, authorization,
}
use go_bb_browser.Daemon.Auth.Bearer.{Bears, authorized_iff}
use go_bb_browser.Daemon.Watchdog.{
  starting, Server, connected, probe_browser_session, ensure_browser_session, connected_health,
  disconnected, browser_health_field, failure_limit,
}
use go_bb_browser.Daemon.Probes.{probes, results, HasRun, streak, probes-is_fatal, probes-health}

abbrev tab_id : Text
tab_id = codes "T"

abbrev registry : TabRegistry
registry = record {
  target_to_short = (tab_id, codes "ab12") ∷ [];
  short_to_target = (codes "ab12", tab_id) ∷ [];
  selected = [];
}

abbrev snaps : List TabSnapshot
snaps = record { short_id = codes "ab12"; target_id = tab_id; title = []; url = [] } ∷ []

-- The log knows the tab, with an activity long ago.
abbrev loaded : Map ℕ
loaded = (codes "ab12", 5) ∷ (codes "gone", 900) ∷ []

tab_found : lookup registry (codes "ab12") ≡ some tab_id
unfolding lookup str_eq trim_space get
tab_found = refl

tab_logged : get (codes "ab12") loaded ≡ some 5
unfolding get str_eq
tab_logged = refl

named : str_eq tab_id [] ≡ false
unfolding str_eq
named = refl

tab_present : in_set (present_ids snaps) tab_id ≡ true
unfolding present_ids str_eq
tab_present = refl

new_tracker_empty : get tab_id new_tab_idle_tracker.managed ≡ none
unfolding new_tab_idle_tracker get
new_tracker_empty = refl

-- At 1000, with a timeout of 100 and a grace period of 30, it counts as active at 930.
taken_up :
    reconcile_idle_from_log registry loaded 1000 100 30 snaps new_tab_idle_tracker
    ≡ record { managed = (tab_id, 930) ∷ [] }
unfolding reconcile_idle_from_log lookup mark_managed_if_absent_at new_tab_idle_tracker trim_space
    str_eq get insert
taken_up = refl

reconcile-managed_example :
    is_some (
      get tab_id
        (reconcile_idle_from_log registry loaded 1000 100 30 snaps new_tab_idle_tracker).managed)
    ≡ true
reconcile-managed_example =
    reconcile-managed registry loaded 1000 100 30 snaps new_tab_idle_tracker (codes "ab12") tab_id 5
      named tab_logged tab_found tab_present

reconcile-is_expired_example :
    is_expired
      (reconcile_idle_from_log registry loaded 1000 100 30 snaps new_tab_idle_tracker)
      tab_id
      1029
      (pos 100)
    ≡ false
reconcile-is_expired_example =
    reconcile-is_expired registry loaded 1000 1029 100 30 snaps new_tab_idle_tracker tab_id
      new_tracker_empty (omega arith) (omega arith)

abbrev server : Server
server = record {
  skip_browser_attach = false;
  tab_hook = none;
  tab_live = false;
  browser_state = starting;
  browser_failures = 0;
  browser_last_probe = 0;
  probe_in_flight = false;
  is_fatal = false;
}

abbrev pings : List (ℕ × Bool)
pings = (1, false) ∷ (2, false) ∷ (3, true) ∷ (4, false) ∷ []

-- Two failures, a success and a failure do not stop a daemon with the default limit of three.
goes_on : (probes (pos 0) pings (connected 0 server)).is_fatal ≡ false
unfolding probe_browser_session connected
goes_on = refl

stops : (probes (pos 2) pings (connected 0 server)).is_fatal ≡ true
unfolding probe_browser_session connected
stops = refl

probes-is_fatal_example :
    ((probes (pos 2) pings (connected 0 server)).is_fatal ≡ true)
    ↔ HasRun (failure_limit (pos 2)) (results pings)
probes-is_fatal_example = probes-is_fatal (pos 2) 0 pings server refl refl refl refl

probes-health_example :
    let s' = probes (pos 2) pings (connected 0 server) in
    let failures = streak 0 (results pings) in
    (ensure_browser_session s' ≡ ltb failures (failure_limit (pos 2)))
    × (browser_health_field true s' ≡ (if failures == 0 then connected_health else disconnected))
probes-health_example = probes-health (pos 2) 0 pings server refl refl refl refl

abbrev config : Config
config = record {
  api_tokens = codes "s3cret" ∷ codes "other" ∷ [];
  api_token_allow_loopback = true;
}

-- The addresses as net.SplitHostPort and net.ParseIP read them.
abbrev split : Text → Option (Text × Text)
split addr = cut b'@' addr

abbrev loopback : Text → Bool
loopback host = str_eq host (codes "127.0.0.1")

abbrev proxied : Request
proxied = record {
  remote_addr = codes "127.0.0.1@80";
  header =
      (codes "X-Real-Ip", codes "9.9.9.9" ∷ [])
      ∷ (codes "Authorization", codes "bearer s3cret" ∷ [])
      ∷ [];
}

abbrev direct : Request
direct = record { remote_addr = codes "127.0.0.1@80"; header = [] }

direct_allowed : authorized split loopback config direct ≡ true
unfolding authorized
direct_allowed = refl

twice_refused :
    authorized split loopback config (record {
      remote_addr = codes "10.0.0.1@80";
      header = (codes "Authorization", codes "Bearer s3cret" ∷ codes "Bearer s3cret" ∷ []) ∷ [];
    })
    ≡ false
unfolding authorized
twice_refused = refl

proxied_not_exempt :
    (config.api_token_allow_loopback && direct_loopback_request split loopback proxied) ≡ false
unfolding direct_loopback_request cut
proxied_not_exempt = refl

authorized_iff_example : (authorized split loopback config proxied ≡ true) ↔ (
    (value token : Text) × (authorization proxied ≡ value ∷ [])
    × Bears value token
    × (in_set config.api_tokens token ≡ true))
authorized_iff_example =
    authorized_iff split loopback config proxied (omega arith) proxied_not_exempt

abbrev given_tokens : List Text
given_tokens = codes " key" ∷ [] ∷ codes "key" ∷ codes "other" ∷ []

normalize_api_tokens_lem_example :
    (in_set (normalize_api_tokens given_tokens) (codes "key") ≡ true) ↔ (
      (str_eq (codes "key") [] ≡ false)
      × (any (λ token. str_eq (trim_space token) (codes "key")) given_tokens ≡ true))
normalize_api_tokens_lem_example = normalize_api_tokens_lem given_tokens (codes "key")
