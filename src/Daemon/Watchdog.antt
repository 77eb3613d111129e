-- ===== src/Daemon/Watchdog.antt =====
-- internal/daemon/browser_reconnect.go and health.go: what the daemon knows of its connection to the
-- browser. A step holds the mutex; `time.Now()` and the answer to a ping are arguments.
use go_bb_browser.Prelude.{
  ℕ, zero, suc, ◌+◌, Bool, true, false, not, ◌&&◌, ◌||◌, Option, none, some, leb, if◌then◌else◌,
  is_some,
}
use go_bb_browser.Prelude.{ℤ, pos, negsuc}

pub data SessionState : Type 0 where
  starting ready suspect failed : SessionState

-- `tab_hook` is a test's connection, with the answer to its ping; `is_fatal` is whether fatalOnce has
-- run, after which the daemon stops.
pub record Server : Type 0 where
  pub skip_browser_attach : Bool
  pub tab_hook : Option Bool
  pub tab_live : Bool
  pub browser_state : SessionState
  pub browser_failures : ℕ
  pub browser_last_probe : ℕ
  pub probe_in_flight : Bool
  pub is_fatal : Bool

abbrev pub default_cdp_watchdog_failures : ℕ
default_cdp_watchdog_failures = 3

-- The part of connectBrowserLocked on the connection itself, once Chrome has been reached.
unfoldable pub connected : ℕ → Server → Server
connected now s = record s {
  tab_live = true;
  browser_state = ready;
  browser_failures = 0;
  browser_last_probe = now;
}

unfoldable pub fatal_cdp_lost : Server → Server
fatal_cdp_lost s = if s.is_fatal then s else record s { browser_state = failed; is_fatal = true }

-- `limit <= 0` stands for the default.
unfoldable pub failure_limit : ℤ → ℕ
failure_limit (pos zero) = default_cdp_watchdog_failures
failure_limit (pos (suc n)) = suc n
failure_limit (negsuc n) = default_cdp_watchdog_failures

-- The part of the probe after the ping.
unfoldable pub probed : ℤ → ℕ → Bool → Server → Server
unfolding fatal_cdp_lost failure_limit
probed limit now ok s =
    let s' = record s { browser_last_probe = now } in
    let failures = s.browser_failures + 1 in
    if ok
    then record s' { browser_state = ready; browser_failures = 0 }
    else if leb (failure_limit limit) failures
    then fatal_cdp_lost (record s' { browser_state = failed; browser_failures = failures })
    else record s' { browser_state = suspect; browser_failures = failures }

unfoldable pub probe_browser_session : ℤ → ℕ → Bool → Server → Server
unfolding probed
probe_browser_session limit now ok s =
    if s.probe_in_flight
    then s
    else record (probed limit now ok (record s { probe_in_flight = true })) {
      probe_in_flight = false;
    }

-- Whether a request may use the browser.
unfoldable pub ensure_browser_session : Server → Bool
ensure_browser_session s =
    if s.skip_browser_attach || is_some s.tab_hook
    then true
    else s.tab_live && (elim s.browser_state [ failed ↦ false | other ↦ true ])

pub data BrowserHealth : Type 0 where
  skipped disconnected connected_health : BrowserHealth

unfoldable pub browser_health_field : Bool → Server → BrowserHealth
browser_health_field strict s = if s.skip_browser_attach then skipped else elim s.tab_hook [
  | some pings ↦ if pings then connected_health else disconnected
  | none ↦ if not s.tab_live then disconnected else elim s.browser_state [
    | failed ↦ disconnected
    | starting ↦ disconnected
    | suspect ↦ if strict then disconnected else connected_health
    | ready ↦ connected_health
  ]
]
