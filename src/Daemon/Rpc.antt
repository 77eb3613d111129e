-- ===== src/Daemon/Rpc.antt =====
-- internal/daemon: the state that the handlers of POST /v1 work on, the browser behind the interfaces
-- of rpc_connections.go, and the steps that the handlers share.
--
-- A handler is a function of the daemon's state. The browser's answers are functions of that state
-- too, and return a new one: other requests may run while a handler waits for the browser or for the
-- lock of a tab. `NewServer` sets the registry, the idle tracker, the observations and the log, so the
-- tests for nil are left out, and so is what is logged only.
pub mod Close
pub mod Answer
pub mod Tabs
pub mod Payload
pub mod Page
pub mod Observe
pub mod V1
pub mod Keeps
pub mod Touch
pub mod Numbers
pub mod Logged
pub mod Audit
pub mod Sweep
pub mod Removed
pub mod Checks
mod Sample
mod Tests
use go_bb_browser.Prelude.{
  ℕ, zero, suc, ◌+◌, Bool, true, false, not, ◌&&◌, ◌||◌, List, [], ◌∷◌, Option, none, some, Text,
  codes, str_eq, trim_space, if◌then◌else◌, ℤ,
}
use go_bb_browser.Prelude.Map.{Map}
use go_bb_browser.Prelude.Json.{Json, RawMessage}
use go_bb_browser.Protocol.Message.{
  ErrData, ResponseError, code_server_error, code_invalid_params, TabListItem, RpcResult,
}
use go_bb_browser.State.Target.{Info}
use go_bb_browser.State.TabRegistry.{
  TabRegistry, TabSnapshot, RemovedTab, sync_page_targets_detailed, remove_target, lookup,
}
use go_bb_browser.State.TabIdle.{TabIdleTracker, forget, sync_present}
use go_bb_browser.State.ObsStore.{TabObsStore, clear_target}
use go_bb_browser.Store.Record.{LogRecord}
use go_bb_browser.Store.State.{Store, Disk, next_seq}
use go_bb_browser.Browser.Errors.{GoError, error_text, is_deadline, is_cdp_session_lost}
pub use go_bb_browser.Browser.Observer.{ObservationKind, network_kind, console_kind, errors_kind}
use go_bb_browser.Browser.Routes.{NetworkRouteRule}
use go_bb_browser.Daemon.Restart.{present_ids}
use go_bb_browser.Daemon.TabLock.{TabLocks, forget_tab_lock}
use go_bb_browser.Daemon.Watchdog as Watchdog
use go_bb_browser.Daemon.Watchdog.{fatal_cdp_lost}

-- `browser` is the state of Chrome and of the session with it, `clock` what `time.Now()` returns,
-- `probe_wanted` whether `probeTrigger` holds a token, `audit_ch` the records in the channel.
pub record Server (W : Type 0) : Type 0 where
  pub tabs : TabRegistry
  pub tab_idle : TabIdleTracker
  pub obs_store : TabObsStore
  pub locks : TabLocks
  pub store : Store
  pub link : Watchdog.Server
  pub probe_wanted : Bool
  pub audit_ch : List LogRecord
  pub audit_closed : Bool
  pub clock : ℕ
  pub browser : W

pub data Result (A : Type 0) : Type 0 where
  ok : A → Result A
  err : GoError → Result A

pub record SnapshotOpts : Type 0 where
  pub interactive_only : Bool
  pub prune_empty : Bool
  pub max_depth : ℤ
  pub selector_scope : Text

pub record PageSnapshot : Type 0 where
  pub title : Text
  pub page_url : Text
  pub text : Text
  pub refs : Map Text

pub record RouteConn (S : Type 0) : Type 0 where
  pub append_network_route : Text → NetworkRouteRule → S → Result (Unit {0}) × S
  pub remove_network_routes : Text → Text → S → Result (Unit {0}) × S
  pub network_route_count : Text → S → ℕ

-- `tabConn` with the capabilities that a handler asks for by a type assertion. `forget_target` does
-- nothing, and `ensure_observation` is none, where the connection is no `*browser.Session`.
pub record TabConn (S : Type 0) : Type 0 where
  pub page_targets : S → Result (List (Option Info)) × S
  pub create_page_target : Text → Bool → S → Result Text × S
  pub close_target : Text → S → Result (Unit {0}) × S
  pub navigate : Text → Text → S → Result (Unit {0}) × S
  pub reload : Text → S → Result (Unit {0}) × S
  pub screenshot : Text → Text → S → Result (Text × Text) × S
  pub eval : Text → Text → S → Result Json × S
  pub click : Text → Text → S → Result (Unit {0}) × S
  pub fill : Text → Text → Text → S → Result (Unit {0}) × S
  pub detect_foreground_short : Option (List TabSnapshot → S → Option Text × S)
  pub fetch_page : Option (Text → Text → Text → Text → Text → S → Result Json × S)
  pub snapshot : Option (Text → SnapshotOpts → S → Result PageSnapshot × S)
  pub routes : Option (RouteConn S)
  pub ensure_observation : Option (Text → ObservationKind → S → Result (Unit {0}) × S)
  pub observation_dropped : Option (Text → ObservationKind → S → ℕ)
  pub forget_target : Text → S → S

-- `lock_tab` waits for the lock of a tab, and is false if the request's time is up first; `unlock` is
-- the function that it returns.
pub record Env (S : Type 0) : Type 0 where
  pub conn : Option (TabConn S)
  pub is_done : S → Bool  -- the context of the sweeper
  pub lock_tab : Text → S → Bool × S
  pub unlock : Text → S → S
  pub disk : Disk
  pub line_length : LogRecord → ℕ

-- What a handler comes to before it answers.
pub data Outcome (A : Type 0) : Type 0 where
  done : A → Outcome A
  failed : ResponseError → Outcome A

abbrev pub M : Type 0 → Type 0 → Type 0
M S A = S → Outcome A × S

-- A handler of a method: from the parameters to what it answers.
abbrev pub Handler : Type 0 → Type 0
Handler W = RawMessage → Server W → Outcome RpcResult × Server W

infixl 5 ◌>>=◌ ◌>>◌
unfoldable pub ◌>>=◌ : {S A B : Type 0} → M S A → (A → M S B) → M S B
◌>>=◌ m f s = let r = m s in elim r.0 [ done a ↦ f a r.1 | failed e ↦ (failed e, r.1) ]

unfoldable pub ◌>>◌ : {S B : Type 0} → M S (Unit {0}) → M S B → M S B
m >> k = m >>= λ _. k

unfoldable pub pure : {S A : Type 0} → A → M S A
pure a s = (done a, s)

unfoldable pub modify : {S : Type 0} → (S → S) → M S (Unit {0})
modify f s = (done tt, f s)

-- A step that cannot fail.
unfoldable pub run : {S A : Type 0} → (S → A × S) → M S A
run f s = let r = f s in (done r.0, r.1)

unfoldable pub require : {S : Type 0} → Bool → ResponseError → M S (Unit {0})
require b e s = if b then (done tt, s) else (failed e, s)

unfoldable pub some_or : {S A : Type 0} → Option A → ResponseError → M S A
some_or none e s = (failed e, s)
some_or (some a) e s = (done a, s)

module _ {W : Type 0} where
  -- `nextSeq`; the log is open, so that it does not fail.
  unfoldable pub take_seq : Server W → Outcome ℕ × Server W
  unfolding next_seq
  take_seq s = let n = next_seq s.store in (done n.0, record s { store = n.1 })

  -- `cdpHint` of an error.
  unfoldable pub cdp_hint : GoError → Server W → Text × Server W
  unfolding fatal_cdp_lost
  cdp_hint e s = (
    error_text e,
    if is_cdp_session_lost (some e)
        then record s { link = fatal_cdp_lost s.link }
        else if is_deadline e
        then record s { probe_wanted = true }
        else s,
  )

  -- A call of the browser; on an error the handler answers with a server error.
  unfoldable pub call :
      {A : Type 0}
      → (Server W → Result A × Server W)
      → Text
      → (Text → ErrData)
      → Server W
      → Outcome A × Server W
  unfolding cdp_hint
  call f message details s =
      let r = f s in
      elim r.0 [
        | ok a ↦ (done a, r.1)
        | err e ↦
            let h = cdp_hint e r.1 in
            (
              failed (record {
                code = code_server_error;
                message = message;
                details = some (details h.0);
              }),
              h.1,
            )
      ]

abbrev pub plain_error : ℤ → Text → ResponseError
plain_error code message = record { code = code; message = message; details = none }

abbrev pub err_data : Text → Text → Text → ErrData
err_data error hint method = record { error = error; hint = hint; method = method }

abbrev pub detailed : ℤ → Text → ErrData → ResponseError
detailed code message d = record { code = code; message = message; details = some d }

abbrev pub invalid_params : ResponseError
invalid_params = plain_error code_invalid_params (codes "invalid params")

abbrev pub not_ready : ResponseError
not_ready = plain_error code_server_error (codes "browser session not ready")

abbrev pub lock_timed_out : ResponseError
lock_timed_out = detailed code_server_error (codes "request timed out") (
    err_data (codes "tab operation lock deadline exceeded")
      (codes "another operation is still running for this tab") [])

-- `missing tab`, with a hint in some methods.
abbrev pub missing : Text → Text → Text → Text → ResponseError
missing message error hint method =
    detailed code_invalid_params message (err_data error hint method)

abbrev pub unknown_tab : Text → Text → ResponseError
unknown_tab hint method =
    detailed code_invalid_params (codes "unknown tab id")
      (err_data (codes "unknown tab id") hint method)

abbrev pub stale_hint : Text
stale_hint = codes "invalid or stale tab short id"
