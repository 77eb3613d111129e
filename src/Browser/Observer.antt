-- ===== src/Browser/Observer.antt =====
-- internal/browser/observer.go: the observer of a tab, from the lease of a domain of Chrome to the record
-- of an event. A method that holds `mu` is one step, and so is a callback of `listen`, which chromedp
-- calls one after the other, and a round of the writer. The bits of `active` are three Booleans.
--
-- Chrome carries out the actions of a call in their order. If the call fails it has carried out some of
-- the first of them, as many as the answer says.
pub mod Runs
pub mod Journal
pub mod Live
pub mod Counts
mod Tests
use go_bb_browser.Prelude.{
  ℕ, ◌+◌, ◌%◌, ◌^◌, Bool, true, false, not, ◌&&◌, ◌||◌, List, [], ◌∷◌, ◌++◌, Option, none, some,
  Text, codes, length, ltb, leb, take, max, if◌then◌else◌,
}
use go_bb_browser.Prelude.Json.{Json, bool, num, str, obj, Fields, end, field}

pub data ObservationKind : Type 0 where
  network_kind console_kind errors_kind : ObservationKind

-- An array of `observationKindCount` values.
pub record PerKind (A : Type 0) : Type 0 where
  pub of_network : A
  pub of_console : A
  pub of_errors : A

unfoldable pub at : {A : Type 0} → PerKind A → ObservationKind → A
at p network_kind = p.of_network
at p console_kind = p.of_console
at p errors_kind = p.of_errors

unfoldable pub put : {A : Type 0} → PerKind A → ObservationKind → A → PerKind A
put p network_kind a = record p { of_network = a }
put p console_kind a = record p { of_console = a }
put p errors_kind a = record p { of_errors = a }

abbrev pub observation_queue_capacity : ℕ
observation_queue_capacity = 1024

-- The domains of Chrome that an observer enables, each on or off.
pub record Domains : Type 0 where
  pub network_on : Bool
  pub runtime_on : Bool
  pub log_on : Bool

pub data Action : Type 0 where
  enable_network enable_runtime enable_log disable_network disable_runtime disable_log : Action

unfoldable pub carry_out : Action → Domains → Domains
carry_out enable_network d = record d { network_on = true }
carry_out enable_runtime d = record d { runtime_on = true }
carry_out enable_log d = record d { log_on = true }
carry_out disable_network d = record d { network_on = false }
carry_out disable_runtime d = record d { runtime_on = false }
carry_out disable_log d = record d { log_on = false }

unfoldable pub carry_out_all : List Action → Domains → Domains
unfolding carry_out
carry_out_all [] d = d
carry_out_all (a ∷ actions) d = carry_out_all actions (carry_out a d)

-- What comes of a call: all actions, or an error after some.
pub data Answer : Type 0 where
  all_done : Answer
  failed_after : ℕ → Answer

unfoldable pub run_cdp : Answer → List Action → Domains → Bool × Domains
unfolding carry_out_all
run_cdp all_done actions d = (true, carry_out_all actions d)
run_cdp (failed_after n) actions d = (false, carry_out_all (take n actions) d)

-- The events that `listen` reads, with the fields of the payloads. A nil pointer in one of them is none;
-- numbers are as they are printed, and the values that chromedp has as JSON are so here.
pub data Event : Type 0 where
  request_will_be_sent : Text → Option (Text × Text) → Event
  response_received : Text → Option (Text × Text × Text) → Event
  loading_failed : Text → Text → Bool → Event
  console_api_called : Text → Json → Event
  exception_thrown : Option (Text × Text × Text × Json) → Event
  entry_added : Option (Text × Text × Text × Text × Text) → Event
  other_event : Event

-- The kind and the payload of an event, its keys in the order in which json.Marshal writes a map; `none`
-- if the event is passed over.
unfoldable pub observed_as : Event → Option (ObservationKind × Json)
observed_as (request_will_be_sent id none) = none
observed_as (request_will_be_sent id (some r)) = some (
  network_kind,
  obj (
      field (codes "kind") (str (codes "request")) (
        field (codes "method") (str r.1)
          (field (codes "requestId") (str id) (field (codes "url") (str r.0) end)))),
)
observed_as (response_received id none) = none
observed_as (response_received id (some r)) = some (
  network_kind,
  obj (
      field (codes "kind") (str (codes "response")) (
        field (codes "mimeType") (str r.1) (
          field (codes "requestId") (str id)
            (field (codes "status") (num r.0) (field (codes "url") (str r.2) end))))),
)
observed_as (loading_failed id text canceled) = some (
  network_kind,
  obj (
      field (codes "canceled") (bool canceled) (
        field (codes "errorText") (str text) (
          field (codes "kind") (str (codes "loadingFailed"))
            (field (codes "requestId") (str id) end)))),
)
observed_as (console_api_called kind args) =
    some (console_kind, obj (field (codes "args") args (field (codes "type") (str kind) end)))
observed_as (exception_thrown none) = none
observed_as (exception_thrown (some d)) = some (
  errors_kind,
  obj (
      field (codes "columnNumber") (num d.2) (
        field (codes "exception") d.3
          (field (codes "lineNumber") (num d.1) (field (codes "text") (str d.0) end)))),
)
observed_as (entry_added none) = none
observed_as (entry_added (some e)) = some (
  errors_kind,
  obj (
      field (codes "level") (str e.1) (
        field (codes "lineNumber") (num e.4) (
          field (codes "source") (str e.0)
            (field (codes "text") (str e.2) (field (codes "url") (str e.3) end))))),
)
observed_as other_event = none

pub record QueuedObservation : Type 0 where
  pub kind : ObservationKind
  pub seq : ℕ
  pub payload : Json

-- `listening` is whether `listenerCancel` is set; times are in nanoseconds.
pub record TabObserver : Type 0 where
  pub tid : Text
  pub queue : List QueuedObservation
  pub domains_disabled : Bool
  pub listening : Bool
  pub active : PerKind Bool
  pub last_touch : PerKind ℕ
  pub last_seen : PerKind ℕ
  pub dropped : PerKind ℕ

abbrev pub in_all : {A : Type 0} → A → PerKind A
in_all a = record { of_network = a; of_console = a; of_errors = a }

unfoldable pub new_observer : Text → TabObserver
new_observer tid = record {
  tid = tid;
  queue = [];
  domains_disabled = false;
  listening = false;
  active = in_all false;
  last_touch = in_all 0;
  last_seen = in_all 0;
  dropped = in_all 0;
}

-- `ObsRecorder` and json.Marshal, on the state `R` of the recorder.
pub record ObsRecorder (R : Type 0) : Type 0 where
  pub next_seq : R → Option ℕ × R
  pub record_observation : ObservationKind → Text → ℕ → Text → R → R
  pub marshal : Json → Option Text

unfoldable pub disable_until_leased : Answer → TabObserver → Domains → Bool × TabObserver × Domains
unfolding run_cdp
disable_until_leased answer o d =
    let r = run_cdp answer (disable_network ∷ disable_runtime ∷ disable_log ∷ []) d in
    if o.domains_disabled
    then (true, o, d)
    else if r.0
    then (true, record o { domains_disabled = true }, r.1)
    else (false, o, r.1)

-- The actions that a kind needs beside what is active.
unfoldable pub enabling : PerKind Bool → ObservationKind → List Action
enabling active network_kind = if active.of_network then [] else enable_network ∷ []
enabling active console_kind =
    if active.of_console || active.of_errors then [] else enable_runtime ∷ []
enabling active errors_kind =
    (if active.of_console || active.of_errors then [] else enable_runtime ∷ [])
    ++ (if active.of_errors then [] else enable_log ∷ [])

unfoldable pub activate :
    Answer → ℕ → ObservationKind → TabObserver → Domains → Bool × TabObserver × Domains
unfolding run_cdp enabling put
activate answer now kind o d =
    let heard = record o { listening = true } in
    let r = run_cdp answer (enabling o.active kind) d in
    let actions = enabling o.active kind in
    let leased = record heard {
      active = put o.active kind true;
      last_touch = put o.last_touch kind now;
    } in
    if ltb 0 (length actions)
    then (if r.0 then (true, leased, r.1) else (false, heard, r.1))
    else (true, leased, d)

-- The end of `EnsureObservation`, once the observer is attached.
unfoldable pub ensure_observation :
    Answer → Answer → ℕ → ObservationKind → TabObserver → Domains → Bool × TabObserver × Domains
unfolding disable_until_leased activate
ensure_observation first second now kind o d =
    let (ok, o', d') = disable_until_leased first o d in
    if ok then activate second now kind o' d' else (false, o', d')

-- `remaining` of `expire`.
unfoldable pub remaining : ℕ → ℕ → TabObserver → PerKind Bool
remaining now idle o = record {
  of_network = o.active.of_network && not (leb (o.last_touch.of_network + idle) now);
  of_console = o.active.of_console && not (leb (o.last_touch.of_console + idle) now);
  of_errors = o.active.of_errors && not (leb (o.last_touch.of_errors + idle) now);
}

unfoldable pub disabling : PerKind Bool → PerKind Bool → List Action
disabling active rest =
    (if active.of_network && not rest.of_network then disable_network ∷ [] else [])
    ++ (if active.of_errors && not rest.of_errors then disable_log ∷ [] else [])
    ++ (if (active.of_console || active.of_errors) && not (rest.of_console || rest.of_errors)
        then disable_runtime ∷ []
        else [])

-- `remaining != active`
unfoldable pub lapses : PerKind Bool → PerKind Bool → Bool
lapses active rest =
    (active.of_network && not rest.of_network)
    || (active.of_console && not rest.of_console)
    || (active.of_errors && not rest.of_errors)

-- `idle` is positive.
unfoldable pub expire : Answer → ℕ → ℕ → TabObserver → Domains → TabObserver × Domains
unfolding run_cdp remaining disabling lapses
expire answer now idle o d =
    let rest = remaining now idle o in
    let kept = record o {
      active = rest;
      listening = o.listening && (rest.of_network || rest.of_console || rest.of_errors);
    } in
    if lapses o.active rest then (kept, (run_cdp answer (disabling o.active rest) d).1) else (o, d)

-- An event behind the `switch` of `listen`, with its number.
unfoldable pub enqueue : ObservationKind → Json → ℕ → TabObserver → TabObserver
unfolding at put
enqueue kind payload seq o =
    let seen = record o { last_seen = put o.last_seen kind (max (at o.last_seen kind) seq) } in
    let item : QueuedObservation = record { kind = kind; seq = seq; payload = payload } in
    if ltb (length o.queue) observation_queue_capacity
    then record seen { queue = o.queue ++ item ∷ [] }
    else record seen { dropped = put o.dropped kind ((at o.dropped kind + 1) % 2 ^ 64) }

module _ {R : Type 0} (rec : ObsRecorder R) where
  abbrev pub take_number : ObservationKind → Json → TabObserver → Option ℕ × R → TabObserver × R
  take_number kind payload o (none, r) = (o, r)
  take_number kind payload o (some seq, r) = (enqueue kind payload seq o, r)

  unfoldable pub listen : Event → TabObserver → R → TabObserver × R
  unfolding observed_as at
  listen ev o r = elim (observed_as ev) [
    | none ↦ (o, r)
    | some (kind, payload) ↦
        if at o.active kind then take_number kind payload o (rec.next_seq r) else (o, r)
  ]

  abbrev pub store_item : QueuedObservation → TabObserver → R → Option Text → TabObserver × R
  store_item item o r none =
      (record o { dropped = put o.dropped item.kind ((at o.dropped item.kind + 1) % 2 ^ 64) }, r)
  store_item item o r (some raw) = (o, rec.record_observation item.kind o.tid item.seq raw r)

  -- A round of `runWriter`.
  unfoldable pub write_one : TabObserver → R → TabObserver × R
  unfolding at put
  write_one o r = elim o.queue [
    | [] ↦ (o, r)
    | item ∷ items ↦ store_item item (record o { queue = items }) r (rec.marshal item.payload)
  ]
