-- ===== src/Browser/Observer/Tests.antt =====
-- An observer that hears an exception and a request, and the properties at that series.
use go_bb_browser.Prelude.{
  ℕ, ◌+◌, ◌≡◌, refl, true, false, List, [], ◌∷◌, ◌++◌, some, codes, Bool, map,
}
use go_bb_browser.Prelude.Json.{null}
use go_bb_browser.Browser.Observer.{
  errors_kind, at, put, Domains, all_done, failed_after, Event, exception_thrown,
  request_will_be_sent, ObsRecorder, new_observer, ensure_observation, enqueue, listen, write_one,
}
use go_bb_browser.Browser.Observer.Runs.{Op, leases, hears, writes, System, step, run}
use go_bb_browser.Browser.Observer.Live.{IsOn}
use go_bb_browser.Browser.Observer.Live.Series.{active-IsOn}
use go_bb_browser.Browser.Observer.Journal.{
  Entry, journaled, count, CountsLost, waiting, all_numbered,
}
use go_bb_browser.Browser.Observer.Counts.{dropped-balance}

-- The next number, and the numbers that were recorded.
abbrev Book : Type 0
Book = ℕ × List ℕ

abbrev recorder : ObsRecorder Book
recorder = record {
  next_seq = λ b. (some (b.0 + 1), (b.0 + 1, b.1));
  record_observation = λ kind id seq raw b. (b.0, b.1 ++ seq ∷ []);
  marshal = λ payload. some (codes "{}");
}

abbrev off : Domains
off = record { network_on = false; runtime_on = false; log_on = false }

abbrev thrown : Event
thrown = exception_thrown (some (codes "Uncaught", codes "3", codes "7", null))

-- The first lease fails in Chrome after one action, the second goes through; requests are not leased.
abbrev ops : List Op
ops =
    leases all_done (failed_after 1) 5 errors_kind
    ∷ leases all_done all_done 9 errors_kind
    ∷ hears thrown
    ∷ hears (request_will_be_sent (codes "1") (some (codes "https://example.com", codes "GET")))
    ∷ writes
    ∷ hears thrown
    ∷ []

abbrev begun : System Book
begun = record { observer = new_observer (codes "T"); domains = off; recorder = (40, []) }

abbrev ended : System Book
ended = run recorder ops begun

errors_active : at ended.observer.active errors_kind ≡ true
unfolding at put run step new_observer ensure_observation listen write_one enqueue
errors_active = refl

first_recorded : ended.recorder ≡ (42, 41 ∷ [])
unfolding at put run step new_observer ensure_observation listen write_one enqueue
first_recorded = refl

active-IsOn_example : IsOn errors_kind ended.domains × (ended.observer.listening ≡ true)
active-IsOn_example = active-IsOn recorder ops (codes "T") off (40, []) errors_kind errors_active

abbrev begun_journaled : System (Book × List Entry)
begun_journaled = record {
  observer = new_observer (codes "T");
  domains = off;
  recorder = ((40, []), []);
}

abbrev ended_journaled : System (Book × List Entry)
ended_journaled = run (journaled recorder) ops begun_journaled

two_numbered : map (λ (e : Entry). e.seq) (all_numbered recorder ops begun_journaled) ≡ 41 ∷ 42 ∷ []
unfolding at put run step new_observer ensure_observation listen write_one enqueue all_numbered
two_numbered = refl

dropped-balance_example :
    (lost : List Entry) × ((p : Entry → Bool)
      → count p (all_numbered recorder ops begun_journaled)
        ≡ count p ended_journaled.recorder.1
          + count p (waiting recorder ended_journaled.observer)
          + count p lost)
    × CountsLost ended_journaled.observer lost
dropped-balance_example = dropped-balance recorder ops (codes "T") off (40, [])
