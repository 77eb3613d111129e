-- ===== src/Browser/Observer/Runs.antt =====
-- Series of what happens to an observer, in any order: leases, sweeps, events and rounds of the writer.
use go_bb_browser.Prelude.{ℕ, List, [], ◌∷◌}
use go_bb_browser.Browser.Observer.{
  ObservationKind, Domains, Answer, Event, TabObserver, ObsRecorder, ensure_observation, expire,
  listen, write_one,
}

pub data Op : Type 0 where
  leases : Answer → Answer → ℕ → ObservationKind → Op
  sweeps : Answer → ℕ → ℕ → Op
  hears : Event → Op
  writes : Op

-- The observer, Chrome, and the recorder.
pub record System (R : Type 0) : Type 0 where
  pub observer : TabObserver
  pub domains : Domains
  pub recorder : R

module _ {R : Type 0} (rec : ObsRecorder R) where
  unfoldable pub step : Op → System R → System R
  step (leases first second now kind) s =
      let r = ensure_observation first second now kind s.observer s.domains in
      record s { observer = r.1; domains = r.2 }
  step (sweeps answer now idle) s =
      let r = expire answer now idle s.observer s.domains in
      record s { observer = r.0; domains = r.1 }
  step (hears ev) s =
      let r = listen rec ev s.observer s.recorder in record s { observer = r.0; recorder = r.1 }
  step writes s =
      let r = write_one rec s.observer s.recorder in record s { observer = r.0; recorder = r.1 }

  unfoldable pub run : List Op → System R → System R
  unfolding step
  run [] s = s
  run (op ∷ ops) s = run ops (step op s)
