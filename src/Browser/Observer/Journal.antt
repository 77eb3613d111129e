-- ===== src/Browser/Observer/Journal.antt =====
-- The entries of an observer: those that it gives a number, those that wait, and those that the
-- recorder is called with.
use go_bb_browser.Prelude.{
  ℕ, ◌+◌, ◌%◌, ◌^◌, ◌≡◌, refl, Bool, true, false, List, [], ◌∷◌, ◌++◌, Option, none, some, Text,
  arith, if◌then◌else◌,
}
use native.Mathlib.Nat.{mod-add-mod}
use go_bb_browser.Prelude.Json.{Json}
use go_bb_browser.Browser.Observer.{
  ObservationKind, network_kind, console_kind, errors_kind, PerKind, in_all, at, put, observed_as,
  TabObserver, ObsRecorder, QueuedObservation,
}
use go_bb_browser.Browser.Observer.Runs.{Op, hears, System, step}

-- An observation as `RecordObservation` takes it: its kind, the tab, the number, and the JSON if the
-- payload has one.
pub record Entry : Type 0 where
  pub kind : ObservationKind
  pub id : Text
  pub seq : ℕ
  pub raw : Option Text

-- The recorder, with the list of the calls of its `RecordObservation`.
abbrev pub journaled : {R : Type 0} → ObsRecorder R → ObsRecorder (R × List Entry)
journaled rec = record {
  next_seq = λ s. let x = rec.next_seq s.0 in (x.0, (x.1, s.1));
  record_observation = λ kind id seq raw s. (
    rec.record_observation kind id seq raw s.0,
    s.1 ++ record { kind = kind; id = id; seq = seq; raw = some raw } ∷ [],
  );
  marshal = rec.marshal;
}

abbrev pub same_kind : ObservationKind → ObservationKind → Bool
same_kind network_kind network_kind = true
same_kind console_kind console_kind = true
same_kind errors_kind errors_kind = true
same_kind _ _ = false

abbrev pub of_kind : ObservationKind → Entry → Bool
of_kind kind e = same_kind e.kind kind

abbrev pub tick : (Entry → Bool) → Entry → ℕ
tick p e = if p e then 1 else 0

-- How many of the entries pass the test.
abbrev pub count : (Entry → Bool) → List Entry → ℕ
count p [] = 0
count p (e ∷ es) = tick p e + count p es

pub count-append :
    (p : Entry → Bool) (es fs : List Entry) → count p (es ++ fs) ≡ count p es + count p fs
count-append p [] fs = omega arith
count-append p (e ∷ es) fs = omega (arith, count-append p es fs)

-- The lost ones, by kind, are what `dropped` counts, modulo 2^64.
abbrev pub CountsLost : TabObserver → List Entry → Type 0
CountsLost o lost =
    (kind : ObservationKind) → at o.dropped kind ≡ count (of_kind kind) lost % 2 ^ 64

-- One more of the kind `k` is counted.
pub bump :
    (p : PerKind ℕ) (k kind : ObservationKind) (n : ℕ)
    → at p kind ≡ n % 2 ^ 64
    → at (put p k ((at p k + 1) % 2 ^ 64)) kind ≡ ((if same_kind k kind then 1 else 0) + n) % 2 ^ 64
unfolding at put
bump p network_kind network_kind n h = let e = mod-add-mod n (2 ^ 64) 1 in omega (arith, e, h)
bump p network_kind console_kind n h = omega (arith, h)
bump p network_kind errors_kind n h = omega (arith, h)
bump p console_kind network_kind n h = omega (arith, h)
bump p console_kind console_kind n h = let e = mod-add-mod n (2 ^ 64) 1 in omega (arith, e, h)
bump p console_kind errors_kind n h = omega (arith, h)
bump p errors_kind network_kind n h = omega (arith, h)
bump p errors_kind console_kind n h = omega (arith, h)
bump p errors_kind errors_kind n h = let e = mod-add-mod n (2 ^ 64) 1 in omega (arith, e, h)

pub none_dropped : (kind : ObservationKind) → at (in_all 0) kind ≡ 0 % 2 ^ 64
unfolding at
none_dropped network_kind = refl
none_dropped console_kind = refl
none_dropped errors_kind = refl

module _ {R : Type 0} (rec : ObsRecorder R) where
  abbrev pub entry : Text → QueuedObservation → Entry
  entry tid item = record {
    kind = item.kind;
    id = tid;
    seq = item.seq;
    raw = rec.marshal item.payload;
  }

  abbrev pub entries : Text → List QueuedObservation → List Entry
  entries tid [] = []
  entries tid (item ∷ items) = entry tid item ∷ entries tid items

  -- What waits in the queue.
  abbrev pub waiting : TabObserver → List Entry
  waiting o = entries o.tid o.queue

  abbrev pub given : Option (ObservationKind × Json) → TabObserver → Option ℕ → List Entry
  given none o n = []
  given (some (k, payload)) o none = []
  given (some (k, payload)) o (some n) =
      if at o.active k
      then record { kind = k; id = o.tid; seq = n; raw = rec.marshal payload } ∷ []
      else []

  -- The event that this operation gives a number.
  unfoldable pub numbered : Op → System (R × List Entry) → List Entry
  numbered (hears ev) s = given (observed_as ev) s.observer (rec.next_seq s.recorder.0).0
  numbered _ s = []

  -- The events that a series gives a number.
  unfoldable pub all_numbered : List Op → System (R × List Entry) → List Entry
  unfolding numbered
  all_numbered [] s = []
  all_numbered (op ∷ ops) s = numbered op s ++ all_numbered ops (step (journaled rec) op s)

  pub entries-append :
      (p : Entry → Bool) (tid : Text) (items : List QueuedObservation) (item : QueuedObservation)
      → count p (entries tid (items ++ item ∷ []))
        ≡ count p (entries tid items) + tick p (entry tid item)
  entries-append p tid [] item = omega arith
  entries-append p tid (i ∷ items) item = omega (arith, entries-append p tid items item)
