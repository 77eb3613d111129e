-- ===== src/Browser/Observer/Counts.antt =====
-- Where the numbered events of an observer go.
use go_bb_browser.Prelude.{
  ℕ, ◌+◌, ◌≡◌, refl, Bool, true, List, [], ◌∷◌, ◌++◌, Option, none, some, Text, arith, length, ltb,
  Bool-cases, Option-cases, inl, inr,
}
use go_bb_browser.Prelude.Json.{Json}
use go_bb_browser.Browser.Observer.{
  ObservationKind, Domains, Event, observed_as, TabObserver, ObsRecorder, QueuedObservation,
  enqueue, listen, write_one, new_observer, observation_queue_capacity, store_item,
  ensure_observation, expire, disable_until_leased, activate, enabling, run_cdp, remaining, lapses,
  Answer, disable_network, disable_runtime, disable_log, at,
}
use go_bb_browser.Browser.Observer.Runs.{Op, leases, sweeps, hears, writes, System, step, run}
use go_bb_browser.Browser.Observer.Journal.{
  Entry, journaled, of_kind, count, count-append, CountsLost, bump, none_dropped, entry, waiting,
  given, numbered, all_numbered, entries-append,
}

module _ {R : Type 0} (rec : ObsRecorder R) where
  -- What came to the observer was recorded, waits in the queue, or is counted as dropped.
  record Settles (o t : TabObserver) (j k came : List Entry) : Type 0 where
    settle :
        (lost : List Entry)
        → CountsLost o lost
        → (lost' : List Entry) × ((p : Entry → Bool)
            → count p came + count p j + count p (waiting rec o) + count p lost
              ≡ count p k + count p (waiting rec t) + count p lost')
          × CountsLost t lost'

  same-Settles :
      (o t : TabObserver) (j : List Entry)
      → t.tid ≡ o.tid
      → t.queue ≡ o.queue
      → t.dropped ≡ o.dropped
      → Settles o t j j []
  same-Settles o t j i q d = record {
    settle = λ lost h. (lost, λ p. rw (i, q) (omega arith), λ kind. rw d (h kind));
  }

  then-Settles :
      (o t u : TabObserver) (j k l came more : List Entry)
      → Settles o t j k came
      → Settles t u k l more
      → Settles o u j l (came ++ more)
  then-Settles o t u j k l came more a b = record {
    settle = λ lost h.
        let (mid, e, c) = a.settle lost h in
        let (end_lost, e', c') = b.settle mid c in
        (end_lost, λ p. omega (arith, e p, e' p, count-append p came more), c');
  }

  enqueue-Settles :
      (k : ObservationKind) (payload : Json) (n : ℕ) (o : TabObserver) (j : List Entry)
      → Settles o
          (enqueue k payload n o)
          j
          j
          (entry rec o.tid (record { kind = k; seq = n; payload = payload }) ∷ [])
  unfolding enqueue
  enqueue-Settles k payload n o j =
      let item : QueuedObservation = record { kind = k; seq = n; payload = payload } in
      elim (Bool-cases (ltb (length o.queue) observation_queue_capacity)) [
        | inl room ↦
            rw (enqueue, room)
              (record {
                settle = λ lost h.
                    (lost, λ p. omega (arith, entries-append rec p o.tid o.queue item), h);
              })
        | inr full ↦
            rw (enqueue, full)
              (record {
                settle = λ lost h. (
                  entry rec o.tid item ∷ lost,
                  λ p. omega arith,
                  λ kind. bump o.dropped item.kind kind (count (of_kind kind) lost) (h kind),
                );
              })
      ]

  -- A lease changes nothing of the account, and neither does a sweep.
  disable-Settles :
      (j : List Entry) (first : Answer) (o : TabObserver) (d : Domains)
      → Settles o (disable_until_leased first o d).1 j j []
  unfolding disable_until_leased
  disable-Settles j first o d = elim (Bool-cases o.domains_disabled) [
    | inl already ↦ simp (disable_until_leased, already) (same-Settles o o j refl refl refl)
    | inr off ↦
        elim (Bool-cases
          (run_cdp first (disable_network ∷ disable_runtime ∷ disable_log ∷ []) d).0) [
            | inl done ↦
                simp (disable_until_leased, off, done)
                  (same-Settles o (record o { domains_disabled = true }) j refl refl refl)
            | inr lost ↦ simp (disable_until_leased, off, lost) (same-Settles o o j refl refl refl)
          ]
  ]

  activate-Settles :
      (j : List Entry) (answer : Answer) (now : ℕ) (k : ObservationKind) (o : TabObserver)
      (d : Domains)
      → Settles o (activate answer now k o d).1 j j []
  unfolding activate
  activate-Settles j answer now k o d = elim (Bool-cases (ltb 0 (length (enabling o.active k)))) [
    | inr nothing ↦ simp (activate, nothing) (same-Settles o _ j refl refl refl)
    | inl needed ↦ elim (Bool-cases (run_cdp answer (enabling o.active k) d).0) [
      | inl done ↦ rw (activate, needed, done) (same-Settles o _ j refl refl refl)
      | inr lost ↦ rw (activate, needed, lost) (same-Settles o _ j refl refl refl)
    ]
  ]

  lease-Settles :
      (j : List Entry) (first second : Answer) (now : ℕ) (k : ObservationKind) (o : TabObserver)
      (d : Domains)
      → Settles o (ensure_observation first second now k o d).1 j j []
  unfolding ensure_observation
  lease-Settles j first second now k o d =
      let r = disable_until_leased first o d in
      elim (Bool-cases r.0) [
        | inl ready ↦
            rw (ensure_observation, ready)
              (then-Settles o r.1 (activate second now k r.1 r.2).1 j j j [] []
                (disable-Settles j first o d) (activate-Settles j second now k r.1 r.2))
        | inr lost ↦ rw (ensure_observation, lost) (disable-Settles j first o d)
      ]

  expire-Settles :
      (j : List Entry) (answer : Answer) (now idle : ℕ) (o : TabObserver) (d : Domains)
      → Settles o (expire answer now idle o d).0 j j []
  unfolding expire
  expire-Settles j answer now idle o d =
      elim (Bool-cases (lapses o.active (remaining now idle o))) [
        | inl some_lapse ↦ rw (expire, some_lapse) (same-Settles o _ j refl refl refl)
        | inr same ↦ rw (expire, same) (same-Settles o o j refl refl refl)
      ]

  -- The journal behind the observer's steps.
  listen-Settles :
      (ev : Event) (o : TabObserver) (r : R × List Entry)
      → let s = listen (journaled rec) ev o r in
        Settles o s.0 r.1 s.1.1 (given rec (observed_as ev) o (rec.next_seq r.0).0)
  unfolding listen
  listen-Settles ev o r = elim (Option-cases (observed_as ev)) [
    | inl e ↦ rw (listen, e) (same-Settles o o r.1 refl refl refl)
    | inr ((k, payload), e) ↦ elim (Bool-cases (at o.active k)) [
      | inr off ↦ elim (Option-cases (rec.next_seq r.0).0) [
        | inl unused ↦ rw (listen, e, off, unused) (same-Settles o o r.1 refl refl refl)
        | inr (n, unused) ↦ rw (listen, e, off, unused, off) (same-Settles o o r.1 refl refl refl)
      ]
      | inl active ↦ elim (Option-cases (rec.next_seq r.0).0) [
        | inl none_left ↦ rw (listen, e, active, none_left) (same-Settles o o r.1 refl refl refl)
        | inr (n, got) ↦ rw (listen, e, active, got, active) (enqueue-Settles k payload n o r.1)
      ]
    ]
  ]

  write_one-Settles :
      (o : TabObserver) (r : R × List Entry)
      → let s = write_one (journaled rec) o r in Settles o s.0 r.1 s.1.1 []
  unfolding write_one
  write_one-Settles o r = by_queue o.queue refl
    where
      by_marshal :
          (item : QueuedObservation) (items : List QueuedObservation) (raw : Option Text)
          → o.queue ≡ item ∷ items
          → rec.marshal item.payload ≡ raw
          → let s = store_item (journaled rec) item (record o { queue = items }) r raw in
            Settles o s.0 r.1 s.1.1 []
      by_marshal item items none e m = record {
        settle = λ lost h. (
          entry rec o.tid item ∷ lost,
          λ p. rw e (omega arith),
          λ kind. bump o.dropped item.kind kind (count (of_kind kind) lost) (h kind),
        );
      }
      by_marshal item items (some raw) e m = record {
        settle = λ lost h. (
          lost,
          λ p.
              rw (e, m)
                (omega (
                  arith,
                  count-append p r.1 (
                      record { kind = item.kind; id = o.tid; seq = item.seq; raw = some raw } ∷ []),
                )),
          h,
        );
      }

      by_queue :
          (q : List QueuedObservation)
          → o.queue ≡ q
          → let s = write_one (journaled rec) o r in Settles o s.0 r.1 s.1.1 []
      by_queue [] e = simp (write_one, e) (same-Settles o o r.1 refl refl refl)
      by_queue (item ∷ items) e =
          simp (write_one, e) (by_marshal item items (rec.marshal item.payload) e refl)

  step-Settles :
      (op : Op) (s : System (R × List Entry))
      → let t = step (journaled rec) op s in
        Settles s.observer t.observer s.recorder.1 t.recorder.1 (numbered rec op s)
  unfolding step numbered
  step-Settles (leases first second now k) s =
      lease-Settles s.recorder.1 first second now k s.observer s.domains
  step-Settles (sweeps answer now idle) s =
      expire-Settles s.recorder.1 answer now idle s.observer s.domains
  step-Settles (hears ev) s = listen-Settles ev s.observer s.recorder
  step-Settles writes s = write_one-Settles s.observer s.recorder

  run-Settles :
      (ops : List Op) (s : System (R × List Entry))
      → let t = run (journaled rec) ops s in
        Settles s.observer t.observer s.recorder.1 t.recorder.1 (all_numbered rec ops s)
  unfolding run all_numbered
  run-Settles [] s = same-Settles s.observer s.observer s.recorder.1 refl refl refl
  run-Settles (op ∷ ops) s =
      let t = step (journaled rec) op s in
      let u = run (journaled rec) ops t in
      then-Settles s.observer t.observer u.observer s.recorder.1 t.recorder.1 u.recorder.1
        (numbered rec op s) (all_numbered rec ops t) (step-Settles op s) (run-Settles ops t)

  -- No event is lost silently: of the events that a new observer has given a number, in any series of
  -- leases, sweeps, events and rounds of the writer, each is in a call of RecordObservation with its kind,
  -- tab, number and JSON, waits in the queue, or is one of those that `dropped` counts by kind, modulo
  -- 2^64; each is one of these, and there are no others. Two lists of entries are compared by how many
  -- of each pass a test, for every test.
  pub dropped-balance :
      (ops : List Op) (tid : Text) (d : Domains) (r : R)
      → let s : System (R × List Entry) = (record {
        observer = new_observer tid;
        domains = d;
        recorder = (r, []);
      }) in
        let t = run (journaled rec) ops s in
        (lost : List Entry) × ((p : Entry → Bool)
          → count p (all_numbered rec ops s)
            ≡ count p t.recorder.1 + count p (waiting rec t.observer) + count p lost)
        × CountsLost t.observer lost
  unfolding new_observer
  dropped-balance ops tid d r =
      let s : System (R × List Entry) = (record {
        observer = new_observer tid;
        domains = d;
        recorder = (r, []);
      }) in
      let (lost, e, c) = (run-Settles ops s).settle [] none_dropped in
      (lost, λ p. omega (arith, e p), c)
