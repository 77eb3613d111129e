-- ===== src/Browser/Observer/Live/Series.antt =====
-- What an observer has leased, after any series of leases, sweeps and events.
use go_bb_browser.Prelude.{
  ℕ, ◌≡◌, refl, true, List, [], ◌∷◌, Text, arith, length, ltb, Bool-cases, Option, none, some,
  Option-cases, ◌∙◌, inl, inr,
}
use go_bb_browser.Prelude.Json.{Json}
use go_bb_browser.Browser.Observer.{
  ObservationKind, network_kind, console_kind, errors_kind, at, Domains, TabObserver, ObsRecorder,
  Event, observed_as, enqueue, listen, write_one, new_observer, QueuedObservation,
  observation_queue_capacity, store_item,
}
use go_bb_browser.Browser.Observer.Runs.{Op, leases, sweeps, hears, writes, System, step, run}
use go_bb_browser.Browser.Observer.Live.{IsOn, IsLive, new-IsLive}
use go_bb_browser.Browser.Observer.Live.Leases.{lease-IsLive}
use go_bb_browser.Browser.Observer.Live.Sweeps.{expire-IsLive}

-- Nothing of the leases changes.
record SameLeases (o t : TabObserver) : Type 0 where
  active : t.active ≡ o.active
  listening : t.listening ≡ o.listening
  switched : t.domains_disabled ≡ o.domains_disabled

enqueue-SameLeases :
    (kind : ObservationKind) (payload : Json) (n : ℕ) (o : TabObserver)
    → SameLeases o (enqueue kind payload n o)
unfolding enqueue
enqueue-SameLeases kind payload n o =
    elim (Bool-cases (ltb (length o.queue) observation_queue_capacity)) [
      | inl room ↦ rw (enqueue, room) (record { active = refl; listening = refl; switched = refl })
      | inr full ↦ rw (enqueue, full) (record { active = refl; listening = refl; switched = refl })
    ]

same-IsLive : (o t : TabObserver) (d : Domains) → SameLeases o t → IsLive o d → IsLive t d
same-IsLive o t d same v = record {
  for_network = λ h. v.for_network (rw⁻¹ same.active h);
  for_runtime = λ h. v.for_runtime (rw⁻¹ same.active h);
  for_log = λ h. v.for_log (rw⁻¹ same.active h);
  listens = λ h. same.listening ∙ v.listens (rw⁻¹ same.active h);
  switched_off = λ h. same.switched ∙ v.switched_off (rw⁻¹ same.active h);
}

module _ {R : Type 0} (rec : ObsRecorder R) where
  listen-SameLeases : (ev : Event) (o : TabObserver) (r : R) → SameLeases o (listen rec ev o r).0
  unfolding listen
  listen-SameLeases ev o r = elim (Option-cases (observed_as ev)) [
    | inl e ↦ rw (listen, e) unchanged
    | inr ((kind, payload), e) ↦ elim (Bool-cases (at o.active kind)) [
      | inr off ↦ rw (listen, e, off) unchanged
      | inl active ↦ elim (Option-cases (rec.next_seq r).0) [
        | inl none_left ↦ rw (listen, e, active, none_left) unchanged
        | inr (n, given) ↦ rw (listen, e, active, given) (enqueue-SameLeases kind payload n o)
      ]
    ]
  ]
    where
      unchanged : SameLeases o o
      unchanged = record { active = refl; listening = refl; switched = refl }

  write_one-SameLeases : (o : TabObserver) (r : R) → SameLeases o (write_one rec o r).0
  unfolding write_one
  write_one-SameLeases o r = by_queue o.queue refl
    where
      by_marshal :
          (item : QueuedObservation) (items : List QueuedObservation) (raw : Option Text)
          → SameLeases o (store_item rec item (record o { queue = items }) r raw).0
      by_marshal item items none = record { active = refl; listening = refl; switched = refl }
      by_marshal item items (some raw) = record { active = refl; listening = refl; switched = refl }

      by_queue : (q : List QueuedObservation) → o.queue ≡ q → SameLeases o (write_one rec o r).0
      by_queue [] e =
          rw (write_one, e) (record { active = refl; listening = refl; switched = refl })
      by_queue (item ∷ items) e =
          simp (write_one, e) (by_marshal item items (rec.marshal item.payload))

  step-IsLive :
      (op : Op) (s : System R)
      → IsLive s.observer s.domains
      → IsLive (step rec op s).observer (step rec op s).domains
  unfolding step
  step-IsLive (leases first second now kind) s v =
      lease-IsLive first second now kind s.observer s.domains v
  step-IsLive (sweeps answer now idle) s v = expire-IsLive answer now idle s.observer s.domains v
  step-IsLive (hears ev) s v =
      same-IsLive s.observer _ s.domains (listen-SameLeases ev s.observer s.recorder) v
  step-IsLive writes s v =
      same-IsLive s.observer _ s.domains (write_one-SameLeases s.observer s.recorder) v

  run-IsLive :
      (ops : List Op) (s : System R)
      → IsLive s.observer s.domains
      → IsLive (run rec ops s).observer (run rec ops s).domains
  unfolding run
  run-IsLive [] s v = v
  run-IsLive (op ∷ ops) s v = run-IsLive ops (step rec op s) (step-IsLive op s v)

  -- Whatever leases, sweeps, events and rounds of the writer come in whatever order, and whatever calls of
  -- Chrome fail half way: while a kind is active, the domains that it needs are enabled in Chrome and the
  -- observer listens, so that its events arrive.
  pub active-IsOn :
      (ops : List Op) (tid : Text) (d : Domains) (r : R) (kind : ObservationKind)
      → let s = run rec ops (record { observer = new_observer tid; domains = d; recorder = r }) in
        at s.observer.active kind ≡ true → IsOn kind s.domains × (s.observer.listening ≡ true)
  unfolding at
  active-IsOn ops tid d r network_kind active =
      let v =
        run-IsLive ops (record { observer = new_observer tid; domains = d; recorder = r })
          (new-IsLive tid d) in
      (v.for_network active, v.listens (ground arith))
  active-IsOn ops tid d r console_kind active =
      let v =
        run-IsLive ops (record { observer = new_observer tid; domains = d; recorder = r })
          (new-IsLive tid d) in
      (v.for_runtime (ground arith), v.listens (ground arith))
  active-IsOn ops tid d r errors_kind active =
      let v =
        run-IsLive ops (record { observer = new_observer tid; domains = d; recorder = r })
          (new-IsLive tid d) in
      ((v.for_runtime (ground arith), v.for_log active), v.listens (ground arith))
