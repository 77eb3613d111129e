-- ===== src/Browser/Observer/Live/Leases.antt =====
-- EnsureObservation of internal/browser/observer.go, and what an observer has leased.
use go_bb_browser.Prelude.{
  ℕ, ◌≡◌, refl, true, false, ◌||◌, List, [], ◌∷◌, arith, length, ltb, if◌then◌else◌, Bool-cases,
  inl, inr,
}
use go_bb_browser.Browser.Observer.{
  ObservationKind, network_kind, console_kind, errors_kind, put, Domains, Action, enable_network,
  enable_runtime, enable_log, carry_out, carry_out_all, Answer, all_done, failed_after, run_cdp,
  TabObserver, disable_until_leased, enabling, activate, ensure_observation,
}
use go_bb_browser.Browser.Observer.Live.{
  IsLive, Keep, both-Keep, unless-Keep, run_cdp-Keep, network_on-IsLive, runtime_on-IsLive,
  log_on-IsLive, disable-IsLive,
}

-- Switching a domain on keeps what is on.
enabling-Keep :
    (o : TabObserver) (kind : ObservationKind) → Keep (IsLive o) (enabling o.active kind)
unfolding enabling
enabling-Keep o network_kind =
    unless-Keep (IsLive o) o.active.of_network enable_network (network_on-IsLive o)
enabling-Keep o console_kind =
    unless-Keep (IsLive o) (o.active.of_console || o.active.of_errors) enable_runtime
      (runtime_on-IsLive o)
enabling-Keep o errors_kind =
    let needed = o.active.of_console || o.active.of_errors in
    both-Keep (IsLive o) (if needed then [] else enable_runtime ∷ [])
      (if o.active.of_errors then [] else enable_log ∷ [])
      (unless-Keep (IsLive o) needed enable_runtime (runtime_on-IsLive o))
      (unless-Keep (IsLive o) o.active.of_errors enable_log (log_on-IsLive o))

-- The lease of a kind for which Chrome has done all.
enabled-IsLive :
    (o : TabObserver) (kind : ObservationKind) (now : ℕ) (d : Domains)
    → o.domains_disabled ≡ true
    → o.listening ≡ true
    → IsLive o d
    → IsLive
        (record o { active = put o.active kind true; last_touch = put o.last_touch kind now })
        (carry_out_all (enabling o.active kind) d)
unfolding enabling carry_out carry_out_all put
enabled-IsLive o network_kind now d off heard v = record {
  for_network = λ h. ground (arith, v.for_network);
  for_runtime = λ h. ground (arith, v.for_runtime);
  for_log = λ h. ground (arith, v.for_log);
  listens = λ h. heard;
  switched_off = λ h. off;
}
enabled-IsLive o console_kind now d off heard v = record {
  for_network = λ h. ground (arith, v.for_network);
  for_runtime = λ h. ground (arith, v.for_runtime);
  for_log = λ h. ground (arith, v.for_log);
  listens = λ h. heard;
  switched_off = λ h. off;
}
enabled-IsLive o errors_kind now d off heard v = record {
  for_network = λ h. ground (arith, v.for_network);
  for_runtime = λ h. ground (arith, v.for_runtime);
  for_log = λ h. ground (arith, v.for_log);
  listens = λ h. heard;
  switched_off = λ h. off;
}

nothing_done :
    (actions : List Action) (d : Domains)
    → ltb 0 (length actions) ≡ false
    → carry_out_all actions d ≡ d
unfolding carry_out_all
nothing_done [] d h = refl
nothing_done (a ∷ actions) d h = absurd (ground arith)

run_cdp-all :
    (answer : Answer) (actions : List Action) (d : Domains)
    → (run_cdp answer actions d).0 ≡ true
    → (run_cdp answer actions d).1 ≡ carry_out_all actions d
unfolding run_cdp
run_cdp-all all_done actions d h = refl
run_cdp-all (failed_after n) actions d h = absurd (let f : false ≡ true = h in cc)

activate-IsLive :
    (answer : Answer) (now : ℕ) (kind : ObservationKind) (o : TabObserver) (d : Domains)
    → o.domains_disabled ≡ true
    → IsLive o d
    → let r = activate answer now kind o d in IsLive r.1 r.2
unfolding activate
activate-IsLive answer now kind o d off v =
    let actions = enabling o.active kind in
    let heard : TabObserver = record o { listening = true } in
    let v' : IsLive heard d = (record {
      for_network = v.for_network;
      for_runtime = v.for_runtime;
      for_log = v.for_log;
      listens = λ h. refl;
      switched_off = v.switched_off;
    }) in
    let leased = enabled-IsLive heard kind now d off refl v' in
    elim (Bool-cases (ltb 0 (length actions))) [
      | inr nothing ↦ simp (activate, nothing) (rw⁻¹ (nothing_done actions d nothing) leased)
      | inl some_needed ↦ elim (Bool-cases (run_cdp answer actions d).0) [
        | inl done ↦ rw (activate, some_needed, done, run_cdp-all answer actions d done) leased
        | inr lost ↦
            rw (activate, some_needed, lost)
              (run_cdp-Keep (IsLive heard) answer actions d (enabling-Keep heard kind) v')
      ]
    ]

pub lease-IsLive :
    (first second : Answer) (now : ℕ) (kind : ObservationKind) (o : TabObserver) (d : Domains)
    → IsLive o d
    → let r = ensure_observation first second now kind o d in IsLive r.1 r.2
unfolding ensure_observation
lease-IsLive first second now kind o d v =
    let r = disable_until_leased first o d in
    let (v', off) = disable-IsLive first o d v in
    elim (Bool-cases r.0) [
      | inl ready ↦
          rw (ensure_observation, ready) (activate-IsLive second now kind r.1 r.2 (off ready) v')
      | inr lost ↦ rw (ensure_observation, lost) v'
    ]
