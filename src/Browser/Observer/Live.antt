-- ===== src/Browser/Observer/Live.antt =====
-- What an observer has leased is enabled in Chrome, and it listens: the invariant, and what the actions
-- of a call do to it.
pub mod Leases
pub mod Sweeps
pub mod Series
use go_bb_browser.Prelude.{
  ℕ, zero, suc, ◌+◌, ◌≡◌, refl, Bool, true, false, not, ◌&&◌, ◌||◌, List, [], ◌∷◌, ◌++◌, Text,
  arith, take, length, ltb, leb, if◌then◌else◌, Bool-cases, Option, none, some, Option-cases, ◌∙◌,
  inl, inr, All,
}
use go_bb_browser.Prelude.Json.{Json}
use go_bb_browser.Browser.Observer.{
  ObservationKind, network_kind, console_kind, errors_kind, PerKind, at, put, Domains, Action,
  enable_network, enable_runtime, enable_log, disable_network, disable_runtime, disable_log,
  carry_out, carry_out_all, Answer, all_done, failed_after, run_cdp, TabObserver, ObsRecorder,
  disable_until_leased, enabling, activate, ensure_observation, remaining, lapses, disabling,
  expire, Event, observed_as, enqueue, listen, write_one, new_observer, QueuedObservation,
  observation_queue_capacity, store_item,
}
use go_bb_browser.Browser.Observer.Runs.{Op, leases, sweeps, hears, writes, System, step, run}

-- The domains that a kind needs are on.
abbrev pub IsOn : ObservationKind → Domains → Type 0
IsOn network_kind d = d.network_on ≡ true
IsOn console_kind d = d.runtime_on ≡ true
IsOn errors_kind d = (d.runtime_on ≡ true) × (d.log_on ≡ true)

-- What the active kinds need is on, the observer listens if a kind is active, and a kind is active only
-- after the domains have been switched off once.
pub record IsLive (o : TabObserver) (d : Domains) : Type 0 where
  pub for_network : o.active.of_network ≡ true → d.network_on ≡ true
  pub for_runtime : (o.active.of_console || o.active.of_errors) ≡ true → d.runtime_on ≡ true
  pub for_log : o.active.of_errors ≡ true → d.log_on ≡ true
  pub listens :
      (o.active.of_network || o.active.of_console || o.active.of_errors) ≡ true → o.listening ≡ true
  pub switched_off :
      (o.active.of_network || o.active.of_console || o.active.of_errors) ≡ true
      → o.domains_disabled ≡ true

pub new-IsLive : (tid : Text) (d : Domains) → IsLive (new_observer tid) d
unfolding new_observer
new-IsLive tid d = record {
  for_network = λ h. ground arith;
  for_runtime = λ h. ground arith;
  for_log = λ h. ground arith;
  listens = λ h. ground arith;
  switched_off = λ h. ground arith;
}

-- Each action keeps `P`.
abbrev pub Keep : (Domains → Type 0) → List Action → Type 0
Keep P actions = All (λ a. (d : Domains) → P d → P (carry_out a d)) actions

module _ (P : Domains → Type 0) where
  all-Keep :
      (actions : List Action) (d : Domains) → Keep P actions → P d → P (carry_out_all actions d)
  unfolding carry_out_all
  all-Keep [] d k p = p
  all-Keep (a ∷ actions) d k p = all-Keep actions (carry_out a d) k.1 (k.0 d p)

  some-Keep :
      (n : ℕ) (actions : List Action) (d : Domains)
      → Keep P actions
      → P d
      → P (carry_out_all (take n actions) d)
  unfolding carry_out_all
  some-Keep zero actions d k p = p
  some-Keep (suc n) [] d k p = p
  some-Keep (suc n) (a ∷ actions) d k p = some-Keep n actions (carry_out a d) k.1 (k.0 d p)

  pub run_cdp-Keep :
      (answer : Answer) (actions : List Action) (d : Domains)
      → Keep P actions
      → P d
      → P (run_cdp answer actions d).1
  unfolding run_cdp
  run_cdp-Keep all_done actions d k p = all-Keep actions d k p
  run_cdp-Keep (failed_after n) actions d k p = some-Keep n actions d k p

-- Where no kind is active, the domains do not matter.
switched-IsLive :
    (o : TabObserver) (d d' : Domains) → o.domains_disabled ≡ false → IsLive o d → IsLive o d'
switched-IsLive o d d' off v = record {
  for_network = λ h. ground (arith, v.switched_off);
  for_runtime = λ h. ground (arith, v.switched_off);
  for_log = λ h. ground (arith, v.switched_off);
  listens = v.listens;
  switched_off = v.switched_off;
}

pub disable-IsLive :
    (answer : Answer) (o : TabObserver) (d : Domains)
    → IsLive o d
    → let r = disable_until_leased answer o d in
      IsLive r.1 r.2 × (r.0 ≡ true → r.1.domains_disabled ≡ true)
unfolding disable_until_leased
disable-IsLive answer o d v = elim (Bool-cases o.domains_disabled) [
  | inl already ↦ simp (disable_until_leased, already) (v, λ h. refl)
  | inr first ↦
      elim (Bool-cases
        (run_cdp answer (disable_network ∷ disable_runtime ∷ disable_log ∷ []) d).0) [
          | inl done ↦
              rw (disable_until_leased, first, done)
                (
                  record {
                    for_network = λ h. ground (arith, v.switched_off);
                    for_runtime = λ h. ground (arith, v.switched_off);
                    for_log = λ h. ground (arith, v.switched_off);
                    listens = v.listens;
                    switched_off = λ h. refl;
                  },
                  λ h. refl,
                )
          | inr lost ↦
              simp (disable_until_leased, first, lost)
                (
                  switched-IsLive o d
                      (run_cdp answer (disable_network ∷ disable_runtime ∷ disable_log ∷ []) d).1
                      first v,
                  λ h. absurd (ground arith),
                )
        ]
]

module _ (P : Domains → Type 0) where
  pub both-Keep : (xs ys : List Action) → Keep P xs → Keep P ys → Keep P (xs ++ ys)
  both-Keep [] ys h k = k
  both-Keep (a ∷ xs) ys h k = (h.0, both-Keep xs ys h.1 k)

  pub unless-Keep :
      (b : Bool) (a : Action)
      → ((d : Domains) → P d → P (carry_out a d))
      → Keep P (if b then [] else a ∷ [])
  unless-Keep true a k = tt
  unless-Keep false a k = (k, tt)

  pub when-Keep :
      (b : Bool) (a : Action)
      → (b ≡ true → (d : Domains) → P d → P (carry_out a d))
      → Keep P (if b then a ∷ [] else [])
  when-Keep true a k = (k refl, tt)
  when-Keep false a k = tt

pub network_on-IsLive :
    (o : TabObserver) (d : Domains) → IsLive o d → IsLive o (carry_out enable_network d)
unfolding carry_out
network_on-IsLive o d v = record {
  for_network = λ h. refl;
  for_runtime = v.for_runtime;
  for_log = v.for_log;
  listens = v.listens;
  switched_off = v.switched_off;
}

pub runtime_on-IsLive :
    (o : TabObserver) (d : Domains) → IsLive o d → IsLive o (carry_out enable_runtime d)
unfolding carry_out
runtime_on-IsLive o d v = record {
  for_network = v.for_network;
  for_runtime = λ h. refl;
  for_log = v.for_log;
  listens = v.listens;
  switched_off = v.switched_off;
}

pub log_on-IsLive : (o : TabObserver) (d : Domains) → IsLive o d → IsLive o (carry_out enable_log d)
unfolding carry_out
log_on-IsLive o d v = record {
  for_network = v.for_network;
  for_runtime = v.for_runtime;
  for_log = λ h. refl;
  listens = v.listens;
  switched_off = v.switched_off;
}
