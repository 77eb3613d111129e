-- ===== src/Browser/Observer/Live/Sweeps.antt =====
-- expire of internal/browser/observer.go, and what an observer has leased.
use go_bb_browser.Prelude.{
  ℕ, ◌≡◌, Bool, true, not, ◌&&◌, ◌||◌, [], ◌∷◌, ◌++◌, arith, if◌then◌else◌, Bool-cases, inl, inr,
}
use go_bb_browser.Browser.Observer.{
  PerKind, Domains, disable_network, disable_runtime, disable_log, carry_out, Answer, TabObserver,
  remaining, lapses, disabling, expire,
}
use go_bb_browser.Browser.Observer.Live.{IsLive, Keep, both-Keep, when-Keep, run_cdp-Keep}

module _ (o : TabObserver) (rest : PerKind Bool) where
  abbrev some_rest : Bool
  some_rest = rest.of_network || rest.of_console || rest.of_errors

  abbrev kept : TabObserver
  kept = record o { active = rest; listening = o.listening && some_rest }

  network_off-IsLive :
      o.active.of_network && not rest.of_network ≡ true
      → (d : Domains) → IsLive kept d
      → IsLive kept (carry_out disable_network d)
  unfolding carry_out
  network_off-IsLive b d v = record {
    for_network = λ h. ground arith;
    for_runtime = v.for_runtime;
    for_log = v.for_log;
    listens = v.listens;
    switched_off = v.switched_off;
  }

  log_off-IsLive :
      o.active.of_errors && not rest.of_errors ≡ true
      → (d : Domains) → IsLive kept d
      → IsLive kept (carry_out disable_log d)
  unfolding carry_out
  log_off-IsLive b d v = record {
    for_network = v.for_network;
    for_runtime = v.for_runtime;
    for_log = λ h. ground arith;
    listens = v.listens;
    switched_off = v.switched_off;
  }

  runtime_off-IsLive :
      (o.active.of_console || o.active.of_errors) && not (rest.of_console || rest.of_errors) ≡ true
      → (d : Domains) → IsLive kept d
      → IsLive kept (carry_out disable_runtime d)
  unfolding carry_out
  runtime_off-IsLive b d v = record {
    for_network = v.for_network;
    for_runtime = λ h. ground arith;
    for_log = v.for_log;
    listens = v.listens;
    switched_off = v.switched_off;
  }

  -- Switching off what no kind needs any longer keeps what is on.
  disabling-Keep : Keep (IsLive kept) (disabling o.active rest)
  unfolding disabling
  disabling-Keep =
      let network = o.active.of_network && not rest.of_network in
      let log = o.active.of_errors && not rest.of_errors in
      let runtime =
        (o.active.of_console || o.active.of_errors) && not (rest.of_console || rest.of_errors) in
      let first = if network then disable_network ∷ [] else [] in
      let second = if log then disable_log ∷ [] else [] in
      both-Keep (IsLive kept) (first ++ second) (if runtime then disable_runtime ∷ [] else [])
        (both-Keep (IsLive kept) first second
          (when-Keep (IsLive kept) network disable_network network_off-IsLive)
          (when-Keep (IsLive kept) log disable_log log_off-IsLive))
        (when-Keep (IsLive kept) runtime disable_runtime runtime_off-IsLive)

  kept-IsLive :
      (d : Domains)
      → (rest.of_network ≡ true → o.active.of_network ≡ true)
      → (rest.of_console ≡ true → o.active.of_console ≡ true)
      → (rest.of_errors ≡ true → o.active.of_errors ≡ true)
      → IsLive o d
      → IsLive kept d
  kept-IsLive d a b c v = record {
    for_network = λ h. ground (arith, v.for_network);
    for_runtime = λ h. ground (arith, v.for_runtime);
    for_log = λ h. ground (arith, v.for_log);
    listens = λ h. ground (arith, v.listens);
    switched_off = λ h. ground (arith, v.switched_off);
  }

pub expire-IsLive :
    (answer : Answer) (now idle : ℕ) (o : TabObserver) (d : Domains)
    → IsLive o d
    → let r = expire answer now idle o d in IsLive r.0 r.1
unfolding expire
expire-IsLive answer now idle o d v =
    let rest = remaining now idle o in
    let v' = kept-IsLive o rest d (λ h. ground arith) (λ h. ground arith) (λ h. ground arith) v in
    elim (Bool-cases (lapses o.active rest)) [
      | inl some_lapse ↦
          rw (expire, some_lapse)
            (run_cdp-Keep (IsLive (kept o rest)) answer (disabling o.active rest) d
              (disabling-Keep o rest) v')
      | inr same ↦ rw (expire, same) v
    ]
