-- ===== src/Daemon/Probes.antt =====
-- internal/daemon/browser_reconnect.go: a series of probes of a connected browser.
use go_bb_browser.Prelude.{
  ℕ, zero, suc, ◌+◌, ◌≤◌, ◌<◌, ◌≡◌, refl, sym, ap, subst, ◌∙◌, ◌↔◌, ◌⊎◌, inl, inr, Bool, true,
  false, ◌||◌, none, List, [], ◌∷◌, ◌++◌, arith, ltb, leb, ◌==◌, if◌then◌else◌, Bool-cases,
}
use go_bb_browser.Prelude.{ℤ, pos, negsuc}
use go_bb_browser.Daemon.Watchdog.{
  SessionState, starting, ready, suspect, failed, Server, connected, failure_limit,
  probe_browser_session, ensure_browser_session, BrowserHealth, disconnected, connected_health,
  browser_health_field,
}

-- Probes, each with its time and whether it succeeds.
abbrev pub probes : ℤ → List (ℕ × Bool) → Server → Server
probes limit [] s = s
probes limit ((now, ok) ∷ ps) s = probes limit ps (probe_browser_session limit now ok s)

-- So many failures in a row.
abbrev pub misses : ℕ → List Bool
misses zero = []
misses (suc k) = false ∷ misses k

abbrev pub results : List (ℕ × Bool) → List Bool
results [] = []
results ((now, ok) ∷ ps) = ok ∷ results ps

-- The results have so many failures in a row somewhere.
pub HasRun : ℕ → List Bool → Type 0
HasRun limit rs = (before after : List Bool) × (rs ≡ before ++ misses limit ++ after)

-- How many failures stand at the end, after `n` before the list.
abbrev pub streak : ℕ → List Bool → ℕ
streak n [] = n
streak n (true ∷ rs) = streak 0 rs
streak n (false ∷ rs) = streak (n + 1) rs

-- Whether the streak reaches the limit at some point, after `n` failures before the list.
reached : ℕ → ℕ → List Bool → Bool
reached limit n [] = false
reached limit n (true ∷ rs) = reached limit 0 rs
reached limit n (false ∷ rs) = leb limit (n + 1) || reached limit (n + 1) rs

Begins : ℕ → List Bool → Type 0
Begins k rs = (after : List Bool) × (rs ≡ misses k ++ after)

HasRun-cons : (limit : ℕ) (r : Bool) (rs : List Bool) → HasRun limit rs → HasRun limit (r ∷ rs)
unfolding HasRun
HasRun-cons limit r rs (before, after, e) = (r ∷ before, after, ap (λ x. r ∷ x) e)

reached-run :
    (limit k n : ℕ) (rs : List Bool)
    → n + k ≡ limit
    → 0 < k
    → reached limit n rs ≡ true
    → Begins k rs ⊎ HasRun limit rs
unfolding reached Begins HasRun
reached-run limit k n [] e p h = absurd cc
reached-run limit k n (true ∷ rs) e p h =
    elim (reached-run limit limit 0 rs (omega arith) (omega arith) h) [
      | inl (after, q) ↦ inr (true ∷ [], after, ap (λ x. true ∷ x) q)
      | inr r ↦ inr (HasRun-cons limit true rs r)
    ]
reached-run limit zero n (false ∷ rs) e p h = absurd (omega arith)
reached-run limit (suc zero) n (false ∷ rs) e p h = inl (rs, refl)
reached-run limit (suc (suc k)) n (false ∷ rs) e p h =
    elim (reached-run limit (suc k) (n + 1) rs (omega arith) (omega arith) (ground (arith, h, e))) [
      | inl (after, q) ↦ inl (after, ap (λ x. false ∷ x) q)
      | inr r ↦ inr (HasRun-cons limit false rs r)
    ]

begins-reached :
    (limit k n : ℕ) (after : List Bool)
    → limit ≤ n + k
    → 0 < k
    → reached limit n (misses k ++ after) ≡ true
unfolding reached
begins-reached limit zero n after e p = absurd (omega arith)
begins-reached limit (suc zero) n after e p = ground (arith, e)
begins-reached limit (suc (suc k)) n after e p =
    ground (arith, begins-reached limit (suc k) (n + 1) after (omega arith) (omega arith))

run-reached :
    (limit n : ℕ) (before after : List Bool)
    → 0 < limit
    → reached limit n (before ++ misses limit ++ after) ≡ true
unfolding reached
run-reached limit n [] after p = begins-reached limit limit n after (omega arith) p
run-reached limit n (true ∷ before) after p = run-reached limit 0 before after p
run-reached limit n (false ∷ before) after p =
    ground (arith, run-reached limit (n + 1) before after p)

reached_iff :
    (limit : ℕ) (rs : List Bool) → 0 < limit → (reached limit 0 rs ≡ true) ↔ HasRun limit rs
unfolding Begins HasRun
reached_iff limit rs p = (
  λ h. elim (reached-run limit limit 0 rs (omega arith) p h) [
    | inl (after, q) ↦ ([], after, q)
    | inr r ↦ r
  ],
  λ r. rw (r.2) (run-reached limit 0 r.0 r.1 p),
)

-- The state that so many failures at the end stand for.
abbrev pub state_of : ℕ → ℕ → SessionState
state_of limit zero = ready
state_of limit (suc k) = if leb limit (suc k) then failed else suspect

-- Between two probes: so many failures at the end, and whether the daemon has been told to stop.
record Meets (limit : ℕ) (n : ℕ) (fatal : Bool) (s : Server) : Type 0 where
  skip : s.skip_browser_attach ≡ false
  hook : s.tab_hook ≡ none
  live : s.tab_live ≡ true
  idle : s.probe_in_flight ≡ false
  failures : s.browser_failures ≡ n
  is_fatal : s.is_fatal ≡ fatal
  state : s.browser_state ≡ state_of limit n

state_of-suc :
    (limit n : ℕ) → state_of limit (n + 1) ≡ (if leb limit (n + 1) then failed else suspect)
state_of-suc limit n = let e : n + 1 ≡ suc n = omega arith in rw e refl

probe-Meets :
    (limit : ℤ) (now n : ℕ) (fatal : Bool) (s : Server)
    → Meets (failure_limit limit) n fatal s
    → Meets (failure_limit limit) 0 fatal (probe_browser_session limit now true s)
unfolding probe_browser_session
probe-Meets limit now n fatal s m = rw (m.idle) (record {
  skip = m.skip;
  hook = m.hook;
  live = m.live;
  idle = refl;
  failures = refl;
  is_fatal = m.is_fatal;
  state = refl;
})

-- A probe that fails, with the count and the mark as they stand.
miss-own :
    (limit : ℤ) (now : ℕ) (s : Server)
    → Meets (failure_limit limit) s.browser_failures s.is_fatal s
    → Meets
        (failure_limit limit)
        (s.browser_failures + 1)
        (s.is_fatal || leb (failure_limit limit) (s.browser_failures + 1))
        (probe_browser_session limit now false s)
unfolding probe_browser_session
miss-own limit now s m = elim (Bool-cases (leb (failure_limit limit) (s.browser_failures + 1))) [
  | inl b ↦ elim (Bool-cases s.is_fatal) [
    | inl f ↦
        rw (m.idle, b, f)
          (record {
            skip = m.skip;
            hook = m.hook;
            live = m.live;
            idle = refl;
            failures = refl;
            is_fatal = refl;
            state = sym (state_of-suc (failure_limit limit) s.browser_failures ∙ rw b refl);
          })
    | inr f ↦
        rw (m.idle, b, f)
          (record {
            skip = m.skip;
            hook = m.hook;
            live = m.live;
            idle = refl;
            failures = refl;
            is_fatal = refl;
            state = sym (state_of-suc (failure_limit limit) s.browser_failures ∙ rw b refl);
          })
  ]
  | inr b ↦
      rw (m.idle, b)
        (record {
          skip = m.skip;
          hook = m.hook;
          live = m.live;
          idle = refl;
          failures = refl;
          is_fatal = ground arith;
          state = sym (state_of-suc (failure_limit limit) s.browser_failures ∙ rw b refl);
        })
]

miss-Meets :
    (limit : ℤ) (now n : ℕ) (fatal : Bool) (s : Server)
    → Meets (failure_limit limit) n fatal s
    → Meets
        (failure_limit limit)
        (n + 1)
        (fatal || leb (failure_limit limit) (n + 1))
        (probe_browser_session limit now false s)
miss-Meets limit now n fatal s m =
    subst (λ f. Meets L (n + 1) (f || leb L (n + 1)) next) m.is_fatal
      (subst (λ k. Meets L (k + 1) (s.is_fatal || leb L (k + 1)) next) m.failures
        (miss-own limit now s (
          subst (λ k. Meets L k s.is_fatal s) (sym m.failures)
            (subst (λ f. Meets L n f s) (sym m.is_fatal) m))))
  where
    L : ℕ
    L = failure_limit limit

    next : Server
    next = probe_browser_session limit now false s

probes-Meets :
    (limit : ℤ) (ps : List (ℕ × Bool)) (n : ℕ) (fatal : Bool) (s : Server)
    → Meets (failure_limit limit) n fatal s
    → Meets
        (failure_limit limit)
        (streak n (results ps))
        (fatal || reached (failure_limit limit) n (results ps))
        (probes limit ps s)
unfolding reached
probes-Meets limit [] n fatal s m = subst (λ f. Meets (failure_limit limit) n f s) (ground arith) m
probes-Meets limit ((now, true) ∷ ps) n fatal s m =
    probes-Meets limit ps 0 fatal (probe_browser_session limit now true s)
      (probe-Meets limit now n fatal s m)
probes-Meets limit ((now, false) ∷ ps) n fatal s m =
    let next = probe_browser_session limit now false s in
    let L = failure_limit limit in
    subst (λ f. Meets L (streak (n + 1) (results ps)) f (probes limit ps next)) (ground arith)
      (probes-Meets limit ps (n + 1) (fatal || leb L (n + 1)) next
        (miss-Meets limit now n fatal s m))

connected-Meets :
    (limit : ℤ) (now : ℕ) (s : Server)
    → s.skip_browser_attach ≡ false
    → s.tab_hook ≡ none
    → s.probe_in_flight ≡ false
    → s.is_fatal ≡ false
    → Meets (failure_limit limit) 0 false (connected now s)
unfolding connected
connected-Meets limit now s skip hook idle fresh = record {
  skip = skip;
  hook = hook;
  live = refl;
  idle = idle;
  failures = refl;
  is_fatal = fresh;
  state = refl;
}

failure_limit_pos : (limit : ℤ) → 0 < failure_limit limit
unfolding failure_limit
failure_limit_pos (pos zero) = omega arith
failure_limit_pos (pos (suc n)) = omega arith
failure_limit_pos (negsuc n) = omega arith

-- After any probes of a browser that has just been connected, the daemon has been told to stop exactly
-- when as many of them as the limit says have failed in a row.
pub probes-is_fatal :
    (limit : ℤ) (now : ℕ) (ps : List (ℕ × Bool)) (s : Server)
    → s.skip_browser_attach ≡ false
    → s.tab_hook ≡ none
    → s.probe_in_flight ≡ false
    → s.is_fatal ≡ false
    → ((probes limit ps (connected now s)).is_fatal ≡ true)
      ↔ HasRun (failure_limit limit) (results ps)
probes-is_fatal limit now ps s skip hook idle fresh =
    let m =
      probes-Meets limit ps 0 false (connected now s)
        (connected-Meets limit now s skip hook idle fresh) in
    rw (m.is_fatal) (reached_iff (failure_limit limit) (results ps) (failure_limit_pos limit))

-- After any probes of a browser that has just been connected, a request may use the browser exactly
-- when fewer probes than the limit have failed since the last success, and the strict health check
-- says that the browser is connected exactly when the last probe, if any, has succeeded.
pub probes-health :
    (limit : ℤ) (now : ℕ) (ps : List (ℕ × Bool)) (s : Server)
    → s.skip_browser_attach ≡ false
    → s.tab_hook ≡ none
    → s.probe_in_flight ≡ false
    → s.is_fatal ≡ false
    → let s' = probes limit ps (connected now s) in
      let failures = streak 0 (results ps) in
      (ensure_browser_session s' ≡ ltb failures (failure_limit limit))
      × (browser_health_field true s' ≡ (if failures == 0 then connected_health else disconnected))
unfolding ensure_browser_session browser_health_field
probes-health limit now ps s skip hook idle fresh =
    let m =
      probes-Meets limit ps 0 false (connected now s)
        (connected-Meets limit now s skip hook idle fresh) in
    rw (ensure_browser_session, browser_health_field, m.skip, m.hook, m.live, m.state)
      (verdict (failure_limit limit) (streak 0 (results ps)) (failure_limit_pos limit))
  where
    verdict :
        (limit failures : ℕ)
        → 0 < limit
        → ((elim (state_of limit failures) as (λ _. Bool) [ failed ↦ false | other ↦ true ])
            ≡ ltb failures limit)
          × ((elim (state_of limit failures) as (λ _. BrowserHealth) [
            | failed ↦ disconnected
            | starting ↦ disconnected
            | suspect ↦ disconnected
            | ready ↦ connected_health
          ])
              ≡ (if failures == 0 then connected_health else disconnected))
    verdict limit zero p = (ground arith, refl)
    verdict limit (suc k) p = elim (Bool-cases (leb limit (suc k))) [
      | inl b ↦ rw b ((ground arith, ground arith))
      | inr b ↦ rw b ((ground arith, ground arith))
    ]
