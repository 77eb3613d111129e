-- ===== src/State/TabIdle/Expiry.antt =====
-- Which tabs internal/state/tab_idle.go reports as idle.
use go_bb_browser.Prelude.{
  Bool-cases, inl, inr, ◌↔◌, ℕ, ◌+◌, ◌≤◌, ◌<◌, ◌≡◌, refl, ap, Bool, true, false, List, [], ◌∷◌,
  Option, none, some, Text, str_eq, str_eq_iff, arith, ℤ, pos, zero, suc,
}
use go_bb_browser.Prelude.Map.{Map, IsMap, get-insert}
use go_bb_browser.Prelude.Map
use go_bb_browser.Prelude.Sort.{any-sort}
use go_bb_browser.State.Target.{in_set}
use go_bb_browser.State.TabIdle.{
  TabIdleTracker, new_tab_idle_tracker, due_ids, expired, is_expired, is_due, touch,
}
use go_bb_browser.State.TabIdle.History.{Op, run, last_activity, get-history, history-IsMap}

-- Whether a tab of this activity is due.
abbrev pub due_of : Option ℕ → ℕ → ℤ → Bool
due_of none now timeout = false
due_of (some last) now timeout = is_due last now timeout

in_set-due_ids :
    (m : Map ℕ) (now : ℕ) (timeout : ℤ) (id : Text)
    → IsMap m
    → in_set (due_ids m now timeout) id ≡ due_of (Map.get id m) now timeout
unfolding due_ids Map.get
in_set-due_ids [] now timeout id h = refl
in_set-due_ids ((i, last) ∷ m) now timeout id h = elim (Bool-cases (str_eq i id)) [
  | inl e ↦
      let same = ap (λ x. Map.get x m) ((str_eq_iff i id).0 e) in
      ground (arith, in_set-due_ids m now timeout id h.1, same)
  | inr e ↦ ground (arith, in_set-due_ids m now timeout id h.1)
]

-- After any calls on a new tracker and for a tab with a nonempty id, `Expired` lists the tab exactly
-- when `IsExpired` says so, and that is exactly when the history of the calls leaves the tab managed
-- with its last activity at least a positive timeout ago.
pub expired-is_expired :
    (ops : List Op) (id : Text) (now : ℕ) (timeout : ℤ)
    → str_eq id [] ≡ false
    → let t = run new_tab_idle_tracker ops in
      (in_set (expired t now timeout) id ≡ is_expired t id now timeout)
      × (is_expired t id now timeout ≡ due_of (last_activity id none ops) now timeout)
unfolding expired is_expired
expired-is_expired ops id now timeout h =
    let m = (run new_tab_idle_tracker ops).managed in
    ground (
      arith,
      any-sort (λ i. str_eq i id) (due_ids m now timeout),
      in_set-due_ids m now timeout id (history-IsMap ops),
      get-history ops id h,
    )

-- A touch of a managed tab keeps it from expiring until the timeout, a positive one, has passed.
pub touch-is_expired :
    (t : TabIdleTracker) (id : Text) (last now later timeout : ℕ)
    → str_eq id [] ≡ false
    → Map.get id t.managed ≡ some last
    → 0 < timeout
    → (is_expired (touch t id now) id later (pos timeout) ≡ true) ↔ (now + timeout ≤ later)
unfolding is_expired touch is_due
touch-is_expired t id last now later zero h e p = absurd (omega arith)
touch-is_expired t id last now later (suc timeout) h e p =
    ground (arith, get-insert id id now t.managed, str_eq_iff id id)
