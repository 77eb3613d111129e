-- ===== src/State/TabIdle/Tests.antt =====
-- The theorems of internal/state/tab_idle.go at a concrete history.
use go_bb_browser.Prelude.{
  ℕ, ◌+◌, ◌≤◌, ◌≡◌, ◌↔◌, refl, true, List, [], ◌∷◌, none, some, Text, arith, codes, pos,
}
use go_bb_browser.Prelude.Map
use go_bb_browser.State.Target.{in_set}
use go_bb_browser.State.TabIdle.{TabIdleTracker, new_tab_idle_tracker, expired, is_expired}
use go_bb_browser.State.TabIdle.History.{
  Op, marks, touches, forgets, syncs, marks_absent, run, last_activity, get-history,
}
use go_bb_browser.State.TabIdle.Expiry.{due_of, expired-is_expired}

abbrev tab : Text
tab = codes "A1"

abbrev calls : List Op
calls =
    marks tab 100
    ∷ marks (codes "B2") 110
    ∷ touches tab 150
    ∷ marks_absent tab 20
    ∷ syncs (tab ∷ [])
    ∷ forgets (codes "B2")
    ∷ []

get-history_example :
    Map.get tab (run new_tab_idle_tracker calls).managed ≡ last_activity tab none calls
unfolding go_bb_browser.Prelude.str_eq
get-history_example = get-history calls tab refl

expired-is_expired_example :
    let t = run new_tab_idle_tracker calls in
    (in_set (expired t 200 (pos 50)) tab ≡ is_expired t tab 200 (pos 50))
    × (is_expired t tab 200 (pos 50) ≡ due_of (last_activity tab none calls) 200 (pos 50))
unfolding go_bb_browser.Prelude.str_eq
expired-is_expired_example = expired-is_expired calls tab 200 (pos 50) refl

abbrev tracker : TabIdleTracker
tracker = record { managed = (tab, 100) ∷ [] }
