-- ===== src/State/ObsStore/Tests.antt =====
-- Runs of the store of internal/state/obs_store.go, and the theorems at concrete calls.
use go_bb_browser.Prelude.{
  ◌≡◌, refl, ◌-◌, ◌%◌, List, [], ◌∷◌, arith, max, codes, pos, length, none, some, Text,
}
use go_bb_browser.State.Ring.{two64}
use go_bb_browser.State.Ring.Query.{newer, newest}
use go_bb_browser.State.Ring.History.{last}
use go_bb_browser.State.ObsStore.{new_tab_obs_store_with_caps, entries_to_obs}
use go_bb_browser.State.ObsStore.Rings.{network, console, query}
use go_bb_browser.State.ObsStore.History.{Op, pushes, clears, syncs, run, history, query-history}

abbrev tab : Text
tab = codes "A1"

abbrev calls : List Op
calls =
    pushes network tab 10 (codes "1")
    ∷ pushes console tab 11 (codes "2")
    ∷ pushes network (codes "B2") 12 (codes "3")
    ∷ clears console tab
    ∷ syncs
        (some (record { kind = codes "page"; target_id = tab; title = []; url = [] }) ∷ none ∷ [])
    ∷ pushes network tab 13 (codes "4")
    ∷ []

query-history_example :
    let es = history network tab [] calls in
    query network (run (new_tab_obs_store_with_caps (pos 1) (pos 2) (pos 3)) calls) tab 5
    ≡ (entries_to_obs (newer 5 (last 1 es)), max 5 (newest (last 1 es)), (length es - 1) % two64)
unfolding new_tab_obs_store_with_caps
query-history_example =
    query-history network tab (pos 1) (pos 2) (pos 3) calls 5 1 refl (omega arith)
