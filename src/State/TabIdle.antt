-- ===== src/State/TabIdle.antt =====
-- internal/state/tab_idle.go. A time is a number of nanoseconds, a `time.Duration` a signed number
-- of them, and `time.Now()` an argument. A method on a nil tracker is not modelled: the daemon calls
-- none.
pub mod History
pub mod Expiry
mod Tests
use go_bb_browser.Prelude.{
  ℕ, zero, suc, ◌+◌, Bool, true, false, ◌&&◌, not, List, [], ◌∷◌, Option, none, some, Text, str_eq,
  leb, ltb, ℤ, pos, negsuc, if◌then◌else◌,
}
use go_bb_browser.Prelude.Map.{Map}
use go_bb_browser.Prelude.Map
use go_bb_browser.Prelude.Sort.{sort}
use go_bb_browser.State.Target.{in_set}

pub record TabIdleTracker : Type 0 where
  pub managed : Map ℕ

unfoldable pub new_tab_idle_tracker : TabIdleTracker
new_tab_idle_tracker = record { managed = [] }

pub mark_managed_at : TabIdleTracker → Text → ℕ → TabIdleTracker
mark_managed_at t id at =
    if str_eq id [] then t else record { managed = Map.insert id at t.managed }

pub mark_managed : TabIdleTracker → Text → ℕ → TabIdleTracker
unfolding mark_managed_at
mark_managed t id now = if str_eq id [] then t else mark_managed_at t id now

unfoldable pub mark_managed_if_absent_at : TabIdleTracker → Text → ℕ → TabIdleTracker
mark_managed_if_absent_at t id at =
    if str_eq id []
    then t
    else if Map.has id t.managed
    then t
    else record { managed = Map.insert id at t.managed }

pub touch : TabIdleTracker → Text → ℕ → TabIdleTracker
touch t id now =
    if str_eq id []
    then t
    else if Map.has id t.managed
    then record { managed = Map.insert id now t.managed }
    else t

pub forget : TabIdleTracker → Text → TabIdleTracker
forget t id = if str_eq id [] then t else record { managed = Map.delete id t.managed }

-- The ids that are not in the set `present`, in the map's order.
absent : List Text → Map ℕ → List Text
absent ids [] = []
absent ids ((id, at) ∷ m) = let rest = absent ids m in if in_set ids id then rest else id ∷ rest

pub sync_present_return_removed : TabIdleTracker → List Text → List Text × TabIdleTracker
unfolding absent
sync_present_return_removed t ids =
    (absent ids t.managed, record { managed = Map.restrict (in_set ids) t.managed })

pub sync_present : TabIdleTracker → List Text → TabIdleTracker
unfolding sync_present_return_removed
sync_present t ids = (sync_present_return_removed t ids).1

pub snapshot : TabIdleTracker → Map ℕ
snapshot t = t.managed

-- `timeout > 0 && !now.Before(last.Add(timeout))`
unfoldable pub is_due : ℕ → ℕ → ℤ → Bool
is_due last now (pos zero) = false
is_due last now (pos (suc n)) = not (ltb now (last + suc n))
is_due last now (negsuc n) = false

-- The loop of `Expired`.
due_ids : Map ℕ → ℕ → ℤ → List Text
due_ids [] now timeout = []
due_ids ((id, last) ∷ m) now timeout =
    let rest = due_ids m now timeout in if is_due last now timeout then id ∷ rest else rest

pub expired : TabIdleTracker → ℕ → ℤ → List Text
unfolding due_ids
expired t now timeout = sort (due_ids t.managed now timeout)

unfoldable pub is_expired : TabIdleTracker → Text → ℕ → ℤ → Bool
is_expired t id now timeout =
    if str_eq id []
    then false
    else elim (Map.get id t.managed) [ none ↦ false | some last ↦ is_due last now timeout ]
