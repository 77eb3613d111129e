-- ===== src/State/TabIdle/History.antt =====
-- The tracker of internal/state/tab_idle.go against the history of the calls made on it.
use go_bb_browser.Prelude.{
  Option-cases, inl, inr, ℕ, ◌≡◌, refl, ◌∙◌, ap, false, List, [], ◌∷◌, Option, none, some, Text,
  str_eq, str_eq_iff, arith, if◌then◌else◌,
}
use go_bb_browser.Prelude.Map.{
  Map, get-insert, get-delete, get-restrict, insert-IsMap, delete-IsMap, restrict-IsMap, IsMap,
}
use go_bb_browser.Prelude.Map
use go_bb_browser.State.Target.{in_set}
use go_bb_browser.State.TabIdle.{
  TabIdleTracker, new_tab_idle_tracker, mark_managed_at, mark_managed, mark_managed_if_absent_at,
  touch, forget, sync_present, sync_present_return_removed,
}

pub data Op : Type 0 where
  marks : Text → ℕ → Op
  marks_at : Text → ℕ → Op
  marks_absent : Text → ℕ → Op
  touches : Text → ℕ → Op
  forgets : Text → Op
  syncs : List Text → Op

pub step : TabIdleTracker → Op → TabIdleTracker
step t (marks id now) = mark_managed t id now
step t (marks_at id at) = mark_managed_at t id at
step t (marks_absent id at) = mark_managed_if_absent_at t id at
step t (touches id now) = touch t id now
step t (forgets id) = forget t id
step t (syncs ids) = sync_present t ids

pub run : TabIdleTracker → List Op → TabIdleTracker
run t [] = t
run t (op ∷ ops) = run (step t op) ops

-- What a call does to what is known of the tab `id`: not managed, or its last activity.
pub activity : Text → Option ℕ → Op → Option ℕ
activity id a (marks i now) = if str_eq i id then some now else a
activity id a (marks_at i at) = if str_eq i id then some at else a
activity id none (marks_absent i at) = if str_eq i id then some at else none
activity id (some last) (marks_absent i at) = some last
activity id none (touches i now) = none
activity id (some last) (touches i now) = if str_eq i id then some now else some last
activity id a (forgets i) = if str_eq i id then none else a
activity id a (syncs ids) = if in_set ids id then a else none

pub last_activity : Text → Option ℕ → List Op → Option ℕ
last_activity id a [] = a
last_activity id a (op ∷ ops) = last_activity id (activity id a op) ops

get-step :
    (t : TabIdleTracker) (op : Op) (id : Text)
    → str_eq id [] ≡ false
    → Map.get id (step t op).managed ≡ activity id (Map.get id t.managed) op
unfolding step activity mark_managed_at mark_managed mark_managed_if_absent_at touch forget
    sync_present sync_present_return_removed
get-step t (marks i now) id h =
    ground
      (arith, get-insert id i now t.managed, str_eq_iff i id, str_eq_iff i [], str_eq_iff id [])
get-step t (marks_at i now) id h =
    ground
      (arith, get-insert id i now t.managed, str_eq_iff i id, str_eq_iff i [], str_eq_iff id [])
get-step t (marks_absent i now) id h =
    ground
      (arith, get-insert id i now t.managed, str_eq_iff i id, str_eq_iff i [], str_eq_iff id [])
get-step t (touches i now) id h =
    ground
      (arith, get-insert id i now t.managed, str_eq_iff i id, str_eq_iff i [], str_eq_iff id [])
get-step t (forgets i) id h =
    ground (arith, get-delete id i t.managed, str_eq_iff i id, str_eq_iff i [], str_eq_iff id [])
get-step t (syncs ids) id h = ground (arith, get-restrict id (in_set ids) t.managed)

get-run :
    (t : TabIdleTracker) (ops : List Op) (id : Text)
    → str_eq id [] ≡ false
    → Map.get id (run t ops).managed ≡ last_activity id (Map.get id t.managed) ops
unfolding run last_activity
get-run t [] id h = refl
get-run t (op ∷ ops) id h =
    get-run (step t op) ops id h ∙ ap (λ a. last_activity id a ops) (get-step t op id h)

step-IsMap : (t : TabIdleTracker) (op : Op) → IsMap t.managed → IsMap (step t op).managed
unfolding step mark_managed_at mark_managed mark_managed_if_absent_at touch forget sync_present
    sync_present_return_removed
step-IsMap t (marks i now) h = ground (arith, insert-IsMap i now t.managed h)
step-IsMap t (marks_at i now) h = ground (arith, insert-IsMap i now t.managed h)
step-IsMap t (marks_absent i now) h = ground (arith, insert-IsMap i now t.managed h)
step-IsMap t (touches i now) h = ground (arith, insert-IsMap i now t.managed h)
step-IsMap t (forgets i) h = ground (arith, delete-IsMap i t.managed h)
step-IsMap t (syncs ids) h = restrict-IsMap (in_set ids) t.managed h

run-IsMap : (t : TabIdleTracker) (ops : List Op) → IsMap t.managed → IsMap (run t ops).managed
unfolding run
run-IsMap t [] h = h
run-IsMap t (op ∷ ops) h = run-IsMap (step t op) ops (step-IsMap t op h)

-- After any calls on a new tracker, the tracker knows of a tab with a nonempty id what the history
-- of the calls says: whether it is managed, and when it was last active.
pub get-history :
    (ops : List Op) (id : Text)
    → str_eq id [] ≡ false
    → Map.get id (run new_tab_idle_tracker ops).managed ≡ last_activity id none ops
unfolding new_tab_idle_tracker Map.get
get-history ops id h = get-run (record { managed = [] }) ops id h

pub history-IsMap : (ops : List Op) → IsMap (run new_tab_idle_tracker ops).managed
unfolding new_tab_idle_tracker
history-IsMap ops = run-IsMap (record { managed = [] }) ops tt

-- What a mark of a tab that may be known already does to another's last activity.
pub get-mark_absent :
    (t : TabIdleTracker) (i id : Text) (at : ℕ)
    → str_eq id [] ≡ false
    → Map.get id (mark_managed_if_absent_at t i at).managed ≡ (elim (Map.get id t.managed) [
      | none ↦ if str_eq i id then some at else none
      | some last ↦ some last
    ])
unfolding activity step
get-mark_absent t i id at h = elim (Option-cases (Map.get id t.managed)) [
  | inl e ↦ rw e (get-step t (marks_absent i at) id h ∙ rw (activity, e) refl)
  | inr (last, e) ↦ rw e (get-step t (marks_absent i at) id h ∙ rw (activity, e) refl)
]

pub get-forget :
    (t : TabIdleTracker) (id : Text)
    → str_eq id [] ≡ false
    → Map.get id (forget t id).managed ≡ none
unfolding forget
get-forget t id h = rw (forget, h) (ground (arith, get-delete id id t.managed, str_eq_iff id id))

pub get-sync_present :
    (t : TabIdleTracker) (ids : List Text) (id : Text)
    → Map.get id (sync_present t ids).managed
      ≡ (if in_set ids id then Map.get id t.managed else none)
unfolding sync_present
get-sync_present t ids id = get-restrict id (in_set ids) t.managed
