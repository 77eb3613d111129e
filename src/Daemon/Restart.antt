-- ===== src/Daemon/Restart.antt =====
-- internal/daemon/tab_idle.go: reconcileIdleFromLog, which takes up the managed tabs of the log after
-- a restart. Durations are not negative, as the configuration makes sure.
use go_bb_browser.Prelude.{
  ℕ, zero, suc, ◌+◌, ◌-◌, ◌≤◌, ◌<◌, ◌≡◌, refl, sym, ap, ◌∙◌, ◌⊎◌, inl, inr, true, false, none, some,
  List, [], ◌∷◌, arith, Text, str_eq, ltb, if◌then◌else◌, is_some, Bool-cases, Option-cases,
  str_eq_iff, str_eq_self,
}
use go_bb_browser.Prelude.{pos}
use go_bb_browser.Prelude.Map.{Map, get}
use go_bb_browser.State.Target.{in_set, set_add}
use go_bb_browser.State.TabRegistry.{TabRegistry, TabSnapshot, lookup}
use go_bb_browser.State.TabIdle.{TabIdleTracker, mark_managed_if_absent_at, is_due, is_expired}
use go_bb_browser.State.TabIdle.History.{get-mark_absent}

-- `minLast`
unfoldable pub min_last : ℕ → ℕ → ℕ → ℕ
min_last now timeout grace = if ltb grace timeout then now - (timeout - grace) else now

-- The set `present`.
unfoldable pub present_ids : List TabSnapshot → List Text
present_ids [] = []
present_ids (sn ∷ snaps) =
    let rest = present_ids snaps in
    if str_eq sn.target_id [] then rest else set_add sn.target_id rest

-- One entry of the log: a tab that is there is taken up, with a last activity of `least` or later.
unfoldable pub take_up : TabRegistry → List Text → ℕ → Text → ℕ → TabIdleTracker → TabIdleTracker
take_up r ids least short last t = elim (lookup r short) [
  | none ↦ t
  | some tid ↦
      if in_set ids tid
      then mark_managed_if_absent_at t tid (if ltb last least then least else last)
      else t
]

-- The loop over `loaded`.
unfoldable pub take_up_all : TabRegistry → List Text → ℕ → Map ℕ → TabIdleTracker → TabIdleTracker
unfolding take_up
take_up_all r ids least [] t = t
take_up_all r ids least ((short, last) ∷ m) t =
    take_up_all r ids least m (take_up r ids least short last t)

unfoldable pub reconcile_idle_from_log :
    TabRegistry → Map ℕ → ℕ → ℕ → ℕ → List TabSnapshot → TabIdleTracker → TabIdleTracker
unfolding take_up_all min_last present_ids
reconcile_idle_from_log r loaded now timeout grace snaps t =
    take_up_all r (present_ids snaps) (min_last now timeout grace) loaded t

-- What was known of a tab stays, and what is new is not older than `least`.
IsFresh : ℕ → Text → TabIdleTracker → TabIdleTracker → Type 0
IsFresh least id t t' =
    (last : ℕ) → get id t'.managed ≡ some last → (get id t.managed ≡ some last) ⊎ (least ≤ last)

take_up-IsFresh :
    (r : TabRegistry) (ids : List Text) (least : ℕ) (short : Text) (last : ℕ) (t : TabIdleTracker)
    (id : Text)
    → str_eq id [] ≡ false
    → IsFresh least id t (take_up r ids least short last t)
unfolding take_up IsFresh
take_up-IsFresh r ids least short last t id h at e = elim (Option-cases (lookup r short)) [
  | inl l ↦ inl (rw (take_up, l) at e)
  | inr (tid, l) ↦ elim (Bool-cases (in_set ids tid)) [
    | inr b ↦ inl (rw (take_up, l, b) at e)
    | inl b ↦ marked tid (rw (take_up, l, b) at e)
  ]
]
  where
    effective : ℕ
    effective = if ltb last least then least else last

    new : (tid : Text) → (if str_eq tid id then some effective else none) ≡ some at → least ≤ at
    new tid q = ground (arith, q)

    marked :
        (tid : Text)
        → get id (mark_managed_if_absent_at t tid effective).managed ≡ some at
        → (get id t.managed ≡ some at) ⊎ (least ≤ at)
    marked tid q = elim (Option-cases (get id t.managed)) [
      | inr (old, o) ↦ inl (o ∙ sym (rw o at (get-mark_absent t tid id effective h)) ∙ q)
      | inl o ↦ inr (new tid (sym (rw o at (get-mark_absent t tid id effective h)) ∙ q))
    ]

take_up_all-IsFresh :
    (r : TabRegistry) (ids : List Text) (least : ℕ) (m : Map ℕ) (t : TabIdleTracker) (id : Text)
    → str_eq id [] ≡ false
    → IsFresh least id t (take_up_all r ids least m t)
unfolding take_up_all IsFresh
take_up_all-IsFresh r ids least [] t id h at e = inl e
take_up_all-IsFresh r ids least ((short, last) ∷ m) t id h at e =
    elim (take_up_all-IsFresh r ids least m (take_up r ids least short last t) id h at e) [
      | inl known ↦ take_up-IsFresh r ids least short last t id h at known
      | inr new ↦ inr new
    ]

not_due :
    (now now' grace last timeout : ℕ)
    → min_last now timeout grace ≤ last
    → now' < now + grace
    → now' < now + timeout
    → is_due last now' (pos timeout) ≡ false
unfolding min_last is_due
not_due now now' grace last zero f soon soon' = refl
not_due now now' grace last (suc n) f soon soon' = elim (Bool-cases (ltb grace (suc n))) [
  | inl b ↦ let g : now - (suc n - grace) ≤ last = rw (min_last, b) at f in ground arith
  | inr b ↦ let g : now ≤ last = rw (min_last, b) at f in ground arith
]

-- A tab that is taken up from the log after a restart, and was not managed before, does not expire
-- before the grace period, and the timeout where that is shorter, have passed, however old its last
-- activity in the log is.
pub reconcile-is_expired :
    (r : TabRegistry) (loaded : Map ℕ) (now now' timeout grace : ℕ) (snaps : List TabSnapshot)
    (t : TabIdleTracker) (id : Text)
    → get id t.managed ≡ none
    → now' < now + grace
    → now' < now + timeout
    → is_expired (reconcile_idle_from_log r loaded now timeout grace snaps t) id now' (pos timeout)
      ≡ false
unfolding reconcile_idle_from_log is_expired IsFresh
reconcile-is_expired r loaded now now' timeout grace snaps t id new soon soon' =
    elim (Bool-cases (str_eq id [])) [
      | inl e ↦ rw (is_expired, e) refl
      | inr e ↦ elim (Option-cases (get id t'.managed)) [
        | inl q ↦ rw (is_expired, e, q) refl
        | inr (last, q) ↦
            rw (is_expired, e, q)
              (elim (take_up_all-IsFresh r (present_ids snaps) least loaded t id e last q) [
                | inl known ↦ absurd (let f : none ≡ some last = sym new ∙ known in cc)
                | inr fresh ↦ not_due now now' grace last timeout fresh soon soon'
              ])
      ]
    ]
  where
    least : ℕ
    least = min_last now timeout grace

    t' : TabIdleTracker
    t' = reconcile_idle_from_log r loaded now timeout grace snaps t

-- A tab that is managed stays so.
take_up-keeps :
    (r : TabRegistry) (ids : List Text) (least : ℕ) (short : Text) (last : ℕ) (t : TabIdleTracker)
    (id : Text)
    → str_eq id [] ≡ false
    → is_some (get id t.managed) ≡ true
    → is_some (get id (take_up r ids least short last t).managed) ≡ true
unfolding take_up
take_up-keeps r ids least short last t id h e = elim (Option-cases (lookup r short)) [
  | inl l ↦ rw (take_up, l) e
  | inr (tid, l) ↦ elim (Bool-cases (in_set ids tid)) [
    | inr b ↦ rw (take_up, l, b) e
    | inl b ↦ rw (take_up, l, b) (marked tid (if ltb last least then least else last))
  ]
]
  where
    marked :
        (tid : Text) (at : ℕ) → is_some (get id (mark_managed_if_absent_at t tid at).managed) ≡ true
    marked tid at = elim (Option-cases (get id t.managed)) [
      | inl o ↦ absurd (let f : false ≡ true = rw o at e in cc)
      | inr (old, o) ↦ rw (get-mark_absent t tid id at h, o) refl
    ]

take_up_all-keeps :
    (r : TabRegistry) (ids : List Text) (least : ℕ) (m : Map ℕ) (t : TabIdleTracker) (id : Text)
    → str_eq id [] ≡ false
    → is_some (get id t.managed) ≡ true
    → is_some (get id (take_up_all r ids least m t).managed) ≡ true
unfolding take_up_all
take_up_all-keeps r ids least [] t id h e = e
take_up_all-keeps r ids least ((short, last) ∷ m) t id h e =
    take_up_all-keeps r ids least m (take_up r ids least short last t) id h
      (take_up-keeps r ids least short last t id h e)

take_up-takes :
    (r : TabRegistry) (ids : List Text) (least : ℕ) (short : Text) (last : ℕ) (t : TabIdleTracker)
    (id : Text)
    → str_eq id [] ≡ false
    → lookup r short ≡ some id
    → in_set ids id ≡ true
    → is_some (get id (take_up r ids least short last t).managed) ≡ true
unfolding take_up
take_up-takes r ids least short last t id h l b =
    rw (take_up, l, b)
      (elim (Option-cases (get id t.managed)) [
        | inl o ↦ rw (get-mark_absent t id id at h, o, str_eq_self id) refl
        | inr (old, o) ↦ rw (get-mark_absent t id id at h, o) refl
      ])
  where
    at : ℕ
    at = if ltb last least then least else last

take_up_all-takes :
    (r : TabRegistry) (ids : List Text) (least : ℕ) (m : Map ℕ) (t : TabIdleTracker)
    (short id : Text) (last : ℕ)
    → str_eq id [] ≡ false
    → get short m ≡ some last
    → lookup r short ≡ some id
    → in_set ids id ≡ true
    → is_some (get id (take_up_all r ids least m t).managed) ≡ true
unfolding take_up_all get
take_up_all-takes r ids least [] t short id last h g l b = absurd cc
take_up_all-takes r ids least ((j, at) ∷ m) t short id last h g l b =
    let next = take_up r ids least j at t in
    elim (Bool-cases (str_eq j short)) [
      | inl e ↦
          take_up_all-keeps r ids least m next id h
            (take_up-takes r ids least j at t id h (ap (lookup r) ((str_eq_iff j short).0 e) ∙ l) b)
      | inr e ↦ take_up_all-takes r ids least m next short id last h (rw (get, e) at g) l b
    ]

-- After a restart the tracker manages every tab of the log that the registry finds under its short id
-- and that is among the targets.
pub reconcile-managed :
    (r : TabRegistry) (loaded : Map ℕ) (now timeout grace : ℕ) (snaps : List TabSnapshot)
    (t : TabIdleTracker) (short id : Text) (last : ℕ)
    → str_eq id [] ≡ false
    → get short loaded ≡ some last
    → lookup r short ≡ some id
    → in_set (present_ids snaps) id ≡ true
    → is_some (get id (reconcile_idle_from_log r loaded now timeout grace snaps t).managed) ≡ true
unfolding reconcile_idle_from_log
reconcile-managed r loaded now timeout grace snaps t short id last h g l b =
    take_up_all-takes r (present_ids snaps) (min_last now timeout grace) loaded t short id last h g
      l b
