-- ===== src/State/TabRegistry/Sync.antt =====
-- `SyncPageTargetsDetailed` of internal/state/tab_registry.go.
use go_bb_browser.Prelude.{
  Option-cases, inl, inr, ◌≡◌, refl, ap, subst, sym, true, ◌||◌, Option, none, some, List, [], ◌∷◌,
  Text, arith, map, All, str_eq, str_eq_iff, Bool-cases, inl, inr, if◌then◌else◌,
}
use go_bb_browser.Prelude.Map.{Map, get-insert, get-delete}
use go_bb_browser.Prelude.Map
use go_bb_browser.Prelude.Sort.{sort, any-sort, All-sort, sort-IsSorted, IsSorted}
use go_bb_browser.State.Target.{Info, present, in_set}
use go_bb_browser.State.TabRegistry.{
  TabRegistry, TabSnapshot, remove_locked, remove_absent, assign_all, assign_short_locked,
  sync_page_targets_detailed, register_page_target, remove_target,
}
use go_bb_browser.State.TabRegistry.Inv.{remove_locked-IsConsistent}
use go_bb_browser.State.TabRegistry.Short.{IsCdpId}
use go_bb_browser.State.TabRegistry.Assign.{
  IsRegistry, register_page_target-IsRegistry, register-keeps, register-others,
}

get-remove_locked :
    (r : TabRegistry) (i j : Text)
    → Map.get j (remove_locked r i).target_to_short
      ≡ (if str_eq i j then none else Map.get j r.target_to_short)
unfolding remove_locked
get-remove_locked r i j = ground (arith, get-delete j i r.target_to_short, str_eq_iff i j)

remove_locked-IsRegistry :
    (r : TabRegistry) (i : Text) → IsRegistry r → IsRegistry (remove_locked r i)
remove_locked-IsRegistry r i v = record {
  consistent = remove_locked-IsConsistent r i v.consistent;
  canonical = λ j s e. v.canonical j s (ground (arith, get-remove_locked r i j));
}

remove_absent-IsRegistry :
    (ids : List Text) (m : Map Text) (r : TabRegistry)
    → IsRegistry r
    → IsRegistry (remove_absent ids m r).1
unfolding remove_absent
remove_absent-IsRegistry ids [] r v = v
remove_absent-IsRegistry ids ((i, s) ∷ m) r v = elim (Bool-cases (in_set ids i)) [
  | inl e ↦ rw e (remove_absent-IsRegistry ids m r v)
  | inr e ↦
      rw e (remove_absent-IsRegistry ids m (remove_locked r i) (remove_locked-IsRegistry r i v))
]

get-remove_absent :
    (ids : List Text) (m : Map Text) (r : TabRegistry) (j : Text)
    → Map.get j (remove_absent ids m r).1.target_to_short ≡ (
        if in_set ids j
        then Map.get j r.target_to_short
        else if Map.has j m
        then none
        else Map.get j r.target_to_short)
unfolding remove_absent Map.get
get-remove_absent ids [] r j = ground arith
get-remove_absent ids ((i, s) ∷ m) r j = elim (Bool-cases (str_eq i j)) [
  | inl e ↦ ground (
    arith,
    get-remove_absent ids m r j,
    get-remove_absent ids m (remove_locked r i) j,
    get-remove_locked r i j,
    ap (in_set ids) ((str_eq_iff i j).0 e),
  )
  | inr e ↦ ground (
    arith,
    get-remove_absent ids m r j,
    get-remove_absent ids m (remove_locked r i) j,
    get-remove_locked r i j,
  )
]

assign_all-IsRegistry :
    (infos : List (Option Info)) (ids : List Text) (r : TabRegistry)
    → IsRegistry r
    → All IsCdpId ids
    → IsRegistry (assign_all infos ids r).1
unfolding assign_all register_page_target
assign_all-IsRegistry infos [] r v a = v
assign_all-IsRegistry infos (i ∷ ids) r v a =
    assign_all-IsRegistry infos ids (register_page_target r i).1
      (register_page_target-IsRegistry r i v a.0) a.1

assign_all-keeps :
    (infos : List (Option Info)) (ids : List Text) (r : TabRegistry) (j t : Text)
    → Map.get j r.target_to_short ≡ some t
    → Map.get j (assign_all infos ids r).1.target_to_short ≡ some t
unfolding assign_all register_page_target
assign_all-keeps infos [] r j t e = e
assign_all-keeps infos (i ∷ ids) r j t e =
    assign_all-keeps infos ids (register_page_target r i).1 j t (register-keeps r i j t e)

-- Exactly the targets of the list are added.
has-assign_all :
    (infos : List (Option Info)) (ids : List Text) (r : TabRegistry) (j : Text)
    → Map.has j (assign_all infos ids r).1.target_to_short
      ≡ (in_set ids j || Map.has j r.target_to_short)
unfolding assign_all register_page_target
has-assign_all infos [] r j = refl
has-assign_all infos (i ∷ ids) r j =
    ground (arith, has-assign_all infos ids (register_page_target r i).1 j, register-others r i j)

targets-assign_all :
    (infos : List (Option Info)) (ids : List Text) (r : TabRegistry)
    → map (λ (t : TabSnapshot). t.target_id) (assign_all infos ids r).0 ≡ ids
unfolding assign_all
targets-assign_all infos [] r = refl
targets-assign_all infos (i ∷ ids) r =
    ap (λ x. i ∷ x) (targets-assign_all infos ids (assign_short_locked r i).1)

-- A sync with targets as Chrome names them keeps the registry's invariant: the two maps inverse to
-- one another, every short id a suffix of its target's digits, the selection registered.
pub sync-IsRegistry :
    (r : TabRegistry) (infos : List (Option Info))
    → IsRegistry r
    → All IsCdpId (present infos)
    → IsRegistry (sync_page_targets_detailed r infos).2
unfolding sync_page_targets_detailed
sync-IsRegistry r infos v a =
    assign_all-IsRegistry infos (sort (present infos)) _
      (remove_absent-IsRegistry (present infos) r.target_to_short r v)
      (All-sort IsCdpId (present infos) a)

-- After a sync the registered targets are exactly the page targets of the list, and a target that
-- was registered and is still there keeps its short id.
pub sync-registered :
    (r : TabRegistry) (infos : List (Option Info)) (j : Text)
    → let r' = (sync_page_targets_detailed r infos).2 in
      (Map.has j r'.target_to_short ≡ in_set (present infos) j)
      × ((t : Text)
          → Map.get j r.target_to_short ≡ some t
          → in_set (present infos) j ≡ true
          → Map.get j r'.target_to_short ≡ some t)
unfolding sync_page_targets_detailed
sync-registered r infos j =
    let ids = present infos in
    let r1 = (remove_absent ids r.target_to_short r).1 in
    (
      ground (
        arith,
        has-assign_all infos (sort ids) r1 j,
        any-sort (λ i. str_eq i j) ids,
        get-remove_absent ids r.target_to_short r j,
      ),
      λ t e h.
          assign_all-keeps infos (sort ids) r1 j t
            (ground (arith, get-remove_absent ids r.target_to_short r j)),
    )

-- A sync returns one row for each page target, in ascending order of the target ids.
pub sync-IsSorted :
    (r : TabRegistry) (infos : List (Option Info))
    → (map (λ (t : TabSnapshot). t.target_id) (sync_page_targets_detailed r infos).0
        ≡ sort (present infos))
      × IsSorted (map (λ (t : TabSnapshot). t.target_id) (sync_page_targets_detailed r infos).0)
unfolding sync_page_targets_detailed
sync-IsSorted r infos =
    let ids = present infos in
    let e = targets-assign_all infos (sort ids) (remove_absent ids r.target_to_short r).1 in
    (e, subst IsSorted (sym e) (sort-IsSorted ids))

pub remove_target_lem :
    (r : TabRegistry) (id s : Text)
    → Map.get id r.target_to_short ≡ some s
    → ((remove_target r id).0 ≡ some s) × (Map.get id (remove_target r id).1.target_to_short ≡ none)
unfolding remove_target
remove_target_lem r id s e =
    rw (remove_target, e) (refl, ground (arith, get-remove_locked r id id, str_eq_iff id id))

pub remove_target-IsRegistry :
    (r : TabRegistry) (id : Text) → IsRegistry r → IsRegistry (remove_target r id).1
unfolding remove_target
remove_target-IsRegistry r id v = elim (Option-cases (Map.get id r.target_to_short)) [
  | inl e ↦ rw (remove_target, e) v
  | inr (s, e) ↦ rw (remove_target, e) (remove_locked-IsRegistry r id v)
]
