-- ===== src/State/TabRegistry/Tests.antt =====
-- Runs of the registry of internal/state/tab_registry.go, and the theorems at concrete ids.
use mathlib.Core.Bool.{false≢true}
use go_bb_browser.Prelude.{
  str_eq_iff, ℕ, ◌≡◌, ◌≢◌, refl, List, [], ◌∷◌, arith, codes, true, none, some, Option, Text, All,
  map,
}
use go_bb_browser.Prelude.Map
use go_bb_browser.State.Target.{Info, present, in_set}
use go_bb_browser.State.TabRegistry.{
  TabRegistry, new_tab_registry, hex_runes, register_page_target, assign_short_locked, choose_short,
  find_free, taken_by_other, register_locked, lookup, short_for_target, sync_page_targets_detailed,
}
use go_bb_browser.State.TabRegistry.Short.{IsCdpId}
use go_bb_browser.State.TabRegistry.Assign.{
  IsRegistry, Finds, new-IsRegistry, register_page_target-IsRegistry, lookup-register,
  register-shortest,
}
use go_bb_browser.State.TabRegistry.Sync.{sync-IsRegistry, sync-registered}
use go_bb_browser.State.TabRegistry.Collision.{register-collision}

abbrev first_id : Text
first_id = codes "0123456789ABCDEF0123456789ABCDEF"

-- It shares its last four digits with `first_id`.
abbrev second_id : Text
second_id = codes "AAAABBBBCCCCDDDDAAAABBBBCCCCCDEF"

first-IsCdpId : IsCdpId first_id
first-IsCdpId = (refl, ground arith)

second-IsCdpId : IsCdpId second_id
second-IsCdpId = (refl, ground arith)

abbrev one : TabRegistry
one = (register_page_target new_tab_registry first_id).1

abbrev two : TabRegistry
two = (register_page_target one second_id).1

one-IsRegistry : IsRegistry one
one-IsRegistry =
    register_page_target-IsRegistry new_tab_registry first_id new-IsRegistry first-IsCdpId

longer_suffix :
    ((register_page_target new_tab_registry first_id).0 ≡ codes "cdef")
    × ((register_page_target one second_id).0 ≡ codes "ccdef")
    × (lookup two (codes " ccdef\n") ≡ some second_id)
unfolding new_tab_registry register_page_target assign_short_locked choose_short find_free
    taken_by_other register_locked hex_runes lookup Map.get Map.insert go_bb_browser.Prelude.str_eq
    go_bb_browser.Prelude.trim_space
longer_suffix = (refl, refl, refl)

lookup-register_example :
    let (short, r') = register_page_target one second_id in
    (lookup r' short ≡ some second_id)
    × (short_for_target r' second_id ≡ some short)
    × ((j t : Text)
        → Map.get j one.target_to_short ≡ some t
        → Map.get j r'.target_to_short ≡ some t)
lookup-register_example = lookup-register one second_id one-IsRegistry second-IsCdpId

second_new : Map.get second_id one.target_to_short ≡ none
unfolding new_tab_registry register_page_target assign_short_locked choose_short find_free
    taken_by_other register_locked hex_runes Map.get Map.insert go_bb_browser.Prelude.str_eq
second_new = refl

register-shortest_example :
    Finds one second_id (hex_runes second_id) 4 (some (register_page_target one second_id).0)
register-shortest_example = register-shortest one second_id one-IsRegistry second-IsCdpId second_new

-- The second target is listed as a page, and a worker beside it is not.
abbrev listed : List (Option Info)
listed =
    some (record { kind = codes "page"; target_id = second_id; title = codes "t"; url = codes "u" })
    ∷ none
    ∷ some (record { kind = codes "worker"; target_id = codes "W"; title = []; url = [] })
    ∷ []

listed-IsCdpId : All IsCdpId (present listed)
unfolding present go_bb_browser.Prelude.str_eq
listed-IsCdpId = (second-IsCdpId, tt)

two-IsRegistry : IsRegistry two
two-IsRegistry = register_page_target-IsRegistry one second_id one-IsRegistry second-IsCdpId

sync-IsRegistry_example : IsRegistry (sync_page_targets_detailed two listed).2
sync-IsRegistry_example = sync-IsRegistry two listed two-IsRegistry listed-IsCdpId

sync-registered_example :
    let r' = (sync_page_targets_detailed two listed).2 in
    (Map.has first_id r'.target_to_short ≡ in_set (present listed) first_id)
    × ((t : Text)
        → Map.get first_id two.target_to_short ≡ some t
        → in_set (present listed) first_id ≡ true
        → Map.get first_id r'.target_to_short ≡ some t)
sync-registered_example = sync-registered two listed first_id

ids_differ : codes "t-AB" ≢ codes "t-ab"
unfolding go_bb_browser.Prelude.str_eq
ids_differ = λ e. false≢true ((str_eq_iff (codes "t-AB") (codes "t-ab")).1 e)

register-collision_example :
    let (first, r') = register_page_target new_tab_registry (codes "t-AB") in
    let (second, r'') = register_page_target r' (codes "t-ab") in
    (first ≡ second)
    × (Map.get (codes "t-AB") r''.target_to_short ≡ some first)
    × (Map.get first r''.short_to_target ≡ some (codes "t-ab"))
unfolding hex_runes new_tab_registry Map.get
register-collision_example =
    register-collision new_tab_registry (codes "t-AB") (codes "t-ab") ids_differ refl (omega arith)
      (omega arith) refl refl
