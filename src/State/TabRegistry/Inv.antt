-- ===== src/State/TabRegistry/Inv.antt =====
-- The two maps of internal/state/tab_registry.go are inverse to one another.
use go_bb_browser.Prelude.{
  ◌≡◌, refl, ◌⊎◌, inl, inr, true, none, some, Text, [], str_eq_iff, arith, Option-cases,
}
use go_bb_browser.Prelude.Map.{get-insert, get-delete}
use go_bb_browser.Prelude.Map
use go_bb_browser.State.TabRegistry.{TabRegistry, new_tab_registry, register_locked, remove_locked}

-- The selected tab, if any, is registered.
abbrev pub IsSelected : TabRegistry → Type 0
IsSelected r = (r.selected ≡ []) ⊎ (Map.has r.selected r.short_to_target ≡ true)

pub record IsConsistent (r : TabRegistry) : Type 0 where
  pub short_of :
      (id s : Text) → Map.get id r.target_to_short ≡ some s → Map.get s r.short_to_target ≡ some id
  pub target_of :
      (s id : Text) → Map.get s r.short_to_target ≡ some id → Map.get id r.target_to_short ≡ some s
  pub selection : IsSelected r

pub new-IsConsistent : IsConsistent new_tab_registry
unfolding new_tab_registry Map.get
new-IsConsistent = record {
  short_of = λ id s e. ground arith;
  target_of = λ s id e. ground arith;
  selection = inl refl;
}

pub remove_locked-IsConsistent :
    (r : TabRegistry) (id : Text) → IsConsistent r → IsConsistent (remove_locked r id)
unfolding remove_locked
remove_locked-IsConsistent r id v = elim (Option-cases (Map.get id r.target_to_short)) [
  | inl e ↦ rw (e, remove_locked) v
  | inr (short, e) ↦
      rw (e, remove_locked)
        (record {
          short_of = λ i s h. ground (
            arith,
            get-delete i id r.target_to_short,
            get-delete s short r.short_to_target,
            v.short_of i s,
            v.short_of id short,
            str_eq_iff id i,
            str_eq_iff short s,
          );
          target_of = λ s i h. ground (
            arith,
            get-delete i id r.target_to_short,
            get-delete s short r.short_to_target,
            v.target_of s i,
            v.short_of id short,
            str_eq_iff id i,
            str_eq_iff short s,
          );
          selection = ground (
            arith,
            v.selection,
            get-delete r.selected short r.short_to_target,
            str_eq_iff r.selected short,
            str_eq_iff short r.selected,
          );
        })
]

pub register_locked-IsConsistent :
    (r : TabRegistry) (id s : Text)
    → Map.get id r.target_to_short ≡ none
    → Map.get s r.short_to_target ≡ none
    → IsConsistent r
    → IsConsistent (register_locked r id s)
unfolding register_locked
register_locked-IsConsistent r id s new free v = record {
  short_of = λ i t h. ground (
    arith,
    get-insert i id s r.target_to_short,
    get-insert t s id r.short_to_target,
    v.short_of i t,
    str_eq_iff id i,
    str_eq_iff s t,
  );
  target_of = λ t i h. ground (
    arith,
    get-insert i id s r.target_to_short,
    get-insert t s id r.short_to_target,
    v.target_of t i,
    str_eq_iff id i,
    str_eq_iff s t,
  );
  selection = ground (arith, v.selection, get-insert r.selected s id r.short_to_target);
}
