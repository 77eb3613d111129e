-- ===== src/Pool/Observed.antt =====
-- pkg/daemonclient/pool.go: the ids that a pool makes of a daemon's answer name this daemon.
use go_bb_browser.Prelude.{
  ℕ, ◌<◌, ◌≡◌, refl, sym, subst, ◌⊎◌, false, some, List, [], ◌∷◌, map, Text, str_eq, length,
  get_elem?, All,
}
use go_bb_browser.Prelude.Json.{RawMessage}
use go_bb_browser.Pool.TabId.{format_tab_id}
use go_bb_browser.Pool.State.{Pool}
use go_bb_browser.Pool.Walk.{track, hold}
use go_bb_browser.Pool.Codec.{
  tab_from_raw_result, prefix_tab_list_result, prefix_pool_tab, tab_ids_from_list, TabListItem,
  TabListResult,
}
use go_bb_browser.Pool.Client.{key_of, observed}
use go_bb_browser.Pool.Inv.{
  Names, IsPool, Keeps, Keeps-refl, hold-track, trim_space-IsShort, format-Names, prefix-Names,
}

pub hold-Keeps : (i : ℕ) (p : Pool) → IsPool p → Keeps p (hold i (track i p))
hold-Keeps i p h = subst (Keeps p) (sym (hold-track i p)) (Keeps-refl p h)

pub Keeps-in_range : (p q : Pool) (i : ℕ) → Keeps p q → i < length p.clients → i < length q.clients
Keeps-in_range p q i k l = subst (λ cs. i < length cs) (sym k.clients) l

pub key_of_lem :
    (p : Pool) (i : ℕ) → IsPool p → i < length p.clients → get_elem? p.keys i ≡ some (key_of p i)
unfolding key_of
key_of_lem p i h l = let (key, e) = h.in_range i l in rw (key_of, e) refl

pub native-Names :
    (p : Pool) (i : ℕ) (raw : RawMessage)
    → IsPool p
    → i < length p.clients
    → str_eq (tab_from_raw_result raw) [] ≡ false
    → Names p.by_key (format_tab_id (key_of p i) (tab_from_raw_result raw)) i
unfolding tab_from_raw_result
native-Names p i raw h l e =
    format-Names p i (key_of p i) (tab_from_raw_result raw) h (key_of_lem p i h l)
      (trim_space-IsShort _ e)

-- Ids that are empty or name this backend.
abbrev pub Observed : Pool → ℕ → List Text → Type 0
Observed p i ts = All (λ t. (t ≡ []) ⊎ Names p.by_key t i) ts

prefix_items-Observed :
    (p : Pool) (i : ℕ) (items : List TabListItem)
    → IsPool p
    → i < length p.clients
    → Observed p i (
        map
          (λ (item : TabListItem). item.tab)
          (map
            (λ (item : TabListItem). record item { tab = prefix_pool_tab (key_of p i) item.tab })
            items))
prefix_items-Observed p i [] h l = tt
prefix_items-Observed p i (item ∷ items) h l = (
  prefix-Names p i (key_of p i) item.tab h (key_of_lem p i h l),
  prefix_items-Observed p i items h l,
)

pub prefix_list-Observed :
    (p : Pool) (i : ℕ) (one : TabListResult)
    → IsPool p
    → i < length p.clients
    → Observed p i (observed (prefix_tab_list_result (key_of p i) one))
unfolding prefix_tab_list_result tab_ids_from_list
prefix_list-Observed p i one h l = (
  prefix-Names p i (key_of p i) one.tab h (key_of_lem p i h l),
  (
    prefix-Names p i (key_of p i) one.focus h (key_of_lem p i h l),
    prefix_items-Observed p i one.tabs h l,
  ),
)
