-- ===== src/State/ObsStore.antt =====
-- internal/state/obs_store.go: network, console and error rings for each target. A method holds the
-- mutex for its whole body, so each is one step; a nil slice of events is the empty list.
pub mod Rings
pub mod History
mod Tests
use go_bb_browser.Prelude.{
  ℕ, Bool, true, false, ◌&&◌, List, [], ◌∷◌, Option, none, some, Text, ℤ, pos, map, if◌then◌else◌,
}
use go_bb_browser.Prelude.Map.{Map}
use go_bb_browser.Prelude.Map
use go_bb_browser.State.Target.{Info, present, in_set}
use go_bb_browser.State.Ring.{ObsEntry, RingBuffer, new_ring, query_since}
use go_bb_browser.State.Ring

pub record TargetObsRings : Type 0 where
  pub net : RingBuffer
  pub cons : RingBuffer
  pub err : RingBuffer

pub record TabObsStore : Type 0 where
  pub net_cap : ℤ
  pub cons_cap : ℤ
  pub err_cap : ℤ
  pub targets : Map TargetObsRings

pub record ObsEvent : Type 0 where
  pub seq : ℕ
  pub raw : Text

abbrev pub default_network_cap : ℕ
default_network_cap = 500

abbrev pub default_console_cap : ℕ
default_console_cap = 200

abbrev pub default_errors_cap : ℕ
default_errors_cap = 100

pub new_tab_obs_store_with_caps : ℤ → ℤ → ℤ → TabObsStore
new_tab_obs_store_with_caps n c e = record { net_cap = n; cons_cap = c; err_cap = e; targets = [] }

pub new_tab_obs_store : TabObsStore
unfolding new_tab_obs_store_with_caps
new_tab_obs_store =
    new_tab_obs_store_with_caps (pos default_network_cap) (pos default_console_cap)
      (pos default_errors_cap)

fresh_rings : TabObsStore → TargetObsRings
fresh_rings s = record {
  net = new_ring s.net_cap;
  cons = new_ring s.cons_cap;
  err = new_ring s.err_cap;
}

-- `getOrCreateLocked`: the rings, and the store that has them.
get_or_create : TabObsStore → Text → TargetObsRings × TabObsStore
unfolding fresh_rings
get_or_create s id = elim (Map.get id s.targets) [
  | some tb ↦ (tb, s)
  | none ↦ (fresh_rings s, record s { targets = Map.insert id (fresh_rings s) s.targets })
]

pub sync_presence : TabObsStore → List (Option Info) → TabObsStore
sync_presence s infos = record s { targets = Map.restrict (in_set (present infos)) s.targets }

pub clear_target : TabObsStore → Text → TabObsStore
clear_target s id = record s { targets = Map.delete id s.targets }

-- The write through the pointer `tb` that the map holds.
abbrev put : TabObsStore → Text → TargetObsRings → TabObsStore
put s id tb = record s { targets = Map.insert id tb s.targets }

pub clear_network_only : TabObsStore → Text → TabObsStore
clear_network_only s id = elim (Map.get id s.targets) [
  | none ↦ s
  | some tb ↦ put s id (record tb { net = new_ring s.net_cap })
]

pub clear_console_only : TabObsStore → Text → TabObsStore
clear_console_only s id = elim (Map.get id s.targets) [
  | none ↦ s
  | some tb ↦ put s id (record tb { cons = new_ring s.cons_cap })
]

pub clear_errors_only : TabObsStore → Text → TabObsStore
clear_errors_only s id = elim (Map.get id s.targets) [
  | none ↦ s
  | some tb ↦ put s id (record tb { err = new_ring s.err_cap })
]

pub push_network : TabObsStore → Text → ℕ → Text → TabObsStore
push_network s id seq raw =
    let (tb, s') = get_or_create s id in put s' id (record tb { net = Ring.push tb.net seq raw })

pub push_console : TabObsStore → Text → ℕ → Text → TabObsStore
push_console s id seq raw =
    let (tb, s') = get_or_create s id in put s' id (record tb { cons = Ring.push tb.cons seq raw })

pub push_error : TabObsStore → Text → ℕ → Text → TabObsStore
push_error s id seq raw =
    let (tb, s') = get_or_create s id in put s' id (record tb { err = Ring.push tb.err seq raw })

pub entries_to_obs : List ObsEntry → List ObsEvent
entries_to_obs = map λ e. record { seq = e.seq; raw = e.raw }

abbrev pub Reply : Type 0
Reply = List ObsEvent × ℕ × ℕ

-- A query of one ring of the target.
abbrev reply : RingBuffer → ℕ → Reply
reply r since =
    let (events, cursor, dropped) = query_since r since in (entries_to_obs events, cursor, dropped)

pub query_network : TabObsStore → Text → ℕ → Reply
query_network s id since = elim (Map.get id s.targets) [
  | none ↦ ([], since, 0)
  | some tb ↦ reply tb.net since
]

pub query_console : TabObsStore → Text → ℕ → Reply
query_console s id since = elim (Map.get id s.targets) [
  | none ↦ ([], since, 0)
  | some tb ↦ reply tb.cons since
]

pub query_errors : TabObsStore → Text → ℕ → Reply
query_errors s id since = elim (Map.get id s.targets) [
  | none ↦ ([], since, 0)
  | some tb ↦ reply tb.err since
]
