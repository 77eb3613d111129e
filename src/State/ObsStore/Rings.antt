-- ===== src/State/ObsStore/Rings.antt =====
-- The store of internal/state/obs_store.go seen as one ring for each kind and target.
use go_bb_browser.Prelude.{
  ℕ, ◌≡◌, refl, Bool, true, false, ◌&&◌, List, Option, none, some, Text, ℤ, if◌then◌else◌, arith,
  str_eq, str_eq_iff, Option-cases, inl, inr,
}
use go_bb_browser.Prelude.Map.{get-insert, get-delete, get-restrict}
use go_bb_browser.Prelude.Map
use go_bb_browser.State.Target.{Info, present, in_set}
use go_bb_browser.State.Ring.{RingBuffer, new_ring, query_since}
use go_bb_browser.State.Ring
use go_bb_browser.State.Ring.Query.{query_since-new_ring}
use go_bb_browser.State.ObsStore.{
  TabObsStore, TargetObsRings, Reply, reply, fresh_rings, get_or_create, put, push_network,
  push_console, push_error, clear_network_only, clear_console_only, clear_errors_only,
  query_network, query_console, query_errors, new_tab_obs_store_with_caps, clear_target,
  sync_presence, entries_to_obs,
}

pub data Kind : Type 0 where
  network console errors : Kind

abbrev pub same : Kind → Kind → Bool
same network network = true
same console console = true
same errors errors = true
same _ _ = false

abbrev pub cap_of : TabObsStore → Kind → ℤ
cap_of s network = s.net_cap
cap_of s console = s.cons_cap
cap_of s errors = s.err_cap

abbrev ring_in : TargetObsRings → Kind → RingBuffer
ring_in tb network = tb.net
ring_in tb console = tb.cons
ring_in tb errors = tb.err

-- A target that the store does not know has empty rings.
pub ring : TabObsStore → Kind → Text → RingBuffer
ring s k id = elim (Map.get id s.targets) [ none ↦ new_ring (cap_of s k) | some tb ↦ ring_in tb k ]

unfoldable pub push : Kind → TabObsStore → Text → ℕ → Text → TabObsStore
push network = push_network
push console = push_console
push errors = push_error

unfoldable pub clear_only : Kind → TabObsStore → Text → TabObsStore
clear_only network = clear_network_only
clear_only console = clear_console_only
clear_only errors = clear_errors_only

unfoldable pub query : Kind → TabObsStore → Text → ℕ → Reply
query network = query_network
query console = query_console
query errors = query_errors

-- A query of a target reads its ring of that kind, and a target that the store does not know
-- answers as one with empty rings.
pub query-ring :
    (k : Kind) (s : TabObsStore) (id : Text) (since : ℕ)
    → query k s id since ≡ reply (ring s k id) since
unfolding query ring query_network query_console query_errors entries_to_obs
query-ring network s id since = ground (arith, query_since-new_ring s.net_cap since)
query-ring console s id since = ground (arith, query_since-new_ring s.cons_cap since)
query-ring errors s id since = ground (arith, query_since-new_ring s.err_cap since)

-- The rings that a push to the target starts from.
rings_of : TabObsStore → Text → TargetObsRings
unfolding fresh_rings
rings_of s id = elim (Map.get id s.targets) [ none ↦ fresh_rings s | some tb ↦ tb ]

ring-rings_of : (s : TabObsStore) (k : Kind) (id : Text) → ring s k id ≡ ring_in (rings_of s id) k
unfolding ring rings_of
ring-rings_of s network id = ground arith
ring-rings_of s console id = ground arith
ring-rings_of s errors id = ground arith

abbrev pushed : Kind → TargetObsRings → ℕ → Text → TargetObsRings
pushed network tb seq raw = record tb { net = Ring.push tb.net seq raw }
pushed console tb seq raw = record tb { cons = Ring.push tb.cons seq raw }
pushed errors tb seq raw = record tb { err = Ring.push tb.err seq raw }

get_or_create-fst : (s : TabObsStore) (i : Text) → (get_or_create s i).0 ≡ rings_of s i
unfolding get_or_create rings_of
get_or_create-fst s i = ground arith

get-put :
    (s : TabObsStore) (i j : Text) (tb : TargetObsRings)
    → Map.get j (put (get_or_create s i).1 i tb).targets
      ≡ (if str_eq i j then some tb else Map.get j s.targets)
unfolding get_or_create
get-put s i j tb = ground (
  arith,
  get-insert j i tb s.targets,
  get-insert j i tb (Map.insert i (fresh_rings s) s.targets),
  get-insert j i (fresh_rings s) s.targets,
)

get-push :
    (k : Kind) (s : TabObsStore) (i j : Text) (seq : ℕ) (raw : Text)
    → Map.get j (push k s i seq raw).targets
      ≡ (if str_eq i j then some (pushed k (rings_of s i) seq raw) else Map.get j s.targets)
unfolding push push_network push_console push_error
get-push network s i j seq raw = rw (← get_or_create-fst s i) (get-put s i j _)
get-push console s i j seq raw = rw (← get_or_create-fst s i) (get-put s i j _)
get-push errors s i j seq raw = rw (← get_or_create-fst s i) (get-put s i j _)

pub cap_of-push :
    (k k' : Kind) (s : TabObsStore) (i : Text) (seq : ℕ) (raw : Text)
    → cap_of (push k s i seq raw) k' ≡ cap_of s k'
unfolding push push_network push_console push_error get_or_create
cap_of-push network network s i seq raw = ground arith
cap_of-push console network s i seq raw = ground arith
cap_of-push errors network s i seq raw = ground arith
cap_of-push network console s i seq raw = ground arith
cap_of-push console console s i seq raw = ground arith
cap_of-push errors console s i seq raw = ground arith
cap_of-push network errors s i seq raw = ground arith
cap_of-push console errors s i seq raw = ground arith
cap_of-push errors errors s i seq raw = ground arith

ring_in-pushed :
    (k k' : Kind) (tb : TargetObsRings) (seq : ℕ) (raw : Text)
    → ring_in (pushed k tb seq raw) k'
      ≡ (if same k k' then Ring.push (ring_in tb k') seq raw else ring_in tb k')
ring_in-pushed network network tb seq raw = refl
ring_in-pushed network console tb seq raw = refl
ring_in-pushed network errors tb seq raw = refl
ring_in-pushed console network tb seq raw = refl
ring_in-pushed console console tb seq raw = refl
ring_in-pushed console errors tb seq raw = refl
ring_in-pushed errors network tb seq raw = refl
ring_in-pushed errors console tb seq raw = refl
ring_in-pushed errors errors tb seq raw = refl

-- A push goes to the ring of its own kind and target and to no other.
pub ring-push :
    (k k' : Kind) (s : TabObsStore) (i j : Text) (seq : ℕ) (raw : Text)
    → ring (push k s i seq raw) k' j
      ≡ (if same k k' && str_eq i j then Ring.push (ring s k' j) seq raw else ring s k' j)
unfolding ring
ring-push k k' s i j seq raw = ground (
  arith,
  get-push k s i j seq raw,
  cap_of-push k k' s i seq raw,
  ring_in-pushed k k' (rings_of s i) seq raw,
  ring-rings_of s k' j,
  str_eq_iff i j,
)

-- What the entry of a target becomes when one of its rings is renewed.
abbrev renewed : Kind → TabObsStore → TargetObsRings → TargetObsRings
renewed network s tb = record tb { net = new_ring s.net_cap }
renewed console s tb = record tb { cons = new_ring s.cons_cap }
renewed errors s tb = record tb { err = new_ring s.err_cap }

ring_in-renewed :
    (k k' : Kind) (s : TabObsStore) (tb : TargetObsRings)
    → ring_in (renewed k s tb) k' ≡ (if same k k' then new_ring (cap_of s k') else ring_in tb k')
ring_in-renewed network network s tb = refl
ring_in-renewed network console s tb = refl
ring_in-renewed network errors s tb = refl
ring_in-renewed console network s tb = refl
ring_in-renewed console console s tb = refl
ring_in-renewed console errors s tb = refl
ring_in-renewed errors network s tb = refl
ring_in-renewed errors console s tb = refl
ring_in-renewed errors errors s tb = refl

clear_only_absent :
    (k : Kind) (s : TabObsStore) (i : Text) → Map.get i s.targets ≡ none → clear_only k s i ≡ s
unfolding clear_only clear_network_only clear_console_only clear_errors_only
clear_only_absent network s i e = ground arith
clear_only_absent console s i e = ground arith
clear_only_absent errors s i e = ground arith

clear_only_known :
    (k : Kind) (s : TabObsStore) (i : Text) (tb : TargetObsRings)
    → Map.get i s.targets ≡ some tb
    → clear_only k s i ≡ put s i (renewed k s tb)
unfolding clear_only clear_network_only clear_console_only clear_errors_only
clear_only_known network s i tb e = ground arith
clear_only_known console s i tb e = ground arith
clear_only_known errors s i tb e = ground arith

cap_of-put :
    (k : Kind) (s : TabObsStore) (i : Text) (tb : TargetObsRings)
    → cap_of (put s i tb) k ≡ cap_of s k
cap_of-put network s i tb = refl
cap_of-put console s i tb = refl
cap_of-put errors s i tb = refl

pub ring-clear_only :
    (k k' : Kind) (s : TabObsStore) (i j : Text)
    → ring (clear_only k s i) k' j
      ≡ (if same k k' && str_eq i j then new_ring (cap_of s k') else ring s k' j)
unfolding ring
ring-clear_only k k' s i j = elim (Option-cases (Map.get i s.targets)) [
  | inl e ↦ ground (arith, clear_only_absent k s i e, str_eq_iff i j)
  | inr (tb, e) ↦ ground (
    arith,
    clear_only_known k s i tb e,
    get-insert j i (renewed k s tb) s.targets,
    ring_in-renewed k k' s tb,
    cap_of-put k' s i (renewed k s tb),
    str_eq_iff i j,
  )
]

pub ring-clear_target :
    (k : Kind) (s : TabObsStore) (i j : Text)
    → ring (clear_target s i) k j ≡ (if str_eq i j then new_ring (cap_of s k) else ring s k j)
unfolding clear_target ring
ring-clear_target network s i j = ground (arith, get-delete j i s.targets)
ring-clear_target console s i j = ground (arith, get-delete j i s.targets)
ring-clear_target errors s i j = ground (arith, get-delete j i s.targets)

pub ring-sync_presence :
    (k : Kind) (s : TabObsStore) (infos : List (Option Info)) (j : Text)
    → ring (sync_presence s infos) k j
      ≡ (if in_set (present infos) j then ring s k j else new_ring (cap_of s k))
unfolding sync_presence ring
ring-sync_presence network s infos j =
    ground (arith, get-restrict j (in_set (present infos)) s.targets)
ring-sync_presence console s infos j =
    ground (arith, get-restrict j (in_set (present infos)) s.targets)
ring-sync_presence errors s infos j =
    ground (arith, get-restrict j (in_set (present infos)) s.targets)

pub cap_of-clear_only :
    (k k' : Kind) (s : TabObsStore) (i : Text) → cap_of (clear_only k s i) k' ≡ cap_of s k'
cap_of-clear_only k k' s i = elim (Option-cases (Map.get i s.targets)) [
  | inl e ↦ rw (clear_only_absent k s i e)
  | inr (tb, e) ↦ rw (clear_only_known k s i tb e) (cap_of-put k' s i (renewed k s tb))
]

pub cap_of-clear_target :
    (k : Kind) (s : TabObsStore) (i : Text) → cap_of (clear_target s i) k ≡ cap_of s k
unfolding clear_target
cap_of-clear_target network s i = refl
cap_of-clear_target console s i = refl
cap_of-clear_target errors s i = refl

pub cap_of-sync_presence :
    (k : Kind) (s : TabObsStore) (infos : List (Option Info))
    → cap_of (sync_presence s infos) k ≡ cap_of s k
unfolding sync_presence
cap_of-sync_presence network s infos = refl
cap_of-sync_presence console s infos = refl
cap_of-sync_presence errors s infos = refl

pub ring_new :
    (k : Kind) (id : Text) (n c e : ℤ)
    → let s = new_tab_obs_store_with_caps n c e in ring s k id ≡ new_ring (cap_of s k)
unfolding ring new_tab_obs_store_with_caps Map.get
ring_new network id n c e = refl
ring_new console id n c e = refl
ring_new errors id n c e = refl

pub get-clear_target : (s : TabObsStore) (id : Text) → Map.get id (clear_target s id).targets ≡ none
unfolding clear_target
get-clear_target s id = ground (arith, get-delete id id s.targets, str_eq_iff id id)
