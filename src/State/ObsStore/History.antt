-- ===== src/State/ObsStore/History.antt =====
-- The store of internal/state/obs_store.go against the history of the calls made on it.
use go_bb_browser.Prelude.{
  ℕ, ◌+◌, ◌≡◌, refl, ◌<◌, ◌&&◌, List, [], ◌∷◌, ◌++◌, Option, Text, length, ◌-◌, ◌%◌, ℤ, pos,
  if◌then◌else◌, arith, str_eq, ◌∙◌, sym, ap, max,
}
use go_bb_browser.State.Target.{Info, present, in_set}
use go_bb_browser.State.Ring.{ObsEntry, RingBuffer, new_ring, new_ring_pos, two64}
use go_bb_browser.State.Ring
use go_bb_browser.State.Ring.Query.{query_since_lem, newer, newest}
use go_bb_browser.State.Ring.History.{last, push_all_lem, push_all-snoc, push_all-nil}
use go_bb_browser.State.ObsStore.{
  TabObsStore, new_tab_obs_store_with_caps, reply, clear_target, sync_presence, entries_to_obs,
}
use go_bb_browser.State.ObsStore.Rings.{
  Kind, same, cap_of, ring, push, clear_only, query, ring-push, ring-clear_only, ring-clear_target,
  ring-sync_presence, query-ring, cap_of-push, cap_of-clear_only, cap_of-clear_target,
  cap_of-sync_presence, ring_new,
}

pub data Op : Type 0 where
  pushes : Kind → Text → ℕ → Text → Op
  clears : Kind → Text → Op
  forgets : Text → Op
  syncs : List (Option Info) → Op

pub step : TabObsStore → Op → TabObsStore
step s (pushes k id seq raw) = push k s id seq raw
step s (clears k id) = clear_only k s id
step s (forgets id) = clear_target s id
step s (syncs infos) = sync_presence s infos

pub run : TabObsStore → List Op → TabObsStore
run s [] = s
run s (op ∷ ops) = run (step s op) ops

-- What a call does to the history of the ring of kind `k` of target `id`.
pub recorded : Kind → Text → List ObsEntry → Op → List ObsEntry
recorded k id es (pushes k' id' seq raw) =
    if same k' k && str_eq id' id then es ++ record { seq = seq; raw = raw } ∷ [] else es
recorded k id es (clears k' id') = if same k' k && str_eq id' id then [] else es
recorded k id es (forgets id') = if str_eq id' id then [] else es
recorded k id es (syncs infos) = if in_set (present infos) id then es else []

pub history : Kind → Text → List ObsEntry → List Op → List ObsEntry
history k id es [] = es
history k id es (op ∷ ops) = history k id (recorded k id es op) ops

cap_of-step : (k : Kind) (s : TabObsStore) (op : Op) → cap_of (step s op) k ≡ cap_of s k
unfolding step
cap_of-step k s (pushes k' id seq raw) = cap_of-push k' k s id seq raw
cap_of-step k s (clears k' id) = cap_of-clear_only k' k s id
cap_of-step k s (forgets id) = cap_of-clear_target k s id
cap_of-step k s (syncs infos) = cap_of-sync_presence k s infos

-- The ring of each kind and target is the one that its history fills.
abbrev pub Holds : Kind → Text → TabObsStore → List ObsEntry → Type 0
Holds k id s es = ring s k id ≡ Ring.push_all (new_ring (cap_of s k)) es

step-Holds :
    (k : Kind) (id : Text) (s : TabObsStore) (es : List ObsEntry) (op : Op)
    → Holds k id s es
    → Holds k id (step s op) (recorded k id es op)
unfolding step recorded
step-Holds k id s es (pushes k' i seq raw) h = ground (
  arith,
  ring-push k' k s i id seq raw,
  cap_of-push k' k s i seq raw,
  push_all-snoc (new_ring (cap_of s k)) es (record { seq = seq; raw = raw }),
)
step-Holds k id s es (clears k' i) h = ground (
  arith,
  ring-clear_only k' k s i id,
  cap_of-clear_only k' k s i,
  push_all-nil (new_ring (cap_of s k)),
)
step-Holds k id s es (forgets i) h = ground (
  arith,
  ring-clear_target k s i id,
  cap_of-clear_target k s i,
  push_all-nil (new_ring (cap_of s k)),
)
step-Holds k id s es (syncs infos) h = ground (
  arith,
  ring-sync_presence k s infos id,
  cap_of-sync_presence k s infos,
  push_all-nil (new_ring (cap_of s k)),
)

run-Holds :
    (k : Kind) (id : Text) (s : TabObsStore) (es : List ObsEntry) (ops : List Op)
    → Holds k id s es
    → Holds k id (run s ops) (history k id es ops)
unfolding run history
run-Holds k id s es [] h = h
run-Holds k id s es (op ∷ ops) h =
    run-Holds k id (step s op) (recorded k id es op) ops (step-Holds k id s es op h)

cap_of-run : (k : Kind) (s : TabObsStore) (ops : List Op) → cap_of (run s ops) k ≡ cap_of s k
unfolding run
cap_of-run k s [] = refl
cap_of-run k s (op ∷ ops) = cap_of-run k (step s op) ops ∙ cap_of-step k s op

new-Holds : (k : Kind) (id : Text) (n c e : ℤ) → Holds k id (new_tab_obs_store_with_caps n c e) []
new-Holds k id n c e = ring_new k id n c e ∙ sym (push_all-nil _)

reply_filled :
    (m : ℕ) (es : List ObsEntry) (since : ℕ)
    → 0 < m
    → reply (Ring.push_all (new_ring (pos m)) es) since ≡ (
      entries_to_obs (newer since (last m es)),
      max since (newest (last m es)),
      (length es - m) % two64,
    )
reply_filled m es since h =
    rw
      (
        new_ring_pos m,
        push_all_lem (record { cap = m; q = []; dropped = 0 }) es h (omega arith) (omega arith),
        query_since_lem,
      )
      (λ i. (entries_to_obs (newer since (last m es)), max since (newest (last m es)), count i))
  where
    count : (0 + (length es - m)) % two64 ≡ (length es - m) % two64
    count = omega arith

-- After any sequence of pushes, clears, removals and presence updates on a new store, a query of
-- any kind for any target answers as one ring of that kind's capacity would, into which only that
-- target's own pushes of that kind since it was last cleared, removed or found absent went.
pub query-run :
    (k : Kind) (id : Text) (n c e : ℤ) (ops : List Op) (since : ℕ)
    → let s = new_tab_obs_store_with_caps n c e in
      query k (run s ops) id since
      ≡ reply (Ring.push_all (new_ring (cap_of s k)) (history k id [] ops)) since
query-run k id n c e ops since =
    let s = new_tab_obs_store_with_caps n c e in
    query-ring k (run s ops) id since
    ∙ ap (λ r. reply r since)
        (run-Holds k id s [] ops (new-Holds k id n c e)
          ∙ ap (λ x. Ring.push_all (new_ring x) (history k id [] ops)) (cap_of-run k s ops))

-- In a new store whose capacity for a kind is a positive `m`, a query returns, of the last `m`
-- entries of the target's history, those numbered above `since`, in order; the greater of `since`
-- and the greatest number among those `m` as the cursor; and as the dropped count the number of
-- entries of the history beyond `m`, modulo 2^64.
pub query-history :
    (k : Kind) (id : Text) (n c e : ℤ) (ops : List Op) (since m : ℕ)
    → cap_of (new_tab_obs_store_with_caps n c e) k ≡ pos m
    → 0 < m
    → let es = history k id [] ops in
      query k (run (new_tab_obs_store_with_caps n c e) ops) id since ≡ (
        entries_to_obs (newer since (last m es)),
        max since (newest (last m es)),
        (length es - m) % two64,
      )
query-history k id n c e ops since m cap_eq h =
    query-run k id n c e ops since
    ∙ ap (λ z. reply (Ring.push_all (new_ring z) (history k id [] ops)) since) cap_eq
    ∙ reply_filled m (history k id [] ops) since h
