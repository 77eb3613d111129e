-- ===== src/State/Ring/Query.antt =====
-- What `QuerySince` of internal/state/ringbuf.go returns.
use go_bb_browser.Prelude.{
  ℕ, ◌≤◌, ◌≡◌, refl, List, [], ◌∷◌, ◌++◌, arith, filter, max, ltb, All, ℤ, pos, negsuc, ◌<◌,
}
use mathlib.Core.List.{append_assoc, append-nil}
use go_bb_browser.State.Ring.{ObsEntry, RingBuffer, query_loop, query_since, new_ring}

-- The entries that a reader at `since` has not seen.
abbrev pub newer : ℕ → List ObsEntry → List ObsEntry
newer since = filter λ e. ltb since e.seq

-- The greatest number in the buffer, 0 if it is empty.
abbrev pub newest : List ObsEntry → ℕ
newest [] = 0
newest (e ∷ q) = max e.seq (newest q)

query_loop_lem :
    (since : ℕ) (q events : List ObsEntry) (m : ℕ)
    → query_loop since q events m ≡ (events ++ newer since q, max m (newest q))
unfolding query_loop
query_loop_lem since [] events m = ground (arith, append-nil events)
query_loop_lem since (e ∷ q) events m = ground (
  arith,
  query_loop_lem since q events m,
  query_loop_lem since q events e.seq,
  query_loop_lem since q (events ++ e ∷ []) m,
  query_loop_lem since q (events ++ e ∷ []) e.seq,
  append_assoc events (e ∷ []) (newer since q),
)

-- `QuerySince` returns the entries numbered above `since`, in the buffer's order, the greater of
-- `since` and the buffer's greatest number as the cursor, and the dropped count.
pub query_since_lem :
    (r : RingBuffer) (since : ℕ)
    → query_since r since ≡ (newer since r.q, max since (newest r.q), r.dropped)
unfolding query_since
query_since_lem r since = ground (arith, query_loop_lem since r.q [] 0)

pub newer_nil : (q : List ObsEntry) (since : ℕ) → newest q ≤ since → newer since q ≡ []
newer_nil [] since h = refl
newer_nil (e ∷ q) since h = ground (arith, newer_nil q since)

pub newer_self : (c : ℕ) (es : List ObsEntry) → All (λ e. c < e.seq) es → newer c es ≡ es
newer_self c [] h = refl
newer_self c (e ∷ es) h = ground (arith, newer_self c es h.1)

-- A fresh ring answers nothing, at the reader's own cursor.
pub query_since-new_ring : (c : ℤ) (since : ℕ) → query_since (new_ring c) since ≡ ([], since, 0)
unfolding new_ring
query_since-new_ring (pos n) since = ground (arith, query_since_lem (new_ring (pos n)) since)
query_since-new_ring (negsuc n) since = ground (arith, query_since_lem (new_ring (negsuc n)) since)
