-- ===== src/State/Ring/Tests.antt =====
-- Runs of the ring of internal/state/ringbuf.go, and the theorems at concrete rings.
use go_bb_browser.Prelude.{ℕ, ◌≡◌, refl, [], ◌∷◌, codes, pos}
use go_bb_browser.State.Ring.{ObsEntry, RingBuffer, new_ring, push, push_all}

abbrev entry : ℕ → ObsEntry
entry n = record { seq = n; raw = codes "{}" }

abbrev full : RingBuffer
full = record { cap = 2; q = entry 4 ∷ entry 5 ∷ []; dropped = 3 }

push_drops_oldest :
    push_all (new_ring (pos 2)) (entry 1 ∷ entry 2 ∷ entry 3 ∷ [])
    ≡ record { cap = 2; q = entry 2 ∷ entry 3 ∷ []; dropped = 1 }
unfolding push_all push new_ring
push_drops_oldest = refl
