-- ===== src/State/Ring/Bounds.antt =====
-- The capacity bound of the ring of internal/state/ringbuf.go.
use go_bb_browser.Prelude.{
  ℕ, ◌-◌, ◌≤◌, ◌≡◌, List, [], ◌∷◌, ◌++◌, Text, arith, length, length-append, length-drop,
}
use go_bb_browser.State.Ring.{ObsEntry, RingBuffer, push}

-- The buffer never holds more entries than its capacity.
abbrev pub IsBounded : RingBuffer → Type 0
IsBounded r = length r.q ≤ r.cap

pub cap-push : (r : RingBuffer) (seq : ℕ) (raw : Text) → (push r seq raw).cap ≡ r.cap
unfolding push
cap-push r seq raw = ground arith

pub push-IsBounded :
    (r : RingBuffer) (seq : ℕ) (raw : Text) → IsBounded r → IsBounded (push r seq raw)
unfolding push
push-IsBounded r seq raw h =
    let q' : List ObsEntry = r.q ++ record { seq = seq; raw = raw } ∷ [] in
    ground (
      arith,
      length-append r.q (record { seq = seq; raw = raw } ∷ []),
      length-drop (length q' - r.cap) q',
    )
