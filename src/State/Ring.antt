-- ===== src/State/Ring.antt =====
-- internal/state/ringbuf.go. A `json.RawMessage` is a text; `seq` and `dropped` are uint64.
pub mod Bounds
pub mod Query
pub mod History
mod Tests
use go_bb_browser.Prelude.{
  ℕ, ◌+◌, ◌-◌, ◌%◌, ◌^◌, ◌≡◌, refl, List, [], ◌∷◌, ◌++◌, Text, ℤ, pos, negsuc, length, drop, ltb,
  leb, if◌then◌else◌,
}

-- `obsEntry`
pub record ObsEntry : Type 0 where
  pub seq : ℕ
  pub raw : Text

pub record RingBuffer : Type 0 where
  pub cap : ℕ
  pub q : List ObsEntry
  pub dropped : ℕ

abbrev pub two64 : ℕ
two64 = 2 ^ 64

-- A negative capacity is taken as 0.
pub new_ring : ℤ → RingBuffer
new_ring (pos n) = record { cap = n; q = []; dropped = 0 }
new_ring (negsuc n) = record { cap = 0; q = []; dropped = 0 }

pub new_ring_pos : (n : ℕ) → new_ring (pos n) ≡ record { cap = n; q = []; dropped = 0 }
unfolding new_ring
new_ring_pos n = refl

pub push : RingBuffer → ℕ → Text → RingBuffer
push r seq raw =
    if leb r.cap 0
    then r
    else let q' = r.q ++ record { seq = seq; raw = raw } ∷ [] in
      let n = length q' - r.cap in
      if ltb r.cap (length q')
      then record r { dropped = (r.dropped + n) % two64; q = drop n q' }
      else record r { q = q' }

-- The loop of `QuerySince`: the events so far, and the greatest `seq` so far.
query_loop : ℕ → List ObsEntry → List ObsEntry → ℕ → List ObsEntry × ℕ
query_loop since [] events max_seq = (events, max_seq)
query_loop since (e ∷ q) events max_seq =
    query_loop since q (if ltb since e.seq then events ++ e ∷ [] else events)
      (if ltb max_seq e.seq then e.seq else max_seq)

-- The events, the cursor and the dropped count.
pub query_since : RingBuffer → ℕ → List ObsEntry × ℕ × ℕ
unfolding query_loop
query_since r since =
    let (events, max_seq) = query_loop since r.q [] 0 in
    (events, (if ltb max_seq since then since else max_seq), r.dropped)

-- A series of pushes, oldest first.
pub push_all : RingBuffer → List ObsEntry → RingBuffer
push_all r [] = r
push_all r (e ∷ es) = push_all (push r e.seq e.raw) es
