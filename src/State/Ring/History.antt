-- ===== src/State/Ring/History.antt =====
-- The ring of internal/state/ringbuf.go against the list of all that was pushed.
use go_bb_browser.Prelude.{
  ℕ, refl, ◌+◌, ◌-◌, ◌%◌, ◌≤◌, ◌<◌, ◌≡◌, refl, ap, ◌∙◌, List, [], ◌∷◌, ◌++◌, arith, length, zero,
  suc, sym, max, All, All-drop, filter-append, drop, length-append, length-drop, drop-append_le,
  drop-drop,
}
use native.Mathlib.Decide.{dec_le}
use mathlib.Core.List.{append_assoc, append-nil}
use go_bb_browser.State.Ring.{ObsEntry, RingBuffer, push, push_all, query_since, two64}
use go_bb_browser.State.Ring.Query.{newer, newest, query_since_lem, newer_nil, newer_self}
use go_bb_browser.State.Ring.Bounds.{IsBounded}

-- The last `cap` entries of a list.
abbrev pub last : ℕ → List ObsEntry → List ObsEntry
last cap es = drop (length es - cap) es

abbrev pub after : RingBuffer → List ObsEntry → RingBuffer
after r q = record r { q = last r.cap q; dropped = (r.dropped + (length q - r.cap)) % two64 }

push-eq-after :
    (r : RingBuffer) (e : ObsEntry)
    → 0 < r.cap
    → r.dropped < two64
    → push r e.seq e.raw ≡ after r (r.q ++ e ∷ [])
unfolding push
push-eq-after r e c d = ground arith

last-last : (cap : ℕ) (xs ys : List ObsEntry) → last cap (last cap xs ++ ys) ≡ last cap (xs ++ ys)
last-last cap xs ys =
    let n = length xs - cap in
    let m = length (last cap xs ++ ys) - cap in
    let total : n + m ≡ length (xs ++ ys) - cap =
      omega (arith, length-append (drop n xs) ys, length-append xs ys, length-drop n xs) in
    ap (drop m) (sym (drop-append_le n xs ys (omega arith)))
    ∙ drop-drop m n (xs ++ ys)
    ∙ ap (λ k. drop k (xs ++ ys)) total

-- After any series of pushes on a bounded ring whose capacity is not 0, the buffer holds the last
-- `cap` of what it held and what was pushed, in order, and the dropped count has grown by the
-- number of the others (modulo 2^64).
pub push_all_lem :
    (r : RingBuffer) (es : List ObsEntry)
    → 0 < r.cap
    → IsBounded r
    → r.dropped < two64
    → push_all r es ≡ after r (r.q ++ es)
unfolding push_all
push_all_lem r [] c b d = ground (arith, append-nil r.q)
push_all_lem r (e ∷ es) c b d =
    let q' = r.q ++ e ∷ [] in
    rw (push-eq-after r e c d) (
      push_all_lem (after r q') es c (omega (arith, length-drop (length q' - r.cap) q'))
        (omega arith)
      ∙ λ i. record r {
        q = (last-last r.cap q' es ∙ ap (last r.cap) (append_assoc r.q (e ∷ []) es)) i;
        dropped = count i;
      })
  where
    count :
        ((r.dropped + (length (r.q ++ e ∷ []) - r.cap)) % two64
            + (length (last r.cap (r.q ++ e ∷ []) ++ es) - r.cap))
          % two64
        ≡ (r.dropped + (length (r.q ++ e ∷ es) - r.cap)) % two64
    count = omega (
      arith,
      length-append (last r.cap (r.q ++ e ∷ [])) es,
      length-append r.q (e ∷ []),
      length-append r.q (e ∷ es),
      length-drop (length (r.q ++ e ∷ []) - r.cap) (r.q ++ e ∷ []),
    )

pub push_all-snoc :
    (r : RingBuffer) (es : List ObsEntry) (e : ObsEntry)
    → push_all r (es ++ e ∷ []) ≡ push (push_all r es) e.seq e.raw
unfolding push_all
push_all-snoc r [] e = refl
push_all-snoc r (x ∷ es) e = push_all-snoc (push r x.seq x.raw) es e

pub push_all-nil : (r : RingBuffer) → push_all r [] ≡ r
unfolding push_all
push_all-nil r = refl

drop-append_ge :
    (n : ℕ) (xs ys : List ObsEntry) → length xs ≤ n → drop n (xs ++ ys) ≡ drop (n - length xs) ys
drop-append_ge n [] ys h = ap (λ k. drop k ys) (omega arith)
drop-append_ge zero (x ∷ xs) ys h = absurd (omega arith)
drop-append_ge (suc n) (x ∷ xs) ys h =
    drop-append_ge n xs ys (omega arith) ∙ ap (λ k. drop k ys) (omega arith)

newest-drop : (n : ℕ) (q : List ObsEntry) → newest (drop n q) ≤ newest q
newest-drop zero q = omega arith
newest-drop (suc n) [] = omega arith
newest-drop (suc n) (e ∷ q) = omega (arith, newest-drop n q)

newer-last :
    (size c : ℕ) (q es : List ObsEntry)
    → length q ≤ size
    → newest q ≤ c
    → All (λ e. c < e.seq) es
    → newer c (last size (q ++ es)) ≡ last size es
newer-last size c q es b h a = elim (dec_le n (length q)) [
  | yes p ↦
      let whole : length es - size ≡ 0 = omega (arith, length-append q es) in
      rw
        (
          drop-append_le n q es p,
          filter-append,
          newer_nil (drop n q) c (omega (arith, newest-drop n q)),
          whole,
        )
        (newer_self c es a)
  | no p ↦
      let rest : n - length q ≡ length es - size = omega (arith, length-append q es) in
      rw (drop-append_ge n q es (omega arith), rest)
        (newer_self c _ (All-drop _ (length es - size) es a))
]
  where
    n : ℕ
    n = length (q ++ es) - size

-- A reader that passes the cursor of its last query on misses nothing that is still buffered and
-- sees nothing twice: on a bounded ring of capacity above 0, after pushes numbered above that
-- cursor the next query returns exactly the last `cap` of those pushes, in order.
pub query-push_all :
    (r : RingBuffer) (since : ℕ) (es : List ObsEntry)
    → 0 < r.cap
    → IsBounded r
    → r.dropped < two64
    → All (λ e. (query_since r since).1 < e.seq) es
    → (query_since (push_all r es) (query_since r since).1).0 ≡ last r.cap es
query-push_all r since es c b d a =
    let cursor : (query_since r since).1 ≡ max since (newest r.q) =
      ap (λ t. t.1) (query_since_lem r since) in
    ap (λ t. t.0) (query_since_lem (push_all r es) _)
    ∙ ap (λ s. newer (query_since r since).1 s.q) (push_all_lem r es c b d)
    ∙ newer-last r.cap (query_since r since).1 r.q es b (omega arith) a
