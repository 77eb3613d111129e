-- ===== src/Pool/Walk.antt =====
-- pkg/daemonclient/pool.go: the in-flight counters, and the order in which backends are tried.
use go_bb_browser.Prelude.{
  ℕ, zero, suc, ◌+◌, ◌-◌, ◌%◌, ◌^◌, Option, none, some, List, [], ◌∷◌, ltb, ◌==◌, if◌then◌else◌,
  length, get_elem?,
}
use go_bb_browser.Pool.State.{Pool}

-- The counter of backend `i`.
unfoldable pub load : List ℕ → ℕ → ℕ
load counters i = elim (get_elem? counters i) [ none ↦ 0 | some n ↦ n ]

abbrev pub update : ℕ → (ℕ → ℕ) → List ℕ → List ℕ
update i f [] = []
update zero f (n ∷ ns) = f n ∷ ns
update (suc i) f (n ∷ ns) = n ∷ update i f ns

-- `track`, and the function that it returns.
unfoldable pub track : ℕ → Pool → Pool
track i p = record p { in_flight = update i (λ n. n + 1) p.in_flight }

unfoldable pub hold : ℕ → Pool → Pool
hold i p = record p { in_flight = update i (λ n. n - 1) p.in_flight }

-- `for i := 1; i < n; i++` with the rounds that are left, `i`, `best` and `bestN`.
unfoldable pub least_loop : List ℕ → ℕ → ℕ → ℕ → ℕ → ℕ → ℕ → ℕ
unfolding load
least_loop counters n start zero i best best_n = best
least_loop counters n start (suc left) i best best_n =
    let idx = (start + i) % n in
    let v = load counters idx in
    let b = if ltb v best_n then idx else best in
    let m = if ltb v best_n then v else best_n in least_loop counters n start left (i + 1) b m

-- `for i := 0; i < n; i++ { out[i] = (best + i) % n }` with the rounds that are left and `i`.
unfoldable pub walk_from : ℕ → ℕ → ℕ → ℕ → List ℕ
walk_from n best zero i = []
walk_from n best (suc left) i = (best + i) % n ∷ walk_from n best left (i + 1)

-- `int(u) % n` for a uint64 `u` below 2^64: `none` if it is negative, an index that panics.
unfoldable pub int_rem : ℕ → ℕ → Option ℕ
int_rem u n =
    if ltb u (2 ^ 63) then some (u % n) else if (2 ^ 64 - u) % n == 0 then some 0 else none

-- `none` is a panic.
unfoldable pub order : Pool → Option (List ℕ) × Pool
unfolding least_loop walk_from int_rem load
order p =
    let n = length p.clients in
    let p' = record p { rr = (p.rr + 1) % 2 ^ 64 } in
    elim (int_rem p.rr n) [
      | none ↦ (none, p')
      | some start ↦
          let best = least_loop p.in_flight n start (n - 1) 1 start (load p.in_flight start) in
          (some (walk_from n best n 0), p')
    ]
