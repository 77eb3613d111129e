-- ===== src/Pool/Order.antt =====
-- pkg/daemonclient/pool.go: the order in which a pool tries its backends.
use native.Mathlib.Nat.{mod-lt, mod-eq_of_lt, mod-eq-sub-mod, add-mod_left}
use go_bb_browser.Prelude.{
  ℕ, zero, suc, ◌+◌, ◌-◌, ◌%◌, ◌^◌, ◌≤◌, ◌<◌, ◌≡◌, refl, sym, ap, subst, ap₂, ◌∙◌, inl, inr, true,
  false, ◌&&◌, some, List, [], ◌∷◌, ◌++◌, arith, ltb, leb, ◌==◌, if◌then◌else◌, length, Bool-cases,
  lt→ltb,
}
use go_bb_browser.Pool.State.{Pool}
use go_bb_browser.Pool.Walk.{load, least_loop, walk_from, int_rem, order}

-- `a`, `a + 1`, … of this length.
abbrev pub range : ℕ → ℕ → List ℕ
range a zero = []
range a (suc k) = a ∷ range (a + 1) k

-- How often a number stands in a list.
abbrev pub count : ℕ → List ℕ → ℕ
count j [] = 0
count j (x ∷ xs) = (if x == j then 1 else 0) + count j xs

count-append : (j : ℕ) (xs ys : List ℕ) → count j (xs ++ ys) ≡ count j xs + count j ys
count-append j [] ys = omega arith
count-append j (x ∷ xs) ys = omega (arith, count-append j xs ys)

count-range : (j a k : ℕ) → count j (range a k) ≡ (if leb a j && ltb j (a + k) then 1 else 0)
count-range j a zero = ground arith
count-range j a (suc k) = ground (arith, count-range j (a + 1) k)

-- The rounds that do not pass the end of the backends, and those that do.
walk_from-below :
    (n best left i : ℕ) → best + i + left ≤ n → walk_from n best left i ≡ range (best + i) left
unfolding walk_from
walk_from-below n best zero i h = refl
walk_from-below n best (suc left) i h =
    ap₂ (λ x xs. x ∷ xs) (mod-eq_of_lt (omega arith))
      (walk_from-below n best left (i + 1) (omega arith) ∙ ap (λ x. range x left) (omega arith))

walk_from-above :
    (n best left i k : ℕ) → best + i ≡ n + k → k + left ≤ n → walk_from n best left i ≡ range k left
unfolding walk_from
walk_from-above n best zero i k e h = refl
walk_from-above n best (suc left) i k e h =
    ap₂ (λ x xs. x ∷ xs)
      (mod-eq-sub-mod (omega arith) ∙ ap (λ x. x % n) (omega arith) ∙ mod-eq_of_lt (omega arith))
      (walk_from-above n best left (i + 1) (k + 1) (omega arith) (omega arith))

walk_from-append :
    (n best a b i : ℕ)
    → walk_from n best (a + b) i ≡ walk_from n best a i ++ walk_from n best b (i + a)
unfolding walk_from
walk_from-append n best zero b i = ap₂ (walk_from n best) (omega arith) (omega arith)
walk_from-append n best (suc a) b i =
    ap (λ x. walk_from n best x i) more
    ∙ ap (λ xs. (best + i) % n ∷ xs)
        (walk_from-append n best a b (i + 1)
          ∙ ap (λ x. walk_from n best a (i + 1) ++ walk_from n best b x) shift)
  where
    more : suc a + b ≡ suc (a + b)
    more = omega arith

    shift : i + 1 + a ≡ i + suc a
    shift = omega arith

walk_from-range :
    (n best : ℕ) → best < n → walk_from n best n 0 ≡ range best (n - best) ++ range 0 best
walk_from-range n best h =
    ap (λ x. walk_from n best x 0) (omega arith)
    ∙ walk_from-append n best (n - best) best 0
    ∙ ap₂ (λ xs ys. xs ++ ys)
        (walk_from-below n best (n - best) 0 (omega arith)
          ∙ ap (λ x. range x (n - best)) (omega arith))
        (walk_from-above n best best (0 + (n - best)) 0 (omega arith) (omega arith))

-- After the rounds below `i`, the loop's best is the first from `start` that is least loaded.
record IsLeast (counters : List ℕ) (n : ℕ) (start : ℕ) (i : ℕ) (best : ℕ) (d : ℕ) : Type 0 where
  found : d < i
  place : best ≡ (start + d) % n
  least : (e : ℕ) → e < i → load counters best ≤ load counters ((start + e) % n)
  first : (e : ℕ) → e < d → load counters best < load counters ((start + e) % n)

IsLeast-suc :
    (counters : List ℕ) (n start i best d : ℕ)
    → IsLeast counters n start i best d
    → ltb (load counters ((start + i) % n)) (load counters best) ≡ false
    → IsLeast counters n start (i + 1) best d
IsLeast-suc counters n start i best d h e = record {
  found = let f = h.found in omega arith;
  place = h.place;
  least = λ j j<. elim (Bool-cases (j == i)) [
    | inl q ↦
        let same : j ≡ i = ground arith in
        subst (λ x. load counters best ≤ load counters ((start + x) % n)) (sym same) (ground arith)
    | inr q ↦ h.least j (ground arith)
  ];
  first = h.first;
}

IsLeast-here :
    (counters : List ℕ) (n start i best d : ℕ)
    → IsLeast counters n start i best d
    → ltb (load counters ((start + i) % n)) (load counters best) ≡ true
    → IsLeast counters n start (i + 1) ((start + i) % n) i
IsLeast-here counters n start i best d h e = record {
  found = omega arith;
  place = refl;
  least = λ j j<. elim (Bool-cases (j == i)) [
    | inl q ↦
        let same : j ≡ i = ground arith in
        subst (λ x. load counters ((start + i) % n) ≤ load counters ((start + x) % n)) (sym same)
          (omega arith)
    | inr q ↦ let below = h.least j (ground arith) in ground arith
  ];
  first = λ j j<. let below = h.least j j< in ground arith;
}

least_loop_lem :
    (counters : List ℕ) (n start left i best d : ℕ)
    → IsLeast counters n start i best d
    → (d' : ℕ) × IsLeast counters n start
        (i + left)
        (least_loop counters n start left i best (load counters best))
        d'
unfolding least_loop
least_loop_lem counters n start zero i best d h =
    (d, subst (λ x. IsLeast counters n start x best d) (omega arith) h)
least_loop_lem counters n start (suc left) i best d h =
    let more : i + 1 + left ≡ i + suc left = omega arith in
    let Found = λ (best : ℕ).
      (d' : ℕ) × IsLeast counters n start (i + suc left)
        (least_loop counters n start left (i + 1) best (load counters best)) d' in
    let again : (best d : ℕ) → IsLeast counters n start (i + 1) best d → Found best =
      λ best d h. rw (← more) (least_loop_lem counters n start left (i + 1) best d h) in
    elim (Bool-cases (ltb (load counters ((start + i) % n)) (load counters best))) [
      | inl e ↦ rw e (again ((start + i) % n) i (IsLeast-here counters n start i best d h e))
      | inr e ↦ rw e (again best d (IsLeast-suc counters n start i best d h e))
    ]

-- Every backend is met on the way round from `start`.
ring-covers : (n start j : ℕ) → start < n → j < n → (e : ℕ) × (e < n) × ((start + e) % n ≡ j)
ring-covers n start j s h =
    let around : leb start j ≡ false → (start + (n + j - start)) % n ≡ j % n = λ b.
      let e : start + (n + j - start) ≡ n + j = ground arith in
      ap (λ x. x % n) e ∙ add-mod_left n j in
    elim (Bool-cases (leb start j)) [
      | inl b ↦ (j - start, ground arith, ap (λ x. x % n) (ground arith) ∙ mod-eq_of_lt h)
      | inr b ↦ (n + j - start, ground arith, around b ∙ mod-eq_of_lt h)
    ]

IsLeast-of_order :
    (counters : List ℕ) (n start : ℕ)
    → start < n
    → (d : ℕ) × IsLeast counters n start n
        (least_loop counters n start (n - 1) 1 start (load counters start))
        d
IsLeast-of_order counters n start h =
    let e : 1 + (n - 1) ≡ n = omega arith in
    let r = least_loop_lem counters n start (n - 1) 1 start 0 begin in
    (
      r.0,
      subst
          (λ x.
            IsLeast counters n start x
              (least_loop counters n start (n - 1) 1 start (load counters start)) r.0)
          e r.1,
    )
  where
    begin : IsLeast counters n start 1 start 0
    begin = record {
      found = omega arith;
      place = sym (ap (λ x. x % n) (omega arith) ∙ mod-eq_of_lt h);
      least = λ e e<.
          let zero_is : e ≡ 0 = omega arith in
          let same : (start + e) % n ≡ start = ap (λ x. x % n) (omega arith) ∙ mod-eq_of_lt h in
          omega (arith, ap (load counters) same);
      first = λ e e<. absurd (omega arith);
    }

-- While fewer than 2^63 calls have been ordered and the pool has a backend, the order begins at a
-- backend that no other is less loaded than, the first such from the round-robin position on, and
-- goes on through the backends behind it and then those before it.
pub order_lem :
    (p : Pool)
    → 0 < length p.clients
    → p.rr < 2 ^ 63
    → let n = length p.clients in
      let start = p.rr % n in
      (best : ℕ) × (d : ℕ) × ((order p).0 ≡ some (range best (n - best) ++ range 0 best))
      × (best < n)
      × (best ≡ (start + d) % n)
      × ((j : ℕ) → j < n → load p.in_flight best ≤ load p.in_flight j)
      × ((e : ℕ) → e < d → load p.in_flight best < load p.in_flight ((start + e) % n))
unfolding order int_rem
order_lem p h few =
    let n = length p.clients in
    let start = p.rr % n in
    let start< : start < n = mod-lt p.rr h in
    let r = IsLeast-of_order p.in_flight n start start< in
    let best = least_loop p.in_flight n start (n - 1) 1 start (load p.in_flight start) in
    let best< : best < n = subst (λ x. x < n) (sym r.1.place) (mod-lt (start + r.0) h) in
    (
      best,
      r.0,
      rw (order, int_rem, lt→ltb p.rr (2 ^ 63) few) (ap some (walk_from-range n best best<)),
      best<,
      r.1.place,
      (λ j j<.
          let c = ring-covers n start j start< j< in
          subst (λ x. load p.in_flight best ≤ load p.in_flight x) c.2 (r.1.least c.0 c.1)),
      r.1.first,
    )

-- While fewer than 2^63 calls have been ordered and the pool has a backend, every backend stands in
-- the order just once, and no other number does.
pub order-permutation :
    (p : Pool)
    → 0 < length p.clients
    → p.rr < 2 ^ 63
    → (out : List ℕ) × ((order p).0 ≡ some out)
      × ((j : ℕ) → count j out ≡ (if ltb j (length p.clients) then 1 else 0))
order-permutation p h few =
    let n = length p.clients in
    let (best, d, e, best<, at, below, first) = order_lem p h few in
    (
      range best (n - best) ++ range 0 best,
      e,
      λ j.
          count-append j (range best (n - best)) (range 0 best)
          ∙ ground (arith, count-range j best (n - best), count-range j 0 best),
    )
