-- ===== src/Prelude/Threads.antt =====
-- What the threads of a system have, by their numbers: a write for one of them, and what they have in
-- all, by a weight.
use Prim.Native.Nat.{ℕ, zero, suc, ◌+◌, ◌≤◌, ◌<◌}
use mathlib.Core.Path.{◌≡◌, refl}
use mathlib.Core.Logic.{ite, ◌≢◌}
use native.Mathlib.Decide.{dec_lt, ℕ_discrete}
use native.Mathlib.Omega.{arith}

abbrev pub update {ℓ} : {A : Type ℓ} → (ℕ → A) → ℕ → A → ℕ → A
update f k x i = ite (ℕ_discrete k i) x (f i)

-- `g 0 + … + g (n - 1)`
sum : (ℕ → ℕ) → ℕ → ℕ
sum g zero = 0
sum g (suc n) = g n + sum g n

sum_ext : (g h : ℕ → ℕ) (n : ℕ) → ((i : ℕ) → i < n → g i ≡ h i) → sum g n ≡ sum h n
unfolding sum
sum_ext g h zero eq = refl
sum_ext g h (suc n) eq =
    omega (arith, eq n (omega arith), sum_ext g h n (λ i lt. eq i (omega arith)))

-- Two sums whose terms agree but for one.
sum_differ :
    (g h : ℕ → ℕ) (n k : ℕ) → k < n → ((i : ℕ) → k ≢ i → g i ≡ h i) → sum g n + h k ≡ sum h n + g k
unfolding sum
sum_differ g h zero k lt eq = absurd (omega arith)
sum_differ g h (suc n) k lt eq = elim (ℕ_discrete k n) [
  | yes last ↦ let rest = sum_ext g h n (λ i less. eq i (λ e. omega arith)) in ground arith
  | no other ↦ omega (arith, eq n other, sum_differ g h n k (omega arith) eq)
]

sum_zero : (g : ℕ → ℕ) (n : ℕ) → ((i : ℕ) → g i ≡ 0) → sum g n ≡ 0
unfolding sum
sum_zero g zero none_has = refl
sum_zero g (suc n) none_has = omega (arith, none_has n, sum_zero g n none_has)

sum_mono : (g h : ℕ → ℕ) (n : ℕ) → ((i : ℕ) → g i ≤ h i) → sum g n ≤ sum h n
unfolding sum
sum_mono g h zero le = omega arith
sum_mono g h (suc n) le = omega (arith, le n, sum_mono g h n le)

le-sum : (g : ℕ → ℕ) (n k : ℕ) → k < n → g k ≤ sum g n
unfolding sum
le-sum g zero k lt = absurd (omega arith)
le-sum g (suc n) k lt = elim (ℕ_discrete k n) [
  | yes last ↦ ground arith
  | no other ↦ omega (arith, le-sum g n k (omega arith))
]

add-le-sum : (g : ℕ → ℕ) (n k m : ℕ) → k < m → m < n → g k + g m ≤ sum g n
unfolding sum
add-le-sum g zero k m less lt = absurd (omega arith)
add-le-sum g (suc n) k m less lt = elim (ℕ_discrete m n) [
  | yes last ↦ ground (arith, le-sum g n k)
  | no other ↦ omega (arith, add-le-sum g n k m less (omega arith))
]

sum_pos : (g : ℕ → ℕ) (n : ℕ) → 0 < sum g n → (i : ℕ) × (i < n) × (0 < g i)
unfolding sum
sum_pos g zero positive = absurd (omega arith)
sum_pos g (suc n) positive = elim (dec_lt 0 (g n)) [
  | yes here ↦ (n, omega arith, here)
  | no below ↦ let (i, lt, p) = sum_pos g n (omega arith) in (i, omega arith, p)
]

-- What the first `n` threads have.
pub total {ℓ} : {A : Type ℓ} → (A → ℕ) → ℕ → (ℕ → A) → ℕ
total w n f = sum (λ i. w (f i)) n

module _ {ℓ} {A : Type ℓ} (w : A → ℕ) (n : ℕ) where
  pub total-update :
      (f : ℕ → A) (k : ℕ) (x : A) → k < n → total w n (update f k x) + w (f k) ≡ total w n f + w x
  unfolding total
  total-update f k x lt =
      let eq =
        sum_differ (λ i. w (update f k x i)) (λ i. w (f i)) n k lt (λ i other. ground arith) in
      ground arith

  pub total-const : (a : A) → w a ≡ 0 → total w n (λ _. a) ≡ 0
  unfolding total
  total-const a e = sum_zero (λ i. w a) n (λ i. e)

  -- One thread's weight is part of the sum.
  pub le-total : (f : ℕ → A) (k : ℕ) → k < n → w (f k) ≤ total w n f
  unfolding total
  le-total f k lt = le-sum (λ i. w (f i)) n k lt

  -- The weights of two threads are part of the sum.
  pub add-le-total : (f : ℕ → A) (k m : ℕ) → k < m → m < n → w (f k) + w (f m) ≤ total w n f
  unfolding total
  add-le-total f k m less lt = add-le-sum (λ i. w (f i)) n k m less lt

  -- Where the sum is positive, a thread's weight is.
  pub total_pos : (f : ℕ → A) → 0 < total w n f → (i : ℕ) × (i < n) × (0 < w (f i))
  unfolding total
  total_pos f positive = sum_pos (λ i. w (f i)) n positive

module _ {ℓ} {A : Type ℓ} (v w : A → ℕ) (le : (a : A) → v a ≤ w a) where
  pub total_mono : (n : ℕ) (f : ℕ → A) → total v n f ≤ total w n f
  unfolding total
  total_mono n f = sum_mono (λ i. v (f i)) (λ i. w (f i)) n (λ i. le (f i))
