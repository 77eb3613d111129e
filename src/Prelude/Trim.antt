-- ===== src/Prelude/Trim.antt =====
-- What strings.TrimSpace leaves: no space at either end, so that trimming again changes nothing.
use mathlib.Core.Path.{◌≡◌, refl, sym, ap, ◌∙◌}
use mathlib.Core.List.{[], ◌∷◌, ◌++◌, reverse, reverse-append, reverse-cons, reverse-reverse}
use native.Mathlib.Omega.{arith}
use Prim.Native.Nat.{ℕ, zero, suc, ◌<◌}
use go_bb_browser.Prelude.Lists.{All, All-append}
use go_bb_browser.Prelude.Strings.{Text, trim_by, trim_space, space_front, space_back}

pub trim_by-of_zero : (f : Text → ℕ) (s : Text) → f s ≡ 0 → trim_by f 0 s ≡ s
unfolding trim_by
trim_by-of_zero f [] e = refl
trim_by-of_zero f (c ∷ s) e = rw (e, trim_by)

trim_by-stops : (f : Text → ℕ) → f [] ≡ 0 → (k : ℕ) (s : Text) → f (trim_by f k s) ≡ 0
unfolding trim_by
trim_by-stops f e k [] = e
trim_by-stops f e (suc k) (c ∷ cs) = trim_by-stops f e k cs
trim_by-stops f e zero (c ∷ cs) = go (f (c ∷ cs)) refl (λ m. trim_by-stops f e m cs)
  where
    go :
        (n : ℕ)
        → f (c ∷ cs) ≡ n
        → ((m : ℕ) → f (trim_by f m cs) ≡ 0)
        → f (elim n [ zero ↦ c ∷ cs | suc m ↦ trim_by f m cs ]) ≡ 0
    go zero q stops = q
    go (suc m) q stops = stops m

-- What is left is the end of the text.
trim_by-suffix : (f : Text → ℕ) (k : ℕ) (s : Text) → (r : Text) × (s ≡ r ++ trim_by f k s)
unfolding trim_by
trim_by-suffix f k [] = ([], refl)
trim_by-suffix f (suc k) (c ∷ cs) = let (r, e) = trim_by-suffix f k cs in (c ∷ r, ap (λ x. c ∷ x) e)
trim_by-suffix f zero (c ∷ cs) = go (f (c ∷ cs)) (λ m. trim_by-suffix f m cs)
  where
    go :
        (n : ℕ)
        → ((m : ℕ) → (r : Text) × (cs ≡ r ++ trim_by f m cs))
        → (r : Text) × (c ∷ cs ≡ r ++ elim n [ zero ↦ c ∷ cs | suc m ↦ trim_by f m cs ])
    go zero rest = ([], refl)
    go (suc m) rest = let (r, e) = rest m in (c ∷ r, ap (λ x. c ∷ x) e)

space_front-prefix : (s r : Text) → space_front (s ++ r) ≡ 0 → space_front s ≡ 0
unfolding space_front
space_front-prefix [] r h = refl
space_front-prefix (a ∷ []) [] h = h
space_front-prefix (a ∷ []) (b ∷ []) h = ground arith
space_front-prefix (a ∷ []) (b ∷ c ∷ r) h = ground arith
space_front-prefix (a ∷ b ∷ []) [] h = h
space_front-prefix (a ∷ b ∷ []) (c ∷ r) h = ground arith
space_front-prefix (a ∷ b ∷ c ∷ s) r h = h

pub space_back-trim_space : (s : Text) → space_back (reverse (trim_space s)) ≡ 0
unfolding trim_space
space_back-trim_space s =
    ap space_back (reverse-reverse (trim_by space_back 0 (reverse (trim_by space_front 0 s))))
    ∙ trim_by-stops space_back refl 0 (reverse (trim_by space_front 0 s))

pub space_front-trim_space : (s : Text) → space_front (trim_space s) ≡ 0
unfolding trim_space
space_front-trim_space s =
    let x = trim_by space_front 0 s in
    let t = trim_by space_back 0 (reverse x) in
    let (r, e) = trim_by-suffix space_back 0 (reverse x) in
    let whole : x ≡ reverse t ++ reverse r =
      sym (reverse-reverse x) ∙ ap reverse e ∙ reverse-append r t in
    space_front-prefix (reverse t) (reverse r)
      (sym (ap space_front whole) ∙ trim_by-stops space_front refl 0 s)

pub trim_space-of_trimmed :
    (s : Text) → space_front s ≡ 0 → space_back (reverse s) ≡ 0 → trim_space s ≡ s
unfolding trim_space
trim_space-of_trimmed s front back =
    ap (λ x. reverse (trim_by space_back 0 (reverse x))) (trim_by-of_zero space_front s front)
    ∙ ap reverse (trim_by-of_zero space_back (reverse s) back)
    ∙ reverse-reverse s

pub trim_space-trim_space : (s : Text) → trim_space (trim_space s) ≡ trim_space s
trim_space-trim_space s =
    trim_space-of_trimmed (trim_space s) (space_front-trim_space s) (space_back-trim_space s)

-- A letter, a digit or another character of ASCII that one sees.
abbrev pub IsGraphic : ℕ → Type 0
IsGraphic c = (32 < c) × (c < 127)

space_front-graphic : (s : Text) → All IsGraphic s → space_front s ≡ 0
unfolding space_front
space_front-graphic [] h = refl
space_front-graphic (a ∷ []) h = ground arith
space_front-graphic (a ∷ b ∷ []) h = ground arith
space_front-graphic (a ∷ b ∷ c ∷ s) h = ground arith

space_back-graphic : (s : Text) → All IsGraphic s → space_back s ≡ 0
unfolding space_back
space_back-graphic [] h = refl
space_back-graphic (a ∷ []) h = ground arith
space_back-graphic (a ∷ b ∷ []) h = ground arith
space_back-graphic (a ∷ b ∷ c ∷ s) h = ground arith

All-reverse {ℓ} : (P : ℕ → Type ℓ) (s : Text) → All P s → All P (reverse s)
All-reverse P [] h = tt
All-reverse P (c ∷ s) h =
    rw (reverse-cons c s) (All-append P (reverse s) (c ∷ []) (All-reverse P s h.1) (h.0, tt))

pub trim_space-graphic : (s : Text) → All IsGraphic s → trim_space s ≡ s
trim_space-graphic s h =
    trim_space-of_trimmed s (space_front-graphic s h)
      (space_back-graphic (reverse s) (All-reverse IsGraphic s h))
