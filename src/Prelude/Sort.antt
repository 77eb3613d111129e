-- ===== src/Prelude/Sort.antt =====
-- slices.SortFunc by the order of strings, as insertion.
use mathlib.Core.Path.{◌≡◌, refl}
use mathlib.Core.Logic.{inl, inr}
use mathlib.Core.Bool.{Bool, true, false, ◌||◌}
use mathlib.Core.List.{List, [], ◌∷◌}
use native.Mathlib.Omega.{arith}
use go_bb_browser.Prelude.Lists.{any, All}
use go_bb_browser.Prelude.Tests.{if◌then◌else◌, Bool-cases}
use go_bb_browser.Prelude.Strings.{Text, str_lt}

unfoldable pub place : Text → List Text → List Text
place x [] = x ∷ []
place x (y ∷ ys) = if str_lt y x then y ∷ place x ys else x ∷ y ∷ ys

unfoldable pub sort : List Text → List Text
unfolding place
sort [] = []
sort (x ∷ xs) = place x (sort xs)

-- `x ≤ y` on strings.
abbrev pub StrLe : Text → Text → Type 0
StrLe x y = str_lt y x ≡ false

-- Every text is at most the one behind it.
abbrev pub IsSorted : List Text → Type 0
IsSorted [] = Unit
IsSorted (x ∷ []) = Unit
IsSorted (x ∷ y ∷ ys) = StrLe x y × IsSorted (y ∷ ys)

str_lt_asym : (x y : Text) → str_lt x y ≡ true → str_lt y x ≡ false
unfolding str_lt
str_lt_asym [] [] h = refl
str_lt_asym [] (b ∷ y) h = refl
str_lt_asym (a ∷ x) [] h = cc
str_lt_asym (a ∷ x) (b ∷ y) h = ground (arith, str_lt_asym x y)

place-IsSorted : (x : Text) (ys : List Text) → IsSorted ys → IsSorted (place x ys)
unfolding place
place-IsSorted x [] h = tt
place-IsSorted x (y ∷ []) h = ground (arith, str_lt_asym y x)
place-IsSorted x (y ∷ z ∷ ys) h =
    ground (arith, str_lt_asym y x, str_lt_asym z x, place-IsSorted x (z ∷ ys) h.1)

pub sort-IsSorted : (xs : List Text) → IsSorted (sort xs)
unfolding sort
sort-IsSorted [] = tt
sort-IsSorted (x ∷ xs) = place-IsSorted x (sort xs) (sort-IsSorted xs)

any-place : (p : Text → Bool) (x : Text) (ys : List Text) → any p (place x ys) ≡ (p x || any p ys)
unfolding place
any-place p x [] = refl
any-place p x (y ∷ ys) = ground (arith, any-place p x ys)

-- Sorting keeps the members.
pub any-sort : (p : Text → Bool) (xs : List Text) → any p (sort xs) ≡ any p xs
unfolding sort
any-sort p [] = refl
any-sort p (x ∷ xs) = ground (arith, any-place p x (sort xs), any-sort p xs)

All-place {ℓ} :
    (P : Text → Type ℓ) (x : Text) (ys : List Text) → P x → All P ys → All P (place x ys)
unfolding place
All-place P x [] h a = (h, tt)
All-place P x (y ∷ ys) h a = elim (Bool-cases (str_lt y x)) [
  | inl e ↦ rw e (a.0, All-place P x ys h a.1)
  | inr e ↦ rw e (h, a)
]

pub All-sort {ℓ} : (P : Text → Type ℓ) (xs : List Text) → All P xs → All P (sort xs)
unfolding sort
All-sort P [] a = tt
All-sort P (x ∷ xs) a = All-place P x (sort xs) a.0 (All-sort P xs a.1)
