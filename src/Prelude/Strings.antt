-- ===== src/Prelude/Strings.antt =====
-- Go strings as lists of bytes: equality, the order of `<`, prefixes, suffixes, TrimSpace.
use Prim.Native.Nat.{ℕ, zero, suc, ◌+◌, ◌-◌}
use Prim.Native.Char.{code}
use Prim.Native.String.{String}
use mathlib.Core.Path.{◌≡◌, refl}
use mathlib.Core.Logic.{◌↔◌}
use mathlib.Core.Option.{Option, none, some}
use mathlib.Core.Bool.{Bool, true, false, ◌&&◌, ◌||◌}
use mathlib.Core.List.{List, [], ◌∷◌, map, reverse}
use native.Mathlib.Omega.{arith}
use go_bb_browser.Prelude.Tests.{ltb, leb, ◌==◌, if◌then◌else◌}
use go_bb_browser.Prelude.Lists.{length, drop}

-- A Go `string`: its bytes.
abbrev pub Text : Type 0
Text = List ℕ

-- A literal that is ASCII, so that its code points are its bytes.
abbrev pub codes : String → Text
codes String.[] = []
codes (String.◌∷◌ c s) = code c ∷ codes s

unfoldable pub str_eq : Text → Text → Bool
str_eq [] [] = true
str_eq [] (y ∷ ys) = false
str_eq (x ∷ xs) [] = false
str_eq (x ∷ xs) (y ∷ ys) = x == y && str_eq xs ys

-- `a < b` on strings: bytewise, a proper prefix first.
unfoldable pub str_lt : Text → Text → Bool
str_lt xs [] = false
str_lt [] (y ∷ ys) = true
str_lt (x ∷ xs) (y ∷ ys) = ltb x y || (x == y && str_lt xs ys)

unfoldable pub has_prefix : Text → Text → Bool
has_prefix s [] = true
has_prefix [] (p ∷ ps) = false
has_prefix (c ∷ cs) (p ∷ ps) = c == p && has_prefix cs ps

unfoldable pub has_suffix : Text → Text → Bool
unfolding str_eq
has_suffix s p = leb (length p) (length s) && str_eq (drop (length s - length p) s) p

-- strings.Contains
unfoldable pub contains : Text → Text → Bool
unfolding has_prefix
contains [] p = has_prefix [] p
contains (c ∷ cs) p = has_prefix (c ∷ cs) p || contains cs p

-- strings.ToLower on ASCII letters; the bytes of other runes are kept.
unfoldable pub lower : ℕ → ℕ
lower c = if leb b'A' c && leb c b'Z' then c + 32 else c

unfoldable pub to_lower : Text → Text
unfolding lower
to_lower = map lower

-- unicode.IsSpace on one, two and three bytes of UTF-8.
unfoldable pub space1 : ℕ → Bool
space1 a = (leb 9 a && leb a 13) || a == 32

unfoldable pub space2 : ℕ → ℕ → Bool
space2 a b = a == 0xc2 && (b == 0x85 || b == 0xa0)

unfoldable pub space3 : ℕ → ℕ → ℕ → Bool
space3 a b c =
    (a == 0xe1 && b == 0x9a && c == 0x80)
    || (a == 0xe2
        && b == 0x80
        && ((leb 0x80 c && leb c 0x8a) || c == 0xa8 || c == 0xa9 || c == 0xaf))
    || (a == 0xe2 && b == 0x81 && c == 0x9f)
    || (a == 0xe3 && b == 0x80 && c == 0x80)

-- How many bytes the space at the front takes; 0 if there is none.
unfoldable pub space_front : Text → ℕ
unfolding space1 space2 space3
space_front [] = 0
space_front (a ∷ []) = if space1 a then 1 else 0
space_front (a ∷ b ∷ []) = if space1 a then 1 else if space2 a b then 2 else 0
space_front (a ∷ b ∷ c ∷ r) =
    if space1 a then 1 else if space2 a b then 2 else if space3 a b c then 3 else 0

-- The same on a reversed text.
unfoldable pub space_back : Text → ℕ
unfolding space1 space2 space3
space_back [] = 0
space_back (a ∷ []) = if space1 a then 1 else 0
space_back (a ∷ b ∷ []) = if space1 a then 1 else if space2 b a then 2 else 0
space_back (a ∷ b ∷ c ∷ r) =
    if space1 a then 1 else if space2 b a then 2 else if space3 c b a then 3 else 0

-- `skip` bytes of a space are still to be dropped.
unfoldable pub trim_by : (Text → ℕ) → ℕ → Text → Text
trim_by f skip [] = []
trim_by f (suc skip) (c ∷ cs) = trim_by f skip cs
trim_by f zero (c ∷ cs) = elim (f (c ∷ cs)) [ zero ↦ c ∷ cs | suc n ↦ trim_by f n cs ]

unfoldable pub trim_space : Text → Text
unfolding trim_by space_front space_back
trim_space s = reverse (trim_by space_back 0 (reverse (trim_by space_front 0 s)))

-- strings.Cut at a byte.
unfoldable pub cut : ℕ → Text → Option (Text × Text)
cut sep [] = none
cut sep (c ∷ s) = elim (cut sep s) [
  | none ↦ if c == sep then some ([], s) else none
  | some (a, b) ↦ if c == sep then some ([], s) else some (c ∷ a, b)
]

pub str_eq_iff : (a b : Text) → (str_eq a b ≡ true) ↔ (a ≡ b)
unfolding str_eq
str_eq_iff [] [] = (λ _. refl, λ _. refl)
str_eq_iff [] (y ∷ ys) = (λ h. cc, λ h. cc)
str_eq_iff (x ∷ xs) [] = (λ h. cc, λ h. cc)
str_eq_iff (x ∷ xs) (y ∷ ys) = ground (arith, str_eq_iff xs ys)

pub str_eq_self : (a : Text) → str_eq a a ≡ true
str_eq_self a = (str_eq_iff a a).1 refl
