-- ===== src/State/TabRegistry/Short.antt =====
-- The hexadecimal digits from which internal/state/tab_registry.go makes a short id.
use go_bb_browser.Prelude.{
  ℕ, ◌≡◌, refl, Bool, true, ◌&&◌, ◌||◌, [], ◌∷◌, Text, reverse, arith, leb, length, All, All-append,
  trim_space, trim_by, space_front, space_back,
}
use mathlib.Core.List.{reverse-cons, reverse-reverse}
use go_bb_browser.State.TabRegistry.{hex_runes}

-- A target id as Chrome makes them: 32 hexadecimal digits in upper case.
abbrev pub is_id_digit : ℕ → Bool
is_id_digit c = (leb b'0' c && leb c b'9') || (leb b'A' c && leb c b'F')

abbrev pub is_short_digit : ℕ → Bool
is_short_digit c = (leb b'0' c && leb c b'9') || (leb b'a' c && leb c b'f')

abbrev pub IsCdpId : Text → Type 0
IsCdpId id = (length id ≡ 32) × All (λ c. is_id_digit c ≡ true) id

pub length-hex_runes :
    (s : Text) → All (λ c. is_id_digit c ≡ true) s → length (hex_runes s) ≡ length s
unfolding hex_runes
length-hex_runes [] h = refl
length-hex_runes (c ∷ s) h = ground (arith, length-hex_runes s h.1)

pub hex_runes-digits : (s : Text) → All (λ c. is_short_digit c ≡ true) (hex_runes s)
unfolding hex_runes
hex_runes-digits [] = tt
hex_runes-digits (c ∷ s) = ground (arith, hex_runes-digits s)

pub hex_runes-injective :
    (s t : Text)
    → All (λ c. is_id_digit c ≡ true) s
    → All (λ c. is_id_digit c ≡ true) t
    → hex_runes s ≡ hex_runes t
    → s ≡ t
unfolding hex_runes
hex_runes-injective [] [] hs ht e = refl
hex_runes-injective [] (d ∷ t) hs ht e = ground arith
hex_runes-injective (c ∷ s) [] hs ht e = ground arith
hex_runes-injective (c ∷ s) (d ∷ t) hs ht e = ground (arith, hex_runes-injective s t hs.1 ht.1)

trim_by-of_zero : (f : Text → ℕ) (s : Text) → f s ≡ 0 → trim_by f 0 s ≡ s
unfolding trim_by
trim_by-of_zero f [] e = refl
trim_by-of_zero f (c ∷ s) e = rw (e, trim_by)

space_front-digits : (s : Text) → All (λ c. is_short_digit c ≡ true) s → space_front s ≡ 0
unfolding space_front
space_front-digits [] h = refl
space_front-digits (a ∷ []) h = ground arith
space_front-digits (a ∷ b ∷ []) h = ground arith
space_front-digits (a ∷ b ∷ c ∷ r) h = ground arith

space_back-digits : (s : Text) → All (λ c. is_short_digit c ≡ true) s → space_back s ≡ 0
unfolding space_back
space_back-digits [] h = refl
space_back-digits (a ∷ []) h = ground arith
space_back-digits (a ∷ b ∷ []) h = ground arith
space_back-digits (a ∷ b ∷ c ∷ r) h = ground arith

All-reverse {ℓ} : (P : ℕ → Type ℓ) (s : Text) → All P s → All P (reverse s)
All-reverse P [] h = tt
All-reverse P (c ∷ s) h =
    rw (reverse-cons c s) (All-append P (reverse s) (c ∷ []) (All-reverse P s h.1) (h.0, tt))

pub trim_space-digits : (s : Text) → All (λ c. is_short_digit c ≡ true) s → trim_space s ≡ s
unfolding trim_space
trim_space-digits s h =
    rw
      (
        trim_by-of_zero space_front s (space_front-digits s h),
        trim_by-of_zero space_back (reverse s) (space_back-digits (reverse s) (All-reverse _ s h)),
      )
      (reverse-reverse s)
