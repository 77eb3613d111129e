-- ===== src/Prelude/Numbers.antt =====
-- Decimal numbers: strconv.Itoa and strconv.ParseUint.
use native.Mathlib.Nat.{mod-lt, mod-eq_of_lt, div-add-mod', div-lt_iff_lt-mul}
use native.Mathlib.Omega.{arith}
use mathlib.Core.Path.{◌≡◌, refl, sym, ap, ◌∙◌}
use mathlib.Core.Logic.{◌≢◌, inl, inr}
use Prim.Native.Nat.{◌<◌, ℕ, zero, suc, ◌+◌, ◌-◌, ◌*◌, ◌/◌, ◌%◌, ◌^◌}
use mathlib.Core.Bool.{true, ◌&&◌}
use mathlib.Core.List.{[], ◌∷◌}
use mathlib.Core.Option.{Option, none, some}
use go_bb_browser.Prelude.Tests.{ltb, leb, Bool-cases, lt→ltb, if◌then◌else◌}
use go_bb_browser.Prelude.Strings.{Text}

-- strconv.Itoa of a number that is no `int` below 0; 20 digits hold any of 64 bits.
unfoldable pub digits : ℕ → ℕ → Text → Text
digits zero n acc = acc
digits (suc fuel) n acc =
    let here = (b'0' + n % 10) ∷ acc in
    let rest = digits fuel (n / 10) here in if ltb n 10 then here else rest

unfoldable pub itoa : ℕ → Text
unfolding digits
itoa n = digits 20 n []

unfoldable pub parse_digits : Text → ℕ → Option ℕ
parse_digits [] n = some n
parse_digits (c ∷ s) n =
    let rest = parse_digits s (n * 10 + (c - b'0')) in
    if leb b'0' c && leb c b'9' then rest else none

-- strconv.ParseUint in base 10, for so many bits.
unfoldable pub parse_uint : ℕ → Text → Option ℕ
unfolding parse_digits
parse_uint bits [] = none
parse_uint bits (c ∷ s) = elim (parse_digits (c ∷ s) 0) [
  | none ↦ none
  | some n ↦ if ltb n (2 ^ bits) then some n else none
]

digit-value : (n : ℕ) → leb b'0' (b'0' + n % 10) && leb (b'0' + n % 10) b'9' ≡ true
digit-value n = let d : n % 10 < 10 = mod-lt n (omega arith) in ground arith

parse-digits :
    (fuel n : ℕ) (acc : Text)
    → n < 10 ^ fuel
    → parse_digits (digits fuel n acc) 0 ≡ parse_digits acc n
unfolding digits parse_digits
parse-digits zero n acc h = ap (parse_digits acc) (omega (arith, h))
parse-digits (suc fuel) n acc h = elim (Bool-cases (ltb n 10)) [
  | inl b ↦
      let e : 0 * 10 + (b'0' + n % 10 - b'0') ≡ n =
        ap (λ x. 0 * 10 + (b'0' + x - b'0')) (mod-eq_of_lt (ground arith)) ∙ omega arith in
      rw (digits, b, parse_digits, digit-value n) (ap (parse_digits acc) e)
  | inr b ↦
      let e : n / 10 * 10 + (b'0' + n % 10 - b'0') ≡ n = omega (arith, div-add-mod' n 10) in
      let bound : n < 10 ^ fuel * 10 = omega (arith, h) in
      let small : n / 10 < 10 ^ fuel = (div-lt_iff_lt-mul (omega arith)).1 bound in
      rw (digits, b)
        (parse-digits fuel (n / 10) ((b'0' + n % 10) ∷ acc) small
          ∙ rw (parse_digits, digit-value n) (ap (parse_digits acc) e))
]

parse_nil : (n : ℕ) → parse_digits [] n ≡ some n
unfolding parse_digits
parse_nil n = refl

parse_uint-of_digits :
    (bits n : ℕ) (s : Text)
    → s ≢ []
    → parse_digits s 0 ≡ some n
    → n < 2 ^ bits
    → parse_uint bits s ≡ some n
unfolding parse_uint
parse_uint-of_digits bits n [] ne e h = absurd (ne refl)
parse_uint-of_digits bits n (c ∷ s) ne e h = rw (parse_uint, e, lt→ltb n (2 ^ bits) h) refl

digits-ne_nil : (fuel n c : ℕ) (acc : Text) → digits fuel n (c ∷ acc) ≢ []
unfolding digits
digits-ne_nil zero n c acc e = absurd cc
digits-ne_nil (suc fuel) n c acc e = elim (Bool-cases (ltb n 10)) [
  | inl b ↦ absurd (let h : (b'0' + n % 10) ∷ c ∷ acc ≡ [] = rw (digits, b) at e in cc)
  | inr b ↦ digits-ne_nil fuel (n / 10) (b'0' + n % 10) (c ∷ acc) (rw (digits, b) at e)
]

digits-suc-ne_nil : (fuel n : ℕ) → digits (suc fuel) n [] ≢ []
unfolding digits
digits-suc-ne_nil fuel n e = elim (Bool-cases (ltb n 10)) [
  | inl b ↦ absurd (let h : (b'0' + n % 10) ∷ [] ≡ [] = rw (digits, b) at e in cc)
  | inr b ↦ digits-ne_nil fuel (n / 10) (b'0' + n % 10) [] (rw (digits, b) at e)
]

itoa-digits : (n : ℕ) → itoa n ≡ digits 20 n []
unfolding itoa
itoa-digits n = refl

pub itoa-ne_nil : (n : ℕ) → itoa n ≢ []
itoa-ne_nil n e = digits-suc-ne_nil 19 n (sym (itoa-digits n) ∙ e)

-- A number that fits in 64 bits is read back from how it is printed.
pub parse_uint-itoa : (n : ℕ) → n < 2 ^ 64 → parse_uint 64 (itoa n) ≡ some n
parse_uint-itoa n h =
    parse_uint-of_digits 64 n (itoa n) (itoa-ne_nil n)
      (ap (λ s. parse_digits s 0) (itoa-digits n)
        ∙ parse-digits 20 n [] (omega arith)
        ∙ parse_nil n)
      h
