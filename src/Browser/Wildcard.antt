-- ===== src/Browser/Wildcard.antt =====
-- internal/browser/network_routes.go: the wildcard patterns of Chrome's Fetch domain.
use mathlib.Core.List.{append-nil}
use go_bb_browser.Prelude.{
  ==_iff, ℕ, ◌≡◌, refl, sym, ap, ◌↔◌, inl, inr, Bool, true, false, ◌&&◌, List, [], ◌∷◌, ◌++◌, arith,
  Text, ◌==◌, if◌then◌else◌, any, Bool-cases,
}

-- All ends of a text, longest first: `str[i:]` for `i` from 0 to its length.
unfoldable pub suffixes : Text → List Text
suffixes [] = [] ∷ []
suffixes (c ∷ s) = (c ∷ s) ∷ suffixes s

unfoldable pub wildcard_match : Text → Text → Bool
unfolding suffixes
wildcard_match [] [] = true
wildcard_match [] (c ∷ s) = false
wildcard_match (p ∷ ps) s =
    let after_star : Bool = elim ps [
      | [] ↦ true
      | q ∷ qs ↦ any (λ t. wildcard_match ps t) (suffixes s)
    ] in
    let after_one : Bool = elim s [ [] ↦ false | c ∷ t ↦ wildcard_match ps t ] in
    let after_char : Bool = elim s [ [] ↦ false | c ∷ t ↦ p == c && wildcard_match ps t ] in
    if p == b'*' then after_star else if p == b'?' then after_one else after_char

-- What a pattern matches: `*` any text, `?` any byte, another byte itself.
pub data Matches : Text → Text → Type 0 where
  stop : Matches [] []
  star : (c : ℕ) (ps u v s : Text) → c ≡ b'*' → s ≡ u ++ v → Matches ps v → Matches (c ∷ ps) s
  one : (c d : ℕ) (ps s : Text) → c ≡ b'?' → Matches ps s → Matches (c ∷ ps) (d ∷ s)
  byte :
      (c d : ℕ) (ps s : Text)
      → (c == b'*') ≡ false
      → (c == b'?') ≡ false
      → c ≡ d
      → Matches ps s
      → Matches (c ∷ ps) (d ∷ s)

any-suffixes :
    (f : Text → Bool) (s : Text)
    → any f (suffixes s) ≡ true
    → (u : Text) × (v : Text) × (s ≡ u ++ v) × (f v ≡ true)
unfolding suffixes
any-suffixes f [] h = ([], [], refl, ground arith)
any-suffixes f (c ∷ s) h = elim (Bool-cases (f (c ∷ s))) [
  | inl e ↦ ([], c ∷ s, refl, e)
  | inr e ↦
      let (u, v, q, m) = any-suffixes f s (ground (arith, h, e)) in (c ∷ u, v, ap (λ x. c ∷ x) q, m)
]

suffix-any : (f : Text → Bool) (u v : Text) → f v ≡ true → any f (suffixes (u ++ v)) ≡ true
unfolding suffixes
suffix-any f [] [] h = ground (arith, h)
suffix-any f [] (c ∷ v) h = ground (arith, h)
suffix-any f (c ∷ u) v h = ground (arith, suffix-any f u v h)

match_sound : (p s : Text) → wildcard_match p s ≡ true → Matches p s
unfolding wildcard_match
match_sound [] [] h = stop
match_sound [] (c ∷ s) h = absurd cc
match_sound (p ∷ ps) s h = elim (Bool-cases (p == b'*')) [
  | inl e ↦ starred ps s (λ t. match_sound ps t) ((==_iff p b'*').0 e) (rw (wildcard_match, e) at h)
  | inr e ↦ elim (Bool-cases (p == b'?')) [
    | inl q ↦
        one_byte ps s (λ t. match_sound ps t) ((==_iff p b'?').0 q) (rw (wildcard_match, e, q) at h)
    | inr q ↦ same_byte ps s (λ t. match_sound ps t) e q (rw (wildcard_match, e, q) at h)
  ]
]
  where
    starred :
        (ps s : Text)
        → ((t : Text) → wildcard_match ps t ≡ true → Matches ps t)
        → p ≡ b'*'
        → elim ps as (λ _. Bool) [
          | [] ↦ true
          | q ∷ qs ↦ any (λ t. wildcard_match ps t) (suffixes s)
        ]
          ≡ true
        → Matches (p ∷ ps) s
    starred [] s m e h = star p [] s [] s e (sym (append-nil s)) stop
    starred (q ∷ qs) s m e h =
        let (u, v, w, k) = any-suffixes (λ t. wildcard_match (q ∷ qs) t) s h in
        star p (q ∷ qs) u v s e w (m v k)

    one_byte :
        (ps s : Text)
        → ((t : Text) → wildcard_match ps t ≡ true → Matches ps t)
        → p ≡ b'?'
        → elim s as (λ _. Bool) [ [] ↦ false | c ∷ t ↦ wildcard_match ps t ] ≡ true
        → Matches (p ∷ ps) s
    one_byte ps [] m e h = absurd cc
    one_byte ps (c ∷ t) m e h = one p c ps t e (m t h)

    same_byte :
        (ps s : Text)
        → ((t : Text) → wildcard_match ps t ≡ true → Matches ps t)
        → (p == b'*') ≡ false
        → (p == b'?') ≡ false
        → elim s as (λ _. Bool) [ [] ↦ false | c ∷ t ↦ p == c && wildcard_match ps t ] ≡ true
        → Matches (p ∷ ps) s
    same_byte ps [] m e q h = absurd cc
    same_byte ps (c ∷ t) m e q h = elim (Bool-cases (p == c)) [
      | inl r ↦ byte p c ps t e q ((==_iff p c).0 r) (m t (rw r at h))
      | inr r ↦ absurd (let f : false ≡ true = rw r at h in cc)
    ]

match_complete : (p s : Text) → Matches p s → wildcard_match p s ≡ true
unfolding wildcard_match
match_complete p s stop = refl
match_complete p s (star c [] u v t e q m) = rw (wildcard_match, (==_iff c b'*').1 e) refl
match_complete p s (star c (d ∷ ps) u v t e q m) =
    rw (wildcard_match, (==_iff c b'*').1 e, q)
      (suffix-any (wildcard_match (d ∷ ps)) u v (match_complete (d ∷ ps) v m))
match_complete p s (one c d ps t e m) = rw (e) (match_complete ps t m)
match_complete p s (byte c d ps t e q r m) =
    rw (wildcard_match, e, q, (==_iff c d).1 r) (match_complete ps t m)

-- The matcher accepts a text exactly when the pattern matches it: `*` any text, `?` any byte, and any
-- other byte itself.
pub wildcard_match_iff : (p s : Text) → (wildcard_match p s ≡ true) ↔ Matches p s
wildcard_match_iff p s = (match_sound p s, match_complete p s)
