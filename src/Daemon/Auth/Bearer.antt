-- ===== src/Daemon/Auth/Bearer.antt =====
-- internal/daemon/auth.go: the values of an Authorization header that bear a token.
use go_bb_browser.Prelude.{
  ℕ, zero, suc, ◌<◌, ◌≡◌, ◌≢◌, refl, subst, sym, ap, ap₂, ◌∙◌, ◌↔◌, inl, inr, Bool, true, false,
  not, ◌&&◌, ◌||◌, leb, Option, none, some, List, [], ◌∷◌, ◌++◌, arith, Text, codes, str_eq, ◌==◌,
  any, All, Bool-cases, Option-cases, str_eq_iff,
}
use go_bb_browser.Prelude.{cut, lower, to_lower, length}
use go_bb_browser.Prelude.Json.{fold_extra, fold_from, names}
use go_bb_browser.Daemon.Auth.{
  is_separator, bearer_token, token_of, Config, Request, direct_loopback_request, authorization,
  authorized,
}
use go_bb_browser.State.Target.{in_set}

-- No space, tab, line end or comma.
abbrev pub IsTokenByte : ℕ → Type 0
IsTokenByte c = (c ≢ 32) × (c ≢ 9) × (c ≢ 13) × (c ≢ 10) × (c ≢ b',')

-- The value is the word Bearer, in any case, one space and the token.
abbrev pub Bears : Text → Text → Type 0
Bears value token =
    (scheme : Text) × (value ≡ scheme ++ 32 ∷ token)
    × (to_lower scheme ≡ codes "bearer")
    × (token ≢ [])
    × All IsTokenByte token

no_separator : (s : Text) → any is_separator s ≡ false → All IsTokenByte s
no_separator [] h = tt
no_separator (c ∷ s) h = (
  (λ e. ground arith, λ e. ground arith, λ e. ground arith, λ e. ground arith, λ e. ground arith),
  no_separator s (ground arith),
)

separator_free : (s : Text) → All IsTokenByte s → any is_separator s ≡ false
separator_free [] h = refl
separator_free (c ∷ s) h =
    let (a, b, d, e, f) = h.0 in ground (arith, separator_free s h.1, a, b, d, e, f)

cut-here : (sep c : ℕ) (s a b : Text) → [] ≡ a → s ≡ b → c == sep ≡ true → c ∷ s ≡ a ++ sep ∷ b
cut-here sep c s [] b f g e = let q : c ≡ sep = ground arith in ap₂ (λ x xs. x ∷ xs) q g
cut-here sep c s (x ∷ a) b f g e = absurd cc

cut-found : (sep : ℕ) (s a b : Text) → cut sep s ≡ some (a, b) → s ≡ a ++ sep ∷ b
unfolding cut
cut-found sep [] a b e = absurd cc
cut-found sep (c ∷ s) a b e = elim (Bool-cases (c == sep)) [
  | inl here ↦ elim (Option-cases (cut sep s)) [
    | inl rest ↦
        let f : ◌≡◌ {A = Option (Text × Text)} (some ([], s)) (some (a, b)) =
          rw (cut, rest, here) at e in
        let at_front : [] ≡ a = cc in
        let behind : s ≡ b = cc in cut-here sep c s a b at_front behind here
    | inr ((x, y), rest) ↦
        let f : ◌≡◌ {A = Option (Text × Text)} (some ([], s)) (some (a, b)) =
          rw (cut, rest, here) at e in
        let at_front : [] ≡ a = cc in
        let behind : s ≡ b = cc in cut-here sep c s a b at_front behind here
  ]
  | inr other ↦ elim (Option-cases (cut sep s)) [
    | inl rest ↦ absurd (
        let f : ◌≡◌ {A = Option (Text × Text)} none (some (a, b)) = rw (cut, rest, other) at e in
        cc)
    | inr ((x, y), rest) ↦
        let f : ◌≡◌ {A = Option (Text × Text)} (some (c ∷ x, y)) (some (a, b)) =
          rw (cut, rest, other) at e in
        ap (λ z. c ∷ z) (cut-found sep s x y rest) ∙ cc
  ]
]

cut-first : (sep : ℕ) (a b : Text) → All (λ c. c ≢ sep) a → cut sep (a ++ sep ∷ b) ≡ some (a, b)
unfolding cut
cut-first sep [] b h = ground arith
cut-first sep (c ∷ a) b h = let n = h.0 in ground (arith, cut-first sep a b h.1, n)

-- The letters that only another case of themselves folds to, all but s and k.
abbrev IsPlain : ℕ → Type 0
IsPlain c = (c < 128) × (c ≢ b's') × (c ≢ b'k')

fold_extra-ascii : (c : ℕ) (s : Text) → c < 128 → fold_extra (c ∷ s) ≡ 0
unfolding fold_extra
fold_extra-ascii c [] h = refl
fold_extra-ascii c (a ∷ []) h = ground arith
fold_extra-ascii c (a ∷ b ∷ s) h = ground arith

to_lower-fold : (s name : Text) → All IsPlain name → fold_from 0 s ≡ name → to_lower s ≡ name
unfolding fold_from to_lower
to_lower-fold [] name h e = e
to_lower-fold (c ∷ s) [] h e = absurd cc
to_lower-fold (c ∷ s) (n ∷ name) h e = by_extra (fold_extra (c ∷ s)) refl (to_lower-fold s name h.1)
  where
    by_extra :
        (k : ℕ)
        → fold_extra (c ∷ s) ≡ k
        → (fold_from 0 s ≡ name → to_lower s ≡ name)
        → to_lower (c ∷ s) ≡ n ∷ name
    by_extra zero q rest =
        let f : lower c ∷ fold_from 0 s ≡ n ∷ name = rw (fold_from, q) at e in
        let head : lower c ≡ n = cc in
        let tail : fold_from 0 s ≡ name = cc in ap₂ (λ x xs. x ∷ xs) head (rest tail)
    by_extra (suc zero) q rest =
        let f : b's' ∷ fold_from 1 s ≡ n ∷ name = rw (fold_from, q) at e in
        let head : b's' ≡ n = cc in let (small, x, y) = h.0 in absurd (x (sym head))
    by_extra (suc (suc k)) q rest =
        let more : suc k == 0 ≡ false = ground arith in
        let f : b'k' ∷ fold_from (suc (suc k)) s ≡ n ∷ name = rw (fold_from, q, more) at e in
        let head : b'k' ≡ n = cc in let (small, x, y) = h.0 in absurd (y (sym head))

lower-ascii : (c : ℕ) → lower c < 128 → c < 128
unfolding lower
lower-ascii c h = ground arith

fold-to_lower : (s name : Text) → All IsPlain name → to_lower s ≡ name → fold_from 0 s ≡ name
unfolding fold_from to_lower lower
fold-to_lower [] name h e = e
fold-to_lower (c ∷ s) [] h e = absurd cc
fold-to_lower (c ∷ s) (n ∷ name) h e =
    let head : lower c ≡ n = cc in
    let tail : to_lower s ≡ name = cc in
    let (small, x, y) = h.0 in
    let ascii : c < 128 = lower-ascii c (subst (λ x. x < 128) (sym head) small) in
    rw (fold_from, fold_extra-ascii c s ascii)
      (ap₂ (λ x xs. x ∷ xs) head (fold-to_lower s name h.1 tail))

lower-no_space : (s name : Text) → All (λ c. c ≢ 32) name → to_lower s ≡ name → All (λ c. c ≢ 32) s
unfolding to_lower lower
lower-no_space [] name h e = tt
lower-no_space (c ∷ s) [] h e = absurd cc
lower-no_space (c ∷ s) (n ∷ name) h e =
    let head : lower c ≡ n = cc in
    let tail : to_lower s ≡ name = cc in
    let x = h.0 in (λ q. x (sym head ∙ ap lower q), lower-no_space s name h.1 tail)

plain : (s : Text) → any (λ c. leb 128 c || c == b's' || c == b'k') s ≡ false → All IsPlain s
plain [] h = tt
plain (c ∷ s) h = ((ground arith, λ e. ground arith, λ e. ground arith), plain s (ground arith))

abbrev word : Text
word = codes "bearer"

named_bearer : (scheme : Text) → (names scheme word ≡ true) ↔ (to_lower scheme ≡ word)
unfolding names
named_bearer scheme = (
  λ h. to_lower-fold scheme word (plain word refl) ((str_eq_iff (fold_from 0 scheme) word).0 h),
  λ e. (str_eq_iff (fold_from 0 scheme) word).1 (fold-to_lower scheme word (plain word refl) e),
)

empty_iff : (s : Text) → (str_eq s [] ≡ false) ↔ (s ≢ [])
unfolding str_eq
empty_iff [] = (λ h. absurd cc, λ n. absurd (n refl))
empty_iff (c ∷ s) = (λ h e. absurd cc, λ n. refl)

bearer_token-found : (value token : Text) → bearer_token value ≡ some token → Bears value token
unfolding bearer_token
bearer_token-found value token e = elim (Option-cases (cut 32 value)) [
  | inl none_cut ↦ absurd (let f : none ≡ some token = rw (bearer_token, none_cut) at e in cc)
  | inr ((scheme, t), q) ↦
      elim (Bool-cases
        (names scheme (codes "bearer") && not (str_eq t []) && not (any is_separator t))) [
          | inl ok ↦
              let f : some t ≡ some token = rw (bearer_token, q, ok) at e in
              let same : t ≡ token = cc in
              let named : names scheme word ≡ true = ground (arith, ok) in
              let full : str_eq t [] ≡ false = ground (arith, ok) in
              let clean : any is_separator t ≡ false = ground (arith, ok) in
              subst (Bears value) same (
                scheme,
                cut-found 32 value scheme t q,
                (named_bearer scheme).0 named,
                (empty_iff t).0 full,
                no_separator t clean,
              )
          | inr bad ↦ absurd (let f : none ≡ some token = rw (bearer_token, q, bad) at e in cc)
        ]
]

word_no_space : All (λ c. c ≢ 32) word
word_no_space = apart word refl
  where
    apart : (s : Text) → any (λ c. c == 32) s ≡ false → All (λ c. c ≢ 32) s
    apart [] h = tt
    apart (c ∷ s) h = (λ e. ground arith, apart s (ground arith))

bearer_token-made : (value token : Text) → Bears value token → bearer_token value ≡ some token
unfolding bearer_token
bearer_token-made value token x =
    let (scheme, v, named, n, bytes) = x in
    let q : cut 32 value ≡ some (scheme, token) =
      ap (cut 32) v
      ∙ cut-first 32 scheme token (lower-no_space scheme (codes "bearer") word_no_space named) in
    rw
      (
        bearer_token,
        q,
        (named_bearer scheme).1 named,
        (empty_iff token).1 n,
        separator_free token bytes,
      )
      refl

accepts :
    (tokens values : List Text)
    → (elim (token_of values) as (λ _. Bool) [ none ↦ false | some token ↦ in_set tokens token ])
      ≡ true
    → (value token : Text) × (values ≡ value ∷ [])
      × Bears value token
      × (in_set tokens token ≡ true)
unfolding token_of
accepts tokens [] h = absurd cc
accepts tokens (value ∷ other ∷ values) h = absurd cc
accepts tokens (value ∷ []) h = elim (Option-cases (bearer_token value)) [
  | inl e ↦ absurd (let f : false ≡ true = rw e at h in cc)
  | inr (token, e) ↦ (value, token, refl, bearer_token-found value token e, rw e at h)
]

accepted :
    (tokens : List Text) (value token : Text)
    → Bears value token
    → in_set tokens token ≡ true
    → (elim (token_of (value ∷ [])) as (λ _. Bool) [ none ↦ false | some t ↦ in_set tokens t ])
      ≡ true
unfolding token_of
accepted tokens value token b m = rw (token_of, bearer_token-made value token b) m

module _ (split_host_port : Text → Option (Text × Text)) (is_loopback : Text → Bool) where
  -- With tokens configured, a request that is not exempt as a direct loopback request is let in exactly
  -- if it has one Authorization header and this is the word Bearer in any case, one space, and a
  -- configured token, which is not empty and has no space, tab, line end or comma. It is not let in if
  -- the header is missing or comes more than once.
  pub authorized_iff :
      (cfg : Config) (r : Request)
      → 0 < length cfg.api_tokens
      → (cfg.api_token_allow_loopback && direct_loopback_request split_host_port is_loopback r)
        ≡ false
      → (authorized split_host_port is_loopback cfg r ≡ true) ↔ (
          (value token : Text) × (authorization r ≡ value ∷ [])
          × Bears value token
          × (in_set cfg.api_tokens token ≡ true))
  unfolding authorized
  authorized_iff cfg r some_tokens strict =
      let configured : leb (length cfg.api_tokens) 0 ≡ false = ground arith in
      rw (authorized, configured, strict)
        (
          accepts cfg.api_tokens (authorization r),
          λ x. rw (x.2) (accepted cfg.api_tokens x.0 x.1 x.3 x.4),
        )
