-- ===== src/Browser/Routes/Match.antt =====
-- internal/browser/network_routes.go: the URLs that a rule's pattern matches, described without the
-- code, and the rule that a request meets.
use go_bb_browser.Prelude.{
  zero, suc, ◌-◌, ◌≡◌, ◌≢◌, refl, sym, ap, subst, ◌∙◌, ◌↔◌, ◌⊎◌, inl, inr, Bool, true, false, ◌||◌,
  Option, some, List, [], ◌∷◌, ◌++◌, arith, Text, codes, str_eq, str_eq_iff, trim_space, contains,
  leb, length, length-append, drop, if◌then◌else◌, All, Bool-cases, Option-cases, ℕ,
}
use go_bb_browser.Prelude.{has_prefix, has_suffix, lower, to_lower}
use go_bb_browser.Browser.Wildcard.{Matches, wildcard_match_iff}
use go_bb_browser.Browser.Routes.{NetworkRouteRule, is_host, match_host, url_match, match_route}

-- A pattern for whole URLs.
abbrev pub is_whole : Text → Bool
is_whole p = contains p (codes "://") || has_prefix p (codes "*")

-- A URL without a path has the path of the root.
abbrev pub rooted : Text → Text
rooted [] = codes "/"
rooted (c ∷ path) = c ∷ path

-- The trimmed pattern `p` matches a URL of this host and path, up to case: with a slash, it is a wildcard
-- for the host and the path; without, it is the host or a domain above it.
pub data HostMatches : Text → Text → Text → Type 0 where
  with_path :
      (p host path : Text)
      → contains (to_lower p) (codes "/") ≡ true
      → Matches (to_lower p) (to_lower (host ++ rooted path))
      → HostMatches p host path
  same_host :
      (p host path : Text)
      → contains (to_lower p) (codes "/") ≡ false
      → to_lower host ≡ to_lower p
      → HostMatches p host path
  under_host :
      (p host path sub : Text)
      → contains (to_lower p) (codes "/") ≡ false
      → to_lower host ≡ sub ++ b'.' ∷ to_lower p
      → HostMatches p host path

drop-rest : (n : ℕ) (s : Text) → (u : Text) × (s ≡ u ++ drop n s)
drop-rest zero s = ([], refl)
drop-rest (suc n) [] = ([], refl)
drop-rest (suc n) (c ∷ s) = let (u, e) = drop-rest n s in (c ∷ u, ap (λ x. c ∷ x) e)

drop-append : (u p : Text) → drop (length u) (u ++ p) ≡ p
drop-append [] p = refl
drop-append (c ∷ u) p = drop-append u p

has_suffix_iff : (s p : Text) → (has_suffix s p ≡ true) ↔ ((u : Text) × (s ≡ u ++ p))
unfolding has_suffix
has_suffix_iff s p = (
  λ h.
      let (u, e) = drop-rest (length s - length p) s in
      let same : drop (length s - length p) s ≡ p =
        (str_eq_iff (drop (length s - length p) s) p).0 (ground (arith, h)) in
      (u, e ∙ ap (λ x. u ++ x) same),
  λ x. subst (λ t. has_suffix t p ≡ true) (sym (x.1)) (made x.0),
)
  where
    made : (u : Text) → has_suffix (u ++ p) p ≡ true
    made u =
        let back : length (u ++ p) - length p ≡ length u = omega (arith, length-append u p) in
        let fits : leb (length p) (length (u ++ p)) ≡ true = ground (arith, length-append u p) in
        rw (has_suffix, fits, back) ((str_eq_iff (drop (length u) (u ++ p)) p).1 (drop-append u p))

lower-lower : (c : ℕ) → lower (lower c) ≡ lower c
unfolding lower
lower-lower c = ground arith

to_lower-to_lower_append : (s t : Text) → to_lower (to_lower s ++ t) ≡ to_lower (s ++ t)
unfolding to_lower
to_lower-to_lower_append [] t = refl
to_lower-to_lower_append (c ∷ s) t =
    rw (lower-lower c) (ap (λ x. lower c ∷ x) (to_lower-to_lower_append s t))

rooted_lem : (path : Text) → (if str_eq path [] then codes "/" else path) ≡ rooted path
unfolding str_eq
rooted_lem [] = refl
rooted_lem (c ∷ path) = refl

is_host-cases :
    (host p : Text) → is_host host p ≡ true → (host ≡ p) ⊎ ((sub : Text) × (host ≡ sub ++ b'.' ∷ p))
is_host-cases host p h = elim (Bool-cases (str_eq host p)) [
  | inl e ↦ inl ((str_eq_iff host p).0 e)
  | inr e ↦ inr ((has_suffix_iff host (b'.' ∷ p)).0 (ground (arith, h, e)))
]

is_nil_iff : (s : Text) → (str_eq s [] ≡ false) ↔ (s ≢ [])
unfolding str_eq
is_nil_iff [] = (λ h. absurd cc, λ n. absurd (n refl))
is_nil_iff (c ∷ s) = (λ h e. absurd cc, λ n. refl)

-- The pattern, trimmed and not empty, matches the URL: a whole one as a wildcard, another one by the
-- host and the path that url.Parse finds.
pub data UrlMatches (parse : Text → Option (Text × Text)) : Text → Text → Type 0 where
  whole :
      (pattern url : Text)
      → trim_space pattern ≢ []
      → is_whole (trim_space pattern) ≡ true
      → Matches (trim_space pattern) url
      → UrlMatches parse pattern url
  by_host :
      (pattern url host path : Text)
      → trim_space pattern ≢ []
      → is_whole (trim_space pattern) ≡ false
      → parse url ≡ some (host, path)
      → HostMatches (trim_space pattern) host path
      → UrlMatches parse pattern url

module _ (parse : Text → Option (Text × Text)) where
  match_host-found :
      (p host path : Text) → match_host parse p host path ≡ true → HostMatches p host path
  unfolding match_host
  match_host-found p host path h = elim (Bool-cases (contains (to_lower p) (codes "/"))) [
    | inl slash ↦
        let m =
          rw (match_host, slash, rooted_lem path, to_lower-to_lower_append host (rooted path)) at
            h in
        with_path p host path slash
          ((wildcard_match_iff (to_lower p) (to_lower (host ++ rooted path))).0 m)
    | inr bare ↦ elim (is_host-cases (to_lower host) (to_lower p) (rw (match_host, bare) at h)) [
      | inl same ↦ same_host p host path bare same
      | inr (sub, e) ↦ under_host p host path sub bare e
    ]
  ]

  match_host-made :
      (p host path : Text) → HostMatches p host path → match_host parse p host path ≡ true
  unfolding match_host
  match_host-made _ _ _ (with_path p host path slash m) =
      rw (match_host, slash, rooted_lem path, to_lower-to_lower_append host (rooted path))
        ((wildcard_match_iff (to_lower p) (to_lower (host ++ rooted path))).1 m)
  match_host-made _ _ _ (same_host p host path bare e) =
      let same = (str_eq_iff (to_lower host) (to_lower p)).1 e in
      rw (match_host, bare) (ground (arith, same))
  match_host-made _ _ _ (under_host p host path sub bare e) =
      let under = (has_suffix_iff (to_lower host) (b'.' ∷ to_lower p)).1 (sub, e) in
      rw (match_host, bare) (ground (arith, under))

  url_match-found :
      (pattern url : Text) → url_match parse pattern url ≡ true → UrlMatches parse pattern url
  unfolding url_match
  url_match-found pattern url h = elim (Bool-cases (str_eq (trim_space pattern) [])) [
    | inl e ↦ absurd (let f : false ≡ true = rw (url_match, e) at h in cc)
    | inr e ↦
        let full = (is_nil_iff (trim_space pattern)).0 e in
        elim (Bool-cases (is_whole (trim_space pattern))) [
          | inl w ↦
              whole pattern url full w
                ((wildcard_match_iff (trim_space pattern) url).0 (rw (url_match, e, w) at h))
          | inr w ↦ elim (Option-cases (parse url)) [
            | inl q ↦ absurd (let f : false ≡ true = rw (url_match, e, w, q) at h in cc)
            | inr ((host, path), q) ↦
                by_host pattern url host path full w q
                  (match_host-found (trim_space pattern) host path (rw (url_match, e, w, q) at h))
          ]
        ]
  ]

  url_match-made :
      (pattern url : Text) → UrlMatches parse pattern url → url_match parse pattern url ≡ true
  unfolding url_match
  url_match-made _ _ (whole pattern url full w m) =
      rw (url_match, (is_nil_iff (trim_space pattern)).1 full, w)
        ((wildcard_match_iff (trim_space pattern) url).1 m)
  url_match-made _ _ (by_host pattern url host path full w q m) =
      rw (url_match, (is_nil_iff (trim_space pattern)).1 full, w, q)
        (match_host-made (trim_space pattern) host path m)

  url_match-missed :
      (pattern url : Text)
      → (url_match parse pattern url ≡ false) ↔ (¬ UrlMatches parse pattern url)
  url_match-missed pattern url = (
    λ e m. absurd (let f : true ≡ false = sym (url_match-made pattern url m) ∙ e in cc),
    λ n. elim (Bool-cases (url_match parse pattern url)) [
      | inl e ↦ absurd (n (url_match-found pattern url e))
      | inr e ↦ e
    ],
  )

  match_route-found :
      (rules : List NetworkRouteRule) (url : Text) (r : NetworkRouteRule)
      → match_route parse rules url ≡ some r
      → (before after : List NetworkRouteRule) × (rules ≡ before ++ r ∷ after)
        × All (λ r'. ¬ UrlMatches parse r'.url_pattern url) before
        × UrlMatches parse r.url_pattern url
  unfolding match_route
  match_route-found [] url r e = absurd cc
  match_route-found (q ∷ rs) url r e = elim (Bool-cases (url_match parse q.url_pattern url)) [
    | inl m ↦
        let same : q ≡ r = let f : some q ≡ some r = rw (match_route, m) at e in cc in
        (
          [],
          rs,
          ap (λ x. x ∷ rs) same,
          tt,
          subst (λ x. UrlMatches parse x.url_pattern url) same
              (url_match-found q.url_pattern url m),
        )
    | inr m ↦
        let (before, after, s, misses, hit) =
          match_route-found rs url r (rw (match_route, m) at e) in
        (
          q ∷ before,
          after,
          ap (λ xs. q ∷ xs) s,
          ((url_match-missed q.url_pattern url).0 m, misses),
          hit,
        )
  ]

  match_route-first :
      (before after : List NetworkRouteRule) (url : Text) (r : NetworkRouteRule)
      → All (λ r'. ¬ UrlMatches parse r'.url_pattern url) before
      → UrlMatches parse r.url_pattern url
      → match_route parse (before ++ r ∷ after) url ≡ some r
  unfolding match_route
  match_route-first [] after url r misses hit =
      rw (match_route, url_match-made r.url_pattern url hit) refl
  match_route-first (q ∷ before) after url r misses hit =
      rw (match_route, (url_match-missed q.url_pattern url).1 (misses.0))
        (match_route-first before after url r misses.1 hit)

  -- The rule that a request meets is the first in the list whose pattern matches its URL. The pattern is
  -- trimmed, and an empty one matches nothing. One with :// in it or a star in front is a wildcard for
  -- the whole URL, as it is written. Another one is compared up to case: with a slash it is a wildcard for
  -- the host and the path, and without a slash it is the host or a domain above it.
  pub match_route_iff :
      (rules : List NetworkRouteRule) (url : Text) (r : NetworkRouteRule)
      → (match_route parse rules url ≡ some r) ↔ (
          (before after : List NetworkRouteRule) × (rules ≡ before ++ r ∷ after)
          × All (λ r'. ¬ UrlMatches parse r'.url_pattern url) before
          × UrlMatches parse r.url_pattern url)
  match_route_iff rules url r =
      (match_route-found rules url r, λ x. rw (x.2) (match_route-first x.0 x.1 url r x.3 x.4))
