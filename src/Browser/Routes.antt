-- ===== src/Browser/Routes.antt =====
-- internal/browser/network_routes.go: which rule a request meets, and what becomes of a paused
-- request. The answer to url.Parse, a host name and a path, is a function of the URL. A mock body is
-- kept as it is, where the source sends its base64.
pub mod Match
use go_bb_browser.Prelude.{
  zero, suc, ◌≡◌, refl, ap, subst, ◌↔◌, inl, inr, Bool, true, false, not, ◌||◌, Option, none, some,
  List, [], ◌∷◌, ◌++◌, Text, codes, str_eq, trim_space, contains, if◌then◌else◌, All, Bool-cases,
}
use go_bb_browser.Prelude.{has_prefix, has_suffix, to_lower, ℤ, pos, negsuc}
use go_bb_browser.Browser.Wildcard.{wildcard_match, Matches, wildcard_match_iff}

pub record NetworkRouteRule : Type 0 where
  pub url_pattern : Text
  pub abort : Bool
  pub mock_body : Text
  pub content_type : Text
  pub status : ℤ

-- A paused request: its id and URL, and whether it is at the stage of the response.
pub record EventRequestPaused : Type 0 where
  pub request_id : Text
  pub url : Text
  pub response_status_code : ℤ
  pub response_error_reason : Text

-- The command that is sent to Chrome.
pub data Verdict : Type 0 where
  continue_request : Text → Verdict
  fail_request : Text → Verdict
  fulfill_request : Text → ℤ → Text → Text → Verdict

abbrev pub nonzero : ℤ → Bool
nonzero (pos zero) = false
nonzero (pos (suc n)) = true
nonzero (negsuc n) = true

-- `if st <= 0 { st = 200 }`
unfoldable pub mock_status : ℤ → ℤ
mock_status (pos zero) = pos 200
mock_status (pos (suc n)) = pos (suc n)
mock_status (negsuc n) = pos 200

unfoldable pub mock_type : Text → Text
mock_type content_type =
    let ct = trim_space content_type in if str_eq ct [] then codes "application/json" else ct

-- The host's own name or a name under it.
abbrev pub is_host : Text → Text → Bool
is_host host pattern = str_eq host pattern || has_suffix host (b'.' ∷ pattern)

module _ (parse : Text → Option (Text × Text)) where
  -- A pattern that is no whole URL is taken as a host, or as a host with a path.
  unfoldable pub match_host : Text → Text → Text → Bool
  unfolding to_lower contains has_suffix wildcard_match
  match_host pattern hostname path =
      let host = to_lower hostname in
      let path' = if str_eq path [] then codes "/" else path in
      let lower = to_lower pattern in
      if contains lower (codes "/")
      then wildcard_match lower (to_lower (host ++ path'))
      else is_host host lower

  unfoldable pub url_match : Text → Text → Bool
  unfolding wildcard_match match_host contains has_prefix
  url_match pattern url =
      let p = trim_space pattern in
      if str_eq p []
      then false
      else if contains p (codes "://") || has_prefix p (codes "*")
      then wildcard_match p url
      else elim (parse url) [ none ↦ false | some (hostname, path) ↦ match_host p hostname path ]

  unfoldable pub match_route : List NetworkRouteRule → Text → Option NetworkRouteRule
  unfolding url_match
  match_route [] url = none
  match_route (r ∷ rs) url =
      let rest = match_route rs url in if url_match r.url_pattern url then some r else rest

  unfoldable pub apply_paused : List NetworkRouteRule → EventRequestPaused → Verdict
  unfolding match_route mock_status mock_type
  apply_paused rules e =
      if nonzero e.response_status_code || not (str_eq e.response_error_reason [])
      then continue_request e.request_id
      else elim (match_route rules e.url) [
        | none ↦ continue_request e.request_id
        | some r ↦
            if r.abort
            then fail_request e.request_id
            else fulfill_request e.request_id (mock_status r.status) (mock_type r.content_type)
                r.mock_body
      ]

  -- A whole URL as a pattern, or one with a star in front, matches a URL exactly when the wildcard does.
  pub url_match-wildcard :
      (pattern url : Text)
      → str_eq (trim_space pattern) [] ≡ false
      → (contains (trim_space pattern) (codes "://") || has_prefix (trim_space pattern) (codes "*"))
        ≡ true
      → (url_match pattern url ≡ true) ↔ Matches (trim_space pattern) url
  unfolding url_match
  url_match-wildcard pattern url e q =
      rw (url_match, e, q) (wildcard_match_iff (trim_space pattern) url)
