-- ===== src/Daemon/Auth.antt =====
-- internal/daemon/auth.go: the API tokens, and which request may call. The answers of net.SplitHostPort
-- and of net.ParseIP are functions of the address; a request's header is a map from the canonical name to
-- the values.
pub mod Bearer
use go_bb_browser.Prelude.{
  ℕ, ◌<◌, ◌≡◌, refl, subst, ◌↔◌, inl, inr, Bool, true, false, not, ◌&&◌, ◌||◌, Option, none, some,
  List, [], ◌∷◌, ◌++◌, arith, Text, codes, str_eq, trim_space, leb, ◌==◌, if◌then◌else◌, length,
  any, is_some, Bool-cases, Option-cases, str_eq_iff, str_eq_self,
}
use go_bb_browser.Prelude.{cut, has_prefix, to_lower}
use go_bb_browser.Prelude.Map.{Map, get, keys}
use go_bb_browser.Prelude.Json.{names}
use go_bb_browser.Prelude.Numbers.{parse_uint}
use go_bb_browser.State.Target.{in_set}

-- The loop of normalizeAPITokens, with `out` so far, which has just the tokens seen.
unfoldable pub normalize_from : List Text → List Text → List Text
normalize_from out [] = out
normalize_from out (token ∷ tokens) =
    let t = trim_space token in
    normalize_from (if not (str_eq t []) && not (in_set out t) then out ++ t ∷ [] else out) tokens

unfoldable pub normalize_api_tokens : List Text → List Text
unfolding normalize_from
normalize_api_tokens tokens = normalize_from [] tokens

pub record Request : Type 0 where
  pub remote_addr : Text
  pub header : Map (List Text)

pub record Config : Type 0 where
  pub api_tokens : List Text
  pub api_token_allow_loopback : Bool

-- The names in lower case, as strings.EqualFold compares them.
abbrev pub proxy_headers : List Text
proxy_headers =
    codes "x-forwarded-for"
    ∷ codes "x-forwarded-host"
    ∷ codes "x-forwarded-proto"
    ∷ codes "x-real-ip"
    ∷ codes "forwarded"
    ∷ codes "cf-connecting-ip"
    ∷ codes "cf-ray"
    ∷ codes "true-client-ip"
    ∷ codes "via"
    ∷ codes "x-forwarded-server"
    ∷ codes "x-forwarded-port"
    ∷ codes "x-forwarded-scheme"
    ∷ codes "x-original-forwarded-for"
    ∷ codes "forwarded-for"
    ∷ codes "x-client-ip"
    ∷ codes "x-cluster-client-ip"
    ∷ []

unfoldable pub is_proxy_header : Text → Bool
unfolding names has_prefix to_lower
is_proxy_header name =
    has_prefix (to_lower name) (codes "tailscale-") || any (λ h. names name h) proxy_headers

-- `strings.ContainsAny(value, " \t\r\n,")`
abbrev pub is_separator : ℕ → Bool
is_separator c = c == 32 || c == 9 || c == 13 || c == 10 || c == b','

-- The token of a header value `Bearer <token>`.
unfoldable pub bearer_token : Text → Option Text
unfolding cut names str_eq
bearer_token value = elim (cut 32 value) [
  | none ↦ none
  | some (scheme, token) ↦
      if names scheme (codes "bearer") && not (str_eq token []) && not (any is_separator token)
      then some token
      else none
]

-- `r.Header.Values("Authorization")`
unfoldable pub authorization : Request → List Text
unfolding get
authorization r = elim (get (codes "Authorization") r.header) [ none ↦ [] | some values ↦ values ]

-- The one header that counts: none of several is taken.
unfoldable pub token_of : List Text → Option Text
unfolding bearer_token
token_of [] = none
token_of (value ∷ []) = bearer_token value
token_of (value ∷ other ∷ values) = none

module _ (split_host_port : Text → Option (Text × Text)) (is_loopback : Text → Bool) where
  unfoldable pub direct_loopback_request : Request → Bool
  unfolding is_proxy_header parse_uint
  direct_loopback_request r = elim (split_host_port r.remote_addr) [
    | none ↦ false
    | some (host, port) ↦
        is_loopback host
        && is_some (parse_uint 16 port)
        && not (any is_proxy_header (keys r.header))
  ]

  unfoldable pub authorized : Config → Request → Bool
  unfolding direct_loopback_request authorization token_of
  authorized cfg r =
      if leb (length cfg.api_tokens) 0
      then true
      else if cfg.api_token_allow_loopback && direct_loopback_request r
      then true
      else elim (token_of (authorization r)) [
        | none ↦ false
        | some token ↦ in_set cfg.api_tokens token
      ]

in_set-append :
    (xs : List Text) (y t : Text) → in_set (xs ++ y ∷ []) t ≡ (in_set xs t || str_eq y t)
in_set-append [] y t = ground arith
in_set-append (x ∷ xs) y t = ground (arith, in_set-append xs y t)

abbrev given : List Text → Text → Bool
given tokens t = any (λ (token : Text). str_eq (trim_space token) t) tokens

normalize_from-in_set :
    (out tokens : List Text) (t : Text)
    → in_set (normalize_from out tokens) t ≡ (in_set out t || (not (str_eq t []) && given tokens t))
unfolding normalize_from
normalize_from-in_set out [] t = ground arith
normalize_from-in_set out (token ∷ tokens) t =
    let u = trim_space token in
    elim (Bool-cases (str_eq u t)) [
      | inl same ↦
          subst
            (λ x.
              in_set (normalize_from out (token ∷ tokens)) x
              ≡ (in_set out x || (not (str_eq x []) && given (token ∷ tokens) x)))
            ((str_eq_iff u t).0 same)
            (elim (Bool-cases (not (str_eq u []) && not (in_set out u))) [
              | inl b ↦ rw b (
                  ground (
                    arith,
                    normalize_from-in_set (out ++ u ∷ []) tokens u,
                    in_set-append out u u,
                    str_eq_self u,
                    b,
                  ))
              | inr b ↦ rw b (ground (arith, normalize_from-in_set out tokens u, str_eq_self u, b))
            ])
      | inr other ↦ elim (Bool-cases (not (str_eq u []) && not (in_set out u))) [
        | inl b ↦ rw b (
            ground
              (arith, normalize_from-in_set (out ++ u ∷ []) tokens t, in_set-append out u t, other))
        | inr b ↦ rw b (ground (arith, normalize_from-in_set out tokens t, other))
      ]
    ]

-- A token is kept exactly if it is not empty and one of those given is it with white space around.
pub normalize_api_tokens_lem :
    (tokens : List Text) (t : Text)
    → (in_set (normalize_api_tokens tokens) t ≡ true)
      ↔ ((str_eq t [] ≡ false) × (any (λ token. str_eq (trim_space token) t) tokens ≡ true))
unfolding normalize_api_tokens
normalize_api_tokens_lem tokens t =
    let e = normalize_from-in_set [] tokens t in
    (λ h. (ground (arith, e, h), ground (arith, e, h)), λ h. ground (arith, e, h.0, h.1))
