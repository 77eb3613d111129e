-- ===== src/Pool/State.antt =====
-- pkg/daemonclient/pool.go: the state of a Pool, its errors and its constructors. A *Client is the part of it that the pool reads, its BaseURL; an in-flight counter is a
-- number, since every decrement follows its own increment.
use go_bb_browser.Prelude.{
  ℕ, suc, ◌⊎◌, inl, inr, Option, none, some, List, [], ◌∷◌, ◌++◌, map, Text, codes, str_eq,
  trim_space, contains, if◌then◌else◌,
}
use go_bb_browser.Prelude.Map.{Map, get, insert, has}
use go_bb_browser.Prelude.Numbers.{itoa}

pub record Client : Type 0 where
  pub base_url : Text

pub record PoolBackend : Type 0 where
  pub key : Text
  pub client : Option Client

pub record Pool : Type 0 where
  pub clients : List Client
  pub keys : List Text
  pub by_key : Map ℕ
  pub in_flight : List ℕ
  pub rr : ℕ
  pub tabs : Map ℕ

-- Why an id is invalid.
pub data Reason : Type 0 where
  malformed : Reason
  unknown_backend_key : Text → Reason

-- What a call of the pool returns as an error; `remote` is one of the daemon or of the transport.
mutual
  pub data Error : Type 0 where
    tab_required : Error
    unusable_tab_new_result : Error
    unknown_tab : Text → Error
    invalid_tab_id : Text → Reason → Error
    tab_collision : Text → Error
    empty_tab_id : Error
    empty_new_tab : Error
    all_failed : Text → Errors → Error
    marshal_params : Error
    decode_params : Error
    decode_result : Text → Error
    missing_result : Error
    context_done : Error
    remote : Text → Error

  pub data Errors : Type 0 where
    nil : Errors
    cons : Error → Errors → Errors

pub data BuildError : Type 0 where
  empty_pool : BuildError
  nil_client : ℕ → BuildError
  empty_base_url : ℕ → BuildError
  colon_in_key : Text → BuildError
  duplicate_key : Text → BuildError

-- The key of backend `i`.
unfoldable pub backend_key : ℕ → PoolBackend → Text
unfolding itoa trim_space str_eq
backend_key i b = let key = trim_space b.key in if str_eq key [] then itoa i else key

-- One round of the constructor's loop.
unfoldable pub add_backend : ℕ → PoolBackend → Pool → BuildError ⊎ Pool
unfolding backend_key contains get insert
add_backend i b p = elim b.client [
  | none ↦ inl (nil_client i)
  | some client ↦
      let key = backend_key i b in
      if str_eq (trim_space client.base_url) []
      then inl (empty_base_url i)
      else if contains key (codes ":")
      then inl (colon_in_key key)
      else if has key p.by_key
      then inl (duplicate_key key)
      else inr (record p {
        clients = p.clients ++ client ∷ [];
        keys = p.keys ++ key ∷ [];
        by_key = insert key i p.by_key;
        in_flight = p.in_flight ++ 0 ∷ [];
      })
]

unfoldable pub add_backends : ℕ → List PoolBackend → Pool → BuildError ⊎ Pool
unfolding add_backend
add_backends i [] p = inr p
add_backends i (b ∷ bs) p = elim (add_backend i b p) [
  | inl e ↦ inl e
  | inr p' ↦ add_backends (suc i) bs p'
]

abbrev pub no_backends : Pool
no_backends = record { clients = []; keys = []; by_key = []; in_flight = []; rr = 0; tabs = [] }

unfoldable pub new_pool_backends : List PoolBackend → BuildError ⊎ Pool
unfolding add_backends
new_pool_backends [] = inl empty_pool
new_pool_backends (b ∷ bs) = add_backends 0 (b ∷ bs) no_backends

-- A nil client is `none`.
unfoldable pub new_pool : List (Option Client) → BuildError ⊎ Pool
unfolding new_pool_backends
new_pool clients = new_pool_backends (map (λ c. record { key = []; client = c }) clients)
