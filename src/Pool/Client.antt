-- ===== src/Pool/Client.antt =====
-- pkg/daemonclient: Client.Call, and the loops that a Pool goes through its backends with. The daemons
-- are a world `W`: `post` sends one request to backend `i` and returns its answer and the new world, and
-- `is_done` says whether the caller's context is done. A call runs alone, from a pool and a world to the
-- new pool and world.
use go_bb_browser.Prelude.{
  ℕ, zero, suc, ◌+◌, ◌⊎◌, inl, inr, Bool, true, false, not, ◌&&◌, ◌||◌, Option, none, some, List,
  [], ◌∷◌, ◌++◌, Text, codes, str_eq, ltb, if◌then◌else◌, get_elem?, any, is_some,
}
use go_bb_browser.Prelude.Json.{Json, str, obj, end, field, RawMessage, empty, invalid, value}
use go_bb_browser.Protocol.{method_tab_list, method_tab_focus, method_tab_new, dispatched_methods}
use go_bb_browser.Pool.State.{
  Pool, Error, all_failed, marshal_params, decode_result, missing_result, context_done, remote,
  Errors, nil, cons,
}
use go_bb_browser.Pool.Walk.{track, hold, order}
use go_bb_browser.Pool.Codec.{
  Params, absent, unsupported, marshals, Dest, no_dest, not_pointer, pointer, takes, TabListResult,
  tab_ids_from_list,
}

-- What a backend answers: an error, of the transport or of the daemon, or the `result`, if there is one.
pub data Reply : Type 0 where
  refused : Text → Reply
  answered : Option Json → Reply

-- How a call of the pool ends: with what has been decoded into `result`, an error, or a panic.
pub data Outcome : Type 0 where
  done : Option Json → Outcome
  failed : Error → Outcome
  panicked : Outcome

-- `append(errs, e)`
unfoldable pub append_error : Errors → Error → Errors
append_error nil e = cons e nil
append_error (cons e' es) e = cons e' (append_error es e)

unfoldable pub method_requires_tab : Text → Bool
method_requires_tab method =
    if str_eq method method_tab_list
      || str_eq method method_tab_focus
      || str_eq method method_tab_new
    then false
    else any (λ m. str_eq m method) dispatched_methods

unfoldable pub key_of : Pool → ℕ → Text
key_of p i = elim (get_elem? p.keys i) [ none ↦ [] | some key ↦ key ]

-- `protocol.TabCloseParams{Tab: tab}`
abbrev pub close_params : Text → Params
close_params tab = marshals (obj (field (codes "tab") (str tab) end))

unfoldable pub raw_of : Option Json → RawMessage
raw_of none = empty
raw_of (some j) = value j

-- `a`, `a + 1`, … of this length.
unfoldable pub upto : ℕ → ℕ → List ℕ
upto a zero = []
upto a (suc k) = a ∷ upto (a + 1) k

-- json.Unmarshal of a raw message into `result`.
unfoldable pub unmarshal : Dest → RawMessage → Option Json
unmarshal dest empty = none
unmarshal dest invalid = none
unmarshal dest (value j) = if takes dest j then some j else none

unfoldable pub copy_result : Dest → Json → Outcome
copy_result no_dest j = done none
copy_result not_pointer j = failed (decode_result [])
copy_result (pointer accepts) j = if accepts j then done (some j) else failed (decode_result [])

-- One answer in the merged list.
unfoldable pub merge : TabListResult → TabListResult → TabListResult
merge m one = record {
  tabs = m.tabs ++ one.tabs;
  seq = if ltb m.seq one.seq then one.seq else m.seq;
  tab = if str_eq m.tab [] && not (str_eq one.tab []) then one.tab else m.tab;
  focus = if str_eq m.focus [] && not (str_eq one.focus []) then one.focus else m.focus;
}

abbrev pub observed : TabListResult → List Text
observed one = one.tab ∷ one.focus ∷ tab_ids_from_list one

module _ {W : Type 0} (post : ℕ → Text → Json → W → Reply × W) (is_done : W → Bool) where
  -- The end of Client.Call: the result is ignored, or decoded.
  unfoldable pub receive : Dest → Reply → Error ⊎ Option Json
  receive dest (refused e) = inl (remote e)
  receive no_dest (answered r) = inr none
  receive not_pointer (answered none) = inl missing_result
  receive not_pointer (answered (some j)) = inl (decode_result [])
  receive (pointer accepts) (answered none) = inl missing_result
  receive (pointer accepts) (answered (some j)) =
      if accepts j then inr (some j) else inl (decode_result [])

  unfoldable pub client_call : ℕ → Text → Params → Dest → W → (Error ⊎ Option Json) × W
  unfolding receive
  client_call i method absent dest w =
      let (reply, w') = post i method (obj end) w in (receive dest reply, w')
  client_call i method unsupported dest w = (inl marshal_params, w)
  client_call i method (marshals j) dest w =
      let (reply, w') = post i method j w in (receive dest reply, w')

  -- `hold := p.track(i); err := …; hold()`
  unfoldable pub tracked : {A : Type 0} → ℕ → (W → A × W) → Pool → W → A × Pool × W
  unfolding track hold
  tracked i f p w = let p' = track i p in let (a, w') = f w in (a, hold i p', w')

  -- `p.clients[i].Call(ctx, method, params, &raw)`
  abbrev pub raw_call : ℕ → Text → Params → W → (Error ⊎ Option Json) × W
  raw_call i method params = client_call i method params (pointer (λ _. true))

  -- A call whose result is decoded into a struct.
  unfoldable pub typed_call :
      {A : Type 0} → (Json → Option A) → ℕ → Text → Params → W → (Error ⊎ A) × W
  unfolding client_call
  typed_call decode i method params w =
      let (r, w') = client_call i method params (pointer (λ j. is_some (decode j))) w in
      elim r [
        | inl e ↦ (inl e, w')
        | inr none ↦ (inl missing_result, w')
        | inr (some j) ↦ elim (decode j) [
          | none ↦ (inl (decode_result []), w')
          | some a ↦ (inr a, w')
        ]
      ]

  -- The loop over backends that goes on to the next one after an error and stops when the context is
  -- done; `step` is its body.
  unfoldable pub walk :
      (ℕ → Pool → W → (Error ⊎ Outcome) × Pool × W)
      → Text
      → List ℕ
      → Errors
      → Pool
      → W
      → Outcome × Pool × W
  unfolding append_error
  walk step op [] errs p w = (failed (all_failed op errs), p, w)
  walk step op (i ∷ is) errs p w = elim (is_done w) [
    | true ↦ (failed context_done, p, w)
    | false ↦
        let (r, p', w') = step i p w in
        elim r [ inl e ↦ walk step op is (append_error errs e) p' w' | inr out ↦ (out, p', w') ]
  ]

  -- `for _, i := range p.order()`
  unfoldable pub walk_order :
      (ℕ → Pool → W → (Error ⊎ Outcome) × Pool × W) → Text → Pool → W → Outcome × Pool × W
  unfolding walk order
  walk_order step op p w =
      let (is, p') = order p in
      elim is [ none ↦ (panicked, p', w) | some is ↦ walk step op is nil p' w ]
