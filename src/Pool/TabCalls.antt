-- ===== src/Pool/TabCalls.antt =====
-- pkg/daemonclient/pool.go: tab_new, and the calls on one tab.
use go_bb_browser.Prelude.{
  ℕ, ◌⊎◌, inl, inr, Bool, true, false, ◌||◌, none, some, [], Text, str_eq, trim_space, leb,
  if◌then◌else◌, length,
}
use go_bb_browser.Prelude.Json.{Json, RawMessage}
use go_bb_browser.Protocol.{method_tab_close}
use go_bb_browser.Pool.TabId.{format_tab_id}
use go_bb_browser.Pool.State.{Pool, Error, tab_required, empty_new_tab, decode_result}
use go_bb_browser.Pool.Tabs.{bind, unbind, resolve_tab}
use go_bb_browser.Pool.Codec.{
  Params, Dest, no_dest, tab_from_raw_result, replace_json_tab, set_json_tab, check_create_result,
}
use go_bb_browser.Pool.Client.{
  Reply, Outcome, done, failed, panicked, key_of, close_params, raw_of, unmarshal, client_call,
  tracked, raw_call, walk_order,
}

module _ {W : Type 0} (post : ℕ → Text → Json → W → Reply × W) (is_done : W → Bool) where
  unfoldable pub abandon_created : ℕ → Text → Pool → W → Pool × W
  unfolding tracked client_call
  abandon_created idx tab p w =
      let t = trim_space tab in
      if str_eq t [] || leb (length p.clients) idx
      then (p, w)
      else let (r, p', w') =
          tracked post is_done idx (raw_call post is_done idx method_tab_close (close_params t)) p
            w in
        (p', w')

  -- The end of a round of callCreate, on a tab that is bound.
  unfoldable pub finish_create :
      ℕ → Text → Dest → Text → Text → RawMessage → Pool → W → (Error ⊎ Outcome) × Pool × W
  unfolding abandon_created unbind set_json_tab unmarshal
  finish_create i method dest native ext raw p w = elim dest [
    | no_dest ↦ (inr (done none), p, w)
    | dest ↦ elim (unmarshal dest (set_json_tab raw ext)) [
      | some j ↦ (inr (done (some j)), p, w)
      | none ↦
          let (p', w') = abandon_created i native (unbind ext p) w in
          (inr (failed (decode_result method)), p', w')
    ]
  ]

  -- A round of callCreate after the daemon's answer.
  unfoldable pub take_created :
      Text → Dest → ℕ → RawMessage → Pool → W → (Error ⊎ Outcome) × Pool × W
  unfolding abandon_created finish_create tab_from_raw_result format_tab_id bind key_of
  take_created method dest i raw p w =
      let native = tab_from_raw_result raw in
      let ext = format_tab_id (key_of p i) native in
      let (bound, p') = bind ext i p in
      elim (str_eq native []) [
        | true ↦ (inl empty_new_tab, p, w)
        | false ↦ elim bound [
          | some e ↦ let (p3, w3) = abandon_created i native p' w in (inl e, p3, w3)
          | none ↦ finish_create i method dest native ext raw p' w
        ]
      ]

  -- A round of callCreate; an error on the left goes on to the next backend.
  unfoldable pub create_on : Text → Params → Dest → ℕ → Pool → W → (Error ⊎ Outcome) × Pool × W
  unfolding tracked client_call take_created raw_of
  create_on method params dest i p w =
      let (r, p', w') = tracked post is_done i (raw_call post is_done i method params) p w in
      elim r [ inl e ↦ (inl e, p', w') | inr o ↦ take_created method dest i (raw_of o) p' w' ]

  unfoldable pub call_create : Text → Params → Dest → Pool → W → Outcome × Pool × W
  unfolding check_create_result walk_order create_on
  call_create method params dest p w = elim (check_create_result dest) [
    | some e ↦ (failed e, p, w)
    | none ↦ walk_order post is_done (create_on method params dest) method p w
  ]

  -- The request of callBound, and the decoding of its result.
  unfoldable pub bound_request : ℕ → Text → Text → Params → Dest → W → Outcome × W
  unfolding client_call set_json_tab unmarshal raw_of
  bound_request idx tab method params no_dest w =
      let (r, w') = client_call post is_done idx method params no_dest w in
      elim r [ inl e ↦ (failed e, w') | inr o ↦ (done none, w') ]
  bound_request idx tab method params dest w =
      let (r, w') = raw_call post is_done idx method params w in
      elim r [
        | inl e ↦ (failed e, w')
        | inr o ↦ elim (unmarshal dest (set_json_tab (raw_of o) tab)) [
          | none ↦ (failed (decode_result method), w')
          | some j ↦ (done (some j), w')
        ]
      ]

  unfoldable pub call_bound : Text → Text → Params → Dest → Pool → W → Outcome × Pool × W
  unfolding resolve_tab replace_json_tab tracked bound_request
  call_bound tab method params dest p w = elim (resolve_tab tab p) [
    | inl e ↦ (failed e, p, w)
    | inr (idx, short) ↦ elim (replace_json_tab params short) [
      | inl e ↦ (failed e, p, w)
      | inr stripped ↦ tracked post is_done idx (bound_request idx tab method stripped dest) p w
    ]
  ]

  unfoldable pub call_close : Text → Text → Params → Dest → Pool → W → Outcome × Pool × W
  unfolding call_bound unbind str_eq
  call_close tab method params dest p w =
      if str_eq tab []
      then (failed tab_required, p, w)
      else let (r, p', w') = call_bound tab method params dest p w in
        elim r [
          | done o ↦ (done o, unbind tab p', w')
          | failed e ↦ (failed e, p', w')
          | panicked ↦ (panicked, p', w')
        ]
