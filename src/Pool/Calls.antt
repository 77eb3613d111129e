-- ===== src/Pool/Calls.antt =====
-- pkg/daemonclient/pool.go: tab_list, tab_focus, the calls of no tab, and Pool.Call, which dispatches.
use go_bb_browser.Prelude.{
  ℕ, zero, suc, ◌+◌, ◌⊎◌, inl, inr, Bool, true, false, not, Option, [], ◌∷◌, Text, str_eq,
  if◌then◌else◌, length,
}
use go_bb_browser.Prelude.Json.{Json}
use go_bb_browser.Protocol.{method_tab_list, method_tab_focus, method_tab_new, method_tab_close}
use go_bb_browser.Pool.State.{Pool, Error, tab_required, all_failed, context_done, Errors, nil}
use go_bb_browser.Pool.Tabs.{bind_observed_tabs}
use go_bb_browser.Pool.Codec.{
  Params, Dest, json_tab_field, TabListResult, decode_tab_list, decode_tab_focus, encode_tab_list,
  encode_tab_focus, prefix_pool_tab, prefix_tab_list_result,
}
use go_bb_browser.Pool.Client.{
  Reply, Outcome, done, failed, append_error, method_requires_tab, key_of, upto, copy_result, merge,
  observed, client_call, tracked, typed_call, walk, walk_order,
}
use go_bb_browser.Pool.TabCalls.{call_create, call_bound, call_close}

module _ {W : Type 0} (post : ℕ → Text → Json → W → Reply × W) (is_done : W → Bool) where
  -- `for i := range p.clients` with the rounds that are left, `i`, `merged`, `anyOK` and `lastErrs`.
  unfoldable pub list_loop :
      Params → Dest → ℕ → ℕ → TabListResult → Bool → Errors → Pool → W → Outcome × Pool × W
  unfolding typed_call tracked decode_tab_list prefix_tab_list_result bind_observed_tabs merge
      append_error copy_result encode_tab_list key_of
  list_loop params dest zero i m ok errs p w = (
    if ok then copy_result dest (encode_tab_list m) else failed (all_failed method_tab_list errs),
    p,
    w,
  )
  list_loop params dest (suc left) i m ok errs p w = elim (is_done w) [
    | true ↦ (failed context_done, p, w)
    | false ↦
        let (r, p', w') =
          tracked post is_done i (typed_call post is_done decode_tab_list i method_tab_list params)
            p w in
        elim r [
          | inl e ↦ list_loop params dest left (i + 1) m ok (append_error errs e) p' w'
          | inr one ↦
              let one' = prefix_tab_list_result (key_of p' i) one in
              list_loop params dest left (i + 1) (merge m one') true errs
                (bind_observed_tabs i (observed one') p') w'
        ]
  ]

  unfoldable pub call_tab_list : Params → Dest → Pool → W → Outcome × Pool × W
  unfolding list_loop
  call_tab_list params dest p w =
      list_loop params dest (length p.clients) 0
        (record { tab = []; seq = 0; tabs = []; focus = [] }) false nil p w

  -- A round of callTabFocus.
  unfoldable pub focus_on : Params → Dest → ℕ → Pool → W → (Error ⊎ Outcome) × Pool × W
  unfolding typed_call tracked decode_tab_focus encode_tab_focus prefix_pool_tab bind_observed_tabs
      copy_result key_of
  focus_on params dest i p w =
      let (r, p', w') =
        tracked post is_done i (typed_call post is_done decode_tab_focus i method_tab_focus params)
          p w in
      elim r [
        | inl e ↦ (inl e, p', w')
        | inr one ↦
            let key = key_of p' i in
            let one' = record one {
              tab = prefix_pool_tab key one.tab;
              focus = prefix_pool_tab key one.focus;
            } in
            (
              inr (copy_result dest (encode_tab_focus one')),
              bind_observed_tabs i (one'.tab ∷ one'.focus ∷ []) p',
              w',
            )
      ]

  unfoldable pub call_tab_focus : Params → Dest → Pool → W → Outcome × Pool × W
  unfolding walk focus_on upto
  call_tab_focus params dest p w =
      walk post is_done (focus_on params dest) method_tab_focus (upto 0 (length p.clients)) nil p w

  -- A round of walkUnbound, and of callUnbound, whose function is Client.Call.
  unfoldable pub unbound_on :
      (ℕ → W → (Error ⊎ Option Json) × W) → ℕ → Pool → W → (Error ⊎ Outcome) × Pool × W
  unfolding tracked
  unbound_on fn i p w =
      let (r, p', w') = tracked post is_done i (fn i) p w in
      elim r [ inl e ↦ (inl e, p', w') | inr o ↦ (inr (done o), p', w') ]

  unfoldable pub walk_unbound :
      Text → (ℕ → W → (Error ⊎ Option Json) × W) → Pool → W → Outcome × Pool × W
  unfolding walk_order unbound_on
  walk_unbound op fn p w = walk_order post is_done (unbound_on fn) op p w

  unfoldable pub call_unbound : Text → Params → Dest → Pool → W → Outcome × Pool × W
  unfolding walk_order unbound_on client_call
  call_unbound method params dest p w =
      walk_order post is_done (unbound_on (λ i. client_call post is_done i method params dest))
        method p w

  -- Pool.Call.
  unfoldable pub call : Text → Params → Dest → Pool → W → Outcome × Pool × W
  unfolding call_create call_close call_tab_list call_tab_focus call_bound call_unbound
      json_tab_field method_requires_tab
  call method params dest p w =
      let tab = json_tab_field params in
      if str_eq method method_tab_new
      then call_create post is_done method params dest p w
      else if str_eq method method_tab_close
      then call_close post is_done tab method params dest p w
      else if str_eq method method_tab_list
      then call_tab_list params dest p w
      else if str_eq method method_tab_focus
      then call_tab_focus params dest p w
      else if not (str_eq tab [])
      then call_bound post is_done tab method params dest p w
      else if method_requires_tab method
      then (failed tab_required, p, w)
      else call_unbound method params dest p w
