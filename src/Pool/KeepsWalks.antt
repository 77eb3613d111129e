-- ===== src/Pool/KeepsWalks.antt =====
-- pkg/daemonclient/pool.go: tab_list, tab_focus and the unbound calls keep the pool.
use go_bb_browser.Prelude.{
  ℕ, zero, suc, ◌+◌, ◌≤◌, ◌<◌, sym, subst, ◌⊎◌, inl, inr, Bool, true, false, Option, [], ◌∷◌, arith,
  Text, length, All, Bool-cases,
}
use go_bb_browser.Prelude.Json.{Json}
use go_bb_browser.Protocol.{method_tab_list, method_tab_focus}
use go_bb_browser.Pool.State.{Pool, Error, Errors, nil}
use go_bb_browser.Pool.Tabs.{bind_observed_tabs}
use go_bb_browser.Pool.Walk.{track, hold}
use go_bb_browser.Pool.Codec.{
  Params, Dest, decode_tab_list, decode_tab_focus, prefix_tab_list_result, prefix_pool_tab,
  TabListResult, TabFocusResult, encode_tab_focus,
}
use go_bb_browser.Pool.Client.{
  Reply, Outcome, done, append_error, key_of, client_call, typed_call, copy_result, merge, observed,
  upto,
}
use go_bb_browser.Pool.Calls.{
  list_loop, call_tab_list, focus_on, call_tab_focus, unbound_on, call_unbound,
}
use go_bb_browser.Pool.Inv.{
  IsPool, Keeps, Keeps-refl, Keeps-trans, prefix-Names, bind_observed-Keeps,
}
use go_bb_browser.Pool.Keeps.{IsKeeping, walk-Keeps, walk_order-Keeps}
use go_bb_browser.Pool.Observed.{hold-Keeps, Keeps-in_range, key_of_lem, prefix_list-Observed}

module _ {W : Type 0} (post : ℕ → Text → Json → W → Reply × W) (is_done : W → Bool) where
  -- The end of a round of callTabFocus.
  focus_on-Keeps :
      (params : Params) (dest : Dest) → IsKeeping post is_done (focus_on post is_done params dest)
  unfolding focus_on
  focus_on-Keeps params dest i p w h l =
      go (typed_call post is_done decode_tab_focus i method_tab_focus params w) (hold i (track i p))
        (hold-Keeps i p h)
    where
      go :
          (r : (Error ⊎ TabFocusResult) × W) (q : Pool)
          → Keeps p q
          → Keeps p
              (elim r.0 as (λ _. (Error ⊎ Outcome) × Pool × W) [
                | inl e ↦ (inl e, q, r.1)
                | inr one ↦
                    let key = key_of q i in
                    let one' = record one {
                      tab = prefix_pool_tab key one.tab;
                      focus = prefix_pool_tab key one.focus;
                    } in
                    (
                      inr (copy_result dest (encode_tab_focus one')),
                      bind_observed_tabs i (one'.tab ∷ one'.focus ∷ []) q,
                      r.1,
                    )
              ]).1
      go (inl e, w1) q k = k
      go (inr one, w1) q k =
          let l' = Keeps-in_range p q i k l in
          let key = key_of_lem q i k.is_pool l' in
          let b =
            bind_observed-Keeps i
              (prefix_pool_tab (key_of q i) one.tab ∷ prefix_pool_tab (key_of q i) one.focus ∷ []) q
              k.is_pool
              (
                prefix-Names q i (key_of q i) one.tab k.is_pool key,
                (prefix-Names q i (key_of q i) one.focus k.is_pool key, tt),
              ) in
          Keeps-trans p q _ k b

  unbound_on-Keeps :
      (fn : ℕ → W → (Error ⊎ Option Json) × W) → IsKeeping post is_done (unbound_on post is_done fn)
  unfolding unbound_on
  unbound_on-Keeps fn i p w h l = go (fn i w) (hold i (track i p)) (hold-Keeps i p h)
    where
      go :
          (r : (Error ⊎ Option Json) × W) (q : Pool)
          → Keeps p q
          → Keeps p
              (elim r.0 as (λ _. (Error ⊎ Outcome) × Pool × W) [
                | inl e ↦ (inl e, q, r.1)
                | inr o ↦ (inr (done o), q, r.1)
              ]).1
      go (inl e, w1) q k = k
      go (inr o, w1) q k = k

  list_loop-Keeps :
      (params : Params) (dest : Dest) (left i : ℕ) (m : TabListResult) (ok : Bool) (errs : Errors)
      (p : Pool) (w : W)
      → IsPool p
      → i + left ≤ length p.clients
      → Keeps p (list_loop post is_done params dest left i m ok errs p w).1
  unfolding list_loop
  list_loop-Keeps params dest zero i m ok errs p w h l = Keeps-refl p h
  list_loop-Keeps params dest (suc left) i m ok errs p w h l = elim (Bool-cases (is_done w)) [
    | inl e ↦ rw (list_loop, e) (Keeps-refl p h)
    | inr e ↦
        rw (list_loop, e)
          (go (typed_call post is_done decode_tab_list i method_tab_list params w)
            (hold i (track i p)) (hold-Keeps i p h)
            (λ q k m' ok' errs' w'.
              list_loop-Keeps params dest left (i + 1) m' ok' errs' q w' k.is_pool
                (subst (λ cs. i + 1 + left ≤ length cs) (sym k.clients) (omega arith))))
  ]
    where
      go :
          (r : (Error ⊎ TabListResult) × W) (q : Pool)
          → Keeps p q
          → ((q' : Pool)
              → Keeps p q'
              → (m' : TabListResult) (ok' : Bool) (errs' : Errors) (w' : W)
              → Keeps q' (list_loop post is_done params dest left (i + 1) m' ok' errs' q' w').1)
          → Keeps p
              (elim r.0 as (λ _. Outcome × Pool × W) [
                | inl e ↦
                    list_loop post is_done params dest left (i + 1) m ok (append_error errs e) q r.1
                | inr one ↦
                    let one' = prefix_tab_list_result (key_of q i) one in
                    list_loop post is_done params dest left
                      (i + 1)
                      (merge m one')
                      true
                      errs
                      (bind_observed_tabs i (observed one') q)
                      r.1
              ]).1
      go (inl e, w1) q k rest = Keeps-trans p q _ k (rest q k m ok (append_error errs e) w1)
      go (inr one, w1) q k rest =
          let one' = prefix_tab_list_result (key_of q i) one in
          let b =
            bind_observed-Keeps i (observed one') q k.is_pool
              (prefix_list-Observed q i one k.is_pool (Keeps-in_range p q i k (omega arith))) in
          let k' = Keeps-trans p q (bind_observed_tabs i (observed one') q) k b in
          Keeps-trans p (bind_observed_tabs i (observed one') q) _ k'
            (rest (bind_observed_tabs i (observed one') q) k' (merge m one') true errs w1)

  upto-in_range : (n a k : ℕ) → a + k ≤ n → All (λ j. j < n) (upto a k)
  unfolding upto
  upto-in_range n a zero h = tt
  upto-in_range n a (suc k) h = (omega arith, upto-in_range n (a + 1) k (omega arith))

  pub call_tab_focus-Keeps :
      (params : Params) (dest : Dest) (p : Pool) (w : W)
      → IsPool p
      → Keeps p (call_tab_focus post is_done params dest p w).1
  unfolding call_tab_focus
  call_tab_focus-Keeps params dest p w h =
      walk-Keeps post is_done (focus_on post is_done params dest) (focus_on-Keeps params dest)
        method_tab_focus (upto 0 (length p.clients)) nil p w h
        (upto-in_range (length p.clients) 0 (length p.clients) (omega arith))

  pub call_tab_list-Keeps :
      (params : Params) (dest : Dest) (p : Pool) (w : W)
      → IsPool p
      → Keeps p (call_tab_list post is_done params dest p w).1
  unfolding call_tab_list
  call_tab_list-Keeps params dest p w h =
      list_loop-Keeps params dest (length p.clients) 0 _ false nil p w h (omega arith)

  pub call_unbound-Keeps :
      (method : Text) (params : Params) (dest : Dest) (p : Pool) (w : W)
      → IsPool p
      → Keeps p (call_unbound post is_done method params dest p w).1
  unfolding call_unbound
  call_unbound-Keeps method params dest p w h =
      let fn = λ (i : ℕ). client_call post is_done i method params dest in
      walk_order-Keeps post is_done (unbound_on post is_done fn) (unbound_on-Keeps fn) method p w h
