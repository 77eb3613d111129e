-- ===== src/Pool/Affinity.antt =====
-- pkg/daemonclient/pool.go: a tab lives on exactly one daemon, through every call.
use go_bb_browser.Prelude.{
  ℕ, ◌≡◌, refl, ◌∙◌, ◌⊎◌, inl, inr, Bool, true, false, not, Option, none, some, [], arith, Text,
  str_eq, trim_space, if◌then◌else◌, Bool-cases, Option-cases, str_eq_self,
}
use go_bb_browser.Prelude.Trim.{trim_space-trim_space}
use go_bb_browser.Prelude.Json.{Json, obj, end}
use go_bb_browser.Prelude.Map.{get, get-delete}
use go_bb_browser.Protocol.{method_tab_list, method_tab_focus, method_tab_new, method_tab_close}
use go_bb_browser.Pool.TabId.{split_tab_id}
use go_bb_browser.Pool.State.{
  Pool, Error, unknown_tab, invalid_tab_id, malformed, unknown_backend_key, tab_required,
  decode_result,
}
use go_bb_browser.Pool.Tabs.{unbind, lookup_tab, resolve_tab}
use go_bb_browser.Pool.Codec.{
  Params, absent, unsupported, marshals, Dest, no_dest, not_pointer, pointer, json_tab_field,
  replace_json_tab, set_json_tab,
}
use go_bb_browser.Pool.Client.{
  Reply, Outcome, done, failed, panicked, method_requires_tab, raw_of, unmarshal, client_call,
  tracked,
}
use go_bb_browser.Pool.TabCalls.{bound_request, call_bound, call_close}
use go_bb_browser.Pool.Calls.{call}
use go_bb_browser.Pool.Inv.{IsPool, Keeps, Keeps-refl}
use go_bb_browser.Pool.Keeps.{call_create-Keeps, call_bound-Keeps, call_close-Keeps}
use go_bb_browser.Pool.KeepsWalks.{call_tab_list-Keeps, call_tab_focus-Keeps, call_unbound-Keeps}

if-elim : {A : Type 0} (P : A → Type 0) (b : Bool) {x y : A} → P x → P y → P (if b then x else y)
if-elim P true h k = h
if-elim P false h k = k

-- In a pool, an id that the map has at a backend resolves to this backend: the prefix and the map
-- never disagree.
pub resolve-lookup :
    (tab : Text) (i : ℕ) (p : Pool)
    → IsPool p
    → lookup_tab tab p ≡ some i
    → (short : Text) × (resolve_tab tab p ≡ inr (i, short))
unfolding lookup_tab resolve_tab
resolve-lookup tab i p h e = elim (Bool-cases (str_eq (trim_space tab) [])) [
  | inl q ↦ absurd (ground (arith, e, q))
  | inr q ↦
      let found : get (trim_space tab) p.tabs ≡ some i = ground (arith, e, q) in
      let n = h.owned (trim_space tab) i found in
      let lookup_trimmed : lookup_tab (trim_space tab) p ≡ some i =
        rw (lookup_tab, trim_space-trim_space tab, q) found in
      (n.short, rw (resolve_tab, n.splits, n.is_member, lookup_trimmed) refl)
]

unbind-by_key : (tab : Text) (p : Pool) → (unbind tab p).by_key ≡ p.by_key
unfolding unbind
unbind-by_key tab p = elim (Bool-cases (str_eq (trim_space tab) [])) [
  | inl e ↦ rw (unbind, e) refl
  | inr e ↦ rw (unbind, e) refl
]

lookup-unbind : (tab : Text) (p : Pool) → lookup_tab (trim_space tab) (unbind tab p) ≡ none
unfolding lookup_tab unbind
lookup-unbind tab p = elim (Bool-cases (str_eq (trim_space tab) [])) [
  | inl e ↦ rw (lookup_tab, trim_space-trim_space tab, e) refl
  | inr e ↦
      rw (lookup_tab, trim_space-trim_space tab, unbind, e)
        (get-delete (trim_space tab) (trim_space tab) p.tabs
          ∙ rw (str_eq_self (trim_space tab)) refl)
]

-- An id that resolves in a pool is unknown once it is unbound.
resolve-unbind :
    (tab : Text) (p q : Pool) (r : ℕ × Text)
    → resolve_tab tab p ≡ inr r
    → q.by_key ≡ p.by_key
    → resolve_tab tab (unbind tab q) ≡ inl (unknown_tab (trim_space tab))
unfolding resolve_tab
resolve-unbind tab p q r e same = elim (Option-cases (split_tab_id (trim_space tab))) [
  | inl s ↦ absurd (
      let h : inl (invalid_tab_id (trim_space tab) malformed) ≡ inr r = rw (resolve_tab, s) at e in
      cc)
  | inr ((key, short), s) ↦ elim (Option-cases (get key p.by_key)) [
    | inl k ↦ absurd (
        let h : inl (invalid_tab_id (trim_space tab) (unknown_backend_key key)) ≡ inr r =
          rw (resolve_tab, s, k) at e in
        cc)
    | inr (idx, k) ↦
        let k' : get key (unbind tab q).by_key ≡ some idx = rw (unbind-by_key tab q, same) k in
        rw (resolve_tab, s, k', lookup-unbind tab q) refl
  ]
]

module _ {W : Type 0} (post : ℕ → Text → Json → W → Reply × W) (is_done : W → Bool) where
  -- A call of the pool, whatever its method, its parameters and what the daemons answer, keeps the
  -- pool: its keys name their places, every tab in the map is at the backend that the id names, and
  -- no backend, key or load has changed.
  pub call-Keeps :
      (method : Text) (params : Params) (dest : Dest) (p : Pool) (w : W)
      → IsPool p
      → Keeps p (call post is_done method params dest p w).1
  unfolding call
  call-Keeps method params dest p w h =
      let tab = json_tab_field params in
      let P = λ (r : Outcome × Pool × W). Keeps p r.1 in
      if-elim P (str_eq method method_tab_new)
        (call_create-Keeps post is_done method params dest p w h)
        (if-elim P (str_eq method method_tab_close)
          (call_close-Keeps post is_done tab method params dest p w h)
          (if-elim P (str_eq method method_tab_list)
            (call_tab_list-Keeps post is_done params dest p w h)
            (if-elim P (str_eq method method_tab_focus)
              (call_tab_focus-Keeps post is_done params dest p w h)
              (if-elim P (not (str_eq tab []))
                (call_bound-Keeps post is_done tab method params dest p w h)
                (if-elim P (method_requires_tab method) (Keeps-refl p h)
                  (call_unbound-Keeps post is_done method params dest p w h))))))

  -- What a request does to the world: nothing, or one request of backend `i`.
  request-world :
      (i : ℕ) (method : Text) (params : Params) (dest : Dest) (w : W)
      → ((client_call post is_done i method params dest w).1 ≡ w)
        ⊎ ((j : Json) × ((client_call post is_done i method params dest w).1
              ≡ (post i method j w).1))
  unfolding client_call
  request-world i method absent dest w = inr (obj end, refl)
  request-world i method unsupported dest w = inl refl
  request-world i method (marshals j) dest w = inr (j, refl)

  decode_world :
      (tab method : Text) (dest : Dest) (r : (Error ⊎ Option Json) × W)
      → (elim r.0 as (λ _. Outcome × W) [
        | inl e ↦ (failed e, r.1)
        | inr o ↦ elim (unmarshal dest (set_json_tab (raw_of o) tab)) [
          | none ↦ (failed (decode_result method), r.1)
          | some j ↦ (done (some j), r.1)
        ]
      ]).1
        ≡ r.1
  decode_world tab method dest (inl e, w') = refl
  decode_world tab method dest (inr o, w') =
      elim (Option-cases (unmarshal dest (set_json_tab (raw_of o) tab))) [
        | inl q ↦ rw q refl
        | inr (j, q) ↦ rw q refl
      ]

  bound_request-world :
      (i : ℕ) (tab method : Text) (params : Params) (dest : Dest) (w : W)
      → (d : Dest) × ((bound_request post is_done i tab method params dest w).1
          ≡ (client_call post is_done i method params d w).1)
  unfolding bound_request
  bound_request-world i tab method params no_dest w =
      (no_dest, go (client_call post is_done i method params no_dest w))
    where
      go :
          (r : (Error ⊎ Option Json) × W)
          → (elim r.0 as (λ _. Outcome × W) [
            | inl e ↦ (failed e, r.1)
            | inr o ↦ (done none, r.1)
          ]).1
            ≡ r.1
      go (inl e, w') = refl
      go (inr o, w') = refl
  bound_request-world i tab method params not_pointer w = (
    pointer (λ _. true),
    decode_world tab method not_pointer
        (client_call post is_done i method params (pointer (λ _. true)) w),
  )
  bound_request-world i tab method params (pointer accepts) w = (
    pointer (λ _. true),
    decode_world tab method (pointer accepts)
        (client_call post is_done i method params (pointer (λ _. true)) w),
  )

  -- A call on a tab that the map of the pool has at a backend sends nothing, or one request of the
  -- call's method to this backend; no other backend is asked, whatever the answer is.
  pub call_bound-owner :
      (tab method : Text) (params : Params) (dest : Dest) (i : ℕ) (p : Pool) (w : W)
      → IsPool p
      → lookup_tab tab p ≡ some i
      → ((call_bound post is_done tab method params dest p w).2 ≡ w)
        ⊎ ((j : Json) × ((call_bound post is_done tab method params dest p w).2
              ≡ (post i method j w).1))
  unfolding call_bound
  call_bound-owner tab method params dest i p w h e =
      let (short, r) = resolve-lookup tab i p h e in
      rw (call_bound, r) (go (replace_json_tab params short))
    where
      go :
          (s : Error ⊎ Params)
          → let u =
              (elim s as (λ _. Outcome × Pool × W) [
                | inl e ↦ (failed e, p, w)
                | inr stripped ↦
                    tracked post is_done i
                      (bound_request post is_done i tab method stripped dest)
                      p
                      w
              ]).2 in
            (u ≡ w) ⊎ ((j : Json) × (u ≡ (post i method j w).1))
      go (inl e) = inl refl
      go (inr stripped) =
          let (d, q) = bound_request-world i tab method stripped dest w in
          elim (request-world i method stripped d w) [
            | inl r ↦ inl (q ∙ r)
            | inr (j, r) ↦ inr (j, q ∙ r)
          ]

  refused_call :
      (tab method : Text) (params : Params) (dest : Dest) (err : Error) (p : Pool) (w : W)
      → resolve_tab tab p ≡ inl err
      → call_bound post is_done tab method params dest p w ≡ (failed err, p, w)
  unfolding call_bound
  refused_call tab method params dest err p w q = rw (call_bound, q) refl

  -- A call that succeeds on a tab has resolved it.
  call_bound-resolves :
      (tab method : Text) (params : Params) (dest : Dest) (p : Pool) (w : W) (o : Option Json)
      → (call_bound post is_done tab method params dest p w).0 ≡ done o
      → (r : ℕ × Text) × (resolve_tab tab p ≡ inr r)
  unfolding call_bound
  call_bound-resolves tab method params dest p w o e = go (resolve_tab tab p) refl
    where
      go :
          (s : Error ⊎ (ℕ × Text))
          → resolve_tab tab p ≡ s
          → (r : ℕ × Text) × (resolve_tab tab p ≡ inr r)
      go (inl err) q = absurd (let h : failed err ≡ done o = rw (call_bound, q) at e in cc)
      go (inr r) q = (r, q)

  -- After a close that succeeds, a call on the tab fails with an unknown tab and reaches no daemon.
  pub call_bound-call_close :
      (tab method method' : Text) (params params' : Params) (dest dest' : Dest) (p : Pool) (w : W)
      (o : Option Json)
      → IsPool p
      → (call_close post is_done tab method params dest p w).0 ≡ done o
      → let (r, p', w') = call_close post is_done tab method params dest p w in
        call_bound post is_done tab method' params' dest' p' w'
        ≡ (failed (unknown_tab (trim_space tab)), p', w')
  unfolding call_close
  call_bound-call_close tab method method' params params' dest dest' p w o h e =
      elim (Bool-cases (str_eq tab [])) [
        | inl q ↦ absurd (let h : failed tab_required ≡ done o = rw (call_close, q) at e in cc)
        | inr q ↦
            let close = call_bound post is_done tab method params dest p w in
            rw (call_close, q)
              (go close (call_bound-Keeps post is_done tab method params dest p w h)
                (call_bound-resolves tab method params dest p w) (rw (call_close, q) at e))
      ]
    where
      go :
          (r : Outcome × Pool × W)
          → Keeps p r.1
          → ((o' : Option Json) → r.0 ≡ done o' → (s : ℕ × Text) × (resolve_tab tab p ≡ inr s))
          → let c = elim r.0 as (λ _. Outcome × Pool × W) [
            | done o' ↦ (done o', unbind tab r.1, r.2)
            | failed err ↦ (failed err, r.1, r.2)
            | panicked ↦ (panicked, r.1, r.2)
          ] in
            c.0 ≡ done o
            → call_bound post is_done tab method' params' dest' c.1 c.2
              ≡ (failed (unknown_tab (trim_space tab)), c.1, c.2)
      go (done o', p', w') k resolves q =
          let (s, r) = resolves o' refl in
          refused_call tab method' params' dest' (unknown_tab (trim_space tab)) (unbind tab p') w'
            (resolve-unbind tab p p' s r k.by_key)
      go (failed err, p', w') k resolves q = absurd cc
      go (panicked, p', w') k resolves q = absurd cc
