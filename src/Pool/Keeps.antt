-- ===== src/Pool/Keeps.antt =====
-- pkg/daemonclient/pool.go: the loops of a pool, and the calls on one tab, keep the pool.
use go_bb_browser.Prelude.{
  ℕ, ◌<◌, ◌≡◌, refl, sym, subst, ◌⊎◌, inl, inr, Bool, ◌||◌, Option, List, [], ◌∷◌, Text, str_eq,
  trim_space, leb, length, All, Bool-cases, Option-cases,
}
use go_bb_browser.Prelude.Json.{Json, RawMessage}
use go_bb_browser.Pool.TabId.{format_tab_id}
use go_bb_browser.Pool.State.{Pool, Error, Errors, nil}
use go_bb_browser.Pool.Tabs.{bind, unbind, resolve_tab}
use go_bb_browser.Pool.Walk.{track, hold, order}
use go_bb_browser.Pool.Codec.{
  Params, Dest, no_dest, not_pointer, pointer, tab_from_raw_result, replace_json_tab, set_json_tab,
  check_create_result,
}
use go_bb_browser.Pool.Client.{
  Reply, Outcome, done, failed, panicked, append_error, key_of, raw_of, unmarshal, raw_call, walk,
  walk_order,
}
use go_bb_browser.Pool.TabCalls.{
  abandon_created, finish_create, take_created, create_on, call_create, call_bound, call_close,
}
use go_bb_browser.Pool.Inv.{
  Names, IsPool, Keeps, Keeps-refl, Keeps-trans, hold-track, bind-Keeps, unbind-Keeps, order-Keeps,
  order-in_range,
}
use go_bb_browser.Pool.Observed.{hold-Keeps, Keeps-in_range, native-Names}

module _ {W : Type 0} (post : ℕ → Text → Json → W → Reply × W) (is_done : W → Bool) where
  -- A round of a walk on a backend of the pool.
  abbrev pub IsKeeping : (ℕ → Pool → W → (Error ⊎ Outcome) × Pool × W) → Type 0
  IsKeeping step =
      (i : ℕ) (p : Pool) (w : W) → IsPool p → i < length p.clients → Keeps p (step i p w).1

  pub walk-Keeps :
      (step : ℕ → Pool → W → (Error ⊎ Outcome) × Pool × W)
      → IsKeeping step
      → (op : Text) (is : List ℕ) (errs : Errors) (p : Pool) (w : W) → IsPool p
      → All (λ j. j < length p.clients) is
      → Keeps p (walk post is_done step op is errs p w).1
  unfolding walk
  walk-Keeps step k op [] errs p w h a = Keeps-refl p h
  walk-Keeps step k op (i ∷ is) errs p w h a = elim (Bool-cases (is_done w)) [
    | inl e ↦ rw (walk, e) (Keeps-refl p h)
    | inr e ↦
        rw (walk, e)
          (again (step i p w) (k i p w h a.0) (λ q w' errs' kq.
            walk-Keeps step k op is errs' q w' kq.is_pool
              (subst (λ cs. All (λ j. j < length cs) is) (sym kq.clients) a.1)))
  ]
    where
      again :
          (r : (Error ⊎ Outcome) × Pool × W)
          → Keeps p r.1
          → ((q : Pool) (w' : W) (errs' : Errors)
              → Keeps p q
              → Keeps q (walk post is_done step op is errs' q w').1)
          → Keeps p
              (elim r.0 as (λ x. Outcome × Pool × W) [
                | inl e ↦ walk post is_done step op is (append_error errs e) r.1 r.2
                | inr out ↦ (out, r.1, r.2)
              ]).1
      again (inl e, q, w') kq rest = Keeps-trans p q _ kq (rest q w' (append_error errs e) kq)
      again (inr out, q, w') kq rest = kq

  pub walk_order-Keeps :
      (step : ℕ → Pool → W → (Error ⊎ Outcome) × Pool × W)
      → IsKeeping step
      → (op : Text) (p : Pool) (w : W) → IsPool p
      → Keeps p (walk_order post is_done step op p w).1
  unfolding walk_order
  walk_order-Keeps step k op p w h = elim (Option-cases (order p).0) [
    | inl e ↦ rw (walk_order, e) (order-Keeps p h)
    | inr (is, e) ↦
        let o = order-Keeps p h in
        let q = (order p).1 in
        rw (walk_order, e)
          (Keeps-trans p q _ o (
            walk-Keeps step k op is nil q w o.is_pool (
              subst (λ cs. All (λ j. j < length cs) is) (sym o.clients) (order-in_range p is h e))))
  ]

  abandon-pool :
      (i : ℕ) (t : Text) (p : Pool) (w : W) → (abandon_created post is_done i t p w).0 ≡ p
  unfolding abandon_created
  abandon-pool i t p w = elim (Bool-cases (str_eq (trim_space t) [] || leb (length p.clients) i)) [
    | inl e ↦ rw (abandon_created, e) refl
    | inr e ↦ rw (abandon_created, e) (hold-track i p)
  ]

  abandon-Keeps :
      (i : ℕ) (t : Text) (p : Pool) (w : W)
      → IsPool p
      → Keeps p (abandon_created post is_done i t p w).0
  abandon-Keeps i t p w h = subst (Keeps p) (sym (abandon-pool i t p w)) (Keeps-refl p h)

  finish-Keeps :
      (i : ℕ) (method : Text) (dest : Dest) (native ext : Text) (raw : RawMessage) (p : Pool)
      (w : W)
      → IsPool p
      → Keeps p (finish_create post is_done i method dest native ext raw p w).1
  unfolding finish_create
  finish-Keeps i method no_dest native ext raw p w h = Keeps-refl p h
  finish-Keeps i method not_pointer native ext raw p w h =
      elim (Option-cases (unmarshal not_pointer (set_json_tab raw ext))) [
        | inl e ↦
            let u = unbind-Keeps p ext h in
            rw (finish_create, e)
              (Keeps-trans p (unbind ext p) _ u (abandon-Keeps i native (unbind ext p) w u.is_pool))
        | inr (j, e) ↦ rw (finish_create, e) (Keeps-refl p h)
      ]
  finish-Keeps i method (pointer accepts) native ext raw p w h =
      elim (Option-cases (unmarshal (pointer accepts) (set_json_tab raw ext))) [
        | inl e ↦
            let u = unbind-Keeps p ext h in
            rw (finish_create, e)
              (Keeps-trans p (unbind ext p) _ u (abandon-Keeps i native (unbind ext p) w u.is_pool))
        | inr (j, e) ↦ rw (finish_create, e) (Keeps-refl p h)
      ]

  take-Keeps :
      (method : Text) (dest : Dest) (i : ℕ) (raw : RawMessage) (p : Pool) (w : W)
      → IsPool p
      → i < length p.clients
      → Keeps p (take_created post is_done method dest i raw p w).1
  unfolding take_created
  take-Keeps method dest i raw p w h l =
      let native = tab_from_raw_result raw in
      let ext = format_tab_id (key_of p i) native in
      let q = (bind ext i p).1 in
      elim (Bool-cases (str_eq native [])) [
        | inl e ↦ rw (take_created, e) (Keeps-refl p h)
        | inr e ↦
            let n = native-Names p i raw h l e in
            let b = bind-Keeps p ext i h (subst (λ t. Names p.by_key t i) (sym n.trimmed) n) in
            elim (Option-cases (bind ext i p).0) [
              | inl b0 ↦
                  rw (take_created, e, b0)
                    (Keeps-trans p q _ b (finish-Keeps i method dest native ext raw q w b.is_pool))
              | inr (err, b0) ↦
                  rw (take_created, e, b0)
                    (Keeps-trans p q _ b (abandon-Keeps i native q w b.is_pool))
            ]
      ]

  create_on-Keeps :
      (method : Text) (params : Params) (dest : Dest)
      → IsKeeping (create_on post is_done method params dest)
  unfolding create_on
  create_on-Keeps method params dest i p w h l =
      go (raw_call post is_done i method params w) (hold i (track i p)) (hold-Keeps i p h)
    where
      go :
          (r : (Error ⊎ Option Json) × W) (q : Pool)
          → Keeps p q
          → Keeps p
              (elim r.0 as (λ _. (Error ⊎ Outcome) × Pool × W) [
                | inl e ↦ (inl e, q, r.1)
                | inr o ↦ take_created post is_done method dest i (raw_of o) q r.1
              ]).1
      go (inl e, w1) q k = k
      go (inr o, w1) q k =
          Keeps-trans p q _ k
            (take-Keeps method dest i (raw_of o) q w1 k.is_pool (Keeps-in_range p q i k l))

  pub call_create-Keeps :
      (method : Text) (params : Params) (dest : Dest) (p : Pool) (w : W)
      → IsPool p
      → Keeps p (call_create post is_done method params dest p w).1
  unfolding call_create
  call_create-Keeps method params dest p w h = elim (Option-cases (check_create_result dest)) [
    | inl e ↦
        rw (call_create, e)
          (walk_order-Keeps (create_on post is_done method params dest)
            (create_on-Keeps method params dest) method p w h)
    | inr (err, e) ↦ rw (call_create, e) (Keeps-refl p h)
  ]

  pub call_bound-Keeps :
      (tab method : Text) (params : Params) (dest : Dest) (p : Pool) (w : W)
      → IsPool p
      → Keeps p (call_bound post is_done tab method params dest p w).1
  unfolding call_bound
  call_bound-Keeps tab method params dest p w h = go (resolve_tab tab p) refl
    where
      go :
          (r : Error ⊎ (ℕ × Text))
          → resolve_tab tab p ≡ r
          → Keeps p (call_bound post is_done tab method params dest p w).1
      go (inl e) q = rw (call_bound, q) (Keeps-refl p h)
      go (inr (idx, short)) q = sent (replace_json_tab params short) refl
        where
          sent :
              (s : Error ⊎ Params)
              → replace_json_tab params short ≡ s
              → Keeps p (call_bound post is_done tab method params dest p w).1
          sent (inl e) r = rw (call_bound, q, r) (Keeps-refl p h)
          sent (inr stripped) r = rw (call_bound, q, r, hold-track idx p) (Keeps-refl p h)

  pub call_close-Keeps :
      (tab method : Text) (params : Params) (dest : Dest) (p : Pool) (w : W)
      → IsPool p
      → Keeps p (call_close post is_done tab method params dest p w).1
  unfolding call_close
  call_close-Keeps tab method params dest p w h = elim (Bool-cases (str_eq tab [])) [
    | inl e ↦ rw (call_close, e) (Keeps-refl p h)
    | inr e ↦
        rw (call_close, e)
          (go (call_bound post is_done tab method params dest p w)
            (call_bound-Keeps tab method params dest p w h))
  ]
    where
      go :
          (r : Outcome × Pool × W)
          → Keeps p r.1
          → Keeps p
              (elim r.0 as (λ _. Outcome × Pool × W) [
                | done o ↦ (done o, unbind tab r.1, r.2)
                | failed e ↦ (failed e, r.1, r.2)
                | panicked ↦ (panicked, r.1, r.2)
              ]).1
      go (done o, q, w') k = Keeps-trans p q _ k (unbind-Keeps q tab k.is_pool)
      go (failed e, q, w') k = k
      go (panicked, q, w') k = k
