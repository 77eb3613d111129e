-- ===== src/Daemon/Rpc/Keeps/Served.antt =====
-- The same for a request that is served, whatever its method.
use go_bb_browser.Prelude.{
  ◌≡◌, ◌≢◌, subst, true, [], ◌∷◌, none, some, Text, str_eq, All, Bool-cases, Option-cases, inl, inr,
  arith,
}
use go_bb_browser.Prelude.Map.{Map}
use go_bb_browser.Prelude.Map
use go_bb_browser.Prelude.Json.{RawMessage}
use go_bb_browser.Protocol.{is_dispatched_method}
use go_bb_browser.Protocol.Message.{RpcResult}
use go_bb_browser.Daemon.Watchdog.{ensure_browser_session}
use go_bb_browser.Daemon.Rpc.{
  Server, Env, Handler, Outcome, network_kind, console_kind, errors_kind,
}
use go_bb_browser.Daemon.Rpc.Answer.{AuditMeta}
use go_bb_browser.Daemon.Rpc.V1.{HttpRequest, answered, handlers, dispatch, serve, not_connected}
use go_bb_browser.Daemon.Rpc.Tabs.{
  handle_tab_list, handle_tab_focus, handle_tab_select, handle_tab_new, handle_tab_close,
}
use go_bb_browser.Daemon.Rpc.Keeps.{Laws}
use go_bb_browser.Daemon.Rpc.Keeps.Steps.{PostLaws}
use go_bb_browser.Daemon.Rpc.Keeps.Rules.{Posts, answer-Posts, failed_on}
use go_bb_browser.Daemon.Rpc.Keeps.Pages
use go_bb_browser.Daemon.Rpc.Keeps.Observations
use go_bb_browser.Daemon.Rpc.Keeps.Tabs

infixr 5 ◌&◌
abbrev ◌&◌ {ℓ κ} : {A : Type ℓ} {B : Type κ} → A → B → A × B
a & b = (a, b)

get-All :
    {V : Type 0} (P : V → Type 0) (k : Text) (m : Map V) (v : V)
    → All (λ (e : Text × V). P e.1) m
    → Map.get k m ≡ some v
    → P v
unfolding Map.get
get-All P k [] v a h = absurd cc
get-All P k ((j, w) ∷ m) v a h = elim (Bool-cases (str_eq j k)) [
  | inl e ↦ let same : w ≡ v = (let q : some w ≡ some v = rw e at h in cc) in subst P same a.0
  | inr e ↦ get-All P k m v a.1 (rw e at h)
]

-- Every dispatched method has a handler.
has_handler :
    {W : Type 0} (env : Env (Server W)) (method : Text)
    → is_dispatched_method method ≡ true
    → Map.get method (handlers env) ≢ none
unfolding is_dispatched_method handlers Map.get
has_handler env method h none_left = ground arith

module _ {W : Type 0} {R : Server W → Server W → Type 0} {env : Env (Server W)} (laws : Laws R env)
    {Q : Server W → Outcome RpcResult → Server W → Type 0}
    {Q' : AuditMeta → Server W → Outcome RpcResult → Server W → Type 0}
    (post : (meta : AuditMeta) → PostLaws laws meta Q (Q' meta)) where
  Answers : (AuditMeta → Handler W) → Type 0
  Answers h = (meta : AuditMeta) (params : RawMessage) → Posts (Q' meta) (h meta params)

  tab-Answers :
      (h : Handler W)
      → ((meta : AuditMeta) (params : RawMessage) → Posts Q (h params))
      → Answers (answered env h)
  unfolding Answers
  tab-Answers h p meta params = answer-Posts laws (post meta) (h params) (p meta params)

  handlers-Answers : All (λ (e : Text × (AuditMeta → Handler W)). Answers e.1) (handlers env)
  unfolding handlers Answers
  handlers-Answers =
      tab-Answers (handle_tab_list env) (λ meta. Tabs.tab_list-Posts laws (post meta))
      & tab-Answers (handle_tab_focus env) (λ meta. Tabs.tab_focus-Posts laws (post meta))
      & tab-Answers (handle_tab_select env) (λ meta. Tabs.tab_select-Posts laws (post meta))
      & tab-Answers (handle_tab_new env) (λ meta. Tabs.tab_new-Posts laws (post meta))
      & (λ meta. Pages.goto-Posts laws (post meta))
      & (λ meta. Pages.reload-Posts laws (post meta))
      & tab-Answers (handle_tab_close env) (λ meta. Tabs.tab_close-Posts laws (post meta))
      & (λ meta. Pages.screenshot-Posts laws (post meta))
      & (λ meta. Pages.eval-Posts laws (post meta))
      & (λ meta. Pages.click-Posts laws (post meta))
      & (λ meta. Pages.fill-Posts laws (post meta))
      & (λ meta. Observations.obs_query-Posts laws (post meta) network_kind)
      & (λ meta. Observations.obs_query-Posts laws (post meta) console_kind)
      & (λ meta. Observations.obs_query-Posts laws (post meta) errors_kind)
      & (λ meta. Pages.fetch-Posts laws (post meta))
      & (λ meta. Pages.snapshot-Posts laws (post meta))
      & (λ meta. Observations.network_route-Posts laws (post meta))
      & (λ meta. Observations.network_unroute-Posts laws (post meta))
      & (λ meta. Observations.network_clear-Posts laws (post meta))
      & (λ meta. Observations.console_clear-Posts laws (post meta))
      & (λ meta. Observations.errors_clear-Posts laws (post meta))
      & tt

  dispatch-Posts :
      (method : Text) (meta : AuditMeta) (params : RawMessage)
      → is_dispatched_method method ≡ true
      → Posts (Q' meta) (dispatch env method meta params)
  unfolding Answers dispatch
  dispatch-Posts method meta params known = elim (Option-cases (Map.get method (handlers env))) [
    | inl e ↦ absurd (has_handler env method known e)
    | inr (h, e) ↦
        let p = get-All Answers method (handlers env) h handlers-Answers e in
        record { on = λ s. (rw (dispatch, e) ((p meta params).on s)) }
  ]

  pub serve-Posts :
      (method : Text) (params : RawMessage) (r : HttpRequest) (s : Server W)
      → is_dispatched_method method ≡ true
      → let meta : AuditMeta = (record {
        action = method;
        body = r.body;
        sender_ip = r.sender_ip;
        at = s.clock;
      }) in
        Q' meta s (serve env method params r s).0 (serve env method params r s).1
  unfolding serve
  serve-Posts method params r s known =
      let meta : AuditMeta = (record {
        action = method;
        body = r.body;
        sender_ip = r.sender_ip;
        at = s.clock;
      }) in
      elim (Bool-cases (ensure_browser_session s.link)) [
        | inl e ↦ rw (serve, e) ((dispatch-Posts method meta params known).on s)
        | inr e ↦ rw (serve, e) (failed_on laws (post meta) not_connected s)
      ]
