-- ===== src/Daemon/Rpc/Touch.antt =====
-- internal/daemon/v1.go: touchSuccessfulRPC, which renews the idle clock of a tab.
use go_bb_browser.Prelude.{
  ℕ, ◌+◌, ◌<◌, ◌≤◌, ◌↔◌, [], ◌≡◌, refl, true, false, not, ◌||◌, some, Text, str_eq, Option-cases,
  Bool-cases, inl, inr, pos,
}
use go_bb_browser.Prelude.Map
use go_bb_browser.Protocol.{
  is_tab_related_method, method_tab_new, method_tab_close, method_tab_list,
}
use go_bb_browser.Protocol.Message.{RpcResult}
use go_bb_browser.State.TabRegistry.{lookup}
use go_bb_browser.State.TabIdle.{TabIdleTracker, touch, is_expired}
use go_bb_browser.State.TabIdle.Expiry.{touch-is_expired}
use go_bb_browser.Daemon.Rpc.{Server}
use go_bb_browser.Daemon.Rpc.Close.{touch_tab_activity}
use go_bb_browser.Daemon.Rpc.Answer.{AuditMeta, touch_tab, touched_tab, touch_successful_rpc}

module _ {W : Type 0} where
  touch_tab-only :
      (tab : Text) (s : Server W)
      → (t : TabIdleTracker) × (touch_tab tab s ≡ record s { tab_idle = t })
  unfolding touch_tab touch_tab_activity
  touch_tab-only tab s = elim (Option-cases (lookup s.tabs tab)) [
    | inl e ↦ (s.tab_idle, rw (touch_tab, e) refl)
    | inr (tid, e) ↦ (touch s.tab_idle tid s.clock, rw (touch_tab, e) refl)
  ]

  -- Nothing but the idle clocks changes.
  pub touch-only :
      (meta : AuditMeta) (r : RpcResult) (s : Server W)
      → (t : TabIdleTracker) × (touch_successful_rpc meta r s ≡ record s { tab_idle = t })
  unfolding touch_successful_rpc
  touch-only meta r s =
      let passive =
        (str_eq meta.action method_tab_new
          || (str_eq meta.action method_tab_close || str_eq meta.action method_tab_list)) in
      elim (Bool-cases (not (is_tab_related_method meta.action))) [
        | inl e ↦ (s.tab_idle, rw (touch_successful_rpc, e) refl)
        | inr e ↦ elim (Bool-cases passive) [
          | inl d ↦ (s.tab_idle, rw (touch_successful_rpc, e, d) refl)
          | inr d ↦
              let (t, h) = touch_tab-only (touched_tab meta r) s in
              (t, rw (touch_successful_rpc, e, d) h)
        ]
      ]

  -- A tab that a successful request has used is due for closing exactly when the timeout has run
  -- again from the time of the answer: for a dispatched method but tab_new, tab_close and tab_list,
  -- a positive timeout, and a tab of the request that is known and tracked and has a nonempty
  -- target id.
  pub touch_successful_rpc-is_expired :
      (meta : AuditMeta) (r : RpcResult) (s : Server W) (tid : Text) (last later timeout : ℕ)
      → is_tab_related_method meta.action ≡ true
      → str_eq meta.action method_tab_new ≡ false
      → str_eq meta.action method_tab_close ≡ false
      → str_eq meta.action method_tab_list ≡ false
      → lookup s.tabs (touched_tab meta r) ≡ some tid
      → str_eq tid [] ≡ false
      → Map.get tid s.tab_idle.managed ≡ some last
      → 0 < timeout
      → (is_expired (touch_successful_rpc meta r s).tab_idle tid later (pos timeout) ≡ true)
        ↔ (s.clock + timeout ≤ later)
  unfolding touch_successful_rpc touch_tab touch_tab_activity
  touch_successful_rpc-is_expired meta r s tid last later timeout a b c d found named tracked p =
      rw (touch_successful_rpc, a, b, c, d, touch_tab, found)
        (touch-is_expired s.tab_idle tid last s.clock later timeout named tracked p)
