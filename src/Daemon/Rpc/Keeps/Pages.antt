-- ===== src/Daemon/Rpc/Keeps/Pages.antt =====
-- The methods that work on the page of a tab keep the relation, and what they answer is related to the
-- states around it.
use go_bb_browser.Prelude.{ℕ, ◌≡◌, refl, some, Text, Option-cases, inl, inr}
use go_bb_browser.Prelude.Json.{RawMessage}
use go_bb_browser.Protocol.Message.{ErrData, ResponseError, RpcResult, seq_of}
use go_bb_browser.Daemon.Rpc.{Server, Env, TabConn, Result, Outcome, ◌>>=◌, pure, take_seq, call}
use go_bb_browser.Daemon.Rpc.Answer.{AuditMeta, start, locked}
use go_bb_browser.Daemon.Rpc.Page.{
  resolved, handle_goto, handle_reload, handle_screenshot, handle_eval, handle_click, handle_fill,
  handle_fetch, handle_snapshot,
}
use go_bb_browser.Daemon.Rpc.Close.{resolve_tab}
use go_bb_browser.Daemon.Rpc.Keeps.{Keeps, Laws}
use go_bb_browser.Daemon.Rpc.Keeps.Steps.{PostLaws, call-R, resolve_tab-R}
use go_bb_browser.Daemon.Rpc.Keeps.Rules.{
  Posts, bind-Posts, some_or-Posts, seq-Posts, start-require-Posts, start-some_or-Posts,
  locked-Posts,
}

module _ {W : Type 0} {R : Server W → Server W → Type 0} {env : Env (Server W)} (laws : Laws R env)
    {meta : AuditMeta} {Q Q' : Server W → Outcome RpcResult → Server W → Type 0}
    (post : PostLaws laws meta Q Q') where
  resolved-R :
      {c : TabConn (Server W)}
      → env.conn ≡ some c
      → (tab : Text) (e : ResponseError) → Keeps R (resolved env c tab e)
  unfolding resolved
  resolved-R {c} at tab e s = elim (Option-cases (resolve_tab env c tab s).0) [
    | inl d ↦ rw (resolved, d) (resolve_tab-R laws (laws.conn_law c at) tab s)
    | inr (tid, d) ↦ rw (resolved, d) (resolve_tab-R laws (laws.conn_law c at) tab s)
  ]

  -- The part of a handler that holds the lock of the tab and knows the target.
  pub on_tab-Posts :
      {c : TabConn (Server W)}
      → env.conn ≡ some c
      → (tab : Text) (e : ResponseError) (body : Text → Server W → Outcome RpcResult × Server W)
      → ((tid : Text) → Posts Q (body tid))
      → Posts Q' (start env meta (pure (locked env meta tab (resolved env c tab e >>= body))))
  on_tab-Posts {c} at tab e body h =
      locked-Posts laws post tab (resolved env c tab e >>= body)
        (bind-Posts laws post (resolved env c tab e) body (resolved-R at tab e) h)

  -- A call of the browser, and the end of the handler.
  pub call_seq-Posts :
      {A : Type 0} (f : Server W → Result A × Server W) (message : Text) (d : Text → ErrData)
      (res : A → ℕ → RpcResult)
      → Keeps R f
      → ((a : A) (n : ℕ) → seq_of (res a n) ≡ n)
      → Posts Q (call f message d >>= λ a. take_seq >>= λ n. pure (res a n))
  call_seq-Posts f message d res h k =
      bind-Posts laws post (call f message d) _ (call-R laws f message d h)
        (λ a. seq-Posts laws post (res a) (k a))

  pub goto-Posts : (params : RawMessage) → Posts Q' (handle_goto env meta params)
  unfolding handle_goto seq_of
  goto-Posts params =
      let need = start-require-Posts laws post in
      start-some_or-Posts laws post _ _ _ (λ p _. need _ _ _ (
        need _ _ _ (
          start-some_or-Posts laws post _ _ _ (λ c at. on_tab-Posts at _ _ _ (λ tid.
            call_seq-Posts _ _ _ _ ((laws.conn_law c at).navigate_law tid _) (λ a n. refl))))))

  pub reload-Posts : (params : RawMessage) → Posts Q' (handle_reload env meta params)
  unfolding handle_reload seq_of
  reload-Posts params =
      let need = start-require-Posts laws post in
      start-some_or-Posts laws post _ _ _ (λ p _. need _ _ _ (
        start-some_or-Posts laws post _ _ _ (λ c at.
          on_tab-Posts at _ _ _
            (λ tid. call_seq-Posts _ _ _ _ ((laws.conn_law c at).reload_law tid) (λ a n. refl)))))

  pub screenshot-Posts : (params : RawMessage) → Posts Q' (handle_screenshot env meta params)
  unfolding handle_screenshot seq_of
  screenshot-Posts params =
      let need = start-require-Posts laws post in
      start-some_or-Posts laws post _ _ _ (λ p _. need _ _ _ (
        start-some_or-Posts laws post _ _ _ (λ c at. on_tab-Posts at _ _ _ (λ tid.
          call_seq-Posts _ _ _ _ ((laws.conn_law c at).screenshot_law tid _) (λ a n. refl)))))

  pub eval-Posts : (params : RawMessage) → Posts Q' (handle_eval env meta params)
  unfolding handle_eval seq_of
  eval-Posts params =
      let need = start-require-Posts laws post in
      start-some_or-Posts laws post _ _ _ (λ p _. need _ _ _ (
        need _ _ _ (
          start-some_or-Posts laws post _ _ _ (λ c at.
            on_tab-Posts at _ _ _ (λ tid.
              call_seq-Posts _ _ _ _ ((laws.conn_law c at).eval_law tid _) (λ a n. refl))))))

  pub click-Posts : (params : RawMessage) → Posts Q' (handle_click env meta params)
  unfolding handle_click seq_of
  click-Posts params =
      let need = start-require-Posts laws post in
      start-some_or-Posts laws post _ _ _ (λ p _. need _ _ _ (
        need _ _ _ (
          start-some_or-Posts laws post _ _ _ (λ c at.
            on_tab-Posts at _ _ _ (λ tid.
              call_seq-Posts _ _ _ _ ((laws.conn_law c at).click_law tid _) (λ a n. refl))))))

  pub fill-Posts : (params : RawMessage) → Posts Q' (handle_fill env meta params)
  unfolding handle_fill seq_of
  fill-Posts params =
      let need = start-require-Posts laws post in
      start-some_or-Posts laws post _ _ _ (λ p _. need _ _ _ (
        need _ _ _ (
          start-some_or-Posts laws post _ _ _ (λ c at. on_tab-Posts at _ _ _ (λ tid.
            call_seq-Posts _ _ _ _ ((laws.conn_law c at).fill_law tid _ _) (λ a n. refl))))))

  pub fetch-Posts : (params : RawMessage) → Posts Q' (handle_fetch env meta params)
  unfolding handle_fetch seq_of
  fetch-Posts params =
      let need = start-require-Posts laws post in
      start-some_or-Posts laws post _ _ _ (λ p _. need _ _ _ (
        need _ _ _ (
          start-some_or-Posts laws post _ _ _ (λ c at. on_tab-Posts at _ _ _ (λ tid.
            some_or-Posts laws post _ _ _ (λ f is_f.
              call_seq-Posts _ _ _ _ ((laws.conn_law c at).fetch_law f is_f tid _ _ _ _)
                (λ a n. refl)))))))

  pub snapshot-Posts : (params : RawMessage) → Posts Q' (handle_snapshot env meta params)
  unfolding handle_snapshot seq_of
  snapshot-Posts params =
      let need = start-require-Posts laws post in
      start-some_or-Posts laws post _ _ _ (λ p _. need _ _ _ (
        start-some_or-Posts laws post _ _ _ (λ c at. on_tab-Posts at _ _ _ (λ tid.
          some_or-Posts laws post _ _ _ (λ f is_f.
            call_seq-Posts _ _ _ _ ((laws.conn_law c at).snapshot_law f is_f tid _)
              (λ a n. refl))))))
