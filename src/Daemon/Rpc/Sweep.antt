-- ===== src/Daemon/Rpc/Sweep.antt =====
-- internal/daemon/tab_idle.go: what the closing of idle tabs may do, and what is left of a target that
-- was closed.
mod Tests
use go_bb_browser.Prelude.{
  ℕ, zero, suc, ◌≡◌, refl, ◌⊎◌, Bool, true, false, List, [], ◌∷◌, Option, none, some, Text, str_eq,
  ℤ, pos, negsuc, arith, Option-cases, Bool-cases, inl, inr, if◌then◌else◌, str_eq_iff,
}
use go_bb_browser.Prelude.Map
use go_bb_browser.State.TabRegistry.{lookup, short_for_target, remove_target}
use go_bb_browser.State.TabIdle.{expired, is_expired, forget}
use go_bb_browser.State.ObsStore.{clear_target}
use go_bb_browser.Browser.Errors.{
  GoError, ErrorKind, request, timeout, target_gone, transport, error_kind_of,
}
use go_bb_browser.Daemon.Watchdog.{ensure_browser_session}
use go_bb_browser.Daemon.Rpc.{Server, Env, TabConn, Result, ok, err}
use go_bb_browser.Daemon.Rpc.Close.{
  CloseError, no_conn, unknown_id, lock_timeout, call_failed, is_gone, after_error,
  forget_tab_managed, clear_removed_target, remove_target_state, resolve_tab,
  close_tab_by_short_locked, after_close, close_expired_tab, close_each, close_expired_tabs,
}
use go_bb_browser.Daemon.Rpc.Keeps.Steps.{Result-cases}

module _ {W : Type 0} (P : Server W → Type 0) (env : Env (Server W)) (c : TabConn (Server W))
    (limit : ℤ) where
  -- What the steps of the sweeper do to a property `P` of the state: each keeps it, and a close does
  -- so if its target is due then. A tab that is still due behind the lock has the short id that it had
  -- before, whatever other requests do meanwhile.
  pub record Sweep : Type 0 where
    pub conn_is : env.conn ≡ some c
    pub lock_keeps : (short : Text) (s : Server W) → P s → P (env.lock_tab short s).1
    pub unlock_keeps : (short : Text) (s : Server W) → P s → P (env.unlock short s)
    pub lock_finds :
        (tid short : Text) (s : Server W)
        → P s
        → short_for_target s.tabs tid ≡ some short
        → let t = (env.lock_tab short s).1 in
          is_expired t.tab_idle tid t.clock limit ≡ true → lookup t.tabs short ≡ some tid
    pub close_due :
        (tid : Text) (s : Server W)
        → P s
        → is_expired s.tab_idle tid s.clock limit ≡ true
        → P (c.close_target tid s).1
    pub removes : (tid : Text) (s : Server W) → P s → P (remove_target_state env tid s)
    pub forgets : (tid : Text) (s : Server W) → P s → P (forget_tab_managed s tid)

pub resolve_tab-found :
    {W : Type 0} (env : Env (Server W)) (c : TabConn (Server W)) (short tid : Text) (s : Server W)
    → lookup s.tabs short ≡ some tid
    → resolve_tab env c short s ≡ (some tid, s)
unfolding resolve_tab
resolve_tab-found env c short tid s found = rw (resolve_tab, found) refl

module _ {W : Type 0} {P : Server W → Type 0} {env : Env (Server W)} {c : TabConn (Server W)}
    {limit : ℤ} (sweep : Sweep P env c limit) where
  open sweep use {lock_keeps, unlock_keeps, lock_finds, close_due, removes, forgets}

  close_locked-P :
      (tid short : Text) (s : Server W)
      → P s
      → lookup s.tabs short ≡ some tid
      → is_expired s.tab_idle tid s.clock limit ≡ true
      → P (close_tab_by_short_locked env c short s).1
  unfolding close_tab_by_short_locked
  close_locked-P tid short s p found due =
      let direct = resolve_tab-found env c short tid s found in
      elim (Result-cases (c.close_target tid s).0) [
        | inl (u, e) ↦
            rw (close_tab_by_short_locked, direct, direct, e, direct)
              (removes tid (c.close_target tid s).1 (close_due tid s p due))
        | inr (g, e) ↦
            rw (close_tab_by_short_locked, direct, direct, e, direct) (close_due tid s p due)
      ]

  after_close-P :
      (tid short : Text) (r : Option CloseError × Server W)
      → P r.1
      → P (after_close env tid short r)
  unfolding after_close
  after_close-P tid short (none, s) p = unlock_keeps short s p
  after_close-P tid short (some e, s) p = elim (Bool-cases (is_gone e)) [
    | inl gone ↦
        let s1 = remove_target_state env tid s in
        let s2 = forget_tab_managed s1 tid in
        rw (after_close, gone) (unlock_keeps short s2 (forgets tid s1 (removes tid s p)))
    | inr other ↦ rw (after_close, other) (released e)
  ]
    where
      let_go : P (env.unlock short s)
      let_go = unlock_keeps short s p

      released : (g : CloseError) → P (after_error env tid short g s)
      released no_conn = let_go
      released unknown_id = forgets tid (env.unlock short s) let_go
      released lock_timeout = let_go
      released (call_failed g) = let_go

  round-P :
      (tid short : Text) (s : Server W)
      → P s
      → short_for_target s.tabs tid ≡ some short
      → P (close_expired_tab env limit tid short s)
  unfolding close_expired_tab
  round-P tid short s p known =
      let t = (env.lock_tab short s).1 in
      let pt : P t = lock_keeps short s p in
      elim (Bool-cases (env.lock_tab short s).0) [
        | inr busy ↦ rw (close_expired_tab, sweep.conn_is, busy) pt
        | inl got ↦ elim (Bool-cases (is_expired t.tab_idle tid t.clock limit)) [
          | inr fresh ↦ rw (close_expired_tab, sweep.conn_is, got, fresh) (unlock_keeps short t pt)
          | inl due ↦
              rw (close_expired_tab, sweep.conn_is, got, due)
                (after_close-P tid short (close_tab_by_short_locked env c short t)
                  (close_locked-P tid short t pt (lock_finds tid short s p known due) due))
        ]
      ]

  each-P : (tids : List Text) (s : Server W) → P s → P (close_each env limit tids s)
  unfolding close_each
  each-P [] s p = p
  each-P (tid ∷ tids) s p = elim (Bool-cases (env.is_done s)) [
    | inl over ↦ rw (close_each, over) p
    | inr going ↦ elim (Bool-cases (ensure_browser_session s.link)) [
      | inr lost ↦ rw (close_each, going, lost) p
      | inl there ↦ elim (Option-cases (short_for_target s.tabs tid)) [
        | inl e ↦
            rw (close_each, going, there, e)
              (each-P tids (forget_tab_managed s tid) (forgets tid s p))
        | inr (short, e) ↦
            rw (close_each, going, there, e)
              (each-P tids (close_expired_tab env limit tid short s) (round-P tid short s p e))
      ]
    ]
  ]

  -- The sweeper asks Chrome to close a target only while that target is due: whatever property of
  -- the state the other steps keep, and a close keeps where its target is due at that moment, a run
  -- of the sweeper keeps, though the targets were listed before it waited for their locks. The
  -- conditions: there is a connection, the property holds at the start, and a target that is still
  -- due behind the lock is found under the short id that it had before.
  pub close_expired_tabs-due : (s : Server W) → P s → P (close_expired_tabs env limit s)
  unfolding close_expired_tabs
  close_expired_tabs-due = go limit sweep each-P
    where
      go :
          (l : ℤ)
          → Sweep P env c l
          → ((tids : List Text) (s : Server W) → P s → P (close_each env l tids s))
          → (s : Server W) → P s
          → P (close_expired_tabs env l s)
      go (pos zero) w each s p = p
      go (pos (suc n)) w each s p = each (expired s.tab_idle s.clock (pos (suc n))) s p
      go (negsuc n) w each s p = p
