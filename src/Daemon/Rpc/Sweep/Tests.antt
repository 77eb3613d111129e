-- ===== src/Daemon/Rpc/Sweep/Tests.antt =====
-- The sweeper and the close of a tab, at a daemon whose browser keeps the calls.
use go_bb_browser.Prelude.{
  ◌≡◌, refl, sym, Bool, true, false, [], none, some, Text, codes, str_eq, arith, All, Option-cases,
  inl, inr,
}
use go_bb_browser.State.TabRegistry.{
  TabRegistry, lookup, remove_target, register_page_target, new_tab_registry,
}
use go_bb_browser.State.TabRegistry.Assign.{
  IsRegistry, lookup-register, lookup-short_for_target, register_page_target-IsRegistry,
  new-IsRegistry,
}
use go_bb_browser.State.TabRegistry.Sync.{remove_target-IsRegistry}
use go_bb_browser.State.TabRegistry.Short.{IsCdpId}
use go_bb_browser.Daemon.Rpc.{Server, TabConn}
use go_bb_browser.Daemon.Rpc.Close.{
  clear_removed_target, close_expired_tabs, close_tab_by_short_locked, forget_tab_managed,
  remove_target_state, resolve_tab,
}
use go_bb_browser.Daemon.Rpc.Sweep.{Sweep, close_expired_tabs-due}
use go_bb_browser.Daemon.Rpc.Removed.{IsGone, close_locked-IsGone}
use go_bb_browser.Daemon.Rpc.Sample.{
  Call, Chrome, limit, sample_target, sample_conn, sample_env, sample_server,
}

-- A close was asked for only where its target was due.
abbrev IsDueClose : Call → Type 0
IsDueClose c = str_eq c.0 (codes "close") ≡ true → c.2 ≡ true

record IsSwept (s : Server Chrome) : Type 0 where
  registry : IsRegistry s.tabs
  calls : All IsDueClose s.browser

forget_no_close : (b : Bool) (tid : Text) → IsDueClose (codes "forget", tid, b)
unfolding str_eq
forget_no_close b tid h = absurd (let f : false ≡ true = h in cc)

removes-IsSwept :
    (tid : Text) (s : Server Chrome) → IsSwept s → IsSwept (remove_target_state sample_env tid s)
unfolding remove_target_state clear_removed_target forget_tab_managed
removes-IsSwept tid s v = elim (Option-cases (remove_target s.tabs tid).0) [
  | inl e ↦
      rw (remove_target_state, e)
        (record { registry = remove_target-IsRegistry s.tabs tid v.registry; calls = v.calls })
  | inr (short, e) ↦
      rw (remove_target_state, e)
        (record {
          registry = remove_target-IsRegistry s.tabs tid v.registry;
          calls = (forget_no_close _ tid, v.calls);
        })
]

sample-Sweep : Sweep IsSwept sample_env sample_conn limit
unfolding forget_tab_managed
sample-Sweep = record {
  conn_is = refl;
  lock_keeps = λ short s v. v;
  unlock_keeps = λ short s v. v;
  lock_finds = λ tid short s v e due. lookup-short_for_target s.tabs tid short v.registry e;
  close_due = λ tid s v due. record { registry = v.registry; calls = ((λ h. due), v.calls) };
  removes = removes-IsSwept;
  forgets = λ tid s v. record { registry = v.registry; calls = v.calls };
}

target-IsCdpId : IsCdpId sample_target
target-IsCdpId = (refl, ground arith)

only :
    (c : TabConn (Server Chrome))
    → sample_env.conn ≡ some c
    → (tid : Text) (s : Server Chrome)
    → c.forget_target tid s ≡ record s { browser = (c.forget_target tid s).browser }
only c e tid s = let p : sample_conn ≡ c = cc in rw (sym p) refl

-- The tab is registered, and has been idle for long.
abbrev registered : Text × TabRegistry
registered = register_page_target new_tab_registry sample_target

abbrev late_server : Server Chrome
late_server = record sample_server { clock = 500; tabs = registered.1 }

late_registry : IsRegistry late_server.tabs
late_registry =
    register_page_target-IsRegistry new_tab_registry sample_target new-IsRegistry target-IsCdpId

late_found : lookup late_server.tabs registered.0 ≡ some sample_target
late_found = (lookup-register new_tab_registry sample_target new-IsRegistry target-IsCdpId).0

close_expired_tabs-due_example : IsSwept (close_expired_tabs sample_env limit late_server)
close_expired_tabs-due_example =
    close_expired_tabs-due sample-Sweep late_server
      (record { registry = late_registry; calls = tt })

late_named : str_eq sample_target [] ≡ false
unfolding str_eq
late_named = refl

late_closed : (close_tab_by_short_locked sample_env sample_conn registered.0 late_server).0 ≡ none
unfolding close_tab_by_short_locked resolve_tab
late_closed = rw (close_tab_by_short_locked, resolve_tab, late_found) refl

close_locked-IsGone_example :
    IsGone sample_target
      (close_tab_by_short_locked sample_env sample_conn registered.0 late_server).1
close_locked-IsGone_example =
    close_locked-IsGone sample_env (only) sample_conn registered.0 sample_target late_server
      (λ tid s. refl) late_registry.consistent late_named late_found late_closed
