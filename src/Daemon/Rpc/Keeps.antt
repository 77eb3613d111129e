-- ===== src/Daemon/Rpc/Keeps.antt =====
-- Relations between the daemon's state before and after a request, and how they pass through the
-- handlers: a law for each step, and a rule for each way to compose them.
pub mod Steps
pub mod Rules
pub mod Pages
pub mod Observations
pub mod Tabs
pub mod Served
use go_bb_browser.Prelude.{
  ◌≡◌, Bool, true, false, List, Option, none, some, Text, if◌then◌else◌, Bool-cases, inl, inr,
  arith,
}
use go_bb_browser.Protocol.Message.{ResponseError, RpcResult}
use go_bb_browser.State.Target.{Info}
use go_bb_browser.State.TabRegistry.{
  TabSnapshot, sync_page_targets_detailed, remove_target, register_page_target,
}
use go_bb_browser.State.TabRegistry
use go_bb_browser.State.TabIdle.{TabIdleTracker}
use go_bb_browser.State.ObsStore.{TabObsStore}
use go_bb_browser.Store.Record.{LogRecord}
use go_bb_browser.Store.State.{next_seq}
use go_bb_browser.Browser.Routes.{NetworkRouteRule}
use go_bb_browser.Daemon.TabLock.{TabLocks}
use go_bb_browser.Daemon.Watchdog.{fatal_cdp_lost}
use go_bb_browser.Daemon.Rpc.{
  Server, Env, TabConn, RouteConn, ObservationKind, SnapshotOpts, PageSnapshot, Result, Outcome,
  done, failed, ◌>>=◌, ◌>>◌, pure, modify, run, require, some_or,
}
use go_bb_browser.Daemon.Rpc.Answer.{append_audit}

module _ {W : Type 0} (R : Server W → Server W → Type 0) where
  -- A step, with or without a result, takes a state to one that it is related to.
  abbrev pub Keeps : {B : Type 0} → (Server W → B × Server W) → Type 0
  Keeps f = (s : Server W) → R s (f s).1

  pub record RouteLaws (rc : RouteConn (Server W)) : Type 0 where
    pub append_law :
        (tid : Text) (rule : NetworkRouteRule) → Keeps (rc.append_network_route tid rule)
    pub remove_law : (tid p : Text) → Keeps (rc.remove_network_routes tid p)

  -- What a call of the browser may do to the state, other requests included.
  pub record ConnLaws (c : TabConn (Server W)) : Type 0 where
    pub page_targets_law : Keeps c.page_targets
    pub create_law : (u : Text) (b : Bool) → Keeps (c.create_page_target u b)
    pub close_law : (tid : Text) → Keeps (c.close_target tid)
    pub navigate_law : (tid u : Text) → Keeps (c.navigate tid u)
    pub reload_law : (tid : Text) → Keeps (c.reload tid)
    pub screenshot_law : (tid f : Text) → Keeps (c.screenshot tid f)
    pub eval_law : (tid t : Text) → Keeps (c.eval tid t)
    pub click_law : (tid t : Text) → Keeps (c.click tid t)
    pub fill_law : (tid t u : Text) → Keeps (c.fill tid t u)
    pub detect_law :
        (f : List TabSnapshot → Server W → Option Text × Server W)
        → c.detect_foreground_short ≡ some f
        → (snaps : List TabSnapshot) → Keeps (f snaps)
    pub fetch_law :
        (f : Text → Text → Text → Text → Text → Server W → Result _ × Server W)
        → c.fetch_page ≡ some f
        → (a b d g h : Text) → Keeps (f a b d g h)
    pub snapshot_law :
        (f : Text → SnapshotOpts → Server W → Result PageSnapshot × Server W)
        → c.snapshot ≡ some f
        → (a : Text) (o : SnapshotOpts) → Keeps (f a o)
    pub routes_law : (rc : RouteConn (Server W)) → c.routes ≡ some rc → RouteLaws rc
    pub ensure_law :
        (f : Text → ObservationKind → Server W → Result (Unit {0}) × Server W)
        → c.ensure_observation ≡ some f
        → (a : Text) (k : ObservationKind) → Keeps (f a k)
    pub forget_law : (tid : Text) (s : Server W) → R s (c.forget_target tid s)

  pub record Laws (env : Env (Server W)) : Type 0 where
    pub same : (s : Server W) → R s s
    pub trans : (s t u : Server W) → R s t → R t u → R s u
    pub lock_law : (tab : Text) → Keeps (env.lock_tab tab)
    pub unlock_law : (tab : Text) (s : Server W) → R s (env.unlock tab s)
    pub conn_law : (c : TabConn (Server W)) → env.conn ≡ some c → ConnLaws c
    pub sync_law :
        (infos : List (Option Info)) (s : Server W)
        → R s (record s { tabs = (sync_page_targets_detailed s.tabs infos).2 })
    pub remove_target_law :
        (tid : Text) (s : Server W) → R s (record s { tabs = (remove_target s.tabs tid).1 })
    pub register_law :
        (tid : Text) (s : Server W) → R s (record s { tabs = (register_page_target s.tabs tid).1 })
    pub select_law :
        (t : Text) (s : Server W) → R s (record s { tabs = (TabRegistry.select s.tabs t).1 })
    pub idle_law : (t : TabIdleTracker) (s : Server W) → R s (record s { tab_idle = t })
    pub obs_law : (o : TabObsStore) (s : Server W) → R s (record s { obs_store = o })
    pub locks_law : (l : TabLocks) (s : Server W) → R s (record s { locks = l })
    pub fatal_law : (s : Server W) → R s (record s { link = fatal_cdp_lost s.link })
    pub probe_law : (b : Bool) (s : Server W) → R s (record s { probe_wanted = b })
