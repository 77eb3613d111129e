-- ===== src/Daemon/Rpc/Sample.antt =====
-- A daemon with one tab, whose browser does what it is asked to and keeps what it was asked.
use go_bb_browser.Prelude.{
  ◌≡◌, sym, Bool, true, false, List, [], ◌∷◌, none, some, Text, codes, ℤ, pos,
}
use go_bb_browser.Prelude.Json.{Json, null, obj, end, field, str, num, RawMessage, value}
use go_bb_browser.State.Target.{Info}
use go_bb_browser.State.TabRegistry.{TabRegistry}
use go_bb_browser.State.TabIdle.{is_expired}
use go_bb_browser.State.ObsStore.{new_tab_obs_store}
use go_bb_browser.Store.State.{open_memory}
use go_bb_browser.Daemon.TabLock.{no_locks}
use go_bb_browser.Daemon.Watchdog.{ready}
use go_bb_browser.Daemon.Rpc.{Server, Env, TabConn, Result, ok}
use go_bb_browser.Daemon.Rpc.V1.{HttpRequest}
use go_bb_browser.Daemon.Rpc.Keeps.{ConnLaws}

-- A call as it was made, with whether its tab was due for closing then.
abbrev pub Call : Type 0
Call = Text × Text × Bool

abbrev pub Chrome : Type 0
Chrome = List Call

abbrev pub limit : ℤ
limit = pos 100

abbrev pub note : Text → Text → Server Chrome → Server Chrome
note op tid s = record s {
  browser = (op, tid, is_expired s.tab_idle tid s.clock limit) ∷ s.browser;
}

abbrev pub does : {A : Type 0} → Text → Text → A → Server Chrome → Result A × Server Chrome
does op tid a s = (ok a, note op tid s)

abbrev pub sample_tab : Text
sample_tab = codes "cdef"

abbrev pub sample_target : Text
sample_target = codes "0123456789ABCDEF0123456789ABCDEF"

abbrev pub sample_info : Info
sample_info = record { kind = codes "page"; target_id = sample_target; title = []; url = [] }

abbrev pub sample_conn : TabConn (Server Chrome)
sample_conn = record {
  page_targets = does (codes "list") [] (some sample_info ∷ []);
  create_page_target = λ url silent. does (codes "create") [] (codes "CD34");
  close_target = λ tid. does (codes "close") tid tt;
  navigate = λ tid url. does (codes "navigate") tid tt;
  reload = λ tid. does (codes "reload") tid tt;
  screenshot = λ tid format. does (codes "screenshot") tid ([], []);
  eval = λ tid script. does (codes "eval") tid null;
  click = λ tid selector. does (codes "click") tid tt;
  fill = λ tid selector text. does (codes "fill") tid tt;
  detect_foreground_short = none;
  fetch_page = none;
  snapshot = none;
  routes = none;
  ensure_observation = none;
  observation_dropped = none;
  forget_target = λ tid s. note (codes "forget") tid s;
}

abbrev pub sample_env : Env (Server Chrome)
sample_env = record {
  conn = some sample_conn;
  is_done = λ s. false;
  lock_tab = λ tab s. (true, s);
  unlock = λ tab s. s;
  disk = record { writes = true; opens = true; writes_snapshot = true };
  line_length = λ rec. 100;
}

abbrev pub sample_registry : TabRegistry
sample_registry = record {
  target_to_short = (sample_target, sample_tab) ∷ [];
  short_to_target = (sample_tab, sample_target) ∷ [];
  selected = [];
}

-- The tab was used at 10, and it is 50 now; seven numbers have been given.
abbrev pub sample_server : Server Chrome
sample_server = record {
  tabs = sample_registry;
  tab_idle = record { managed = (sample_target, 10) ∷ [] };
  obs_store = new_tab_obs_store;
  locks = no_locks;
  store = record (open_memory (pos 0) 7) { seq = 7 };
  link = record {
    skip_browser_attach = false;
    tab_hook = none;
    tab_live = true;
    browser_state = ready;
    browser_failures = 0;
    browser_last_probe = 0;
    probe_in_flight = false;
    is_fatal = false;
  };
  probe_wanted = false;
  audit_ch = [];
  audit_closed = false;
  clock = 50;
  browser = [];
}

abbrev pub goto_object : Json
goto_object = obj (
    field (codes "tab") (str sample_tab)
      (field (codes "url") (str (codes "https://example.com")) end))

abbrev pub goto_params : RawMessage
goto_params = value goto_object

abbrev pub goto_body : RawMessage
goto_body = value (
    obj (
      field (codes "jsonrpc") (str (codes "2.0")) (
        field (codes "id") (num (codes "1"))
          (field (codes "method") (str (codes "goto")) (field (codes "params") goto_object end)))))

abbrev pub sample_request : RawMessage → HttpRequest
sample_request body = record {
  http_method = codes "POST";
  request = record { remote_addr = codes "127.0.0.1:4000"; header = [] };
  body = body;
  sender_ip = codes "127.0.0.1";
}

-- The laws of the sample's browser, for a relation that does not look at the browser.
module _ {R : Server Chrome → Server Chrome → Type 0}
    (noted : (s : Server Chrome) (l : Chrome) → R s (record s { browser = l })) where
  sample_conn-ConnLaws : ConnLaws R sample_conn
  sample_conn-ConnLaws = record {
    page_targets_law = λ s. noted s _;
    create_law = λ u b s. noted s _;
    close_law = λ tid s. noted s _;
    navigate_law = λ tid u s. noted s _;
    reload_law = λ tid s. noted s _;
    screenshot_law = λ tid u s. noted s _;
    eval_law = λ tid u s. noted s _;
    click_law = λ tid u s. noted s _;
    fill_law = λ tid u v s. noted s _;
    detect_law = λ f e. absurd (let n : none ≡ some f = e in cc);
    fetch_law = λ f e. absurd (let n : none ≡ some f = e in cc);
    snapshot_law = λ f e. absurd (let n : none ≡ some f = e in cc);
    routes_law = λ f e. absurd (let n : none ≡ some f = e in cc);
    ensure_law = λ f e. absurd (let n : none ≡ some f = e in cc);
    forget_law = λ tid s. noted s _;
  }

  pub sample-ConnLaws : (c : TabConn (Server Chrome)) → sample_env.conn ≡ some c → ConnLaws R c
  sample-ConnLaws c e = let p : sample_conn ≡ c = cc in rw (sym p) sample_conn-ConnLaws
