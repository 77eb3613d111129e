-- ===== src/Daemon/Rpc/Numbers.antt =====
-- The sequence numbers that the answers carry.
use go_bb_browser.Prelude.{◌^◌, ◌≤◌, ◌<◌, ◌≡◌, ◌≢◌, refl, true, some, Text, arith}
use go_bb_browser.Protocol.{is_dispatched_method}
use go_bb_browser.Prelude.Json.{RawMessage}
use go_bb_browser.Protocol.Message.{RpcResult, seq_of}
use go_bb_browser.Store.State.{next_seq}
use go_bb_browser.Store.Sequence.{seq-append_rpc}
use go_bb_browser.Daemon.Rpc.{Server, Env, TabConn, Outcome, done, failed}
use go_bb_browser.Daemon.Rpc.Answer.{
  AuditMeta, touch_successful_rpc, audit_record, append_audit, enqueue_audit, schedule_audit,
  answer,
}
use go_bb_browser.Daemon.Rpc.Touch.{touch-only}
use go_bb_browser.Daemon.Rpc.V1.{HttpRequest, serve}
use go_bb_browser.Daemon.Rpc.Keeps.{Keeps, ConnLaws, Laws}
use go_bb_browser.Daemon.Rpc.Keeps.Steps.{PostLaws}
use go_bb_browser.Daemon.Rpc.Keeps.Served.{serve-Posts}

module _ {W : Type 0} where
  abbrev pub InRange : Server W → Type 0
  InRange s = s.store.seq < 2 ^ 64

  -- The counter is not lowered, and stays in the range of a uint64.
  pub record Rises (s t : Server W) : Type 0 where
    pub rise : InRange s → (s.store.seq ≤ t.store.seq) × InRange t

  abbrev Numbered : Server W → Outcome RpcResult → Server W → Type 0
  Numbered s (failed e) t = Rises s t
  Numbered s (done r) t =
      InRange s → InRange t × (seq_of r ≢ 0 → (s.store.seq < seq_of r) × (seq_of r ≤ t.store.seq))

  -- Waiting for the browser or for the lock of a tab, other requests may take numbers.
  pub record IsRising (env : Env (Server W)) : Type 0 where
    pub lock : (tab : Text) → Keeps Rises (env.lock_tab tab)
    pub unlock : (tab : Text) (s : Server W) → Rises s (env.unlock tab s)
    pub browser : (c : TabConn (Server W)) → env.conn ≡ some c → ConnLaws Rises c

  module _ {env : Env (Server W)} (rising : IsRising env) where
    rises-Laws : Laws Rises env
    rises-Laws = record {
      same = λ s. record { rise = λ h. omega arith };
      trans = λ s t u h k. record { rise = λ b. omega (arith, h.rise b, k.rise (h.rise b).1) };
      lock_law = rising.lock;
      unlock_law = rising.unlock;
      conn_law = rising.browser;
      sync_law = λ infos s. record { rise = λ h. omega arith };
      remove_target_law = λ tid s. record { rise = λ h. omega arith };
      register_law = λ tid s. record { rise = λ h. omega arith };
      select_law = λ t s. record { rise = λ h. omega arith };
      idle_law = λ t s. record { rise = λ h. omega arith };
      obs_law = λ o s. record { rise = λ h. omega arith };
      locks_law = λ l s. record { rise = λ h. omega arith };
      fatal_law = λ s. record { rise = λ h. omega arith };
      probe_law = λ b s. record { rise = λ h. omega arith };
    }

    seq-touch :
        (meta : AuditMeta) (r : RpcResult) (s : Server W)
        → (touch_successful_rpc meta r s).store.seq ≡ s.store.seq
    seq-touch meta r s = let (t, e) = touch-only meta r s in rw e refl

    seq-audit :
        (meta : AuditMeta) (o : Outcome RpcResult) (s : Server W)
        → (schedule_audit env meta o s).store.seq ≡ s.store.seq
    unfolding schedule_audit enqueue_audit append_audit
    seq-audit meta o s =
        ground
          (arith, seq-append_rpc env.line_length env.disk s.clock s.store (audit_record env meta o))

    seq-answer :
        (meta : AuditMeta) (o : Outcome RpcResult) (s : Server W)
        → (answer env meta (o, s)).1.store.seq ≡ s.store.seq
    unfolding answer
    seq-answer meta (done r) s =
        omega (arith, seq-audit meta (done r) (touch_successful_rpc meta r s), seq-touch meta r s)
    seq-answer meta (failed e) s = seq-audit meta (failed e) s

    next_seq-Numbered :
        (s : Server W) (r : RpcResult)
        → seq_of r ≡ (next_seq s.store).0
        → Numbered s (done r) (record s { store = (next_seq s.store).1 })
    unfolding next_seq
    next_seq-Numbered s r e range = (omega arith, λ nonzero. omega arith)

    Numbered-PostLaws : (meta : AuditMeta) → PostLaws rises-Laws meta Numbered Numbered
    Numbered-PostLaws meta = record {
      before = before;
      rejected = λ s t e h. h;
      answered = next_seq-Numbered;
      finish = finish;
      waits = before;
      behind = behind;
    }
      where
        before :
            (s t u : Server W) (o : Outcome RpcResult) → Rises s t → Numbered t o u → Numbered s o u
        before s t u (failed e) h q = rises-Laws.trans s t u h q
        before s t u (done r) h q = λ range.
            let (le, in_t) = h.rise range in
            let (in_u, f) = q in_t in (in_u, λ nonzero. omega (arith, f nonzero, le))

        finish :
            (s t : Server W) (o : Outcome RpcResult)
            → Numbered s o t
            → Numbered s o (answer env meta (o, t)).1
        finish s t (failed e) q = record {
          rise = λ range. omega (arith, q.rise range, seq-answer meta (failed e) t);
        }
        finish s t (done r) q = λ range.
            let (in_t, f) = q range in
            let e = seq-answer meta (done r) t in
            (omega (arith, in_t, e), λ nonzero. omega (arith, f nonzero, e))

        behind :
            (s t u : Server W) (o : Outcome RpcResult) → Numbered s o t → Rises t u → Numbered s o u
        behind s t u (failed e) q h = rises-Laws.trans s t u q h
        behind s t u (done r) q h = λ range.
            let (in_t, f) = q range in
            let (le, in_u) = h.rise in_t in (in_u, λ nonzero. omega (arith, f nonzero, le))

    serve-Numbered :
        (method : Text) (params : RawMessage) (r : HttpRequest) (s : Server W)
        → is_dispatched_method method ≡ true
        → Numbered s (serve env method params r s).0 (serve env method params r s).1
    serve-Numbered method params r s known =
        serve-Posts rises-Laws Numbered-PostLaws method params r s known

    -- The sequence number of a successful answer is above every number that was given before the
    -- request came, and not above the counter when it is answered, so that later numbers are above
    -- it: for every dispatched method, and whatever numbers other requests take while this one
    -- waits. The conditions: the counter is a uint64, what runs while the request waits does not
    -- lower it, and the number is not 0, which a counter that has started again gives.
    pub serve-seq :
        (method : Text) (params : RawMessage) (r : HttpRequest) (s : Server W)
        → is_dispatched_method method ≡ true
        → s.store.seq < 2 ^ 64
        → (result : RpcResult) → (serve env method params r s).0 ≡ done result
        → seq_of result ≢ 0
        → (s.store.seq < seq_of result)
          × (seq_of result ≤ (serve env method params r s).1.store.seq)
    serve-seq method params r s known range result e nonzero =
        let t = (serve env method params r s).1 in
        let n : Numbered s (done result) t = rw e at (serve-Numbered method params r s known) in
        (n range).1 nonzero
