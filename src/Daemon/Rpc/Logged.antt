-- ===== src/Daemon/Rpc/Logged.antt =====
-- The log of requests: what a served request leaves in the channel to the writer, and the order in
-- which the records come to the log.
use go_bb_browser.Prelude.{
  ◌<◌, ◌≡◌, refl, ap, ◌∙◌, true, false, some, [], ◌∷◌, ◌++◌, Text, arith, length,
}
use go_bb_browser.Protocol.{is_dispatched_method}
use go_bb_browser.Prelude.Json.{RawMessage}
use go_bb_browser.Protocol.Message.{RpcResult}
use go_bb_browser.Daemon.Rpc.{Server, Env, TabConn, Outcome, done, failed}
use go_bb_browser.Daemon.Rpc.Answer.{
  AuditMeta, audit_capacity, audit_record, enqueue_audit, schedule_audit, answer,
}
use go_bb_browser.Daemon.Rpc.Touch.{touch-only}
use go_bb_browser.Daemon.Rpc.V1.{HttpRequest, serve}
use go_bb_browser.Daemon.Rpc.Keeps.{Keeps, ConnLaws, Laws}
use go_bb_browser.Daemon.Rpc.Keeps.Steps.{PostLaws}
use go_bb_browser.Daemon.Rpc.Keeps.Served.{serve-Posts}

module _ {W : Type 0} where
  -- The channel is as it was.
  pub record SameQueue (s t : Server W) : Type 0 where
    pub queue : t.audit_ch ≡ s.audit_ch
    pub open_still : t.audit_closed ≡ s.audit_closed

  -- Nothing else is logged while the request waits.
  pub record IsAlone (env : Env (Server W)) : Type 0 where
    pub lock : (tab : Text) → Keeps SameQueue (env.lock_tab tab)
    pub unlock : (tab : Text) (s : Server W) → SameQueue s (env.unlock tab s)
    pub browser : (c : TabConn (Server W)) → env.conn ≡ some c → ConnLaws SameQueue c

  -- There is room for a record.
  abbrev pub HasRoom : Server W → Type 0
  HasRoom s = (s.audit_closed ≡ false) × (length s.audit_ch < audit_capacity)

  abbrev Unlogged : Server W → Outcome RpcResult → Server W → Type 0
  Unlogged s o t = SameQueue s t

  module _ (env : Env (Server W)) where
    abbrev LoggedOnce : AuditMeta → Server W → Outcome RpcResult → Server W → Type 0
    LoggedOnce meta s o t = HasRoom s → t.audit_ch ≡ s.audit_ch ++ audit_record env meta o ∷ []

    -- A record goes to the end of the channel.
    queue-audit :
        (meta : AuditMeta) (o : Outcome RpcResult) (s : Server W)
        → HasRoom s
        → (schedule_audit env meta o s).audit_ch ≡ s.audit_ch ++ audit_record env meta o ∷ []
    unfolding schedule_audit enqueue_audit
    queue-audit meta o s h = ground arith

    queue-answer :
        (meta : AuditMeta) (o : Outcome RpcResult) (s : Server W)
        → HasRoom s
        → (answer env meta (o, s)).1.audit_ch ≡ s.audit_ch ++ audit_record env meta o ∷ []
    unfolding answer
    queue-answer meta (done r) s h =
        let (t, e) = touch-only meta r s in
        rw e (queue-audit meta (done r) (record s { tab_idle = t }) h)
    queue-answer meta (failed g) s h = queue-audit meta (failed g) s h

    same_queue-Laws : IsAlone env → Laws SameQueue env
    same_queue-Laws alone = record {
      same = λ s. record { queue = refl; open_still = refl };
      trans = λ s t u h k. record {
        queue = k.queue ∙ h.queue;
        open_still = k.open_still ∙ h.open_still;
      };
      lock_law = alone.lock;
      unlock_law = alone.unlock;
      conn_law = alone.browser;
      sync_law = λ infos s. record { queue = refl; open_still = refl };
      remove_target_law = λ tid s. record { queue = refl; open_still = refl };
      register_law = λ tid s. record { queue = refl; open_still = refl };
      select_law = λ t s. record { queue = refl; open_still = refl };
      idle_law = λ t s. record { queue = refl; open_still = refl };
      obs_law = λ o s. record { queue = refl; open_still = refl };
      locks_law = λ l s. record { queue = refl; open_still = refl };
      fatal_law = λ s. record { queue = refl; open_still = refl };
      probe_law = λ b s. record { queue = refl; open_still = refl };
    }

    room-same : (s t : Server W) → SameQueue s t → HasRoom s → HasRoom t
    room-same s t q h = (q.open_still ∙ h.0, rw q.queue h.1)

    logged-PostLaws :
        (alone : IsAlone env) (meta : AuditMeta)
        → PostLaws (same_queue-Laws alone) meta Unlogged (LoggedOnce meta)
    logged-PostLaws alone meta = record {
      before = λ s t u o h q. laws.trans s t u h q;
      rejected = λ s t e h. h;
      answered = λ s r e. record { queue = refl; open_still = refl };
      finish = λ s t o q. λ room.
          queue-answer meta o t (room-same s t q room)
          ∙ ap (λ l. l ++ audit_record env meta o ∷ []) q.queue;
      waits = λ s t u o h q.
          λ room. q (room-same s t h room) ∙ ap (λ l. l ++ audit_record env meta o ∷ []) h.queue;
      behind = λ s t u o q h. λ room. h.queue ∙ q room;
    }
      where
        laws : Laws SameQueue env
        laws = same_queue-Laws alone

    -- Every request of a dispatched method is logged once, whether it succeeds or fails, and wherever it
    -- fails: one record with the method, the body and the sender, and with the sequence number and the
    -- error of the answer, goes to the end of the channel to the writer. The conditions: the channel
    -- has room and is open, and no other request is answered while this one waits.
    pub serve-logged :
        IsAlone env
        → (method : Text) (params : RawMessage) (r : HttpRequest) (s : Server W)
        → is_dispatched_method method ≡ true
        → s.audit_closed ≡ false
        → length s.audit_ch < audit_capacity
        → (serve env method params r s).1.audit_ch
          ≡ s.audit_ch
            ++ audit_record env
                (record { action = method; body = r.body; sender_ip = r.sender_ip; at = s.clock })
                (serve env method params r s).0
              ∷ []
    serve-logged alone method params r s known is_open room =
        serve-Posts (same_queue-Laws alone) (logged-PostLaws alone) method params r s known
          (is_open, room)
