-- ===== src/Daemon/Rpc/Audit.antt =====
-- The channel of the log of requests (enqueueAudit of v1.go, runAuditWriter and closeAudit of server.go):
-- series of records that are handed in, rounds of the writer and the closing of the channel.
use go_bb_browser.Prelude.{
  ℕ, ◌+◌, ◌≤◌, ◌≡◌, refl, sym, ap, subst, ◌∙◌, Bool, List, [], ◌∷◌, ◌++◌, arith, Bool-cases, inl,
  inr, length, length-append, ltb, if◌then◌else◌,
}
use go_bb_browser.Store.Record.{LogRecord}
use go_bb_browser.Store.State.{Store, append_rpc}
use go_bb_browser.Daemon.Rpc.{Server, Env}
use go_bb_browser.Daemon.Rpc.Answer.{
  audit_capacity, append_audit, enqueue_audit, write_audit, close_audit,
}

pub data AuditOp : Type 0 where
  logs : ℕ → LogRecord → AuditOp
  writes : ℕ → AuditOp
  closes : AuditOp

-- A call of AppendRPC: its time and its record.
pub record Append : Type 0 where
  pub at : ℕ
  pub rec : LogRecord

-- How many of the records pass the test.
abbrev pub tally : (LogRecord → Bool) → List LogRecord → ℕ
tally p [] = 0
tally p (r ∷ rs) = (if p r then 1 else 0) + tally p rs

abbrev pub tally_appends : (LogRecord → Bool) → List Append → ℕ
tally_appends p [] = 0
tally_appends p (a ∷ calls) = (if p a.rec then 1 else 0) + tally_appends p calls

tally-append :
    (p : LogRecord → Bool) (xs ys : List LogRecord) → tally p (xs ++ ys) ≡ tally p xs + tally p ys
tally-append p [] ys = omega arith
tally-append p (x ∷ xs) ys = omega (arith, tally-append p xs ys)

tally_appends-append :
    (p : LogRecord → Bool) (xs ys : List Append)
    → tally_appends p (xs ++ ys) ≡ tally_appends p xs + tally_appends p ys
tally_appends-append p [] ys = omega arith
tally_appends-append p (x ∷ xs) ys = omega (arith, tally_appends-append p xs ys)

-- The records that a series hands in.
abbrev pub handed : List AuditOp → List LogRecord
handed [] = []
handed (logs now rec ∷ ops) = rec ∷ handed ops
handed (writes now ∷ ops) = handed ops
handed (closes ∷ ops) = handed ops

module _ {W : Type 0} (env : Env (Server W)) where
  abbrev pub step : AuditOp → Server W → Server W
  step (logs now rec) s = enqueue_audit env rec (record s { clock = now })
  step (writes now) s = write_audit env (record s { clock = now })
  step closes s = close_audit s

  abbrev pub run : List AuditOp → Server W → Server W
  run [] s = s
  run (op ∷ ops) s = run ops (step op s)

  -- The store after these calls of AppendRPC, one after the other.
  abbrev pub appended : Store → List Append → Store
  appended store [] = store
  appended store (a ∷ calls) =
      appended (append_rpc env.line_length env.disk a.at store a.rec).1 calls

  appended-append :
      (store : Store) (xs ys : List Append)
      → appended store (xs ++ ys) ≡ appended (appended store xs) ys
  appended-append store [] ys = refl
  appended-append store (a ∷ xs) ys =
      appended-append (append_rpc env.line_length env.disk a.at store a.rec).1 xs ys

  -- What came in was given to AppendRPC or waits in the channel, which has no more than its capacity.
  record Reaches (s t : Server W) (came : List LogRecord) : Type 0 where
    calls : List Append
    store : t.store ≡ appended s.store calls
    all_there :
        (p : LogRecord → Bool)
        → tally p came + tally p s.audit_ch ≡ tally_appends p calls + tally p t.audit_ch
    bounded : length s.audit_ch ≤ audit_capacity → length t.audit_ch ≤ audit_capacity

  enqueue-Reaches :
      (rec : LogRecord) (s : Server W) → Reaches s (enqueue_audit env rec s) (rec ∷ [])
  unfolding enqueue_audit append_audit
  enqueue-Reaches rec s = elim (Bool-cases s.audit_closed) [
    | inl e ↦
        let at_once : append_audit env rec s ≡ enqueue_audit env rec s =
          rw (enqueue_audit, e) refl in
        subst (λ t. Reaches s t (rec ∷ [])) at_once direct
    | inr e ↦ elim (Bool-cases (ltb (length s.audit_ch) audit_capacity)) [
      | inl d ↦
          simp (enqueue_audit, e, d)
            (record {
              calls = [];
              store = refl;
              all_there = λ p. omega (arith, tally-append p s.audit_ch (rec ∷ []));
              bounded = λ h. ground (arith, d, length-append s.audit_ch (rec ∷ []));
            })
      | inr d ↦
          let at_once : append_audit env rec s ≡ enqueue_audit env rec s =
            rw (enqueue_audit, e, d) refl in
          subst (λ t. Reaches s t (rec ∷ [])) at_once direct
    ]
  ]
    where
      direct : Reaches s (append_audit env rec s) (rec ∷ [])
      direct = record {
        calls = record { at = s.clock; rec = rec } ∷ [];
        store = refl;
        all_there = λ p. omega arith;
        bounded = λ h. h;
      }

  write-Reaches : (s : Server W) → Reaches s (write_audit env s) []
  unfolding write_audit append_audit
  write-Reaches s = by_channel s.audit_ch refl
    where
      by_channel : (ch : List LogRecord) → s.audit_ch ≡ ch → Reaches s (write_audit env s) []
      by_channel [] e =
          simp (write_audit, e)
            (record { calls = []; store = refl; all_there = λ p. omega arith; bounded = λ h. h })
      by_channel (rec ∷ recs) e =
          simp (write_audit, e)
            (record {
              calls = record { at = s.clock; rec = rec } ∷ [];
              store = refl;
              all_there = λ p. rw e (omega arith);
              bounded = λ h.
                  let l : length s.audit_ch ≡ 1 + length recs = rw e (omega arith) in
                  omega (arith, l, h);
            })

  step-Reaches : (op : AuditOp) (s : Server W) → Reaches s (step op s) (handed (op ∷ []))
  unfolding close_audit
  step-Reaches (logs now rec) s =
      let r = enqueue-Reaches rec (record s { clock = now }) in
      record { calls = r.calls; store = r.store; all_there = r.all_there; bounded = r.bounded }
  step-Reaches (writes now) s =
      let r = write-Reaches (record s { clock = now }) in
      record { calls = r.calls; store = r.store; all_there = r.all_there; bounded = r.bounded }
  step-Reaches closes s = record {
    calls = [];
    store = refl;
    all_there = λ p. omega arith;
    bounded = λ h. h;
  }

  tally-handed :
      (p : LogRecord → Bool) (op : AuditOp) (ops : List AuditOp)
      → tally p (handed (op ∷ ops)) ≡ tally p (handed (op ∷ [])) + tally p (handed ops)
  tally-handed p (logs now rec) ops = omega arith
  tally-handed p (writes now) ops = omega arith
  tally-handed p closes ops = omega arith

  run-Reaches : (ops : List AuditOp) (s : Server W) → Reaches s (run ops s) (handed ops)
  run-Reaches [] s = record {
    calls = [];
    store = refl;
    all_there = λ p. omega arith;
    bounded = λ h. h;
  }
  run-Reaches (op ∷ ops) s =
      let a = step-Reaches op s in
      let b = run-Reaches ops (step op s) in
      record {
        calls = a.calls ++ b.calls;
        store =
            b.store
            ∙ ap (λ st. appended st b.calls) a.store
            ∙ sym (appended-append s.store a.calls b.calls);
        all_there = λ p. omega (
          arith,
          a.all_there p,
          b.all_there p,
          tally-handed p op ops,
          tally_appends-append p a.calls b.calls,
        );
        bounded = λ h. b.bounded (a.bounded h);
      }

  -- Every record that is handed to the log reaches AppendRPC once: after any series of records handed
  -- in, rounds of the writer and closings of the channel, the store is what a list of calls of AppendRPC
  -- makes of it, and these calls have, with the records that still wait in the channel, just the records
  -- handed in and those that waited before. The channel never holds more than 256. Two lists of records
  -- are compared by how many of each pass a test, for every test. What AppendRPC makes of its disk's
  -- errors is part of the calls.
  pub run-appended :
      (ops : List AuditOp) (s : Server W)
      → length s.audit_ch ≤ audit_capacity
      → (calls : List Append) × ((run ops s).store ≡ appended s.store calls)
        × ((p : LogRecord → Bool)
            → tally p (handed ops) + tally p s.audit_ch
              ≡ tally_appends p calls + tally p (run ops s).audit_ch)
        × (length (run ops s).audit_ch ≤ audit_capacity)
  run-appended ops s room =
      let r = run-Reaches ops s in (r.calls, r.store, r.all_there, r.bounded room)
