-- ===== src/Daemon/Rpc/Keeps/Rules.antt =====
-- The rules for the ways in which a handler is composed, and for the answer at its end.
use go_bb_browser.Prelude.{
  ℕ, ◌≡◌, refl, Bool, true, false, Option, none, some, Text, Bool-cases, inl, inr, ◌⊎◌,
}
use go_bb_browser.Protocol.Message.{ResponseError, RpcResult, seq_of}
use go_bb_browser.Store.State.{next_seq}
use go_bb_browser.Daemon.Rpc.{
  Server, Env, Outcome, done, failed, M, ◌>>=◌, ◌>>◌, pure, modify, run, require, some_or, take_seq,
  lock_timed_out,
}
use go_bb_browser.Daemon.Rpc.Answer.{AuditMeta, answer, start, locked}
use go_bb_browser.Daemon.Rpc.Keeps.{Keeps, Laws}
use go_bb_browser.Daemon.Rpc.Keeps.Steps.{PostLaws}

Outcome-cases :
    {A : Type 0} (o : Outcome A) → ((a : A) × (o ≡ done a)) ⊎ ((e : ResponseError) × (o ≡ failed e))
Outcome-cases (done a) = inl (a, refl)
Outcome-cases (failed e) = inr (e, refl)

module _ {W : Type 0} (Q : Server W → Outcome RpcResult → Server W → Type 0) where
  -- The outcome and the new state are related to the old one.
  pub record Posts (m : Server W → Outcome RpcResult × Server W) : Type 0 where
    pub on : (s : Server W) → Q s (m s).0 (m s).1

module _ {W : Type 0} {R : Server W → Server W → Type 0} {env : Env (Server W)}
    (laws : Laws R env) where
  open laws use {same, trans}

  pub bind-R :
      {A B : Type 0} (m : Server W → Outcome A × Server W) (f : A → Server W → Outcome B × Server W)
      → Keeps R m
      → ((a : A) → Keeps R (f a))
      → Keeps R (m >>= f)
  unfolding ◌>>=◌
  bind-R m f h k s = elim (Outcome-cases (m s).0) [
    | inl (a, e) ↦ rw (◌>>=◌, e) (trans s (m s).1 (f a (m s).1).1 (h s) (k a (m s).1))
    | inr (g, e) ↦ rw (◌>>=◌, e) (h s)
  ]

  pub require-R : (b : Bool) (e : ResponseError) → Keeps R (require b e)
  unfolding require
  require-R true e s = same s
  require-R false e s = same s

  module _ {meta : AuditMeta} {Q Q' : Server W → Outcome RpcResult → Server W → Type 0}
      (post : PostLaws laws meta Q Q') where
    answer_on :
        (m : Server W → Outcome RpcResult × Server W)
        → Posts Q m
        → (s : Server W) → Q' s (answer env meta (m s)).0 (answer env meta (m s)).1
    unfolding answer
    answer_on m h s = elim (Outcome-cases (m s).0) [
      | inl (r, e) ↦
          let q : Q s (done r) (m s).1 = rw e at (h.on s) in
          rw (answer, e) (post.finish s (m s).1 (done r) q)
      | inr (g, e) ↦
          let q : Q s (failed g) (m s).1 = rw e at (h.on s) in
          rw (answer, e) (post.finish s (m s).1 (failed g) q)
    ]

    pub answer-Posts :
        (m : Server W → Outcome RpcResult × Server W)
        → Posts Q m
        → Posts Q' (λ s. answer env meta (m s))
    answer-Posts m h = record { on = answer_on m h }

    pub failed_on :
        (e : ResponseError) (s : Server W)
        → Q' s (answer env meta (failed e, s)).0 (answer env meta (failed e, s)).1
    unfolding answer
    failed_on e s = post.finish s s (failed e) (post.rejected s s e (same s))

    bind_on :
        {A : Type 0} (m : Server W → Outcome A × Server W)
        (f : A → Server W → Outcome RpcResult × Server W)
        → Keeps R m
        → ((a : A) → Posts Q (f a))
        → (s : Server W) → Q s ((m >>= f) s).0 ((m >>= f) s).1
    unfolding ◌>>=◌
    bind_on m f h k s = elim (Outcome-cases (m s).0) [
      | inl (a, e) ↦
          rw (◌>>=◌, e)
            (post.before s (m s).1 (f a (m s).1).1 (f a (m s).1).0 (h s) ((k a).on (m s).1))
      | inr (g, e) ↦ rw (◌>>=◌, e) (post.rejected s (m s).1 g (h s))
    ]

    pub bind-Posts :
        {A : Type 0} (m : Server W → Outcome A × Server W)
        (f : A → Server W → Outcome RpcResult × Server W)
        → Keeps R m
        → ((a : A) → Posts Q (f a))
        → Posts Q (m >>= f)
    bind-Posts m f h k = record { on = bind_on m f h k }

    pub then-Posts :
        (m : Server W → Outcome (Unit {0}) × Server W) (k : Server W → Outcome RpcResult × Server W)
        → Keeps R m
        → Posts Q k
        → Posts Q (m >> k)
    unfolding ◌>>◌
    then-Posts m k h p = record { on = bind_on m (λ _. k) h (λ _. p) }

    pub require-Posts :
        (b : Bool) (e : ResponseError) (k : Server W → Outcome RpcResult × Server W)
        → Posts Q k
        → Posts Q (require b e >> k)
    require-Posts b e k p = then-Posts (require b e) k (require-R b e) p

    pub some_or-Posts :
        {A : Type 0} (o : Option A) (e : ResponseError)
        (f : A → Server W → Outcome RpcResult × Server W)
        → ((a : A) → o ≡ some a → Posts Q (f a))
        → Posts Q (some_or o e >>= f)
    unfolding ◌>>=◌ some_or
    some_or-Posts none e f h = record { on = λ s. post.rejected s s e (same s) }
    some_or-Posts (some a) e f h = record { on = (h a refl).on }

    pub modify-Posts :
        (f : Server W → Server W) (k : Server W → Outcome RpcResult × Server W)
        → ((s : Server W) → R s (f s))
        → Posts Q k
        → Posts Q (modify f >> k)
    unfolding modify
    modify-Posts f k h p = then-Posts (modify f) k h p

    pub run-Posts :
        {A : Type 0} (f : Server W → A × Server W) (k : A → Server W → Outcome RpcResult × Server W)
        → Keeps R f
        → ((a : A) → Posts Q (k a))
        → Posts Q (run f >>= k)
    unfolding run
    run-Posts f k h p = bind-Posts (run f) k h p

    -- The end of a handler: the sequence number goes into the result.
    pub seq-Posts :
        (res : ℕ → RpcResult)
        → ((n : ℕ) → seq_of (res n) ≡ n)
        → Posts Q (take_seq >>= λ n. pure (res n))
    unfolding ◌>>=◌ take_seq pure
    seq-Posts res h = record {
      on = λ s. post.answered s (res (next_seq s.store).0) (h (next_seq s.store).0);
    }

    -- The same where the state is read once more behind it.
    pub seq_read-Posts :
        {A : Type 0} (read : Server W → A) (res : ℕ → A → RpcResult)
        → ((n : ℕ) (a : A) → seq_of (res n a) ≡ n)
        → Posts Q (take_seq >>= λ n. run (λ (s : Server W). (read s, s)) >>= λ a. pure (res n a))
    unfolding ◌>>=◌ take_seq run pure
    seq_read-Posts read res h = record {
      on = λ s.
          (let n = (next_seq s.store).0 in
            let a = read (record s { store = (next_seq s.store).1 }) in
            post.answered s (res n a) (h n a));
    }

    pub start-require-Posts :
        (b : Bool) (e : ResponseError) (k : M (Server W) (Server W → Outcome RpcResult × Server W))
        → Posts Q' (start env meta k)
        → Posts Q' (start env meta (require b e >> k))
    unfolding start ◌>>◌ ◌>>=◌ require
    start-require-Posts true e k h = record { on = h.on }
    start-require-Posts false e k h = record { on = failed_on e }

    pub start-some_or-Posts :
        {A : Type 0} (o : Option A) (e : ResponseError)
        (f : A → M (Server W) (Server W → Outcome RpcResult × Server W))
        → ((a : A) → o ≡ some a → Posts Q' (start env meta (f a)))
        → Posts Q' (start env meta (some_or o e >>= f))
    unfolding start ◌>>=◌ some_or
    start-some_or-Posts none e f h = record { on = failed_on e }
    start-some_or-Posts (some a) e f h = record { on = (h a refl).on }

    locked_on :
        (tab : Text) (m : Server W → Outcome RpcResult × Server W)
        → Posts Q m
        → (s : Server W) → Q' s (locked env meta tab m s).0 (locked env meta tab m s).1
    unfolding locked
    locked_on tab m h s = elim (Bool-cases (env.lock_tab tab s).0) [
      | inl e ↦
          let t = (env.lock_tab tab s).1 in
          let r = answer env meta (m t) in
          rw (locked, e)
            (post.behind s r.1 (env.unlock tab r.1) r.0
              (post.waits s t r.1 r.0 (laws.lock_law tab s) (answer_on m h t))
              (laws.unlock_law tab r.1))
      | inr e ↦
          let t = (env.lock_tab tab s).1 in
          let r = answer env meta (failed lock_timed_out, t) in
          rw (locked, e) (post.waits s t r.1 r.0 (laws.lock_law tab s) (failed_on lock_timed_out t))
    ]

    pub locked-Posts :
        (tab : Text) (m : Server W → Outcome RpcResult × Server W)
        → Posts Q m
        → Posts Q' (start env meta (pure (locked env meta tab m)))
    unfolding start pure
    locked-Posts tab m h = record { on = locked_on tab m h }
