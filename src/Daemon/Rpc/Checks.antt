-- ===== src/Daemon/Rpc/Checks.antt =====
-- internal/daemon/v1.go: which requests are served, under which id they are answered, and which errors
-- of the browser end the daemon.
use go_bb_browser.Prelude.{
  ◌≡◌, ◌≢◌, refl, Bool, true, ◌||◌, some, Text, codes, str_eq, trim_space, arith, Option-cases,
  Bool-cases, inl, inr, if◌then◌else◌,
}
use go_bb_browser.Protocol.{is_dispatched_method}
use go_bb_browser.Protocol.Message.{Request, decode_request, request_has_id, ErrData, RpcResult}
use go_bb_browser.Browser.Errors.{GoError, is_cdp_session_lost}
use go_bb_browser.Daemon.Auth as Auth
use go_bb_browser.Daemon.Watchdog.{fatal_cdp_lost}
use go_bb_browser.Daemon.Watchdog as Watchdog
use go_bb_browser.Daemon.Rpc.{
  Server, Env, Result, err, Outcome, failed, invalid_params, cdp_hint, call,
}
use go_bb_browser.Daemon.Rpc.V1.{
  HttpRequest, HttpReply, method_not_allowed, unauthorized, rpc, null_id, handle_request, handle_v1,
}

module _ {W : Type 0} (env : Env (Server W)) (authorized : Auth.Request → Bool) where
  -- What a message must be for its method to run.
  pub record IsServed (r : HttpRequest) : Type 0 where
    pub posted : str_eq r.http_method (codes "POST") ≡ true
    pub allowed : authorized r.request ≡ true
    pub message : Request
    pub decoded : decode_request r.body ≡ some message
    pub version : str_eq message.jsonrpc (codes "2.0") ≡ true
    pub with_id : request_has_id message.id ≡ true
    pub known : is_dispatched_method (trim_space message.method) ≡ true

  unserved_message :
      (req : Request) (r : HttpRequest) (s : Server W)
      → (handle_request env req r s).1 ≢ s
      → (str_eq req.jsonrpc (codes "2.0") ≡ true)
        × (request_has_id req.id ≡ true)
        × (is_dispatched_method (trim_space req.method) ≡ true)
  unfolding handle_request
  unserved_message req r s changed = elim (Bool-cases (str_eq req.jsonrpc (codes "2.0"))) [
    | inr e ↦ absurd (changed (rw (handle_request, e) refl))
    | inl e ↦ elim (Bool-cases (request_has_id req.id)) [
      | inr d ↦ absurd (changed (rw (handle_request, e, d) refl))
      | inl d ↦ elim (Bool-cases (is_dispatched_method (trim_space req.method))) [
        | inr c ↦ absurd (changed (rw (handle_request, e, d, c) refl))
        | inl c ↦ (e, d, c)
      ]
    ]
  ]

  -- A request that changes anything in the daemon or in the browser was a POST that is authorized,
  -- and its body a JSON-RPC 2.0 message with an id and a method that is dispatched.
  pub handle_v1-IsServed :
      (r : HttpRequest) (s : Server W) → (handle_v1 env authorized r s).1 ≢ s → IsServed r
  unfolding handle_v1
  handle_v1-IsServed r s changed = elim (Bool-cases (str_eq r.http_method (codes "POST"))) [
    | inr e ↦ absurd (changed (rw (handle_v1, e) refl))
    | inl e ↦ elim (Bool-cases (authorized r.request)) [
      | inr d ↦ absurd (changed (rw (handle_v1, e, d) refl))
      | inl d ↦ elim (Option-cases (decode_request r.body)) [
        | inl c ↦ absurd (changed (rw (handle_v1, e, d, c) refl))
        | inr (req, c) ↦
            let valid = unserved_message req r s (rw (handle_v1, e, d, c) at changed) in
            record {
              posted = e;
              allowed = d;
              message = req;
              decoded = c;
              version = valid.0;
              with_id = valid.1;
              known = valid.2;
            }
      ]
    ]
  ]

  abbrev outcome_of : HttpReply → Outcome RpcResult
  outcome_of (rpc id o) = o
  outcome_of method_not_allowed = failed invalid_params
  outcome_of unauthorized = failed invalid_params

  message-id :
      (req : Request) (r : HttpRequest) (s : Server W)
      → (handle_request env req r s).0
        ≡ rpc
            (if request_has_id req.id then req.id else null_id)
            (outcome_of (handle_request env req r s).0)
  unfolding handle_request
  message-id req r s = elim (Bool-cases (str_eq req.jsonrpc (codes "2.0"))) [
    | inr e ↦ rw (handle_request, e) refl
    | inl e ↦ elim (Bool-cases (request_has_id req.id)) [
      | inr d ↦ rw (handle_request, e, d) refl
      | inl d ↦ elim (Bool-cases (is_dispatched_method (trim_space req.method))) [
        | inr c ↦ rw (handle_request, e, d, c) refl
        | inl c ↦ rw (handle_request, e, d, c) refl
      ]
    ]
  ]

  -- Every authorized POST whose body is a message is answered under the message's own id, and under
  -- the null id where it has none, whatever becomes of it.
  pub handle_v1-id :
      (r : HttpRequest) (req : Request) (s : Server W)
      → str_eq r.http_method (codes "POST") ≡ true
      → authorized r.request ≡ true
      → decode_request r.body ≡ some req
      → (o : Outcome RpcResult) × ((handle_v1 env authorized r s).0
          ≡ rpc (if request_has_id req.id then req.id else null_id) o)
  unfolding handle_v1
  handle_v1-id r req s a b c =
      (outcome_of (handle_request env req r s).0, rw (handle_v1, a, b, c) (message-id req r s))

module _ {W : Type 0} {A : Type 0} (f : Server W → Result A × Server W) (message : Text)
    (details : Text → ErrData) where
  -- An error of the browser ends the daemon exactly if it is taken for a lost session, unless the
  -- daemon has been ended before.
  pub call-is_fatal :
      (s : Server W) (e : GoError)
      → (f s).0 ≡ err e
      → (call f message details s).1.link.is_fatal
        ≡ ((f s).1.link.is_fatal || is_cdp_session_lost (some e))
  unfolding call cdp_hint fatal_cdp_lost
  call-is_fatal s e h = rw (call, h) (hint-is_fatal e (f s).1)
    where
      hint-is_fatal :
          (g : GoError) (t : Server W)
          → (cdp_hint g t).1.link.is_fatal ≡ (t.link.is_fatal || is_cdp_session_lost (some g))
      hint-is_fatal g t = ground arith
