-- ===== src/Browser/Errors.antt =====
-- internal/browser/errors.go, and isCDPSessionLost of internal/daemon/browser_reconnect.go: what kind
-- of failure an error is. An error is its chain of causes, as errors.Is and errors.As see it.
pub mod Wrapping
use go_bb_browser.Prelude.{
  ◌≡◌, refl, ◌≢◌, ◌⊎◌, inl, inr, Bool, true, false, not, ◌&&◌, ◌||◌, Option, none, some, List, [],
  ◌∷◌, ◌++◌, arith, Text, codes, str_eq, contains, to_lower, if◌then◌else◌, any, Bool-cases,
  is_some,
}

pub data ErrorKind : Type 0 where
  request timeout target_gone transport : ErrorKind

-- `plain` is an error of its own with a message, `wrapped` is `fmt.Errorf("…: %w", err)` with the text
-- in front, `cdp` a `*CDPError`: kind, operation, target, cause.
pub data GoError : Type 0 where
  plain : Text → GoError
  deadline_exceeded : GoError
  canceled : GoError
  wrapped : Text → GoError → GoError
  cdp : ErrorKind → Text → Text → GoError → GoError

-- `where` of `(*CDPError).Error`.
unfoldable pub place_of : Text → Text → Text
place_of op target = if str_eq target [] then op else op ++ (codes " target=" ++ target)

unfoldable pub error_text : GoError → Text
unfolding place_of
error_text (plain s) = s
error_text deadline_exceeded = codes "context deadline exceeded"
error_text canceled = codes "context canceled"
error_text (wrapped s e) = s ++ (codes ": " ++ error_text e)
error_text (cdp k op target e) =
    let text = error_text e in
    let place = place_of op target in
    if str_eq place [] then text else place ++ (codes ": " ++ text)

-- `errors.As(err, &typed)`, and then `typed.Kind`.
unfoldable pub typed_kind : GoError → Option ErrorKind
typed_kind (wrapped s e) = typed_kind e
typed_kind (cdp k op target e) = some k
typed_kind _ = none

-- `errors.Is(err, context.DeadlineExceeded)`
unfoldable pub is_deadline : GoError → Bool
is_deadline deadline_exceeded = true
is_deadline (wrapped s e) = is_deadline e
is_deadline (cdp k op target e) = is_deadline e
is_deadline _ = false

-- `errors.Is(err, context.Canceled)`
unfoldable pub is_canceled : GoError → Bool
is_canceled canceled = true
is_canceled (wrapped s e) = is_canceled e
is_canceled (cdp k op target e) = is_canceled e
is_canceled _ = false

abbrev pub gone_words : List Text
gone_words =
    codes "no target"
    ∷ codes "target not found"
    ∷ codes "target closed"
    ∷ codes "page has been closed"
    ∷ codes "no page"
    ∷ codes "no session with given id"
    ∷ codes "no such target"
    ∷ []

abbrev pub transport_words : List Text
transport_words =
    codes "eof"
    ∷ codes "connection refused"
    ∷ codes "connection reset"
    ∷ codes "broken pipe"
    ∷ codes "use of closed network connection"
    ∷ codes "websocket"
    ∷ codes "channel closed"
    ∷ codes "could not dial"
    ∷ []

unfoldable pub mentions : List Text → Text → Bool
mentions words msg = any (λ w. contains msg w) words

-- The classification of a message that is in lower case.
unfoldable pub kind_of_text : Text → ErrorKind
unfolding mentions
kind_of_text msg =
    if mentions gone_words msg
    then target_gone
    else if mentions transport_words msg
    then transport
    else request

unfoldable pub error_kind_of : Option GoError → ErrorKind
unfolding typed_kind is_deadline kind_of_text error_text to_lower
error_kind_of none = request
error_kind_of (some e) = elim (typed_kind e) [
  | some k ↦ k
  | none ↦ if is_deadline e then timeout else kind_of_text (to_lower (error_text e))
]

unfoldable pub wrap_cdp_error : Text → Text → Option GoError → Option GoError
unfolding error_kind_of typed_kind
wrap_cdp_error op target none = none
wrap_cdp_error op target (some e) =
    if is_some (typed_kind e) then some e else some (cdp (error_kind_of (some e)) op target e)

abbrev pub lost_words : List Text
lost_words =
    codes "eof"
    ∷ codes "broken pipe"
    ∷ codes "connection reset"
    ∷ codes "use of closed network connection"
    ∷ codes "websocket"
    ∷ codes "channel closed"
    ∷ codes "could not dial"
    ∷ []

unfoldable pub is_transport : ErrorKind → Bool
is_transport transport = true
is_transport _ = false

unfoldable pub is_cdp_session_lost : Option GoError → Bool
unfolding is_canceled is_deadline error_kind_of is_transport mentions error_text to_lower
is_cdp_session_lost none = false
is_cdp_session_lost (some e) =
    if is_canceled e
    then false
    else if is_deadline e
    then false
    else if is_transport (error_kind_of (some e))
    then true
    else mentions lost_words (to_lower (error_text e))
