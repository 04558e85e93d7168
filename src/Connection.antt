-- ===== src/Connection.antt =====
-- G/realtime.py, RealtimeService.handle_websocket with G/auth.py, TokenAuthenticator, and the codes of
-- packages/hugging-voice-protocol/src/hugging_voice_protocol/errors.py that it sends, where G is
-- services/gpu-service/src/hugging_voice_service: who is admitted, and how a connection ends.
mod Token
mod Admission
mod Examples
use livekit_hugging_voice.Base.{
  ℕ, zero, suc, ◌+◌, ◌-◌, ◌*◌, ◌/◌, ◌%◌, ◌≤◌, ◌<◌, min, max, ◌≡◌, refl, sym, ap, subst, ◌∙◌, ◌≢◌,
  ◌↔◌, ◌⊎◌, inl, inr, Bool, true, false, not, ◌&&◌, ◌||◌, Option, none, some, List, [], ◌∷◌, ◌++◌,
  map, append-nil, append_assoc, arith, ltb, leb, ◌==◌, if◌then◌else◌, Bool-cases, Option-cases,
  ==_iff, eq_refl, length, get_elem?, take, drop, length-append, length-drop, length-take,
  drop-append, take-append, drop-drop, Result, ok, err, ◌>>=◌, Result-cases,
}
use livekit_hugging_voice.Text.{Text, codes, text_eq, is_space}
use livekit_hugging_voice.Registry
use livekit_hugging_voice.Registry.{SessionRegistry, Created, full, vad_failed, created}

abbrev pub any_space : Text → Bool
any_space [] = false
any_space (c ∷ cs) = is_space c || any_space cs

abbrev pub is_empty : Text → Bool
is_empty [] = true
is_empty (c ∷ cs) = false

-- The token; UTF-8 is one to one, so the texts are compared.
pub record TokenAuthenticator : Type 0 where
  pub token : Text

-- the constructor; `none` is AuthenticationError
unfoldable pub make_authenticator : Text → Option TokenAuthenticator
make_authenticator token =
    if is_empty token || ltb 4096 (length token) || any_space token
    then none
    else some (record { token = token })

-- `startswith` with `removeprefix`
unfoldable pub strip_prefix : Text → Text → Option Text
strip_prefix [] text = some text
strip_prefix (c ∷ cs) [] = none
strip_prefix (c ∷ cs) (d ∷ ds) = if c == d then strip_prefix cs ds else none

abbrev pub bearer : Text
bearer = codes "Bearer "

abbrev pub is_token : Text → Option Text → Bool
is_token token none = false
is_token token (some candidate) = text_eq candidate token

unfoldable pub authenticate_header : Option Text → TokenAuthenticator → Bool
unfolding strip_prefix
authenticate_header none a = false
authenticate_header (some authorization) a =
    not (ltb 4103 (length authorization)) && is_token a.token (strip_prefix bearer authorization)

pub data CloseCode : Type 0 where
  protocol_error authentication_error session_conflict session_limit_reached service_failure :
      CloseCode
  service_restart session_closed : CloseCode

pub data ErrorCode : Type 0 where
  invalid_event invalid_configuration authentication_failed session_state_conflict : ErrorCode
  too_many_sessions queue_overflow model_failure service_draining : ErrorCode

-- What the handler reads of the connection and of the service.
pub record Request : Type 0 where
  pub authorization : Option Text
  pub offers_subprotocol : Bool

pub record ServiceState : Type 0 where
  pub started : Bool
  pub draining : Bool
  pub lifecycle_ready : Bool
  pub lifecycle_draining : Bool

-- `ready`
unfoldable pub ready : ServiceState → Bool
ready s = s.started && not s.draining && s.lifecycle_ready

pub data Outcome : Type 0 where
  rejected : ErrorCode → CloseCode → Outcome
  failed : Outcome
  admitted : ℕ → Outcome

-- `_authenticated`; the lifecycle has no authenticator before it has read the token
unfoldable pub authenticated : Option Text → Option TokenAuthenticator → Bool
unfolding authenticate_header
authenticated authorization none = false
authenticated authorization (some a) = authenticate_header authorization a

-- the three checks before a slot is claimed
unfoldable pub refusal :
    Option TokenAuthenticator → Request → ServiceState → Option (ErrorCode × CloseCode)
unfolding authenticated ready
refusal a request s =
    if not (authenticated request.authorization a)
    then some (authentication_failed, authentication_error)
    else if not request.offers_subprotocol
    then some (invalid_configuration, protocol_error)
    else if ready s
    then none
    else if s.draining || s.lifecycle_draining
    then some (service_draining, service_restart)
    else some (model_failure, service_failure)

abbrev pub outcome_of : Created → Outcome
outcome_of full = rejected too_many_sessions session_limit_reached
outcome_of vad_failed = failed
outcome_of (created n) = admitted n

-- `handle_websocket`, up to the service of the session
unfoldable pub admit_if :
    Option (ErrorCode × CloseCode) → Text → ℕ → Bool → SessionRegistry → SessionRegistry × Outcome
admit_if (some (code, close_code)) session_id now vad_ok r = (r, rejected code close_code)
admit_if none session_id now vad_ok r =
    let made = Registry.create session_id now vad_ok r in (made.0, outcome_of made.1)

unfoldable pub admit :
    Option TokenAuthenticator
    → Request
    → ServiceState
    → Text
    → ℕ
    → Bool
    → SessionRegistry
    → SessionRegistry × Outcome
unfolding refusal admit_if
admit a request s session_id now vad_ok r = admit_if (refusal a request s) session_id now vad_ok r

-- How the service of a session ended.
pub data Ending : Type 0 where
  finished outbound_full inbound_full value_error disconnected other_error : Ending
  invalid_protocol : ErrorCode → Ending

-- the error that is sent, and the first code that the socket is closed with
unfoldable pub answer_to : Ending → Option ErrorCode × Option CloseCode
answer_to finished = (none, none)
answer_to outbound_full = (none, some session_conflict)
answer_to inbound_full = (some queue_overflow, some session_conflict)
answer_to (invalid_protocol code) = (some code, some protocol_error)
answer_to value_error = (some session_state_conflict, some session_conflict)
answer_to disconnected = (none, none)
answer_to other_error = (some model_failure, some service_failure)

abbrev pub or_closed : Option CloseCode → CloseCode
or_closed none = session_closed
or_closed (some code) = code

-- the rest of the handler: the answer, the release in `finally`, and the close, which only counts once
unfoldable pub end_session :
    Ending → ℕ → SessionRegistry → SessionRegistry × Option ErrorCode × CloseCode
unfolding answer_to
end_session ending n r =
    ((Registry.release n r).0, (answer_to ending).0, or_closed (answer_to ending).1)
