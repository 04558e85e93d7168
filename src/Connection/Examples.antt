-- ===== src/Connection/Examples.antt =====
-- The theorems on the handshake at one token and a service with one slot.
use livekit_hugging_voice.Base.{◌≡◌, refl, ◌↔◌, true, false, some, [], ◌∷◌, ◌++◌}
use livekit_hugging_voice.Text.{codes, is_space}
use livekit_hugging_voice.Capacity.{CapacityManager, fresh_slot}
use livekit_hugging_voice.Registry.{init}
use livekit_hugging_voice.Connection.{
  TokenAuthenticator, make_authenticator, authenticate_header, bearer, Request, ServiceState, admit,
}
use livekit_hugging_voice.Connection.Token.{authenticate_header_iff}
use livekit_hugging_voice.Connection.Admission.{Decided, admit-Decided}

abbrev secret : TokenAuthenticator
secret = record { token = codes "s3cret" }

authenticate_header_iff_example :
    (authenticate_header (some (codes "Bearer s3cret")) secret ≡ true)
    ↔ (codes "Bearer s3cret" ≡ bearer ++ codes "s3cret")
unfolding make_authenticator is_space
authenticate_header_iff_example =
    authenticate_header_iff (codes "s3cret") secret (codes "Bearer s3cret") refl

abbrev one_slot : CapacityManager
one_slot = record {
  slots = fresh_slot 0 ∷ [];
  service_draining = false;
  telemetry = record {
    sessions_active = 0;
    sessions_draining = 0;
    sessions_stuck = 0;
    sessions_available = 1;
    sessions_rejected = 0;
  };
}

abbrev with_token : Request
with_token = record { authorization = some (codes "Bearer s3cret"); offers_subprotocol = true }

abbrev serving : ServiceState
serving = record {
  started = true;
  draining = false;
  lifecycle_ready = true;
  lifecycle_draining = false;
}

admit-Decided_example :
    Decided
      (some secret)
      with_token
      serving
      (codes "session_1")
      5
      true
      (init one_slot)
      (admit (some secret) with_token serving (codes "session_1") 5 true (init one_slot))
admit-Decided_example =
    admit-Decided (some secret) with_token serving (codes "session_1") 5 true (init one_slot)
