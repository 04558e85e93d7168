-- ===== src/Connection/Admission.antt =====
-- Who is admitted.
use livekit_hugging_voice.Base.{
  ℕ, ◌≡◌, refl, ◌∙◌, ◌≢◌, ◌⊎◌, inl, inr, get_elem?, take, Bool, true, false, Option, none, some, [],
  ◌∷◌, ◌++◌, arith, length,
}
use livekit_hugging_voice.Text.{Text, text_eq_refl}
use livekit_hugging_voice.Capacity
use livekit_hugging_voice.Capacity.{
  CapacityManager, SessionSlot, idle, claimed, drained_slot, complete_release, refresh_metrics,
}
use livekit_hugging_voice.Capacity.Admission.{
  Claimed, refused_draining, refused_full, claim-Claimed, get_elem?-update_self,
  get_elem?-update_ne,
}
use livekit_hugging_voice.Registry
use livekit_hugging_voice.Registry.{
  SessionRegistry, SessionState, Created, full, vad_failed, created, active, with_slot,
}
use livekit_hugging_voice.Connection.{
  TokenAuthenticator, CloseCode, session_limit_reached, ErrorCode, too_many_sessions, Request,
  ServiceState, ready, Outcome, rejected, failed, admitted, refusal, outcome_of, admit_if, admit,
  authenticate_header, authenticated,
}

-- what the three checks ask
pub record MayEnter (a : Option TokenAuthenticator) (request : Request) (s : ServiceState)
    : Type 0 where
  pub authenticator : TokenAuthenticator
  pub is_set : a ≡ some authenticator
  pub accepts : authenticate_header request.authorization authenticator ≡ true
  pub speaks : request.offers_subprotocol ≡ true
  pub serves : ready s ≡ true

-- admission is closed, or no slot is idle
abbrev pub NoneFree : CapacityManager → Type 0
NoneFree m = (m.service_draining ≡ true) ⊎ (Capacity.count idle m.slots ≡ 0)

-- The first idle slot is changed as `f` says, and no other.
pub record TookSlot (m : CapacityManager) (i : ℕ) (f : SessionSlot → SessionSlot)
    (m' : CapacityManager) : Type 0 where
  pub is_open : m.service_draining ≡ false
  pub slot : SessionSlot
  pub at : get_elem? m.slots i ≡ some slot
  pub was_idle : slot.state ≡ idle
  pub is_first : Capacity.count idle (take i m.slots) ≡ 0
  pub now_is : get_elem? m'.slots i ≡ some (f slot)
  pub others_kept : (j : ℕ) → i ≢ j → get_elem? m'.slots j ≡ get_elem? m.slots j

-- The registry after a connection was admitted or not.
pub data Decided (a : Option TokenAuthenticator) (request : Request) (s : ServiceState) (k : Text)
    (now : ℕ) (vad_ok : Bool) (r : SessionRegistry) : SessionRegistry × Outcome → Type 0 where
  -- A check failed: nothing has changed.
  refused :
      (code : ErrorCode) (close_code : CloseCode)
      → refusal a request s ≡ some (code, close_code)
      → Decided a request s k now vad_ok r (r, rejected code close_code)
  -- No slot was free: no session was made, and no slot has changed.
  no_slot :
      {r' : SessionRegistry}
      → MayEnter a request s
      → NoneFree r.capacity
      → r'.capacity.slots ≡ r.capacity.slots
      → r'.states ≡ r.states
      → r'.sessions ≡ r.sessions
      → Decided a request s k now vad_ok r (r', rejected too_many_sessions session_limit_reached)
  -- The detection failed to load: no session was made, and the slot is idle again.
  no_vad :
      {r' : SessionRegistry} (i : ℕ)
      → MayEnter a request s
      → vad_ok ≡ false
      → TookSlot r.capacity i drained_slot r'.capacity
      → r'.states ≡ r.states
      → r'.sessions ≡ r.sessions
      → Decided a request s k now vad_ok r (r', failed)
  -- A new session is active under the id, and has the first idle slot.
  entered :
      {r' : SessionRegistry} (i : ℕ)
      → MayEnter a request s
      → vad_ok ≡ true
      → TookSlot r.capacity i (claimed k now) r'.capacity
      → r'.states ≡ r.states ++ record { session_id = k; slot = i; lifecycle = active } ∷ []
      → Registry.get k r' ≡ some (length r.states)
      → Decided a request s k now vad_ok r (r', admitted (length r.states))

no_refusal-MayEnter :
    (a : Option TokenAuthenticator) (request : Request) (s : ServiceState)
    → refusal a request s ≡ none
    → MayEnter a request s
unfolding refusal authenticated
no_refusal-MayEnter none request s e = absurd (ground (arith, e))
no_refusal-MayEnter (some a) request s e = record {
  authenticator = a;
  is_set = refl;
  accepts = ground (arith, e);
  speaks = ground (arith, e);
  serves = ground (arith, e);
}

with_slot-Decided :
    (a : Option TokenAuthenticator) (request : Request) (s : ServiceState) (k : Text) (now : ℕ)
    (vad_ok : Bool) (r : SessionRegistry) {c : CapacityManager × Option ℕ}
    → MayEnter a request s
    → Claimed k now r.capacity c
    → Decided a request s k now vad_ok r
        ((with_slot k now vad_ok c r).0, outcome_of (with_slot k now vad_ok c r).1)
unfolding with_slot Registry.get Registry.insert Registry.lookup complete_release refresh_metrics
with_slot-Decided a request s k now vad_ok r v (refused_draining e) =
    no_slot v (inl e) refl refl refl
with_slot-Decided a request s k now vad_ok r v (refused_full e z same d n) =
    no_slot v (inr z) same refl refl
with_slot-Decided a request s k now false r v
      (livekit_hugging_voice.Capacity.Admission.admitted {m' = m} {i = i} slot e at was_idle first
        now_is others n) =
    no_vad i v refl
      (record {
        is_open = e;
        slot = slot;
        at = at;
        was_idle = was_idle;
        is_first = first;
        now_is = get_elem?-update_self i drained_slot m.slots now_is;
        others_kept = λ j ne. get_elem?-update_ne i j drained_slot m.slots ne ∙ others j ne;
      })
      refl refl
with_slot-Decided a request s k now true r v
      (livekit_hugging_voice.Capacity.Admission.admitted {i = i} slot e at was_idle first now_is
        others n) =
    entered i v refl
      (record {
        is_open = e;
        slot = slot;
        at = at;
        was_idle = was_idle;
        is_first = first;
        now_is = now_is;
        others_kept = others;
      })
      refl (rw (text_eq_refl k) refl)

admit_if-Decided :
    (a : Option TokenAuthenticator) (request : Request) (s : ServiceState) (k : Text) (now : ℕ)
    (vad_ok : Bool) (o : Option (ErrorCode × CloseCode)) (r : SessionRegistry)
    → refusal a request s ≡ o
    → Decided a request s k now vad_ok r (admit_if o k now vad_ok r)
unfolding admit_if Registry.create
admit_if-Decided a request s k now vad_ok (some (code, close_code)) r e = refused code close_code e
admit_if-Decided a request s k now vad_ok none r e =
    with_slot-Decided a request s k now vad_ok r (no_refusal-MayEnter a request s e)
      (claim-Claimed k now r.capacity)

-- A connection whose token, subprotocol or service state is refused changes nothing, not even a slot. Any
-- other finds admission closed or no idle slot, and changes no slot; or its voice activity detection fails
-- to load, and the first idle slot is idle again; or it makes one session, which is active, found under its
-- id and has the first idle slot. No other slot changes.
pub admit-Decided :
    (a : Option TokenAuthenticator) (request : Request) (s : ServiceState) (k : Text) (now : ℕ)
    (vad_ok : Bool) (r : SessionRegistry)
    → Decided a request s k now vad_ok r (admit a request s k now vad_ok r)
unfolding admit
admit-Decided a request s k now vad_ok r =
    admit_if-Decided a request s k now vad_ok (refusal a request s) r refl
