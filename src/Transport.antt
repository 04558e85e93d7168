-- ===== src/Transport.antt =====
-- services/gpu-service/src/hugging_voice_service/realtime.py: WebSocketTransport, the bounded queue of one
-- connection and its sender. `E` is the rest of an event. The sender awaits the socket between the two
-- halves of its round, so the event that it holds then is part of the state.
-- The socket takes each event; its exceptions, which end the sender, are left out.
mod Growth
mod Quiet
mod Silenced
mod Order
mod Examples
use livekit_hugging_voice.Base.{
  ℕ, zero, suc, ◌+◌, ◌-◌, ◌*◌, ◌/◌, ◌%◌, ◌≤◌, ◌<◌, min, max, ◌≡◌, refl, sym, ap, subst, ◌∙◌, ◌≢◌,
  ◌↔◌, ◌⊎◌, inl, inr, Bool, true, false, not, ◌&&◌, ◌||◌, Option, none, some, List, [], ◌∷◌, ◌++◌,
  map, append-nil, append_assoc, arith, ltb, leb, ◌==◌, if◌then◌else◌, Bool-cases, Option-cases,
  ==_iff, eq_refl, length, get_elem?, take, drop, length-append, length-drop, length-take,
  drop-append, take-append, drop-drop, Result, ok, err, ◌>>=◌, Result-cases,
}
use livekit_hugging_voice.Text.{Text, text_eq}

-- The two classes of events that the transport tells apart, and the others.
pub data ServerEvent (E : Type 0) : Type 0 where
  audio_delta : Text → E → ServerEvent E
  response_done : Text → E → ServerEvent E
  other : E → ServerEvent E

pub data Fault : Type 0 where
  already_started transport_closed sender_unavailable outbound_queue_full : Fault

-- `sender`: the task is there; `sending`: it has not ended. `sent` is what the socket was given.
pub record WebSocketTransport (E : Type 0) : Type 0 where
  pub max_messages : ℕ
  pub queue : List (Option (ServerEvent E))
  pub sender : Bool
  pub sending : Bool
  pub in_flight : Option (ServerEvent E)
  pub closed : Bool
  pub cancelled_generations : List Text
  pub sent : List (ServerEvent E)

unfoldable pub is_member : Text → List Text → Bool
is_member g [] = false
is_member g (h ∷ hs) = text_eq h g || is_member g hs

-- `set.discard`
unfoldable pub without : Text → List Text → List Text
without g [] = []
without g (h ∷ hs) = let rest = without g hs in if text_eq h g then rest else h ∷ rest

module _ {E : Type 0} where
  unfoldable pub init : ℕ → WebSocketTransport E
  init max_messages = record {
    max_messages = max_messages;
    queue = [];
    sender = false;
    sending = false;
    in_flight = none;
    closed = false;
    cancelled_generations = [];
    sent = [];
  }

  unfoldable pub start : WebSocketTransport E → Result Fault (WebSocketTransport E)
  start t =
      if t.sender then err already_started else ok (record t { sender = true; sending = true })

  -- audio of a generation in the set
  unfoldable pub is_stale : List Text → ServerEvent E → Bool
  unfolding is_member
  is_stale gs (audio_delta g e) = is_member g gs
  is_stale gs (response_done g e) = false
  is_stale gs (other e) = false

  -- `asyncio.Queue.full`: a size of 0 is no limit
  abbrev pub is_full : WebSocketTransport E → Bool
  is_full t = ltb 0 t.max_messages && leb t.max_messages (length t.queue)

  unfoldable pub send : ServerEvent E → WebSocketTransport E → Result Fault (WebSocketTransport E)
  unfolding is_stale
  send event t =
      if t.closed
      then err transport_closed
      else if not t.sending
      then err sender_unavailable
      else if is_stale t.cancelled_generations event
      then ok t
      else if is_full t
      then err outbound_queue_full
      else ok (record t { queue = t.queue ++ some event ∷ [] })

  unfoldable pub is_audio_of : Text → Option (ServerEvent E) → Bool
  is_audio_of g (some (audio_delta h e)) = text_eq h g
  is_audio_of g _ = false

  unfoldable pub retained : Text → List (Option (ServerEvent E)) → List (Option (ServerEvent E))
  unfolding is_audio_of
  retained g [] = []
  retained g (x ∷ xs) = let rest = retained g xs in if is_audio_of g x then rest else x ∷ rest

  unfoldable pub dropped : Text → List (Option (ServerEvent E)) → ℕ
  unfolding is_audio_of
  dropped g [] = 0
  dropped g (x ∷ xs) = (if is_audio_of g x then 1 else 0) + dropped g xs

  unfoldable pub cancel_generation : Text → WebSocketTransport E → WebSocketTransport E × ℕ
  unfolding retained dropped
  cancel_generation g t = (
    record t { cancelled_generations = g ∷ t.cancelled_generations; queue = retained g t.queue },
    dropped g t.queue,
  )

  -- `close`, up to its first await
  unfoldable pub close : WebSocketTransport E → WebSocketTransport E
  close t = record t { closed = true }

  -- `self._queue.put(None)` of `close`, once there is room
  unfoldable pub put_none : WebSocketTransport E → WebSocketTransport E
  put_none t =
      if t.closed && t.sender && not (is_full t)
      then record t { queue = t.queue ++ none ∷ [] }
      else t

  -- The end of `close`: the sender has ended, or is cancelled because the wait was too long.
  unfoldable pub abort : WebSocketTransport E → WebSocketTransport E
  abort t = if t.closed then record t { sender = false; sending = false; in_flight = none } else t

  -- The first half of the sender's round, with the entry that it got.
  unfoldable pub take_entry :
      List (Option (ServerEvent E)) → WebSocketTransport E → WebSocketTransport E
  unfolding is_stale
  take_entry [] t = t
  take_entry (none ∷ entries) t = record t { queue = entries; sending = false }
  take_entry (some event ∷ entries) t =
      if is_stale t.cancelled_generations event
      then record t { queue = entries }
      else record t { queue = entries; in_flight = some event }

  abbrev pub is_free : WebSocketTransport E → Bool
  is_free t = t.sending && elim t.in_flight [ none ↦ true | some event ↦ false ]

  unfoldable pub pick : WebSocketTransport E → WebSocketTransport E
  unfolding take_entry
  pick t = if is_free t then take_entry t.queue t else t

  -- the generations that stay cancelled once an event was sent
  unfoldable pub after_sent : ServerEvent E → List Text → List Text
  unfolding without
  after_sent (response_done g e) gs = without g gs
  after_sent (audio_delta g e) gs = gs
  after_sent (other e) gs = gs

  unfoldable pub deliver_event :
      Option (ServerEvent E) → WebSocketTransport E → WebSocketTransport E
  unfolding after_sent
  deliver_event none t = t
  deliver_event (some event) t = record t {
    in_flight = none;
    sent = t.sent ++ event ∷ [];
    cancelled_generations = after_sent event t.cancelled_generations;
  }

  -- The second half: `send_text` has returned.
  unfoldable pub deliver : WebSocketTransport E → WebSocketTransport E
  unfolding deliver_event
  deliver t = deliver_event t.in_flight t

pub data Call (E : Type 0) : Type 0 where
  starts : Call E
  sends : ServerEvent E → Call E
  cancels : Text → Call E
  closes : Call E
  puts_none : Call E
  aborts : Call E
  picks : Call E
  delivers : Call E

module _ {E : Type 0} where
  abbrev pub after :
      WebSocketTransport E → Result Fault (WebSocketTransport E) → WebSocketTransport E
  after t (ok t') = t'
  after t (err e) = t

  unfoldable pub step : WebSocketTransport E → Call E → WebSocketTransport E
  step t starts = after t (start t)
  step t (sends event) = after t (send event t)
  step t (cancels g) = (cancel_generation g t).0
  step t closes = close t
  step t puts_none = put_none t
  step t aborts = abort t
  step t picks = pick t
  step t delivers = deliver t

  unfoldable pub run : WebSocketTransport E → List (Call E) → WebSocketTransport E
  run t [] = t
  run t (call ∷ calls) = run (step t call) calls
