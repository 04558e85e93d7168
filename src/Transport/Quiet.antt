-- ===== src/Transport/Quiet.antt =====
-- What a call leaves of a generation that is cancelled.
use livekit_hugging_voice.Base.{
  ℕ, ◌+◌, ◌≤◌, ◌≡◌, refl, Bool, true, false, Option, none, some, List, [], ◌∷◌, ◌++◌, arith,
  if◌then◌else◌,
}
use livekit_hugging_voice.Text.{Text, text_eq, text_eq_iff}
use livekit_hugging_voice.Transport.{
  ServerEvent, audio_delta, response_done, other, WebSocketTransport, is_member, without, start,
  is_stale, send, is_audio_of, retained, dropped, cancel_generation, close, put_none, abort,
  take_entry, pick, after_sent, deliver_event, after,
}

-- another generation leaves the set
is_member-without :
    (g h : Text) (gs : List Text)
    → text_eq h g ≡ false
    → is_member g gs ≡ true
    → is_member g (without h gs) ≡ true
unfolding is_member without
is_member-without g h [] ne m = m
is_member-without g h (x ∷ gs) ne m =
    ground (arith, is_member-without g h gs, text_eq_iff x h, text_eq_iff x g, text_eq_iff h g)

module _ {E : Type 0} where
  -- whether the sender holds audio of the generation
  abbrev pub in_flight_audio : Text → WebSocketTransport E → ℕ
  in_flight_audio g t = if is_audio_of g t.in_flight then 1 else 0

  -- The generation is in the set, and none of its audio is in the queue.
  pub record IsSilenced (g : Text) (t : WebSocketTransport E) : Type 0 where
    pub listed : is_member g t.cancelled_generations ≡ true
    pub none_queued : dropped g t.queue ≡ 0

  dropped-retained :
      (g h : Text) (xs : List (Option (ServerEvent E)))
      → dropped g xs ≡ 0
      → dropped g (retained h xs) ≡ 0
  unfolding dropped retained
  dropped-retained g h [] e = refl
  dropped-retained g h (x ∷ xs) e = ground (arith, dropped-retained g h xs)

  pub dropped-retained_same :
      (g : Text) (xs : List (Option (ServerEvent E))) → dropped g (retained g xs) ≡ 0
  unfolding dropped retained
  dropped-retained_same g [] = refl
  dropped-retained_same g (x ∷ xs) = ground (arith, dropped-retained_same g xs)

  dropped-append :
      (g : Text) (xs ys : List (Option (ServerEvent E)))
      → dropped g (xs ++ ys) ≡ dropped g xs + dropped g ys
  unfolding dropped
  dropped-append g [] ys = omega arith
  dropped-append g (x ∷ xs) ys = omega (arith, dropped-append g xs ys)

  is_stale-fresh :
      (g : Text) (gs : List Text) (event : ServerEvent E)
      → is_member g gs ≡ true
      → is_stale gs event ≡ false
      → is_audio_of g (some event) ≡ false
  unfolding is_stale is_audio_of
  is_stale-fresh g gs (audio_delta h e) m f = ground (arith, text_eq_iff h g)
  is_stale-fresh g gs (response_done h e) m f = refl
  is_stale-fresh g gs (other e) m f = refl

  -- what a call other than a delivery does to a generation that is silenced
  pub record Quiet (g : Text) (t t' : WebSocketTransport E) : Type 0 where
    pub silenced : IsSilenced g t'
    pub same_sent : t'.sent ≡ t.sent
    pub no_more : in_flight_audio g t' ≤ in_flight_audio g t

  pub start-Quiet :
      (g : Text) (t : WebSocketTransport E) → IsSilenced g t → Quiet g t (after t (start t))
  unfolding start
  start-Quiet g t q = ground arith

  pub send-Quiet :
      (g : Text) (event : ServerEvent E) (t : WebSocketTransport E)
      → IsSilenced g t
      → Quiet g t (after t (send event t))
  unfolding send dropped
  send-Quiet g event t q = ground (
    arith,
    dropped-append g t.queue (some event ∷ []),
    is_stale-fresh g t.cancelled_generations event q.listed,
  )

  pub cancel-Quiet :
      (g h : Text) (t : WebSocketTransport E) → IsSilenced g t → Quiet g t (cancel_generation h t).0
  unfolding cancel_generation is_member
  cancel-Quiet g h t q = ground (arith, dropped-retained g h t.queue)

  pub put_none-Quiet :
      (g : Text) (t : WebSocketTransport E) → IsSilenced g t → Quiet g t (put_none t)
  unfolding put_none dropped is_audio_of
  put_none-Quiet g t q = ground (arith, dropped-append g t.queue (none ∷ []))

  pub close-Quiet : (g : Text) (t : WebSocketTransport E) → IsSilenced g t → Quiet g t (close t)
  unfolding close
  close-Quiet g t q = ground arith

  pub abort-Quiet : (g : Text) (t : WebSocketTransport E) → IsSilenced g t → Quiet g t (abort t)
  unfolding abort is_audio_of
  abort-Quiet g t q = ground arith

  take_entry-Quiet :
      (g : Text) (xs : List (Option (ServerEvent E))) (t : WebSocketTransport E)
      → dropped g xs ≡ 0
      → t.queue ≡ xs
      → IsSilenced g t
      → Quiet g t (take_entry xs t)
  unfolding take_entry dropped
  take_entry-Quiet g [] t d e q = ground arith
  take_entry-Quiet g (none ∷ xs) t d e q = ground arith
  take_entry-Quiet g (some event ∷ xs) t d e q =
      ground (arith, is_stale-fresh g t.cancelled_generations event q.listed)

  pub pick-Quiet : (g : Text) (t : WebSocketTransport E) → IsSilenced g t → Quiet g t (pick t)
  unfolding pick
  pick-Quiet g t q = ground (arith, take_entry-Quiet g t.queue t q.none_queued refl q)

  abbrev pub ends : Text → ServerEvent E → Bool
  ends g (response_done h e) = text_eq h g
  ends g (audio_delta h e) = false
  ends g (other e) = false

  after_sent-listed :
      (g : Text) (event : ServerEvent E) (gs : List Text)
      → ends g event ≡ false
      → is_member g gs ≡ true
      → is_member g (after_sent event gs) ≡ true
  unfolding after_sent
  after_sent-listed g (audio_delta h e) gs n m = m
  after_sent-listed g (response_done h e) gs n m = is_member-without g h gs n m
  after_sent-listed g (other e) gs n m = m

  pub deliver_event-IsSilenced :
      (g : Text) (event : ServerEvent E) (t : WebSocketTransport E)
      → ends g event ≡ false
      → IsSilenced g t
      → IsSilenced g (deliver_event (some event) t)
  unfolding deliver_event
  deliver_event-IsSilenced g event t n q = record {
    listed = after_sent-listed g event t.cancelled_generations n q.listed;
    none_queued = q.none_queued;
  }
