-- ===== src/Pipeline/Orderly.antt =====
-- services/gpu-service/src/hugging_voice_service/pipeline.py: between two awaits the flags of the active
-- response agree with what the client was told, as far as its task has come; each stretch of a
-- response's task keeps this.
use livekit_hugging_voice.Base.{
  ℕ, ◌≡◌, refl, ap, ◌⊎◌, inl, inr, Bool, true, false, ◌||◌, Option, none, some, List, arith,
}
use livekit_hugging_voice.Cancellation.{GenerationToken}
use livekit_hugging_voice.Pipeline.{
  ErrorCode, model_failure, ResponseStatus, cancelled, failed, ResponseReason, by_model_error,
  ResponseContext, ResponseTask, Phase, unstarted, streaming, speaking, Event, Fault, VoicePipeline,
  ◌>>◌, send_error,
}
use livekit_hugging_voice.Pipeline.Responses.{
  send_text_done, send_audio_done, finalize_response, clear_response, both_done, owes_speech,
  reason_of, cancelled_handler, failed_handler, fail_response, end_cancelled, goes_on,
}
use livekit_hugging_voice.Pipeline.Follows.{Progress, is_over, progress}
use livekit_hugging_voice.Pipeline.Stages.{
  Blocks, Flags, Agrees, At, Brings, made, then-Brings, text_done_first, text_done_again,
  audio_done_first, finalize_first, error-Brings,
}

abbrev pub stage : Phase → Flags
stage unstarted = made false false false
stage streaming = made false false false
stage speaking = made true false false

-- a task that waits for the synthesis has started it
abbrev pub HasSpeech : ResponseTask → Type 0
HasSpeech t = t.phase ≡ speaking → t.tts_started ≡ true

abbrev pub Fits :
    Option Progress → Option ResponseTask → Option ResponseContext → Option GenerationToken → Type 0
Fits p none none current = is_over p ≡ true
Fits p (some t) none current = ⊥
Fits p none (some c) current = (c.finalized ≡ true) × (current ≡ none)
Fits p (some t) (some c) current = Agrees (stage t.phase) p (some c) × HasSpeech t

-- The events are in order; and the transport has refused an event and takes none now, or the flags fit the task.
pub record Sound (sent : List Event) (closed : Bool) (room : Bool × ℕ) (task : Option ResponseTask)
    (response : Option ResponseContext) (current : Option GenerationToken) : Type 0 where
  pub last : Option Progress
  pub reached : progress sent ≡ some last
  pub fits : Blocks closed room ⊎ Fits last task response current

abbrev pub IsSound : VoicePipeline → Type 0
IsSound s =
    Sound s.sent s.transport_closed (s.refused, s.room) s.response_task s.response
      s.cancellation.current

-- The last response is done.
pub record Final (sent : List Event) (closed : Bool) (room : Bool × ℕ) : Type 0 where
  pub last : Option Progress
  pub reached : progress sent ≡ some last
  pub over : Blocks closed room ⊎ (is_over last ≡ true)

abbrev pub IsFinal : VoicePipeline → Type 0
IsFinal s = Final s.sent s.transport_closed (s.refused, s.room)

done_is_over :
    (t a : Bool) (p : Option Progress) (o : Option ResponseContext)
    → Agrees (made t a true) p o
    → is_over p ≡ true
done_is_over t a p none h = absurd h
done_is_over t a p (some c) h = ap is_over h.3

pub Brings-IsFinal :
    (t a : Bool) (x : VoicePipeline × Option Fault) → Brings (made t a true) x → IsFinal x.0
Brings-IsFinal t a (s, none) h = record {
  last = h.last;
  reached = h.reached;
  over = elim h.agrees [ inl b ↦ inl b | inr g ↦ inr (done_is_over t a h.last s.response g) ];
}
Brings-IsFinal t a (s, some e) h = record { last = h.0.last; reached = h.0.reached; over = inl h.1 }

pub cleared-IsSound : (s : VoicePipeline) → IsFinal s → IsSound (clear_response s)
cleared-IsSound s h = record { last = h.last; reached = h.reached; fits = h.over }

-- the two endings of a response: with speech from either stage, without from the first
pub spoken-Brings :
    (t : Bool) (s : VoicePipeline)
    → At (made t false false) s
    → Brings (made true true false) ((send_text_done >> send_audio_done) s)
unfolding send_text_done send_audio_done
spoken-Brings t s h =
    then-Brings (made true true false) (send_text_done s) (made true false false) send_audio_done
      (text_done t h) (λ s' h'. audio_done_first s' s'.response refl h')
  where
    text_done :
        (t : Bool) → At (made t false false) s → Brings (made true false false) (send_text_done s)
    text_done false h = text_done_first s s.response refl h
    text_done true h = text_done_again s false false s.response refl h

-- what is still owed decides where the response ends
abbrev owed : Bool → Bool → Flags
owed w t = made (w || t) w false

both_done-Brings :
    (w t : Bool) (s : VoicePipeline) → At (made t false false) s → Brings (owed w t) (both_done w s)
both_done-Brings true t s h = spoken-Brings t s h
both_done-Brings false t s h = h

-- `t ≤ w`: text that is done is owed its audio
finalize_owed :
    (w t : Bool) (status : ResponseStatus) (reason : ResponseReason)
    → (t ≡ true → w ≡ true)
    → (s : VoicePipeline) → At (owed w t) s
    → Brings (made w w true) (finalize_response status reason s)
unfolding finalize_response
finalize_owed true t status reason le s h = finalize_first s true status reason s.response refl h
finalize_owed false false status reason le s h =
    finalize_first s false status reason s.response refl h
finalize_owed false true status reason le s h = ground arith

pub closing-Brings :
    (w t : Bool) (status : ResponseStatus) (reason : ResponseReason) (s : VoicePipeline)
    → (t ≡ true → w ≡ true)
    → At (made t false false) s
    → Brings (made w w true) ((both_done w >> finalize_response status reason) s)
closing-Brings w t status reason s le h =
    then-Brings (made w w true) (both_done w s) (owed w t) (finalize_response status reason)
      (both_done-Brings w t s h) (finalize_owed w t status reason le)

-- the state of a task that is scheduled again: its stage, and what it still owes
abbrev pub IsAt : Bool → VoicePipeline → Type 0
IsAt t s = At (made t false false) s × (t ≡ true → owes_speech s.response_task ≡ true)

pub cancelled-IsFinal : (t : Bool) (s : VoicePipeline) → IsAt t s → IsFinal (cancelled_handler s).0
unfolding cancelled_handler
cancelled-IsFinal t s h =
    let w = owes_speech s.response_task in
    Brings-IsFinal w w (cancelled_handler s)
      (closing-Brings w t cancelled (reason_of s.response) s h.1 h.0)

pub failed-IsFinal :
    (t : Bool) (code : ErrorCode) (s : VoicePipeline) → IsAt t s → IsFinal (failed_handler code s).0
unfolding failed_handler
failed-IsFinal t code s h =
    let w = owes_speech s.response_task in
    Brings-IsFinal w w (failed_handler code s) (
      then-Brings (made w w true) ((send_error code >> both_done w) s) (owed w t)
        (finalize_response failed by_model_error)
        (then-Brings (owed w t) (send_error code s) (made t false false) (both_done w)
          (error-Brings code (made t false false) s h.0) (both_done-Brings w t))
        (finalize_owed w t failed by_model_error h.1))

pub fail-IsSound :
    (t : Bool) (code : ErrorCode) (s : VoicePipeline) → IsAt t s → IsSound (fail_response code s).0
unfolding fail_response
fail-IsSound t code s h = cleared-IsSound (failed_handler code s).0 (failed-IsFinal t code s h)

pub end_cancelled-IsSound : (t : Bool) (s : VoicePipeline) → IsAt t s → IsSound (end_cancelled s).0
unfolding end_cancelled
end_cancelled-IsSound t s h = cleared-IsSound (cancelled_handler s).0 (cancelled-IsFinal t s h)

-- a stretch that goes on, or fails where the transport refuses
pub goes_on-IsSound :
    (t : Bool) (x : VoicePipeline × Option Fault)
    → (x.1 ≡ none → IsSound x.0)
    → ((e : Fault) → x.1 ≡ some e → IsAt t x.0)
    → IsSound (goes_on x).0
goes_on-IsSound t (s, none) h k = h refl
goes_on-IsSound t (s, some e) h k = fail-IsSound t model_failure s (k e refl)
