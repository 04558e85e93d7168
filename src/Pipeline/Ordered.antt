-- ===== src/Pipeline/Ordered.antt =====
-- services/gpu-service/src/hugging_voice_service/pipeline.py: whatever happens to a session, the events of
-- its responses come in order.
use livekit_hugging_voice.Base.{
  ℕ, ◌+◌, ◌-◌, max, refl, Bool, true, false, not, ◌&&◌, ◌||◌, Option, none, some, List, [], ◌∷◌,
  ltb, ◌==◌, if◌then◌else◌, Result, ok, err,
}
use livekit_hugging_voice.Base.Int.{int_eq}
use livekit_hugging_voice.Text.{Text, strip}
use livekit_hugging_voice.AudioBuffer.{
  BufferFault, append, slice_samples, discard_before, size_bytes,
}
use livekit_hugging_voice.Vad.{VadSignal, SignalKind}
use livekit_hugging_voice.Vad
use livekit_hugging_voice.Protocol.Audio.{
  AudioValidationError, max_audio_bytes, decode_pcm16_base64,
}
use livekit_hugging_voice.Conversation.{
  Conversation, ConversationFault, user, is_empty, has_call, commit_tool_exchange,
}
use livekit_hugging_voice.Conversation
use livekit_hugging_voice.Pipeline.{
  CompletedTurn, Partial, Event, transcription_delta, transcription_completed, value_error,
  VoicePipeline, continue, ◌>>◌, done, modify, send,
}
use livekit_hugging_voice.Pipeline.Responses.{is_some, remember, start_response}
use livekit_hugging_voice.Pipeline.Speech.{
  cancel_turn_detection, announce_start, speech_starts, speech_resumes, speech_stops,
  detection_failed, open_partial, partial_of, schedule_partial, user_item_id, transcribed_of,
  partial_transcribed, append_payload, receive_audio, hear, hear_all, trim_silence, hear_audio,
  clear_buffer, open_manual, manual_turn, commit_open, commit_audio, no_request, answer_turn,
  process_completed_turn, worked_of, turn_transcribed, names_turn,
}
use livekit_hugging_voice.Pipeline.Follows.{follow}
use livekit_hugging_voice.Pipeline.Orderly.{IsSound}
use livekit_hugging_voice.Pipeline.Tasks.{if-IsSound}
use livekit_hugging_voice.Pipeline.Starts.{
  start_response-IsSound, neutral-IsSound, caught-IsSound, continue-IsSound,
}
use livekit_hugging_voice.Pipeline.Histories.{
  announce-IsSound, speech_starts-IsSound, with_buffer-IsSound, speech_stops-IsSound,
  speech_stop_candidate-IsSound, detection_failed-IsSound,
}

open_partial-IsSound :
    (t : Text) (s : VoicePipeline) (r : Result BufferFault (List ℕ))
    → IsSound s
    → IsSound (open_partial t s r).0
open_partial-IsSound t s (ok audio) h = h
open_partial-IsSound t s (err e) h = h

partial_of-IsSound :
    (ot : Option Text) (os : Option ℕ) (s : VoicePipeline)
    → IsSound s
    → IsSound (partial_of ot os s).0
partial_of-IsSound none os s h = h
partial_of-IsSound (some t) none s h = h
partial_of-IsSound (some t) (some m) s h =
    open_partial-IsSound t s
      (slice_samples (max m (s.input_audio_buffer.end_sample - s.max_partial_samples))
        s.input_audio_buffer.end_sample s.input_audio_buffer)
      h

trim_silence-IsSound : (due : Bool) (s : VoicePipeline) → IsSound s → IsSound (trim_silence due s).0
unfolding trim_silence schedule_partial
trim_silence-IsSound due s h =
    if-IsSound (is_some s.speech_start_sample) (schedule_partial due s) _
      (λ e.
        if-IsSound (not s.partial_enabled || not due || is_some s.partial_task) (s, none)
          (partial_of s.current_turn_id s.speech_start_sample s) (λ e. h)
          (λ e. partial_of-IsSound s.current_turn_id s.speech_start_sample s h))
      (λ e.
        if-IsSound (ltb 64000 (size_bytes s.input_audio_buffer)) _ (s, none)
          (λ e.
            with_buffer-IsSound s
              (discard_before
                (max s.input_audio_buffer.first_sample (s.input_audio_buffer.end_sample - 32000))
                s.input_audio_buffer)
              h)
          (λ e. h))

hear-IsSound : (signal : VadSignal) (s : VoicePipeline) → IsSound s → IsSound (hear signal s).0
unfolding hear speech_resumes
hear-IsSound signal s h = by_kind signal.kind
  where
    by_kind :
        (k : SignalKind)
        → IsSound (hear (record { kind = k; sample_index = signal.sample_index }) s).0
    by_kind Vad.speech_started =
        if-IsSound (is_some s.speech_start_sample) (speech_resumes s, none)
          (speech_starts signal.sample_index s) (λ e. h)
          (λ e. speech_starts-IsSound signal.sample_index s h)
    by_kind Vad.speech_stopped = speech_stop_candidate-IsSound signal.sample_index s h

hear_all-IsSound :
    (signals : List VadSignal) (s : VoicePipeline) → IsSound s → IsSound (hear_all signals s).0
unfolding hear_all
hear_all-IsSound [] s h = h
hear_all-IsSound (signal ∷ signals) s h =
    continue-IsSound (hear signal s) (hear_all signals) (hear-IsSound signal s h)
      (hear_all-IsSound signals)

pub hear_audio-IsSound :
    (signals : List VadSignal) (due : Bool) (s : VoicePipeline)
    → IsSound s
    → IsSound (hear_audio signals due s).0
unfolding hear_audio
hear_audio-IsSound signals due s h =
    if-IsSound s.vad_enabled ((hear_all signals >> trim_silence due) s) (s, none)
      (λ e.
        continue-IsSound (hear_all signals s) (trim_silence due) (hear_all-IsSound signals s h)
          (trim_silence-IsSound due))
      (λ e. h)

pub partial-IsSound :
    (transcript : Option Text) (s : VoicePipeline)
    → IsSound s
    → IsSound (partial_transcribed transcript s)
unfolding partial_transcribed follow
partial-IsSound transcript s h = of_partial s.partial_task transcript
  where
    of_partial : (op : Option Partial) (ot : Option Text) → IsSound (transcribed_of op ot s).0
    of_partial none ot = h
    of_partial (some p) none = h
    of_partial (some p) (some t) =
        let s' = record s { partial_task = none } in
        if-IsSound
          (not (is_empty t)
            && not s.draining
            && names_turn p.turn_id p.revision s'
            && s.partial_epoch == p.epoch
            && s.transcription_enabled)
          (send (transcription_delta p.turn_id p.revision (user_item_id p.turn_id) t) s') (s', none)
          (λ e.
            neutral-IsSound (transcription_delta p.turn_id p.revision (user_item_id p.turn_id) t) s'
              (λ q. refl) h)
          (λ e. h)

pub receive_audio-IsSound :
    (n : ℕ) (audio : Text) (s : VoicePipeline) → IsSound s → IsSound (receive_audio n audio s).0
unfolding receive_audio
receive_audio-IsSound n audio s h =
    let s' = record s { next_audio_sequence = s.next_audio_sequence + 1 } in
    if-IsSound (n == s.next_audio_sequence)
      (append_payload s' (decode_pcm16_base64 max_audio_bytes audio)) (s, some value_error)
      (λ e. payload s' (decode_pcm16_base64 max_audio_bytes audio) h) (λ e. h)
  where
    payload :
        (u : VoicePipeline) (r : Result AudioValidationError (List ℕ))
        → IsSound u
        → IsSound (append_payload u r).0
    payload u (ok pcm16) k = with_buffer-IsSound u (append pcm16 u.input_audio_buffer) k
    payload u (err e) k = k

manual-IsSound : (s : VoicePipeline) → IsSound s → IsSound (manual_turn s).0
unfolding manual_turn
manual-IsSound s h =
    let n = s.input_audio_buffer.first_sample in
    let m = s.input_audio_buffer.end_sample in
    continue-IsSound ((modify open_manual >> announce_start n >> speech_stops m) s)
      (modify clear_buffer)
      (continue-IsSound ((modify open_manual >> announce_start n) s) (speech_stops m)
        (announce-IsSound n (open_manual s) h) (speech_stops-IsSound m))
      (λ u k. k)

pub commit_audio-IsSound : (s : VoicePipeline) → IsSound s → IsSound (commit_audio s).0
unfolding commit_audio commit_open
commit_audio-IsSound s h =
    let s' = record (cancel_turn_detection s) { turn_candidate_id = s.turn_candidate_id + 1 } in
    let m = s.input_audio_buffer.end_sample in
    if-IsSound (is_some s.speech_start_sample) ((speech_stops m >> modify clear_buffer) s') _
      (λ e.
        continue-IsSound (speech_stops m s') (modify clear_buffer) (speech_stops-IsSound m s' h)
          (λ u k. k))
      (λ e.
        if-IsSound (size_bytes s.input_audio_buffer == 0) (s', none) (manual_turn s') (λ e. h)
          (λ e. manual-IsSound s' h))

pub remember-IsSound :
    (s : VoicePipeline) (r : Result ConversationFault Conversation)
    → IsSound s
    → IsSound (remember s r).0
remember-IsSound s (ok c) h = h
remember-IsSound s (err e) h = h

answer_turn-IsSound :
    (turn : CompletedTurn) (t : Text) (s : VoicePipeline)
    → IsSound s
    → IsSound (answer_turn turn t s).0
unfolding answer_turn
answer_turn-IsSound turn t s h =
    let r = Conversation.append (user_item_id turn.turn_id) user t s.conversation in
    if-IsSound
      (is_empty (strip t) || s.draining || not (int_eq s.current_turn_revision turn.revision))
      (s, none) (continue (remember s r) (start_response no_request)) (λ e. h)
      (λ e.
        continue-IsSound (remember s r) (start_response no_request) (remember-IsSound s r h)
          (start_response-IsSound no_request))

process-IsSound :
    (turn : CompletedTurn) (t : Text) (s : VoicePipeline)
    → IsSound s
    → IsSound (process_completed_turn turn t s).0
unfolding process_completed_turn follow
process-IsSound turn t s h = by_flag turn.transcription_enabled
  where
    event : Event
    event = transcription_completed turn.turn_id turn.revision (user_item_id turn.turn_id) t

    by_flag :
        (b : Bool) → IsSound (continue ((if b then send event else done) s) (answer_turn turn t)).0
    by_flag true =
        continue-IsSound (send event s) (answer_turn turn t) (neutral-IsSound event s (λ p. refl) h)
          (answer_turn-IsSound turn t)
    by_flag false = answer_turn-IsSound turn t s h

pub turn_transcribed-IsSound :
    (transcript : Option Text) (s : VoicePipeline)
    → IsSound s
    → IsSound (turn_transcribed transcript s).0
unfolding turn_transcribed
turn_transcribed-IsSound transcript s h = of_turns s.completed_turns transcript
  where
    of_turns : (turns : List CompletedTurn) (ot : Option Text) → IsSound (worked_of turns ot s).0
    of_turns [] ot = h
    of_turns (turn ∷ turns) none = detection_failed-IsSound (record s { completed_turns = turns }) h
    of_turns (turn ∷ turns) (some t) =
        caught-IsSound (process_completed_turn turn t (record s { completed_turns = turns }))
          detection_failed (process-IsSound turn t (record s { completed_turns = turns }) h)
          detection_failed-IsSound
