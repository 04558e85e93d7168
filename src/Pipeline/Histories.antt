-- ===== src/Pipeline/Histories.antt =====
-- services/gpu-service/src/hugging_voice_service/pipeline.py: what the rest of the pipeline does keeps the
-- responses in order, and so does each history of a session.
use livekit_hugging_voice.Base.{
  inr, ℕ, ◌+◌, ◌-◌, max, refl, inl, Bool, not, ◌&&◌, Option, none, some, List, [], leb, ◌==◌,
  Result, ok, err,
}
use livekit_hugging_voice.Base.Int.{ℤ}
use livekit_hugging_voice.Text.{Text}
use livekit_hugging_voice.AudioBuffer.{
  BoundedAudioBuffer, BufferFault, slice_samples, discard_before,
}
use livekit_hugging_voice.Pipeline.{
  model_failure, by_barge_in, TurnCandidate, speech_started, speech_stopped, VoicePipeline, Run,
  ◌>>◌, modify, handled, send, send_error, close_transport,
}
use livekit_hugging_voice.Pipeline.Responses.{or_else, cancel_response}
use livekit_hugging_voice.Pipeline.Speech.{
  ms_of, open_segment, barge_in, announce_start, speech_starts, is_completed, queue_turn,
  with_buffer, cut_turn, complete_turn, stop_segment, speech_stops, open_candidate, stop_candidate,
  speech_stop_candidate, is_awaited, judge_turn, detection_failed, free_candidate, classified_of,
  in_task, candidate_classified, candidate_fails, free_fallback, fallback_of, fallback_wakes,
  max_incomplete_verdicts,
}
use livekit_hugging_voice.Pipeline.Follows.{follow}
use livekit_hugging_voice.Pipeline.Orderly.{IsSound}
use livekit_hugging_voice.Pipeline.Tasks.{if-IsSound}
use livekit_hugging_voice.Pipeline.Settles.{cancel_response-IsSound}
use livekit_hugging_voice.Pipeline.Starts.{
  neutral-IsSound, error-IsSound, caught-IsSound, continue-IsSound,
}

barge_in-IsSound : (s : VoicePipeline) → IsSound s → IsSound (barge_in s).0
barge_in-IsSound s h =
    if-IsSound s.interrupt_response (cancel_response by_barge_in none none s) (s, none)
      (λ e. cancel_response-IsSound by_barge_in none none s h) (λ e. h)

pub announce-IsSound : (n : ℕ) (s : VoicePipeline) → IsSound s → IsSound (announce_start n s).0
unfolding follow
announce-IsSound n s h =
    neutral-IsSound
      (speech_started (or_else s.current_turn_id []) s.current_turn_revision (ms_of n)) s
      (λ p. refl) h

pub speech_starts-IsSound : (n : ℕ) (s : VoicePipeline) → IsSound s → IsSound (speech_starts n s).0
unfolding speech_starts open_segment
speech_starts-IsSound n s h =
    continue-IsSound ((modify (open_segment n) >> barge_in) s)
      (announce_start (max n s.input_audio_buffer.first_sample))
      (barge_in-IsSound (open_segment n s) h)
      (announce-IsSound (max n s.input_audio_buffer.first_sample))

pub with_buffer-IsSound :
    (s : VoicePipeline) (r : Result BufferFault BoundedAudioBuffer)
    → IsSound s
    → IsSound (with_buffer s r).0
with_buffer-IsSound s (ok b) h = h
with_buffer-IsSound s (err e) h = h

cut_turn-IsSound :
    (t : Text) (v : ℤ) (n : ℕ) (s : VoicePipeline) (r : Result BufferFault (List ℕ))
    → IsSound s
    → IsSound (cut_turn t v n s r).0
cut_turn-IsSound t v n s (err e) h = h
cut_turn-IsSound t v n s (ok audio) h =
    continue-IsSound (with_buffer s (discard_before n s.input_audio_buffer))
      (λ u. queue_turn t v u (ok audio))
      (with_buffer-IsSound s (discard_before n s.input_audio_buffer) h) (λ u k. k)

complete_turn-IsSound :
    (t : Text) (v : ℤ) (m n : ℕ) (s : VoicePipeline)
    → IsSound s
    → IsSound (complete_turn t v m n s).0
unfolding complete_turn
complete_turn-IsSound t v m n s h =
    if-IsSound (is_completed t v s.completed_turn) (s, none) _ (λ e. h)
      (λ e.
        cut_turn-IsSound t v n
          (record s {
            completed_turn = some (t, v);
            partial_epoch = s.partial_epoch + 1;
            partial_task = none;
          })
          (slice_samples m n s.input_audio_buffer) h)

stop_segment-IsSound :
    (ot : Option Text) (os : Option ℕ) (n : ℕ) (s : VoicePipeline)
    → IsSound s
    → IsSound (stop_segment ot os n s).0
unfolding follow
stop_segment-IsSound none os n s h = h
stop_segment-IsSound (some t) none n s h = h
stop_segment-IsSound (some t) (some m) n s h =
    let event = speech_stopped t s.current_turn_revision (ms_of n) in
    continue-IsSound ((send event >> modify (λ u. record u { speech_start_sample = none })) s)
      (complete_turn t s.current_turn_revision m n)
      (continue-IsSound (send event s) (modify (λ u. record u { speech_start_sample = none }))
        (neutral-IsSound event s (λ p. refl) h) (λ u k. k))
      (complete_turn-IsSound t s.current_turn_revision m n)

pub speech_stops-IsSound : (n : ℕ) (s : VoicePipeline) → IsSound s → IsSound (speech_stops n s).0
unfolding speech_stops
speech_stops-IsSound n s h = stop_segment-IsSound s.current_turn_id s.speech_start_sample n s h

open_candidate-IsSound :
    (t : Text) (n : ℕ) (s : VoicePipeline) (r : Result BufferFault (List ℕ))
    → IsSound s
    → IsSound (open_candidate t n s r).0
open_candidate-IsSound t n s (ok audio) h = h
open_candidate-IsSound t n s (err e) h = h

stop_candidate-IsSound :
    (ot : Option Text) (os : Option ℕ) (n : ℕ) (s : VoicePipeline)
    → IsSound s
    → IsSound (stop_candidate ot os n s).0
stop_candidate-IsSound none os n s h = h
stop_candidate-IsSound (some t) none n s h = h
stop_candidate-IsSound (some t) (some m) n s h =
    open_candidate-IsSound t n (record s { turn_candidate_id = s.turn_candidate_id + 1 })
      (slice_samples (max m (n - s.max_candidate_samples)) n s.input_audio_buffer) h

pub speech_stop_candidate-IsSound :
    (n : ℕ) (s : VoicePipeline) → IsSound s → IsSound (speech_stop_candidate n s).0
unfolding speech_stop_candidate
speech_stop_candidate-IsSound n s h =
    if-IsSound s.smart_turn (stop_candidate s.current_turn_id s.speech_start_sample n s)
      (speech_stops n s) (λ e. stop_candidate-IsSound s.current_turn_id s.speech_start_sample n s h)
      (λ e. speech_stops-IsSound n s h)

pub close-IsSound : (s : VoicePipeline) → IsSound s → IsSound (close_transport s).0
close-IsSound s h = record {
  last = h.last;
  reached = h.reached;
  fits = elim h.fits [ inl b ↦ inl (b.0, inl refl) | inr f ↦ inr f ];
}

pub detection_failed-IsSound : (s : VoicePipeline) → IsSound s → IsSound (detection_failed s).0
detection_failed-IsSound s h =
    continue-IsSound (send_error model_failure s) close_transport (error-IsSound model_failure s h)
      close-IsSound

judge_turn-IsSound :
    (c : TurnCandidate) (b : Bool) (s : VoicePipeline) → IsSound s → IsSound (judge_turn c b s).0
unfolding judge_turn
judge_turn-IsSound c b s h =
    let counted = record s { incomplete_verdicts = s.incomplete_verdicts + 1 } in
    if-IsSound b (speech_stops c.sample_index s) _ (λ e. speech_stops-IsSound c.sample_index s h)
      (λ e.
        if-IsSound (leb max_incomplete_verdicts (s.incomplete_verdicts + 1))
          (speech_stops c.sample_index counted)
          (record counted { turn_fallback_task = some c }, none)
          (λ e. speech_stops-IsSound c.sample_index counted h) (λ e. h))

classified_of-IsSound :
    (answer : Option Bool) (c : TurnCandidate) (s : VoicePipeline)
    → IsSound s
    → IsSound (classified_of answer c s).0
unfolding classified_of
classified_of-IsSound none c s h = h
classified_of-IsSound (some b) c s h =
    if-IsSound (is_awaited c s) (handled (judge_turn c b) detection_failed s) (s, none)
      (λ e.
        caught-IsSound (judge_turn c b s) detection_failed (judge_turn-IsSound c b s h)
          detection_failed-IsSound)
      (λ e. h)

in_task-IsSound :
    (oc : Option TurnCandidate) (f : TurnCandidate → Run) (s : VoicePipeline)
    → IsSound s
    → ((c : TurnCandidate) → IsSound (f c s).0)
    → IsSound (in_task oc f s).0
in_task-IsSound none f s h k = h
in_task-IsSound (some c) f s h k = k c

pub candidate_classified-IsSound :
    (answer : Option Bool) (s : VoicePipeline)
    → IsSound s
    → IsSound (candidate_classified answer s).0
unfolding candidate_classified
candidate_classified-IsSound answer s h =
    in_task-IsSound s.turn_candidate_task (λ c t. classified_of answer c (free_candidate t)) s h
      (λ c. classified_of-IsSound answer c (free_candidate s) h)

pub candidate_fails-IsSound : (s : VoicePipeline) → IsSound s → IsSound (candidate_fails s).0
unfolding candidate_fails
candidate_fails-IsSound s h =
    in_task-IsSound s.turn_candidate_task (λ c t. detection_failed (free_candidate t)) s h
      (λ c. detection_failed-IsSound (free_candidate s) h)

pub fallback_wakes-IsSound :
    (active expired : Bool) (s : VoicePipeline)
    → IsSound s
    → IsSound (fallback_wakes active expired s).0
unfolding fallback_wakes fallback_of
fallback_wakes-IsSound active expired s h =
    in_task-IsSound s.turn_fallback_task (fallback_of active expired) s h λ c.
      if-IsSound (not s.draining && s.turn_candidate_id == c.candidate_id && active && not expired)
        (s, none) _ (λ e. h)
        (λ e.
          if-IsSound (is_awaited c s) (speech_stops c.sample_index (free_fallback s))
            (free_fallback s, none) (λ e. speech_stops-IsSound c.sample_index (free_fallback s) h)
            (λ e. h))
