-- ===== src/Pipeline/Speech/Candidates.antt =====
-- services/gpu-service/src/hugging_voice_service/pipeline.py: `_classify_turn_candidate` and `_semantic_fallback`.
use livekit_hugging_voice.Base.{
  ℕ, ◌+◌, Bool, not, ◌&&◌, Option, none, some, [], leb, ◌==◌, if◌then◌else◌,
}
use livekit_hugging_voice.Base.Int.{ℤ, int_eq}
use livekit_hugging_voice.Text.{Text, text_eq}
use livekit_hugging_voice.Pipeline.{
  model_failure, TurnCandidate, VoicePipeline, Run, ◌>>◌, handled, send_error, close_transport,
}
use livekit_hugging_voice.Pipeline.Responses.{is_some, or_else}
use livekit_hugging_voice.Pipeline.Speech.Turns.{speech_stops}

abbrev pub names_turn : Text → ℤ → VoicePipeline → Bool
names_turn turn_id revision s =
    is_some s.current_turn_id
    && text_eq (or_else s.current_turn_id []) turn_id
    && int_eq s.current_turn_revision revision

-- `not stale()` of `_classify_turn_candidate`, and the last test of `_semantic_fallback`
unfoldable pub is_awaited : TurnCandidate → VoicePipeline → Bool
is_awaited c s =
    not s.draining
    && names_turn c.turn_id c.revision s
    && s.turn_candidate_id == c.candidate_id
    && is_some s.speech_start_sample

-- The scheduler's answer: none, or whether the probability reaches the threshold. The task is the
-- candidate's, so its own slot is freed, and `_speech_stopped` runs in it.
abbrev pub max_incomplete_verdicts : ℕ
max_incomplete_verdicts = 2

unfoldable pub judge_turn : TurnCandidate → Bool → Run
unfolding speech_stops
judge_turn c complete s =
    let counted = record s { incomplete_verdicts = s.incomplete_verdicts + 1 } in
    if complete
    then speech_stops c.sample_index s
    else if leb max_incomplete_verdicts (s.incomplete_verdicts + 1)
    then speech_stops c.sample_index counted
    else (record counted { turn_fallback_task = some c }, none)

-- the `except Exception` of the task
abbrev pub detection_failed : Run
detection_failed = send_error model_failure >> close_transport

abbrev pub free_candidate : VoicePipeline → VoicePipeline
free_candidate s = record s { turn_candidate_task = none }

unfoldable pub classified_of : Option Bool → TurnCandidate → Run
unfolding is_awaited judge_turn send_error
classified_of none c s = (s, none)
classified_of (some complete) c s =
    if is_awaited c s then handled (judge_turn c complete) detection_failed s else (s, none)

abbrev pub in_task : Option TurnCandidate → (TurnCandidate → Run) → Run
in_task none f s = (s, none)
in_task (some c) f s = f c s

unfoldable pub candidate_classified : Option Bool → Run
unfolding classified_of
candidate_classified answer s =
    in_task s.turn_candidate_task (λ c t. classified_of answer c (free_candidate t)) s

-- the scheduler raises
unfoldable pub candidate_fails : Run
unfolding send_error
candidate_fails s = in_task s.turn_candidate_task (λ c t. detection_failed (free_candidate t)) s

abbrev pub free_fallback : VoicePipeline → VoicePipeline
free_fallback s = record s { turn_fallback_task = none }

-- A wake-up of `_semantic_fallback`, after its sleep or in its loop: `active` is the VAD's
-- `speech_candidate_active`, and `expired` tells that the deadline has passed.
unfoldable pub fallback_of : Bool → Bool → TurnCandidate → Run
unfolding is_awaited speech_stops
fallback_of active expired c s =
    if not s.draining && s.turn_candidate_id == c.candidate_id && active && not expired
    then (s, none)
    else if is_awaited c s
    then speech_stops c.sample_index (free_fallback s)
    else (free_fallback s, none)

unfoldable pub fallback_wakes : Bool → Bool → Run
unfolding fallback_of
fallback_wakes active expired s = in_task s.turn_fallback_task (fallback_of active expired) s
