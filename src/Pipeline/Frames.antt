-- ===== src/Pipeline/Frames.antt =====
-- services/gpu-service/src/hugging_voice_service/pipeline.py: the functions of the responses leave the
-- audio of the caller alone. `V` is any property of the buffer, the open segment and the candidates.
pub mod Runners
pub mod Requests
use livekit_hugging_voice.Base.{
  ℕ, ◌+◌, ◌≡◌, refl, sym, subst, inl, inr, Bool, true, false, not, ◌&&◌, ◌||◌, Option, none, some,
  List, ◌++◌, if◌then◌else◌, Result, ok, err,
}
use livekit_hugging_voice.Text.{Text, strip}
use livekit_hugging_voice.AudioBuffer.{BoundedAudioBuffer}
use livekit_hugging_voice.Cancellation.{GenerationToken, GenerationCancellation}
use livekit_hugging_voice.Cancellation
use livekit_hugging_voice.Conversation.{Conversation, ConversationFault, is_empty}
use livekit_hugging_voice.Pipeline.{
  ErrorCode, model_failure, session_state_conflict, tool_call_state_conflict, ResponseStatus,
  completed, cancelled, failed, ResponseReason, by_completion, by_tool_call, by_model_error,
  ToolCall, Streamed, text_delta, tool_call, text_usage, ResponseContext, Runner, run_response,
  run_speak_response, run_tool_call_response, Phase, unstarted, streaming, speaking, ResponseTask,
  Deferred, after_direct_speak, after_announcement, TurnCandidate, Event, response_created,
  output_text_delta, output_text_done, output_audio_done, output_audio_delta, function_call_done,
  response_done, error, Fault, value_error, rejected, VoicePipeline, Run, continue, caught, ◌>>◌,
  modify, send, send_error,
}
use livekit_hugging_voice.Pipeline.Responses.{
  is_some, or_else, with_context, on_response, text_done_of, send_text_done, audio_done_of,
  send_audio_done, no_usage, finish_token, finalize_of, finalize_response, both_done, owes_speech,
  reason_of, cancelled_handler, failed_handler, fail_response, end_cancelled, goes_on, ends,
  issued_call, emit_of, emit_tool_call, is_live, run_tool_call_of, with_phase, run_speak_of,
  first_step, same_phase, resumed, task_starts, take_streamed, streamed_of, stream_yields,
  speak_or_fail, ended_of, stream_ends, stream_fails, remember, append_answer, keep_answer,
  defer_tool_call_response, deferred_call, after_speech, spoken_of, speech_ends, speech_fails,
  frame_of, send_frame, settle_of, settle, stop_task, cancel_context, names_other, cancel_of,
  cancel_response, Request, new_context, new_task, activate, schedule, begin_response, freeze_tools,
  ensure_turn, start_beside, start_with, start_response, turn_is_current, start_tool_call_response,
  start_response_after_direct_speak, run_deferred, deferred_wakes,
}
use livekit_hugging_voice.Pipeline.Stages.{send-cases}

module _
    (V : Bool
      → Bool
      → BoundedAudioBuffer
      → Option ℕ
      → ℕ
      → Option TurnCandidate
      → Option TurnCandidate
      → Type 0) where
  abbrev pub Keeps : VoicePipeline → Type 0
  Keeps s =
      V s.smart_turn (is_some s.current_turn_id) s.input_audio_buffer s.speech_start_sample
        s.turn_candidate_id s.turn_candidate_task s.turn_fallback_task

  pub if-Keeps :
      (b : Bool) (x y : VoicePipeline × Option Fault)
      → (b ≡ true → Keeps x.0)
      → (b ≡ false → Keeps y.0)
      → Keeps (if b then x else y).0
  if-Keeps true x y h k = h refl
  if-Keeps false x y h k = k refl

  pub continue-Keeps :
      (x : VoicePipeline × Option Fault) (k : Run)
      → Keeps x.0
      → ((u : VoicePipeline) → Keeps u → Keeps (k u).0)
      → Keeps (continue x k).0
  continue-Keeps (s, none) k h keep = keep s h
  continue-Keeps (s, some e) k h keep = h

  pub caught-Keeps :
      (x : VoicePipeline × Option Fault) (k : Run)
      → Keeps x.0
      → ((u : VoicePipeline) → Keeps u → Keeps (k u).0)
      → Keeps (caught x k).0
  caught-Keeps (s, none) k h keep = h
  caught-Keeps (s, some e) k h keep = keep s h

  pub on-Keeps :
      (oc : Option ResponseContext) (f : ResponseContext → Run) (s : VoicePipeline)
      → Keeps s
      → ((c : ResponseContext) → Keeps (f c s).0)
      → Keeps (on_response oc f s).0
  on-Keeps none f s h k = h
  on-Keeps (some c) f s h k = k c

  pub resumed-Keeps :
      (p : Phase) (ot : Option ResponseTask) (oc : Option ResponseContext)
      (f : ResponseTask → ResponseContext → Run) (s : VoicePipeline)
      → Keeps s
      → ((t : ResponseTask) (c : ResponseContext) → Keeps (f t c s).0)
      → Keeps (resumed p ot oc f s).0
  resumed-Keeps p none oc f s h k = h
  resumed-Keeps p (some t) none f s h k = h
  resumed-Keeps p (some t) (some c) f s h k =
      if-Keeps (same_phase t.phase p) (f t c s) (s, none) (λ e. k t c) (λ e. h)

  pub send-Keeps : (event : Event) (s : VoicePipeline) → Keeps s → Keeps (send event s).0
  send-Keeps event s h = elim (send-cases event s) [
    | inl (refused, b) ↦ subst (λ (x : VoicePipeline × Option Fault). Keeps x.0) (sym refused) h
    | inr (left, took, free) ↦ subst (λ (x : VoicePipeline × Option Fault). Keeps x.0) (sym took) h
  ]

  pub error-Keeps : (code : ErrorCode) (s : VoicePipeline) → Keeps s → Keeps (send_error code s).0
  unfolding send_error
  error-Keeps code s h = send-Keeps (error code) s h

  pub text-Keeps : (s : VoicePipeline) → Keeps s → Keeps (send_text_done s).0
  unfolding send_text_done text_done_of
  text-Keeps s h = on-Keeps s.response text_done_of s h λ c.
      if-Keeps c.text_done (s, none) _ (λ e. h)
        (λ e.
          send-Keeps (output_text_done (record c { text_done = true }))
            (with_context (record c { text_done = true }) s) h)

  pub audio-Keeps : (s : VoicePipeline) → Keeps s → Keeps (send_audio_done s).0
  unfolding send_audio_done audio_done_of
  audio-Keeps s h = on-Keeps s.response audio_done_of s h λ c.
      if-Keeps c.audio_done (s, none) _ (λ e. h)
        (λ e.
          send-Keeps (output_audio_done (record c { audio_done = true }))
            (with_context (record c { audio_done = true }) s) h)

  pub finalize-Keeps :
      (status : ResponseStatus) (reason : ResponseReason) (s : VoicePipeline)
      → Keeps s
      → Keeps (finalize_response status reason s).0
  unfolding finalize_response finalize_of
  finalize-Keeps status reason s h = on-Keeps s.response (finalize_of status reason) s h λ c.
      let s' = with_context (record c { finalized = true }) s in
      let event =
        response_done (record c { finalized = true }) status reason (or_else c.usage no_usage) in
      if-Keeps c.finalized (s, none) _ (λ e. h)
        (λ e.
          continue-Keeps (send event s') (modify (finish_token c.token)) (send-Keeps event s' h)
            (λ u k. k))

  pub spoken-Keeps : (s : VoicePipeline) → Keeps s → Keeps ((send_text_done >> send_audio_done) s).0
  spoken-Keeps s h = continue-Keeps (send_text_done s) send_audio_done (text-Keeps s h) audio-Keeps

  both-Keeps : (w : Bool) (s : VoicePipeline) → Keeps s → Keeps (both_done w s).0
  both-Keeps true s h = spoken-Keeps s h
  both-Keeps false s h = h

  pub cancelled-Keeps : (s : VoicePipeline) → Keeps s → Keeps (cancelled_handler s).0
  unfolding cancelled_handler
  cancelled-Keeps s h =
      let w = owes_speech s.response_task in
      continue-Keeps (both_done w s) (finalize_response cancelled (reason_of s.response))
        (both-Keeps w s h) (finalize-Keeps cancelled (reason_of s.response))

  pub fail-Keeps : (code : ErrorCode) (s : VoicePipeline) → Keeps s → Keeps (fail_response code s).0
  unfolding fail_response failed_handler
  fail-Keeps code s h =
      let w = owes_speech s.response_task in
      continue-Keeps ((send_error code >> both_done w) s) (finalize_response failed by_model_error)
        (continue-Keeps (send_error code s) (both_done w) (error-Keeps code s h) (both-Keeps w))
        (finalize-Keeps failed by_model_error)

  pub goes_on-Keeps : (x : VoicePipeline × Option Fault) → Keeps x.0 → Keeps (goes_on x).0
  goes_on-Keeps (s, none) h = h
  goes_on-Keeps (s, some e) h = fail-Keeps model_failure s h

  pub ends-Keeps : (x : VoicePipeline × Option Fault) → Keeps x.0 → Keeps (ends x).0
  ends-Keeps (s, none) h = h
  ends-Keeps (s, some e) h = fail-Keeps model_failure s h
