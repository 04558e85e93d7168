-- ===== src/Pipeline/Frames/Runners.antt =====
-- services/gpu-service/src/hugging_voice_service/pipeline.py: the stretches of a response's task keep the frame.
use livekit_hugging_voice.Base.{
  ℕ, ◌+◌, Bool, true, ◌||◌, Option, none, some, List, ◌++◌, Result, ok, err,
}
use livekit_hugging_voice.Text.{strip}
use livekit_hugging_voice.AudioBuffer.{BoundedAudioBuffer}
use livekit_hugging_voice.Conversation.{Conversation, ConversationFault, is_empty}
use livekit_hugging_voice.Pipeline.{
  ErrorCode, model_failure, completed, cancelled, failed, by_completion, by_tool_call,
  by_model_error, ToolCall, Streamed, text_delta, tool_call, text_usage, ResponseContext, Runner,
  run_response, run_speak_response, run_tool_call_response, unstarted, streaming, speaking,
  ResponseTask, TurnCandidate, output_text_delta, output_audio_delta, function_call_done,
  VoicePipeline, continue, ◌>>◌, modify, send,
}
use livekit_hugging_voice.Pipeline.Responses.{
  is_some, with_context, send_text_done, send_audio_done, finalize_response, fail_response,
  end_cancelled, ends, issued_call, emit_of, emit_tool_call, is_live, run_tool_call_of, with_phase,
  run_speak_of, first_step, task_starts, take_streamed, streamed_of, stream_yields, speak_or_fail,
  ended_of, stream_ends, stream_fails, remember, append_answer, keep_answer,
  defer_tool_call_response, deferred_call, after_speech, spoken_of, speech_ends, speech_fails,
  frame_of, send_frame,
}
use livekit_hugging_voice.Pipeline.Frames.{
  Keeps, if-Keeps, continue-Keeps, caught-Keeps, on-Keeps, resumed-Keeps, send-Keeps, text-Keeps,
  audio-Keeps, finalize-Keeps, cancelled-Keeps, fail-Keeps, goes_on-Keeps, ends-Keeps,
}

module _
    (V : Bool
      → Bool
      → BoundedAudioBuffer
      → Option ℕ
      → ℕ
      → Option TurnCandidate
      → Option TurnCandidate
      → Type 0) where
  emit-Keeps : (call : ToolCall) (s : VoicePipeline) → Keeps V s → Keeps V (emit_tool_call call s).0
  unfolding emit_tool_call emit_of
  emit-Keeps call s h = on-Keeps V s.response (emit_of call) s h λ c.
      let s' = record s { pending_call = some (issued_call c call) } in
      let event = function_call_done c (issued_call c call) in
      continue-Keeps V (send event s') (finalize_response completed by_tool_call)
        (send-Keeps V event s' h) (finalize-Keeps V completed by_tool_call)

  first_step-Keeps :
      (r : Runner) (t : ResponseTask) (c : ResponseContext) (s : VoicePipeline)
      → Keeps V s
      → Keeps V (first_step r t c s).0
  unfolding run_speak_of run_tool_call_of
  first_step-Keeps run_response t c s h = h
  first_step-Keeps (run_speak_response text) t c s h =
      let s' =
        with_phase speaking (record t { tts_started = true })
          (with_context (record c { text = text }) s) in
      let event = output_text_delta (record c { text = text }) text in
      goes_on-Keeps V ((send event >> send_text_done) s')
        (continue-Keeps V (send event s') send_text_done (send-Keeps V event s' h) (text-Keeps V))
  first_step-Keeps (run_tool_call_response call) t c s h =
      if-Keeps V (is_live s c) _ _
        (λ e.
          caught-Keeps V (emit_tool_call call s) (finalize_response failed by_model_error)
            (emit-Keeps call s h) (finalize-Keeps V failed by_model_error))
        (λ e. finalize-Keeps V cancelled c.cancel_reason s h)

  pub task_starts-Keeps : (s : VoicePipeline) → Keeps V s → Keeps V (task_starts s).0
  unfolding task_starts
  task_starts-Keeps s h =
      resumed-Keeps V unstarted s.response_task s.response (λ t. first_step t.runner t) s h
        (λ t c. first_step-Keeps t.runner t c s h)

  take-Keeps :
      (event : Streamed) (t : ResponseTask) (c : ResponseContext) (s : VoicePipeline)
      → Keeps V s
      → Keeps V (take_streamed event t c s).0
  unfolding take_streamed
  take-Keeps (text_usage u) t c s h = h
  take-Keeps (tool_call call) t c s h =
      if-Keeps V (is_some t.function_call) (fail_response model_failure s) _
        (λ e. fail-Keeps V model_failure s h) (λ e. h)
  take-Keeps (text_delta delta) t c s h =
      let c' = record c { text = c.text ++ delta } in
      let s' = record s {
        response = some c';
        response_task = some (record t { tts_started = true });
      } in
      goes_on-Keeps V (send (output_text_delta c' delta) s')
        (send-Keeps V (output_text_delta c' delta) s' h)

  pub stream_yields-Keeps :
      (event : Streamed) (s : VoicePipeline) → Keeps V s → Keeps V (stream_yields event s).0
  unfolding stream_yields streamed_of end_cancelled
  stream_yields-Keeps event s h =
      resumed-Keeps V streaming s.response_task s.response (streamed_of event) s h λ t c.
        if-Keeps V (is_live s c) (take_streamed event t c s) (end_cancelled s)
          (λ e. take-Keeps event t c s h) (λ e. cancelled-Keeps V s h)

  speak_or_fail-Keeps :
      (t : ResponseTask) (c : ResponseContext) (s : VoicePipeline)
      → Keeps V s
      → Keeps V (speak_or_fail t c s).0
  unfolding speak_or_fail
  speak_or_fail-Keeps t c s h =
      if-Keeps V t.tts_started _ (fail_response model_failure s)
        (λ e.
          goes_on-Keeps V (send_text_done (with_phase speaking t s))
            (text-Keeps V (with_phase speaking t s) h))
        (λ e. fail-Keeps V model_failure s h)

  ended-Keeps :
      (oc : Option ToolCall) (t : ResponseTask) (c : ResponseContext) (s : VoicePipeline)
      → Keeps V s
      → Keeps V (ended_of oc t c s).0
  unfolding ended_of
  ended-Keeps none t c s h = speak_or_fail-Keeps t c s h
  ended-Keeps (some call) t c s h =
      if-Keeps V (is_empty c.text) (ends (emit_tool_call call s)) (speak_or_fail t c s)
        (λ e. ends-Keeps V (emit_tool_call call s) (emit-Keeps call s h))
        (λ e. speak_or_fail-Keeps t c s h)

  pub stream_ends-Keeps : (s : VoicePipeline) → Keeps V s → Keeps V (stream_ends s).0
  unfolding stream_ends
  stream_ends-Keeps s h =
      resumed-Keeps V streaming s.response_task s.response (λ t c. ended_of t.function_call t c) s h
        (λ t c. ended-Keeps t.function_call t c s h)

  pub stream_fails-Keeps :
      (code : ErrorCode) (s : VoicePipeline) → Keeps V s → Keeps V (stream_fails code s).0
  unfolding stream_fails
  stream_fails-Keeps code s h =
      resumed-Keeps V streaming s.response_task s.response (λ t c. fail_response code) s h
        (λ t c. fail-Keeps V code s h)

  pub speech_fails-Keeps : (s : VoicePipeline) → Keeps V s → Keeps V (speech_fails s).0
  unfolding speech_fails
  speech_fails-Keeps s h =
      resumed-Keeps V speaking s.response_task s.response (λ t c. fail_response model_failure) s h
        (λ t c. fail-Keeps V model_failure s h)

  pub remember-Keeps :
      (s : VoicePipeline) (r : Result ConversationFault Conversation)
      → Keeps V s
      → Keeps V (remember s r).0
  remember-Keeps s (ok c) h = h
  remember-Keeps s (err e) h = h

  answer-Keeps :
      (c : ResponseContext) (s : VoicePipeline) → Keeps V s → Keeps V (append_answer c s).0
  unfolding append_answer
  answer-Keeps c s h = remember-Keeps s _ h

  deferred_call-Keeps :
      (oc : Option ToolCall) (c : ResponseContext) (s : VoicePipeline)
      → Keeps V s
      → Keeps V (deferred_call oc c s).0
  unfolding defer_tool_call_response
  deferred_call-Keeps none c s h = h
  deferred_call-Keeps (some call) c s h =
      if-Keeps V (s.draining || is_some s.deferred_response) _ _ (λ e. h) (λ e. h)

  after-Keeps :
      (r : Runner) (t : ResponseTask) (c : ResponseContext) (s : VoicePipeline)
      → Keeps V s
      → Keeps V (after_speech r t c s).0
  unfolding after_speech keep_answer
  after-Keeps (run_speak_response text) t c s h =
      if-Keeps V (is_some s.pending_call) (s, none) (append_answer c s) (λ e. h)
        (λ e. answer-Keeps c s h)
  after-Keeps (run_tool_call_response call) t c s h = h
  after-Keeps run_response t c s h =
      continue-Keeps V (keep_answer c s) (deferred_call t.function_call c)
        (if-Keeps V (is_empty (strip c.text)) (s, none) (append_answer c s) (λ e. h)
          (λ e. answer-Keeps c s h))
        (deferred_call-Keeps t.function_call c)

  pub speech_ends-Keeps : (s : VoicePipeline) → Keeps V s → Keeps V (speech_ends s).0
  unfolding speech_ends spoken_of
  speech_ends-Keeps s h = resumed-Keeps V speaking s.response_task s.response spoken_of s h λ t c.
      let x = (send_audio_done >> finalize_response completed by_completion) s in
      ends-Keeps V (continue x (after_speech t.runner t c)) (
        (continue-Keeps V) x (after_speech t.runner t c)
          (continue-Keeps V (send_audio_done s) (finalize_response completed by_completion)
            (audio-Keeps V s h) (finalize-Keeps V completed by_completion))
          (after-Keeps t.runner t c))

  pub send_frame-Keeps :
      (frame : List ℕ) (s : VoicePipeline) → Keeps V s → Keeps V (send_frame frame s).0
  unfolding send_frame frame_of
  send_frame-Keeps frame s h = on-Keeps V s.response (frame_of frame) s h λ c.
      let event = output_audio_delta c c.audio_sequence frame in
      let counted = with_context (record c { audio_sequence = c.audio_sequence + 1 }) in
      if-Keeps V (is_live s c) ((send event >> modify counted) s) (s, none)
        (λ e. continue-Keeps V (send event s) (modify counted) (send-Keeps V event s h) (λ u k. k))
        (λ e. h)
