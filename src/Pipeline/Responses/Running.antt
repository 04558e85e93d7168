-- ===== src/Pipeline/Responses/Running.antt =====
-- services/gpu-service/src/hugging_voice_service/pipeline.py: the three runners, a stretch of a task at a time.
use livekit_hugging_voice.Base.{
  ℕ, ◌+◌, Bool, true, false, ◌||◌, Option, none, some, List, ◌++◌, if◌then◌else◌, Result, ok, err,
}
use livekit_hugging_voice.Text.{Text, strip}
use livekit_hugging_voice.Cancellation.{is_current}
use livekit_hugging_voice.Conversation.{Conversation, ConversationFault, assistant, is_empty}
use livekit_hugging_voice.Conversation
use livekit_hugging_voice.Pipeline.{
  ErrorCode, model_failure, completed, cancelled, failed, by_completion, by_tool_call,
  by_model_error, FunctionCallItem, ToolCall, Streamed, text_delta, tool_call, text_usage,
  ResponseContext, Runner, run_response, run_speak_response, run_tool_call_response, Phase,
  unstarted, streaming, speaking, ResponseTask, after_announcement, output_text_delta,
  output_audio_delta, function_call_done, Fault, memory_fault, VoicePipeline, Run, ◌>>◌, done,
  modify, handled, finally, send,
}
use livekit_hugging_voice.Pipeline.Responses.Closing.{
  is_some, with_context, on_response, send_text_done, send_audio_done, finalize_response,
  clear_response, fail_response, end_cancelled, goes_on, ends,
}

-- the `FunctionCallConversationItem` of `_emit_tool_call`
abbrev pub issued_call : ResponseContext → ToolCall → FunctionCallItem
issued_call c call = record {
  id = c.item_id;
  call_id = call.call_id;
  name = call.name;
  arguments = call.arguments;
  turn_id = c.turn_id;
  turn_revision = c.turn_revision;
  generation_id = c.generation_id;
  response_id = c.response_id;
}

unfoldable pub emit_of : ToolCall → ResponseContext → Run
unfolding send finalize_response
emit_of call c s =
    (send (function_call_done c (issued_call c call)) >> finalize_response completed by_tool_call)
      (record s { pending_call = some (issued_call c call) })

unfoldable pub emit_tool_call : ToolCall → Run
unfolding emit_of
emit_tool_call call s = on_response s.response (emit_of call) s

-- `cancellation.is_current(context.token)`
abbrev pub is_live : VoicePipeline → ResponseContext → Bool
is_live s c = is_current s.cancellation c.token

-- `_run_tool_call_response`, which has no await on another task; its `except Exception` sends no error
unfoldable pub run_tool_call_of : ToolCall → ResponseContext → Run
unfolding emit_tool_call finalize_response
run_tool_call_of call c s =
    if is_live s c
    then finally (handled (emit_tool_call call) (finalize_response failed by_model_error))
        clear_response s
    else finally (finalize_response cancelled c.cancel_reason) clear_response s

abbrev pub with_phase : Phase → ResponseTask → VoicePipeline → VoicePipeline
with_phase p t s = record s { response_task = some (record t { phase = p }) }

-- `_run_speak_response`, up to the synthesis
unfoldable pub run_speak_of : Text → ResponseTask → ResponseContext → Run
unfolding send send_text_done fail_response
run_speak_of text t c s = goes_on (
    (send (output_text_delta (record c { text = text }) text) >> send_text_done) (
      with_phase speaking (record t { tts_started = true })
        (with_context (record c { text = text }) s)))

-- the first step of the task
abbrev pub first_step : Runner → ResponseTask → ResponseContext → Run
first_step run_response t c s = (with_phase streaming t s, none)
first_step (run_speak_response text) t c s = run_speak_of text t c s
first_step (run_tool_call_response call) t c s = run_tool_call_of call c s

abbrev pub same_phase : Phase → Phase → Bool
same_phase unstarted unstarted = true
same_phase streaming streaming = true
same_phase speaking speaking = true
same_phase _ _ = false

-- what a task does with its context once it is scheduled again, if it is still there
abbrev pub resumed :
    Phase
    → Option ResponseTask
    → Option ResponseContext
    → (ResponseTask → ResponseContext → Run)
    → Run
resumed p none oc f s = (s, none)
resumed p (some t) none f s = (s, none)
resumed p (some t) (some c) f s = if same_phase t.phase p then f t c s else (s, none)

unfoldable pub task_starts : Run
unfolding run_speak_of run_tool_call_of
task_starts s = resumed unstarted s.response_task s.response (λ t. first_step t.runner t) s

-- the body of the `async for` of `_run_response`, for an event that is current
unfoldable pub take_streamed : Streamed → ResponseTask → ResponseContext → Run
unfolding send fail_response
take_streamed (text_usage u) t c s = (with_context (record c { usage = some u }) s, none)
take_streamed (tool_call call) t c s =
    if is_some t.function_call
    then fail_response model_failure s
    else (record s { response_task = some (record t { function_call = some call }) }, none)
take_streamed (text_delta delta) t c s = goes_on (
    send (output_text_delta (record c { text = c.text ++ delta }) delta) (record s {
      response = some (record c { text = c.text ++ delta });
      response_task = some (record t { tts_started = true });
    }))

unfoldable pub streamed_of : Streamed → ResponseTask → ResponseContext → Run
unfolding take_streamed end_cancelled
streamed_of event t c s = if is_live s c then take_streamed event t c s else end_cancelled s

unfoldable pub stream_yields : Streamed → Run
unfolding streamed_of
stream_yields event s = resumed streaming s.response_task s.response (streamed_of event) s

-- `_run_response` after its loop: a call alone is the response, and without text there is none
unfoldable pub speak_or_fail : ResponseTask → ResponseContext → Run
unfolding send_text_done fail_response
speak_or_fail t c s =
    if t.tts_started
    then goes_on (send_text_done (with_phase speaking t s))
    else fail_response model_failure s

unfoldable pub ended_of : Option ToolCall → ResponseTask → ResponseContext → Run
unfolding emit_tool_call speak_or_fail fail_response
ended_of none t c s = speak_or_fail t c s
ended_of (some call) t c s =
    if is_empty c.text then ends (emit_tool_call call s) else speak_or_fail t c s

unfoldable pub stream_ends : Run
unfolding ended_of
stream_ends s = resumed streaming s.response_task s.response (λ t c. ended_of t.function_call t c) s

-- the stream raises, in the loop of `_run_response`
unfoldable pub stream_fails : ErrorCode → Run
unfolding fail_response
stream_fails code s = resumed streaming s.response_task s.response (λ t c. fail_response code) s

abbrev pub remember :
    VoicePipeline → Result ConversationFault Conversation → VoicePipeline × Option Fault
remember s (ok conversation) = (record s { conversation = conversation }, none)
remember s (err e) = (s, some (memory_fault e))

unfoldable pub append_answer : ResponseContext → Run
append_answer c s = remember s (Conversation.append c.item_id assistant c.text s.conversation)

-- `_defer_tool_call_response`
unfoldable pub defer_tool_call_response : ResponseContext → ToolCall → Run
defer_tool_call_response c call s =
    if s.draining || is_some s.deferred_response
    then (s, none)
    else (record s { deferred_response = some (after_announcement c call) }, none)

abbrev pub deferred_call : Option ToolCall → ResponseContext → Run
deferred_call none c = done
deferred_call (some call) c = defer_tool_call_response c call

-- `if context.text.strip()` of `_run_response`
unfoldable pub keep_answer : ResponseContext → Run
unfolding append_answer
keep_answer c s = if is_empty (strip c.text) then (s, none) else append_answer c s

-- what follows `_finalize_response` in the two runners that speak
unfoldable pub after_speech : Runner → ResponseTask → ResponseContext → Run
unfolding append_answer keep_answer defer_tool_call_response
after_speech (run_speak_response text) t c s =
    if is_some s.pending_call then (s, none) else append_answer c s
after_speech (run_tool_call_response call) t c s = (s, none)
after_speech run_response t c s = (keep_answer c >> deferred_call t.function_call c) s

-- the synthesis has ended
unfoldable pub spoken_of : ResponseTask → ResponseContext → Run
unfolding send_audio_done finalize_response after_speech fail_response
spoken_of t c s =
    ends (
      (send_audio_done >> finalize_response completed by_completion >> after_speech t.runner t c) s)

unfoldable pub speech_ends : Run
unfolding spoken_of
speech_ends s = resumed speaking s.response_task s.response spoken_of s

-- the synthesis raises
unfoldable pub speech_fails : Run
unfolding fail_response
speech_fails s = resumed speaking s.response_task s.response (λ t c. fail_response model_failure) s

-- `send_frame` of `_run_tts`
unfoldable pub frame_of : List ℕ → ResponseContext → Run
unfolding send
frame_of frame c s =
    if is_live s c
    then (send (output_audio_delta c c.audio_sequence frame)
          >> modify (with_context (record c { audio_sequence = c.audio_sequence + 1 })))
        s
    else (s, none)

unfoldable pub send_frame : List ℕ → Run
unfolding frame_of
send_frame frame s = on_response s.response (frame_of frame) s
