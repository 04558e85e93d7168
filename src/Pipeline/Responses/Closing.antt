-- ===== src/Pipeline/Responses/Closing.antt =====
-- services/gpu-service/src/hugging_voice_service/pipeline.py: what closes a response: its text, its audio,
-- its end, and the handlers of the runners.
use livekit_hugging_voice.Base.{Bool, true, false, not, ◌||◌, Option, none, some, if◌then◌else◌}
use livekit_hugging_voice.Cancellation.{GenerationToken, GenerationCancellation, start, is_current}
use livekit_hugging_voice.Cancellation
use livekit_hugging_voice.Pipeline.{
  ErrorCode, model_failure, ResponseStatus, cancelled, failed, ResponseReason, by_client,
  by_model_error, TextUsage, ResponseContext, ResponseTask, output_text_done, output_audio_done,
  response_done, Fault, VoicePipeline, Run, ◌>>◌, done, modify, finally, send, send_error,
}

abbrev pub is_some {ℓ} : {A : Type ℓ} → Option A → Bool
is_some none = false
is_some (some a) = true

abbrev pub or_else {ℓ} : {A : Type ℓ} → Option A → A → A
or_else none a = a
or_else (some b) a = b

abbrev pub with_context : ResponseContext → VoicePipeline → VoicePipeline
with_context c s = record s { response = some c }

-- what the functions that take the context do with the active response
abbrev pub on_response : Option ResponseContext → (ResponseContext → Run) → Run
on_response none f s = (s, none)
on_response (some c) f s = f c s

unfoldable pub text_done_of : ResponseContext → Run
unfolding send
text_done_of c s =
    if c.text_done
    then (s, none)
    else send (output_text_done (record c { text_done = true }))
        (with_context (record c { text_done = true }) s)

unfoldable pub send_text_done : Run
send_text_done s = on_response s.response text_done_of s

unfoldable pub audio_done_of : ResponseContext → Run
unfolding send
audio_done_of c s =
    if c.audio_done
    then (s, none)
    else send (output_audio_done (record c { audio_done = true }))
        (with_context (record c { audio_done = true }) s)

unfoldable pub send_audio_done : Run
send_audio_done s = on_response s.response audio_done_of s

abbrev pub no_usage : TextUsage
no_usage = record { prompt_tokens = 0; completion_tokens = 0; total_tokens = 0 }

abbrev pub finish_token : GenerationToken → VoicePipeline → VoicePipeline
finish_token token s = record s { cancellation = (Cancellation.finish token s.cancellation).0 }

unfoldable pub finalize_of : ResponseStatus → ResponseReason → ResponseContext → Run
unfolding send
finalize_of status reason c s =
    if c.finalized
    then (s, none)
    else (send
            (response_done (record c { finalized = true }) status reason (or_else c.usage no_usage))
          >> modify (finish_token c.token))
        (with_context (record c { finalized = true }) s)

unfoldable pub finalize_response : ResponseStatus → ResponseReason → Run
unfolding finalize_of
finalize_response status reason s = on_response s.response (finalize_of status reason) s

-- the `finally` of the three runners
abbrev pub clear_response : VoicePipeline → VoicePipeline
clear_response s = record s { response = none; response_task = none; response_idle = true }

abbrev pub both_done : Bool → Run
both_done wanted = if wanted then send_text_done >> send_audio_done else done

-- `function_call is None or tts_task is not None`
abbrev pub owes_speech : Option ResponseTask → Bool
owes_speech none = true
owes_speech (some t) = not (is_some t.function_call) || t.tts_started

abbrev pub reason_of : Option ResponseContext → ResponseReason
reason_of none = by_client
reason_of (some c) = c.cancel_reason

-- `except asyncio.CancelledError` of the runners
unfoldable pub cancelled_handler : Run
unfolding send_text_done send_audio_done finalize_response
cancelled_handler s =
    (both_done (owes_speech s.response_task) >> finalize_response cancelled (reason_of s.response))
      s

-- `except Exception` of the runners
unfoldable pub failed_handler : ErrorCode → Run
unfolding send_text_done send_audio_done finalize_response send_error
failed_handler code s =
    (send_error code
        >> both_done (owes_speech s.response_task)
        >> finalize_response failed by_model_error)
      s

unfoldable pub fail_response : ErrorCode → Run
unfolding failed_handler
fail_response code = finally (failed_handler code) clear_response

unfoldable pub end_cancelled : Run
unfolding cancelled_handler
end_cancelled = finally cancelled_handler clear_response

-- one stretch of a runner that goes on afterwards, unless it raises
abbrev pub goes_on : VoicePipeline × Option Fault → VoicePipeline × Option Fault
goes_on (s, none) = (s, none)
goes_on (s, some e) = fail_response model_failure s

-- the last stretch of a runner
abbrev pub ends : VoicePipeline × Option Fault → VoicePipeline × Option Fault
ends (s, none) = (clear_response s, none)
ends (s, some e) = fail_response model_failure s
