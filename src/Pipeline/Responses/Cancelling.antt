-- ===== src/Pipeline/Responses/Cancelling.antt =====
-- services/gpu-service/src/hugging_voice_service/pipeline.py: `_cancel_response`.
use livekit_hugging_voice.Base.{Bool, false, not, Option, none, some, if◌then◌else◌}
use livekit_hugging_voice.Text.{Text, text_eq}
use livekit_hugging_voice.Cancellation.{GenerationToken, GenerationCancellation, start, is_current}
use livekit_hugging_voice.Cancellation
use livekit_hugging_voice.Pipeline.{
  cancelled, ResponseReason, ResponseContext, unstarted, ResponseTask, Fault, value_error,
  VoicePipeline, Run, ◌>>◌, swallow, finally,
}
use livekit_hugging_voice.Pipeline.Responses.Closing.{
  on_response, send_text_done, send_audio_done, finalize_response, clear_response,
  cancelled_handler,
}
use livekit_hugging_voice.Pipeline.Responses.Running.{same_phase}

-- `if not context.finalized` at the end of `_cancel_response`
unfoldable pub settle_of : ResponseReason → ResponseContext → Run
unfolding send_text_done send_audio_done finalize_response
settle_of reason c s =
    if c.finalized
    then (s, none)
    else (send_text_done >> send_audio_done >> finalize_response cancelled reason) s

unfoldable pub settle : ResponseReason → Run
unfolding settle_of
settle reason s = on_response s.response (settle_of reason) s

-- `task.cancel()` and the wait for it. A task that has not taken its first step ends without a handler
-- and without `finally`; another runs its handler, and its context is cleared.
unfoldable pub stop_task : ResponseReason → Option ResponseTask → Run
unfolding cancelled_handler settle
stop_task reason none s = settle reason s
stop_task reason (some t) s =
    if same_phase t.phase unstarted
    then settle reason (record s { response_task = none })
    else finally (swallow cancelled_handler >> settle reason) clear_response s

abbrev pub cancel_context :
    ResponseReason
    → ResponseContext
    → GenerationCancellation × Option GenerationToken
    → VoicePipeline
    → VoicePipeline × Option Fault
cancel_context reason c (cancellation, none) s = (s, none)
cancel_context reason c (cancellation, some token) s = stop_task reason s.response_task (record s {
  cancellation = cancellation;
  response = some (record c { cancel_reason = reason });
})

abbrev pub names_other : Option Text → ResponseContext → Bool
names_other none c = false
names_other (some r) c = not (text_eq r c.response_id)

-- `_cancel_response`; a cancelled generation leaves the transport and the TTS scheduler in one await. The
-- audio that the transport drops from its queue makes room as audio does that it delivered just before.
unfoldable pub cancel_of : ResponseReason → Option Text → Option Text → ResponseContext → Run
unfolding stop_task
cancel_of reason generation_id response_id c s =
    if names_other response_id c
    then (s, some value_error)
    else cancel_context reason c (Cancellation.cancel generation_id s.cancellation) s

unfoldable pub cancel_response : ResponseReason → Option Text → Option Text → Run
unfolding cancel_of
cancel_response reason generation_id response_id s =
    on_response s.response (cancel_of reason generation_id response_id) s
