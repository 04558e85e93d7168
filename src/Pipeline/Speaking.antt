-- ===== src/Pipeline/Speaking.antt =====
-- services/gpu-service/src/hugging_voice_service/pipeline.py: the stretches of a task around the
-- synthesis: where the text is done, where the speech ends, and a tool call as a response of its own.
use livekit_hugging_voice.Base.{◌≡◌, refl, ◌∙◌, inr, true, false, Option, none, some, arith}
use livekit_hugging_voice.Text.{Text, text_eq_refl}
use livekit_hugging_voice.Conversation.{is_empty}
use livekit_hugging_voice.Pipeline.{
  model_failure, cancelled, failed, by_model_error, ToolCall, ResponseContext, ResponseTask, Runner,
  run_response, run_speak_response, run_tool_call_response, unstarted, streaming, speaking, Event,
  output_text_delta, output_text_done, Fault, VoicePipeline, continue, ◌>>◌, handled, caught,
  finally, send,
}
use livekit_hugging_voice.Pipeline.Responses.{
  with_context, on_response, text_done_of, send_text_done, finalize_response, clear_response,
  fail_response, goes_on, ends, emit_tool_call, is_live, run_tool_call_of, run_speak_of, first_step,
  task_starts, with_phase, speak_or_fail, ended_of, stream_ends,
}
use livekit_hugging_voice.Pipeline.Follows.{follow}
use livekit_hugging_voice.Pipeline.Stages.{
  At, Brings, made, then-Brings, text_done_first, finalize_first, blocked_anyhow, send-frame,
  At-with, delta-Brings,
}
use livekit_hugging_voice.Pipeline.Orderly.{
  IsSound, IsFinal, Brings-IsFinal, cleared-IsSound, fail-IsSound, goes_on-IsSound,
}
use livekit_hugging_voice.Pipeline.Tasks.{
  if-IsSound, resumed-IsSound, silent-At, IsAt-silent, build, Brings-none, Brings-some, staged,
  emit_tool_call-Brings, ended_with_call-IsSound,
}

text_done-frame :
    (s : VoicePipeline) (oc : Option ResponseContext)
    → (on_response oc text_done_of s).0.response_task ≡ s.response_task
unfolding text_done_of
text_done-frame s none = refl
text_done-frame s (some c) = ground (
  arith,
  send-frame (output_text_done (record c { text_done = true }))
      (with_context (record c { text_done = true }) s),
)

-- the text is done, and the task waits for the synthesis
text_then_waits :
    (s : VoicePipeline) (t : ResponseTask) (x : VoicePipeline × Option Fault)
    → x.0.response_task ≡ some t
    → t.phase ≡ speaking
    → t.tts_started ≡ true
    → Brings (made true false false) x
    → IsSound (goes_on x).0
text_then_waits s t x et ep started h =
    goes_on-IsSound false x
      (λ e.
        build x.0 t et (staged t speaking x.0 ep (Brings-none (made true false false) x h e))
          (inr (λ p. started)))
      (λ f e. Brings-some (made true false false) x f h e)

speak_or_fail-IsSound :
    (t : ResponseTask) (c : ResponseContext) (s : VoicePipeline)
    → At (made false false false) s
    → IsSound (speak_or_fail t c s).0
unfolding speak_or_fail send_text_done
speak_or_fail-IsSound t c s h =
    let s' = with_phase speaking t s in
    if-IsSound t.tts_started (goes_on (send_text_done s')) (fail_response model_failure s)
      (λ e.
        text_then_waits s' (record t { phase = speaking }) (send_text_done s')
          (text_done-frame s' s.response) refl e (text_done_first s' s.response refl h))
      (λ e. fail-IsSound false model_failure s (IsAt-silent s h))

ended_of-IsSound :
    (oc : Option ToolCall) (t : ResponseTask) (c : ResponseContext) (s : VoicePipeline)
    → s.response ≡ some c
    → At (made false false false) s
    → IsSound (ended_of oc t c s).0
unfolding ended_of
ended_of-IsSound none t c s ec h = speak_or_fail-IsSound t c s h
ended_of-IsSound (some call) t c s ec h =
    if-IsSound (is_empty c.text) (ends (emit_tool_call call s)) (speak_or_fail t c s)
      (λ e. ended_with_call-IsSound call c s ec h) (λ e. speak_or_fail-IsSound t c s h)

pub stream_ends-IsSound : (s : VoicePipeline) → IsSound s → IsSound (stream_ends s).0
unfolding stream_ends
stream_ends-IsSound s h =
    resumed-IsSound streaming s (λ t c. ended_of t.function_call t c) h
      λ t c et ec ep.
        ended_of-IsSound t.function_call t c s ec (silent-At s t c streaming et ec ep refl h)

-- a response that is a call alone, or was cancelled before
caught-IsFinal :
    (x : VoicePipeline × Option Fault)
    → Brings (made false false true) x
    → IsFinal (caught x (finalize_response failed by_model_error)).0
unfolding finalize_response
caught-IsFinal (s, none) h = Brings-IsFinal false false (s, none) h
caught-IsFinal (s, some e) h =
    Brings-IsFinal false false (finalize_response failed by_model_error s) (
      finalize_first s false failed by_model_error s.response refl
        (blocked_anyhow (made false false true) (made false false false) s h.0 h.1))

run_tool_call-IsSound :
    (call : ToolCall) (c : ResponseContext) (s : VoicePipeline)
    → s.response ≡ some c
    → At (made false false false) s
    → IsSound (run_tool_call_of call c s).0
unfolding run_tool_call_of finalize_response
run_tool_call-IsSound call c s ec h =
    if-IsSound (is_live s c)
      (finally (handled (emit_tool_call call) (finalize_response failed by_model_error))
        clear_response s)
      (finally (finalize_response cancelled c.cancel_reason) clear_response s)
      (λ e.
        cleared-IsSound
          (handled (emit_tool_call call) (finalize_response failed by_model_error) s).0
          (caught-IsFinal (emit_tool_call call s) (emit_tool_call-Brings call c s ec h)))
      (λ e. cleared-IsSound (finalize_response cancelled c.cancel_reason s).0 (
        Brings-IsFinal false false (finalize_response cancelled c.cancel_reason s)
          (finalize_first s false cancelled c.cancel_reason s.response refl h)))

run_speak-IsSound :
    (text : Text) (t : ResponseTask) (c : ResponseContext) (s : VoicePipeline)
    → s.response ≡ some c
    → At (made false false false) s
    → IsSound (run_speak_of text t c s).0
unfolding run_speak_of send_text_done follow
run_speak-IsSound text t c s ec h =
    let c' = record c { text = text } in
    let t' = record t { phase = speaking; tts_started = true } in
    let s' = record s { response = some c'; response_task = some t' } in
    let event = output_text_delta c' text in
    let sent =
      delta-Brings event (made false false false) s' c' refl (rw (text_eq_refl c.response_id) refl)
        (At-with (made false false false) s c c' (some t') ec (λ p a. a) h) in
    text_then_waits s' t' ((send event >> send_text_done) s') (frame event s' t' refl) refl refl (
      then-Brings (made true false false) (send event s') (made false false false) send_text_done
        sent (λ u h'. text_done_first u u.response refl h'))
  where
    past :
        (x : VoicePipeline × Option Fault) (t' : ResponseTask)
        → x.0.response_task ≡ some t'
        → (continue x send_text_done).0.response_task ≡ some t'
    past (u, none) t' e = text_done-frame u u.response ∙ e
    past (u, some f) t' e = e

    frame :
        (event : Event) (u : VoicePipeline) (t' : ResponseTask)
        → u.response_task ≡ some t'
        → ((send event >> send_text_done) u).0.response_task ≡ some t'
    frame event u t' e = past (send event u) t' ((send-frame event u).0 ∙ e)

first_step-IsSound :
    (r : Runner) (t : ResponseTask) (c : ResponseContext) (s : VoicePipeline)
    → s.response ≡ some c
    → At (made false false false) s
    → IsSound (first_step r t c s).0
first_step-IsSound run_response t c s ec h =
    build (with_phase streaming t s) (record t { phase = streaming }) refl h
      (inr (λ e. ground arith))
first_step-IsSound (run_speak_response text) t c s ec h = run_speak-IsSound text t c s ec h
first_step-IsSound (run_tool_call_response call) t c s ec h = run_tool_call-IsSound call c s ec h

pub task_starts-IsSound : (s : VoicePipeline) → IsSound s → IsSound (task_starts s).0
unfolding task_starts
task_starts-IsSound s h =
    resumed-IsSound unstarted s (λ t. first_step t.runner t) h
      λ t c et ec ep.
        first_step-IsSound t.runner t c s ec (silent-At s t c unstarted et ec ep refl h)
