-- ===== src/Pipeline/Endings.antt =====
-- services/gpu-service/src/hugging_voice_service/pipeline.py: the end of the synthesis, its frames, and
-- the cancellation of a response.
use livekit_hugging_voice.Base.{
  ◌≡◌, refl, sym, subst, inl, inr, Bool, true, false, ◌||◌, Option, none, some, arith,
  if◌then◌else◌, Bool-cases, Result, ok, err,
}
use livekit_hugging_voice.Text.{strip}
use livekit_hugging_voice.Conversation.{Conversation, ConversationFault, is_empty}
use livekit_hugging_voice.Pipeline.{
  ErrorCode, model_failure, failed, completed, by_model_error, by_completion, ToolCall,
  ResponseContext, ResponseTask, Runner, run_response, run_speak_response, run_tool_call_response,
  Phase, unstarted, streaming, speaking, Fault, VoicePipeline, Run, continue, ◌>>◌, send_error,
}
use livekit_hugging_voice.Pipeline.Responses.{
  send_text_done, send_audio_done, finalize_response, both_done, owes_speech, is_some,
  failed_handler, remember, append_answer, keep_answer, defer_tool_call_response, deferred_call,
  after_speech, spoken_of, speech_ends, speech_fails, fail_response, ends,
}
use livekit_hugging_voice.Pipeline.Stages.{
  Flags, At, Brings, made, then-Brings, text_done_again, audio_done_first, audio_done_again,
  finalize_first, finalize_again, error-Brings,
}
use livekit_hugging_voice.Pipeline.Orderly.{
  stage, IsSound, Brings-IsFinal, cleared-IsSound, IsAt, fail-IsSound,
}
use livekit_hugging_voice.Pipeline.Tasks.{
  resumed-IsSound, stage_of, silent-At, IsAt-silent, IsAt-blocked,
}

-- a response that is final already fails without a second `response.done`
pub late_done :
    (w : Bool) (s : VoicePipeline)
    → At (made true true true) s
    → Brings (made true true true) (both_done w s)
unfolding send_text_done send_audio_done
late_done false s h = h
late_done true s h =
    then-Brings (made true true true) (send_text_done s) (made true true true) send_audio_done
      (text_done_again s true true s.response refl h)
      (λ u h'. audio_done_again u true true u.response refl h')

late_fail-IsSound :
    (code : ErrorCode) (s : VoicePipeline)
    → At (made true true true) s
    → IsSound (fail_response code s).0
unfolding fail_response failed_handler finalize_response
late_fail-IsSound code s h =
    let w = owes_speech s.response_task in
    cleared-IsSound (failed_handler code s).0 (
      Brings-IsFinal true true (failed_handler code s) (
        then-Brings (made true true true) ((send_error code >> both_done w) s) (made true true true)
          (finalize_response failed by_model_error)
          (then-Brings (made true true true) (send_error code s) (made true true true) (both_done w)
            (error-Brings code (made true true true) s h) (late_done w))
          (λ u h'. finalize_again u true true failed by_model_error u.response refl h')))

pub remember-At :
    (f : Flags) (s : VoicePipeline) (r : Result ConversationFault Conversation)
    → At f s
    → At f (remember s r).0
remember-At f s (ok c) h = h
remember-At f s (err e) h = h

append_answer-At :
    (f : Flags) (c : ResponseContext) (s : VoicePipeline) → At f s → At f (append_answer c s).0
unfolding append_answer
append_answer-At f c s h = remember-At f s _ h

pub if-At :
    (f : Flags) (b : Bool) (x y : VoicePipeline × Option Fault)
    → At f x.0
    → At f y.0
    → At f (if b then x else y).0
if-At f true x y h k = h
if-At f false x y h k = k

pub continue-At :
    (f : Flags) (x : VoicePipeline × Option Fault) (k : Run)
    → At f x.0
    → ((u : VoicePipeline) → At f u → At f (k u).0)
    → At f (continue x k).0
continue-At f (s, none) k h keep = keep s h
continue-At f (s, some e) k h keep = h

deferred_call-At :
    (f : Flags) (oc : Option ToolCall) (c : ResponseContext) (s : VoicePipeline)
    → At f s
    → At f (deferred_call oc c s).0
unfolding defer_tool_call_response
deferred_call-At f none c s h = h
deferred_call-At f (some call) c s h = if-At f (s.draining || is_some s.deferred_response) _ _ h h

keep_answer-At :
    (f : Flags) (c : ResponseContext) (s : VoicePipeline) → At f s → At f (keep_answer c s).0
unfolding keep_answer
keep_answer-At f c s h =
    if-At f (is_empty (strip c.text)) (s, none) (append_answer c s) h (append_answer-At f c s h)

after_speech-At :
    (f : Flags) (r : Runner) (t : ResponseTask) (c : ResponseContext) (s : VoicePipeline)
    → At f s
    → At f (after_speech r t c s).0
unfolding after_speech
after_speech-At f (run_speak_response text) t c s h =
    if-At f (is_some s.pending_call) (s, none) (append_answer c s) h (append_answer-At f c s h)
after_speech-At f (run_tool_call_response call) t c s h = h
after_speech-At f run_response t c s h =
    continue-At f (keep_answer c s) (deferred_call t.function_call c) (keep_answer-At f c s h)
      (deferred_call-At f t.function_call c)

-- once the response is final, what is raised changes nothing of that
late_ends-IsSound :
    (x : VoicePipeline × Option Fault) → At (made true true true) x.0 → IsSound (ends x).0
late_ends-IsSound (s, none) h = cleared-IsSound s (Brings-IsFinal true true (s, none) h)
late_ends-IsSound (s, some e) h = late_fail-IsSound model_failure s h

pub Brings-At : (f : Flags) (x : VoicePipeline × Option Fault) → Brings f x → At f x.0
Brings-At f (s, none) h = h
Brings-At f (s, some e) h = h.0

spoken_of-IsSound :
    (t : ResponseTask) (c : ResponseContext) (s : VoicePipeline)
    → At (made true false false) s
    → IsSound (spoken_of t c s).0
unfolding spoken_of send_audio_done finalize_response
spoken_of-IsSound t c s h =
    let x = (send_audio_done >> finalize_response completed by_completion) s in
    late_ends-IsSound (continue x (after_speech t.runner t c)) (
      continue-At (made true true true) x (after_speech t.runner t c)
        (Brings-At (made true true true) x (
          then-Brings (made true true true) (send_audio_done s) (made true true false)
            (finalize_response completed by_completion) (audio_done_first s s.response refl h)
            (λ u h'. finalize_first u true completed by_completion u.response refl h')))
        (after_speech-At (made true true true) t.runner t c))

pub speaking-At :
    (s : VoicePipeline) (t : ResponseTask) (c : ResponseContext)
    → s.response_task ≡ some t
    → s.response ≡ some c
    → t.phase ≡ speaking
    → IsSound s
    → At (made true false false) s
speaking-At s t c et ec ep h = subst (λ p. At (stage p) s) ep (stage_of s t c et ec h).0

pub speech_ends-IsSound : (s : VoicePipeline) → IsSound s → IsSound (speech_ends s).0
unfolding speech_ends
speech_ends-IsSound s h =
    resumed-IsSound speaking s spoken_of h
      λ t c et ec ep. spoken_of-IsSound t c s (speaking-At s t c et ec ep h)

speech_owes :
    (t : ResponseTask) (ot : Option ResponseTask)
    → ot ≡ some t
    → t.tts_started ≡ true
    → owes_speech ot ≡ true
speech_owes t ot e started =
    subst (λ ot. owes_speech ot ≡ true) (sym e)
      (ground (arith, started, Bool-cases (is_some t.function_call)))

-- at any phase there is a stage from which the handlers end the response
pub stopping-IsAt :
    (s : VoicePipeline) (t : ResponseTask) (c : ResponseContext)
    → s.response_task ≡ some t
    → s.response ≡ some c
    → IsSound s
    → (b : Bool) × IsAt b s
stopping-IsAt s t c et ec h = by_phase t.phase refl
  where
    by_phase : (p : Phase) → t.phase ≡ p → (b : Bool) × IsAt b s
    by_phase unstarted ep = (false, IsAt-silent s (silent-At s t c unstarted et ec ep refl h))
    by_phase streaming ep = (false, IsAt-silent s (silent-At s t c streaming et ec ep refl h))
    by_phase speaking ep = elim (stage_of s t c et ec h).1 [
      | inl b ↦ (false, IsAt-blocked (stage t.phase) s (stage_of s t c et ec h).0 b)
      | inr speech ↦
          (true, (speaking-At s t c et ec ep h, λ e. speech_owes t s.response_task et (speech ep)))
    ]

pub speech_fails-IsSound : (s : VoicePipeline) → IsSound s → IsSound (speech_fails s).0
unfolding speech_fails
speech_fails-IsSound s h =
    resumed-IsSound speaking s (λ t c. fail_response model_failure) h
      λ t c et ec ep. let (b, at) = stopping-IsAt s t c et ec h in fail-IsSound b model_failure s at
