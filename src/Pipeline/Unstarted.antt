-- ===== src/Pipeline/Unstarted.antt =====
-- services/gpu-service/src/hugging_voice_service/pipeline.py: what a cancellation leaves behind, by whether
-- the response's task has taken its first step.
use livekit_hugging_voice.Base.{
  ◌+◌, ◌≡◌, refl, sym, ap, subst, ◌≢◌, inl, inr, Bool, true, false, Option, none, some, arith,
  if◌then◌else◌,
}
use livekit_hugging_voice.Cancellation.{GenerationToken, GenerationCancellation}
use livekit_hugging_voice.Cancellation
use livekit_hugging_voice.Pipeline.Stages.{send-cases}
use livekit_hugging_voice.Pipeline.{
  ResponseStatus, cancelled, Event, output_text_done, output_audio_done, response_done, modify,
  send, ResponseContext, ResponseReason, ResponseTask, Phase, unstarted, streaming, speaking, Fault,
  value_error, VoicePipeline, Run, continue, ◌>>◌, swallow, finally,
}
use livekit_hugging_voice.Pipeline.Responses.{
  text_done_of, send_text_done, audio_done_of, send_audio_done, finalize_of, finalize_response,
  finish_token, with_context, or_else, no_usage, settle_of, start_with, cancel_response, cancel_of,
  cancel_context, stop_task, settle, clear_response, same_phase, cancelled_handler, start_response,
  start_beside, Request, on_response,
}

-- `cancellation.cancel()` of a response that is current
cancel_current :
    (c : GenerationCancellation) (token : GenerationToken)
    → c.current ≡ some token
    → Cancellation.cancel none c ≡ (record c { epoch = c.epoch + 1; current = none }, some token)
unfolding Cancellation.cancel Cancellation.names_another
cancel_current c token e = rw e refl

-- The cancellation of the active response comes down to stopping its task.
cancel_stops :
    (P : VoicePipeline × Option Fault → Type 0) (reason : ResponseReason) (s : VoicePipeline)
    (c : ResponseContext) (t : ResponseTask) (token : GenerationToken)
    → s.response ≡ some c
    → s.response_task ≡ some t
    → s.cancellation.current ≡ some token
    → P (
        stop_task reason (some t) (record s {
          cancellation = record s.cancellation { epoch = s.cancellation.epoch + 1; current = none };
          response = some (record c { cancel_reason = reason });
        }))
    → P (cancel_response reason none none s)
unfolding cancel_response cancel_of
cancel_stops P reason s c t token e et live h =
    subst (λ oc. P (on_response oc (cancel_of reason none none) s)) (sym e)
      (subst (λ y. P (cancel_context reason c y s)) (sym (cancel_current s.cancellation token live))
        (subst
          (λ ot. P (
            stop_task reason ot (record s {
              cancellation = record s.cancellation {
                epoch = s.cancellation.epoch + 1;
                current = none;
              };
              response = some (record c { cancel_reason = reason });
            })))
          (sym et) h))

abbrev IsCleared : VoicePipeline × Option Fault → Type 0
IsCleared x = (x.0.response ≡ none) × (x.0.response_idle ≡ true)

stopped-IsCleared :
    (reason : ResponseReason) (s : VoicePipeline) (t : ResponseTask)
    → same_phase t.phase unstarted ≡ false
    → IsCleared (stop_task reason (some t) s)
unfolding stop_task
stopped-IsCleared reason s t e =
    subst
      (λ b. IsCleared (
        if b
        then settle reason (record s { response_task = none })
        else finally (swallow cancelled_handler >> settle reason) clear_response s))
      (sym e) (refl, refl)

started_phase : (p : Phase) → p ≢ unstarted → same_phase p unstarted ≡ false
started_phase unstarted ne = absurd (ne refl)
started_phase streaming ne = refl
started_phase speaking ne = refl

-- While a generation is current and the active response's task has taken its first step, a cancellation
-- without ids, for whatever reason, leaves no active response and the session idle, also where the
-- transport refuses the last events.
pub cancel_started-clears :
    (reason : ResponseReason) (s : VoicePipeline) (c : ResponseContext) (t : ResponseTask)
    (token : GenerationToken)
    → s.response ≡ some c
    → s.response_task ≡ some t
    → t.phase ≢ unstarted
    → s.cancellation.current ≡ some token
    → ((cancel_response reason none none s).0.response ≡ none)
      × ((cancel_response reason none none s).0.response_idle ≡ true)
cancel_started-clears reason s c t token e et ne live =
    cancel_stops IsCleared reason s c t token e et live
      (stopped-IsCleared reason _ t (started_phase t.phase ne))

abbrev Speaks : Bool → Option ResponseContext → Type 0
Speaks d none = ⊥
Speaks d (some c) = c.direct_speak ≡ d

-- a response is active, of which no task is left
abbrev pub IsStuck : Bool → Bool → VoicePipeline → Type 0
IsStuck d i s = Speaks d s.response × (s.response_task ≡ none) × (s.response_idle ≡ i)

module _ (d i : Bool) where
  send-IsStuck : (event : Event) (s : VoicePipeline) → IsStuck d i s → IsStuck d i (send event s).0
  send-IsStuck event s h = elim (send-cases event s) [
    | inl (refused, b) ↦
        subst (λ (x : VoicePipeline × Option Fault). IsStuck d i x.0) (sym refused) h
    | inr (left, took, free) ↦
        subst (λ (x : VoicePipeline × Option Fault). IsStuck d i x.0) (sym took) h
  ]

  continue-IsStuck :
      (x : VoicePipeline × Option Fault) (k : Run)
      → IsStuck d i x.0
      → ((u : VoicePipeline) → IsStuck d i u → IsStuck d i (k u).0)
      → IsStuck d i (continue x k).0
  continue-IsStuck (s, none) k h keep = keep s h
  continue-IsStuck (s, some e) k h keep = h

  if-IsStuck :
      (b : Bool) (x y : VoicePipeline × Option Fault)
      → IsStuck d i x.0
      → IsStuck d i y.0
      → IsStuck d i (if b then x else y).0
  if-IsStuck true x y h k = h
  if-IsStuck false x y h k = k

  on-IsStuck :
      (oc : Option ResponseContext) (f : ResponseContext → Run) (s : VoicePipeline)
      → s.response ≡ oc
      → IsStuck d i s
      → ((c : ResponseContext) → c.direct_speak ≡ d → IsStuck d i (f c s).0)
      → IsStuck d i (on_response oc f s).0
  on-IsStuck none f s e h k = h
  on-IsStuck (some c) f s e h k = k c (subst (Speaks d) e h.0)

  text-IsStuck : (s : VoicePipeline) → IsStuck d i s → IsStuck d i (send_text_done s).0
  unfolding send_text_done text_done_of
  text-IsStuck s h = on-IsStuck s.response text_done_of s refl h λ c e.
      if-IsStuck c.text_done (s, none) _ h
        (send-IsStuck (output_text_done (record c { text_done = true }))
          (with_context (record c { text_done = true }) s) (e, h.1, h.2))

  audio-IsStuck : (s : VoicePipeline) → IsStuck d i s → IsStuck d i (send_audio_done s).0
  unfolding send_audio_done audio_done_of
  audio-IsStuck s h = on-IsStuck s.response audio_done_of s refl h λ c e.
      if-IsStuck c.audio_done (s, none) _ h
        (send-IsStuck (output_audio_done (record c { audio_done = true }))
          (with_context (record c { audio_done = true }) s) (e, h.1, h.2))

  finalize-IsStuck :
      (status : ResponseStatus) (reason : ResponseReason) (s : VoicePipeline)
      → IsStuck d i s
      → IsStuck d i (finalize_response status reason s).0
  unfolding finalize_response finalize_of
  finalize-IsStuck status reason s h =
      on-IsStuck s.response (finalize_of status reason) s refl h λ c e.
        let s' = with_context (record c { finalized = true }) s in
        let event =
          response_done (record c { finalized = true }) status reason (or_else c.usage no_usage) in
        if-IsStuck c.finalized (s, none) _ h
          (continue-IsStuck (send event s') (modify (finish_token c.token))
            (send-IsStuck event s' (e, h.1, h.2)) (λ u k. k))

  settle-IsStuck :
      (reason : ResponseReason) (s : VoicePipeline)
      → IsStuck d i s
      → IsStuck d i (settle reason s).0
  unfolding settle settle_of
  settle-IsStuck reason s h = on-IsStuck s.response (settle_of reason) s refl h λ c e.
      if-IsStuck c.finalized (s, none) _ h
        (continue-IsStuck ((send_text_done >> send_audio_done) s)
          (finalize_response cancelled reason)
          (continue-IsStuck (send_text_done s) send_audio_done (text-IsStuck s h) audio-IsStuck)
          (finalize-IsStuck cancelled reason))

stopped-IsStuck :
    (d i : Bool) (reason : ResponseReason) (s : VoicePipeline) (t : ResponseTask)
    → t.phase ≡ unstarted
    → Speaks d s.response
    → s.response_idle ≡ i
    → IsStuck d i (stop_task reason (some t) s).0
unfolding stop_task
stopped-IsStuck d i reason s t e speaks idle =
    subst
      (λ b.
        IsStuck d i
          (if b
            then settle reason (record s { response_task = none })
            else finally (swallow cancelled_handler >> settle reason) clear_response s).0)
      (sym (ap (λ p. same_phase p unstarted) e))
      (settle-IsStuck d i reason (record s { response_task = none }) (speaks, refl, idle))

refused_beside :
    (i : Bool) (r : Request) (s : VoicePipeline)
    → IsStuck false i s
    → (start_response r s).1 ≡ some value_error
unfolding start_response start_beside
refused_beside i r s h = by_response s.response h.0
  where
    by_response :
        (oc : Option ResponseContext) → Speaks false oc → (start_with oc r s).1 ≡ some value_error
    by_response none h = absurd h
    by_response (some c) h = ground (arith, h)

-- While a generation is current, a response of the model, not a spoken text, that is cancelled before its
-- task takes its first step stays active without a task, the idle flag stays as it was, and the next
-- request for a response is refused.
pub cancel_unstarted-IsStuck :
    (reason : ResponseReason) (s : VoicePipeline) (c : ResponseContext) (t : ResponseTask)
    (token : GenerationToken) (r : Request)
    → s.response ≡ some c
    → s.response_task ≡ some t
    → t.phase ≡ unstarted
    → s.cancellation.current ≡ some token
    → c.direct_speak ≡ false
    → let s' = (cancel_response reason none none s).0 in
      IsStuck false s.response_idle s' × ((start_response r s').1 ≡ some value_error)
cancel_unstarted-IsStuck reason s c t token r e et ep live speak =
    let stuck =
      cancel_stops (λ (x : VoicePipeline × Option Fault). IsStuck false s.response_idle x.0) reason
        s c t token e et live (stopped-IsStuck false s.response_idle reason _ t ep speak refl) in
    (stuck, refused_beside s.response_idle r (cancel_response reason none none s).0 stuck)
