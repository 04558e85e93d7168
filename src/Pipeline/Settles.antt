-- ===== src/Pipeline/Settles.antt =====
-- services/gpu-service/src/hugging_voice_service/pipeline.py: `_cancel_response` at every stage of the
-- response's task.
use livekit_hugging_voice.Base.{
  ◌≡◌, refl, sym, ap, subst, ◌∙◌, inl, inr, Bool, true, false, Option, none, some, arith,
  Option-cases,
}
use livekit_hugging_voice.Cancellation
use livekit_hugging_voice.Text.{Text}
use livekit_hugging_voice.Cancellation.{GenerationToken, GenerationCancellation, is_current}
use livekit_hugging_voice.Pipeline.{
  ResponseStatus, cancelled, ResponseReason, ResponseContext, ResponseTask, unstarted, Event,
  output_text_done, output_audio_done, response_done, Fault, value_error, VoicePipeline, Run,
  continue, ◌>>◌, modify, swallow, finally, send,
}
use livekit_hugging_voice.Pipeline.Responses.{
  with_context, on_response, text_done_of, send_text_done, audio_done_of, send_audio_done, or_else,
  no_usage, finish_token, finalize_of, finalize_response, clear_response, both_done, owes_speech,
  reason_of, cancelled_handler, settle_of, settle, stop_task, cancel_context, cancel_of,
  cancel_response, names_other, same_phase,
}
use livekit_hugging_voice.Pipeline.Follows.{Progress}
use livekit_hugging_voice.Pipeline.Stages.{
  Agrees, At, made, blocked_anyhow, no_response, send-frame,
}
use livekit_hugging_voice.Pipeline.Orderly.{
  Fits, IsSound, IsFinal, Brings-IsFinal, cleared-IsSound, closing-Brings, IsAt,
}
use livekit_hugging_voice.Pipeline.Tasks.{same_phase_eq, if-IsSound, silent-At}
use livekit_hugging_voice.Pipeline.Endings.{Brings-At, stopping-IsAt}
use livekit_hugging_voice.Pipeline.Cancels.{on_response-IsSound}

-- `_cancel_response` ends what the handler left open, and nothing where the response is final
settle_open :
    (reason : ResponseReason) (s : VoicePipeline) (oc : Option ResponseContext)
    → s.response ≡ oc
    → At (made false false false) s
    → At (made true true true) (on_response oc (settle_of reason) s).0
unfolding settle_of
settle_open reason s none e h =
    blocked_anyhow (made false false false) (made true true true) s h (no_response _ s e h)
settle_open reason s (some c) e h =
    let ended =
      Brings-At (made true true true) ((both_done true >> finalize_response cancelled reason) s)
        (closing-Brings true false cancelled reason s (λ e. refl) h) in
    ground (arith, ended, already)
  where
    already : c.finalized ≡ true → At (made true true true) s
    already final = elim h.agrees [
      | inl b ↦ blocked_anyhow (made false false false) (made true true true) s h b
      | inr a ↦ absurd (
          let a' : Agrees (made false false false) h.last (some c) =
            subst (Agrees (made false false false) h.last) e a in
          ground (arith, a'.2, final))
    ]

settle_late :
    (w : Bool) (reason : ResponseReason) (s : VoicePipeline) (oc : Option ResponseContext)
    → s.response ≡ oc
    → At (made w w true) s
    → IsFinal (on_response oc (settle_of reason) s).0
unfolding settle_of
settle_late w reason s none e h = Brings-IsFinal w w (s, none) h
settle_late w reason s (some c) e h = ground (arith, Brings-IsFinal w w (s, none) h, reopened)
  where
    reopened :
        c.finalized ≡ false → IsFinal ((both_done true >> finalize_response cancelled reason) s).0
    reopened open_ = elim h.agrees [
      | inl b ↦
          Brings-IsFinal true true ((both_done true >> finalize_response cancelled reason) s) (
            closing-Brings true false cancelled reason s (λ e. refl)
              (blocked_anyhow (made w w true) (made false false false) s h b))
      | inr a ↦ absurd (
          let a' : Agrees (made w w true) h.last (some c) =
            subst (Agrees (made w w true) h.last) e a in
          ground (arith, a'.2, open_))
    ]

-- no task, and no current generation
abbrev IsQuiet : VoicePipeline → Type 0
IsQuiet s = (s.response_task ≡ none) × (s.cancellation.current ≡ none)

send-IsQuiet : (event : Event) (s : VoicePipeline) → IsQuiet s → IsQuiet (send event s).0
send-IsQuiet event s h =
    let (t, r, c) = send-frame event s in
    (t ∙ h.0, ap (λ (x : GenerationCancellation). x.current) c ∙ h.1)

continue-IsQuiet :
    (x : VoicePipeline × Option Fault) (k : Run)
    → IsQuiet x.0
    → ((u : VoicePipeline) → IsQuiet u → IsQuiet (k u).0)
    → IsQuiet (continue x k).0
continue-IsQuiet (s, none) k h keep = keep s h
continue-IsQuiet (s, some e) k h keep = h

finish-IsQuiet :
    (token : GenerationToken) (s : VoicePipeline) → IsQuiet s → IsQuiet (finish_token token s)
unfolding Cancellation.finish
finish-IsQuiet token s h = ground (arith, h.0, h.1)

text-IsQuiet :
    (s : VoicePipeline) (oc : Option ResponseContext)
    → IsQuiet s
    → IsQuiet (on_response oc text_done_of s).0
unfolding text_done_of
text-IsQuiet s none h = h
text-IsQuiet s (some c) h = ground (
  arith,
  send-IsQuiet (output_text_done (record c { text_done = true }))
      (with_context (record c { text_done = true }) s) h,
)

audio-IsQuiet :
    (s : VoicePipeline) (oc : Option ResponseContext)
    → IsQuiet s
    → IsQuiet (on_response oc audio_done_of s).0
unfolding audio_done_of
audio-IsQuiet s none h = h
audio-IsQuiet s (some c) h = ground (
  arith,
  send-IsQuiet (output_audio_done (record c { audio_done = true }))
      (with_context (record c { audio_done = true }) s) h,
)

finalize-IsQuiet :
    (status : ResponseStatus) (reason : ResponseReason) (s : VoicePipeline)
    (oc : Option ResponseContext)
    → IsQuiet s
    → IsQuiet (on_response oc (finalize_of status reason) s).0
unfolding finalize_of
finalize-IsQuiet status reason s none h = h
finalize-IsQuiet status reason s (some c) h =
    let s' = with_context (record c { finalized = true }) s in
    let event =
      response_done (record c { finalized = true }) status reason (or_else c.usage no_usage) in
    ground (
      arith,
      continue-IsQuiet (send event s') (modify (finish_token c.token)) (send-IsQuiet event s' h)
          (finish-IsQuiet c.token),
    )

settle-IsQuiet :
    (reason : ResponseReason) (s : VoicePipeline) (oc : Option ResponseContext)
    → IsQuiet s
    → IsQuiet (on_response oc (settle_of reason) s).0
unfolding settle_of send_text_done send_audio_done finalize_response
settle-IsQuiet reason s none h = h
settle-IsQuiet reason s (some c) h =
    let texted =
      continue-IsQuiet (send_text_done s) send_audio_done (text-IsQuiet s s.response h)
        (λ u k. audio-IsQuiet u u.response k) in
    let ended =
      continue-IsQuiet ((send_text_done >> send_audio_done) s) (finalize_response cancelled reason)
        texted (λ u k. finalize-IsQuiet cancelled reason u u.response k) in
    ground (arith, ended)

-- a response that is over without a task
over-Fits :
    (p : Option Progress) (oc : Option ResponseContext) (ot : Option ResponseTask)
    (current : Option GenerationToken)
    → ot ≡ none
    → current ≡ none
    → Agrees (made true true true) p oc
    → Fits p ot oc current
over-Fits p none ot current et e h = absurd h
over-Fits p (some c) ot current et e h = subst (λ ot. Fits p ot (some c) current) (sym et) (h.2, e)

quiet-IsSound : (s : VoicePipeline) → IsQuiet s → At (made true true true) s → IsSound s
quiet-IsSound s q h = record {
  last = h.last;
  reached = h.reached;
  fits = elim h.agrees [
    | inl b ↦ inl b
    | inr a ↦ inr (over-Fits h.last s.response s.response_task s.cancellation.current q.0 q.1 a)
  ];
}

-- the task never ran: what is open is settled, and the context stays
settle_unstarted :
    (reason : ResponseReason) (s : VoicePipeline)
    → IsQuiet s
    → At (made false false false) s
    → IsSound (settle reason s).0
unfolding settle
settle_unstarted reason s q h =
    quiet-IsSound (settle reason s).0 (settle-IsQuiet reason s s.response q)
      (settle_open reason s s.response refl h)

-- the handler ran: what it left open is settled, and the context is cleared
settle_started :
    (b : Bool) (reason : ResponseReason) (s : VoicePipeline)
    → IsAt b s
    → IsSound (finally (swallow cancelled_handler >> settle reason) clear_response s).0
unfolding settle cancelled_handler
settle_started b reason s h =
    let w = owes_speech s.response_task in
    let x = cancelled_handler s in
    cleared-IsSound (settle reason x.0).0 (
      settle_late w reason x.0 x.0.response refl (
        Brings-At (made w w true) x
          (closing-Brings w b cancelled (reason_of s.response) s h.1 h.0)))

stop_task-IsSound :
    (reason : ResponseReason) (s : VoicePipeline) (t : ResponseTask) (c : ResponseContext)
    → s.cancellation.current ≡ none
    → s.response_task ≡ some t
    → s.response ≡ some c
    → IsSound s
    → IsSound (stop_task reason (some t) s).0
unfolding stop_task
stop_task-IsSound reason s t c quiet et ec h =
    if-IsSound (same_phase t.phase unstarted) (settle reason (record s { response_task = none }))
      (finally (swallow cancelled_handler >> settle reason) clear_response s)
      (λ e.
        settle_unstarted reason (record s { response_task = none }) (refl, quiet)
          (silent-At s t c unstarted et ec (same_phase_eq t.phase unstarted e) refl h))
      (λ e. let (b, at) = stopping-IsAt s t c et ec h in settle_started b reason s at)

stop_none-IsSound :
    (reason : ResponseReason) (s : VoicePipeline) (c : ResponseContext)
    → s.cancellation.current ≡ none
    → s.response_task ≡ none
    → s.response ≡ some c
    → IsSound s
    → IsSound (settle reason s).0
unfolding settle settle_of
stop_none-IsSound reason s c quiet et ec h = elim h.fits [
  | inl b ↦
      settle_unstarted reason s (et, quiet)
        (record { last = h.last; reached = h.reached; agrees = inl b })
  | inr f ↦
      subst (λ oc. IsSound (on_response oc (settle_of reason) s).0) (sym ec)
        (let final =
            (subst (λ ot. Fits h.last ot (some c) s.cancellation.current) et
              (subst (λ oc. Fits h.last s.response_task oc s.cancellation.current) ec f)).0 in
          if-IsSound c.finalized (s, none)
            ((send_text_done >> send_audio_done >> finalize_response cancelled reason) s) (λ e. h)
            (λ e. absurd (ground arith)))
]

cancel_ends_current :
    (g : Option Text) (c : GenerationCancellation) (token : GenerationToken)
    → (Cancellation.cancel g c).1 ≡ some token
    → (Cancellation.cancel g c).0.current ≡ none
unfolding Cancellation.cancel
cancel_ends_current g c token e = ground (arith, Option-cases c.current)

-- with another reason and the token withdrawn, the flags fit as before
cancelled-IsSound :
    (reason : ResponseReason) (cancellation : GenerationCancellation) (s : VoicePipeline)
    (c : ResponseContext)
    → cancellation.current ≡ none
    → s.response ≡ some c
    → IsSound s
    → IsSound (record s {
      cancellation = cancellation;
      response = some (record c { cancel_reason = reason });
    })
cancelled-IsSound reason cancellation s c quiet ec h = record {
  last = h.last;
  reached = h.reached;
  fits = elim h.fits [
    | inl b ↦ inl b
    | inr f ↦ inr (
        refit s.response_task
          (subst (λ oc. Fits h.last s.response_task oc s.cancellation.current) ec f))
  ];
}
  where
    refit :
        (ot : Option ResponseTask)
        → Fits h.last ot (some c) s.cancellation.current
        → Fits h.last ot (some (record c { cancel_reason = reason })) cancellation.current
    refit none f = (f.0, quiet)
    refit (some t) f = f

stop_any-IsSound :
    (reason : ResponseReason) (s : VoicePipeline) (c : ResponseContext) (ot : Option ResponseTask)
    → s.cancellation.current ≡ none
    → s.response_task ≡ ot
    → s.response ≡ some c
    → IsSound s
    → IsSound (stop_task reason ot s).0
unfolding stop_task
stop_any-IsSound reason s c none quiet et ec h = stop_none-IsSound reason s c quiet et ec h
stop_any-IsSound reason s c (some t) quiet et ec h = stop_task-IsSound reason s t c quiet et ec h

cancel_context-IsSound :
    (reason : ResponseReason) (c : ResponseContext)
    (y : GenerationCancellation × Option GenerationToken) (s : VoicePipeline)
    → ((token : GenerationToken) → y.1 ≡ some token → y.0.current ≡ none)
    → s.response ≡ some c
    → IsSound s
    → IsSound (cancel_context reason c y s).0
cancel_context-IsSound reason c (cancellation, none) s k ec h = h
cancel_context-IsSound reason c (cancellation, some token) s k ec h =
    let c' = record c { cancel_reason = reason } in
    stop_any-IsSound reason (record s { cancellation = cancellation; response = some c' }) c'
      s.response_task (k token refl) refl refl
      (cancelled-IsSound reason cancellation s c (k token refl) ec h)

cancel_of-IsSound :
    (reason : ResponseReason) (g r : Option Text) (c : ResponseContext) (s : VoicePipeline)
    → s.response ≡ some c
    → IsSound s
    → IsSound (cancel_of reason g r c s).0
unfolding cancel_of
cancel_of-IsSound reason g r c s ec h =
    if-IsSound (names_other r c) (s, some value_error)
      (cancel_context reason c (Cancellation.cancel g s.cancellation) s) (λ e. h)
      (λ e.
        cancel_context-IsSound reason c (Cancellation.cancel g s.cancellation) s
          (cancel_ends_current g s.cancellation) ec h)

pub cancel_response-IsSound :
    (reason : ResponseReason) (g r : Option Text) (s : VoicePipeline)
    → IsSound s
    → IsSound (cancel_response reason g r s).0
unfolding cancel_response
cancel_response-IsSound reason g r s h =
    on_response-IsSound s (cancel_of reason g r) h (λ c e. cancel_of-IsSound reason g r c s e h)
