-- ===== src/Pipeline/Tasks.antt =====
-- services/gpu-service/src/hugging_voice_service/pipeline.py: each stretch of a response's task, and each
-- frame of its synthesis, keeps the flags and the events of the response in step.
use livekit_hugging_voice.Base.{
  ◌≡◌, refl, sym, ap, subst, ◌∙◌, ◌⊎◌, inl, inr, Bool, true, false, Option, none, some, ◌++◌, arith,
  if◌then◌else◌,
}
use livekit_hugging_voice.Text.{text_eq_refl}
use livekit_hugging_voice.Cancellation.{GenerationToken}
use livekit_hugging_voice.Pipeline.{
  ErrorCode, model_failure, completed, by_tool_call, ToolCall, Streamed, text_delta, tool_call,
  text_usage, ResponseContext, ResponseTask, Phase, unstarted, streaming, speaking, Event,
  output_text_delta, function_call_done, Fault, VoicePipeline, Run, send,
}
use livekit_hugging_voice.Pipeline.Responses.{
  with_context, on_response, finalize_response, is_some, fail_response, end_cancelled, goes_on,
  ends, same_phase, resumed, issued_call, emit_of, emit_tool_call, is_live, take_streamed,
  streamed_of, stream_yields, stream_fails,
}
use livekit_hugging_voice.Pipeline.Follows.{Progress, follow}
use livekit_hugging_voice.Pipeline.Stages.{
  IsBlocked, Flags, Agrees, At, Brings, made, then-Brings, finalize_first, blocked_anyhow,
  send-frame, At-with, delta-Brings,
}
use livekit_hugging_voice.Pipeline.Orderly.{
  stage, HasSpeech, Fits, IsSound, IsFinal, Brings-IsFinal, cleared-IsSound, IsAt, fail-IsSound,
  end_cancelled-IsSound, goes_on-IsSound,
}

pub same_phase_eq : (p q : Phase) → same_phase p q ≡ true → p ≡ q
same_phase_eq unstarted unstarted e = refl
same_phase_eq streaming streaming e = refl
same_phase_eq speaking speaking e = refl
same_phase_eq unstarted streaming e = ground arith
same_phase_eq unstarted speaking e = ground arith
same_phase_eq streaming unstarted e = ground arith
same_phase_eq streaming speaking e = ground arith
same_phase_eq speaking unstarted e = ground arith
same_phase_eq speaking streaming e = ground arith

pub if-IsSound :
    (b : Bool) (x y : VoicePipeline × Option Fault)
    → (b ≡ true → IsSound x.0)
    → (b ≡ false → IsSound y.0)
    → IsSound (if b then x else y).0
if-IsSound true x y h k = h refl
if-IsSound false x y h k = k refl

pub resumed-IsSound :
    (p : Phase) (s : VoicePipeline) (f : ResponseTask → ResponseContext → Run)
    → IsSound s
    → ((t : ResponseTask) (c : ResponseContext)
        → s.response_task ≡ some t
        → s.response ≡ some c
        → t.phase ≡ p
        → IsSound (f t c s).0)
    → IsSound (resumed p s.response_task s.response f s).0
resumed-IsSound p s f h k = by_cases s.response_task s.response refl refl
  where
    by_cases :
        (ot : Option ResponseTask) (oc : Option ResponseContext)
        → s.response_task ≡ ot
        → s.response ≡ oc
        → IsSound (resumed p ot oc f s).0
    by_cases none oc et ec = h
    by_cases (some t) none et ec = h
    by_cases (some t) (some c) et ec =
        if-IsSound (same_phase t.phase p) (f t c s) (s, none)
          (λ e. k t c et ec (same_phase_eq t.phase p e)) (λ e. h)

-- at any stage the flags fit what was sent, and with the transport blocked at every one
pub stage_of :
    (s : VoicePipeline) (t : ResponseTask) (c : ResponseContext)
    → s.response_task ≡ some t
    → s.response ≡ some c
    → IsSound s
    → At (stage t.phase) s × (IsBlocked s ⊎ HasSpeech t)
stage_of s t c et ec h = elim h.fits [
  | inl b ↦ (record { last = h.last; reached = h.reached; agrees = inl b }, inl b)
  | inr f ↦
      let f' : Fits h.last (some t) (some c) s.cancellation.current =
        subst (λ ot. Fits h.last ot (some c) s.cancellation.current) et
          (subst (λ oc. Fits h.last s.response_task oc s.cancellation.current) ec f) in
      (
        record {
          last = h.last;
          reached = h.reached;
          agrees = inr (subst (Agrees (stage t.phase) h.last) (sym ec) f'.0);
        },
        inr f'.1,
      )
]

-- a task before its speech, whose transport takes events or not
pub silent-At :
    (s : VoicePipeline) (t : ResponseTask) (c : ResponseContext) (p : Phase)
    → s.response_task ≡ some t
    → s.response ≡ some c
    → t.phase ≡ p
    → stage p ≡ made false false false
    → IsSound s
    → At (made false false false) s
silent-At s t c p et ec ep es h = subst (λ f. At f s) (ap stage ep ∙ es) (stage_of s t c et ec h).0

pub IsAt-silent : (s : VoicePipeline) → At (made false false false) s → IsAt false s
IsAt-silent s h = (h, λ e. ground arith)

pub IsAt-blocked : (f : Flags) (s : VoicePipeline) → At f s → IsBlocked s → IsAt false s
IsAt-blocked f s h b = IsAt-silent s (blocked_anyhow f (made false false false) s h b)

pub stream_fails-IsSound :
    (code : ErrorCode) (s : VoicePipeline) → IsSound s → IsSound (stream_fails code s).0
unfolding stream_fails
stream_fails-IsSound code s h =
    resumed-IsSound streaming s (λ t c. fail_response code) h
      λ t c et ec ep.
        fail-IsSound false code s (IsAt-silent s (silent-At s t c streaming et ec ep refl h))

-- the stage decides whether the flags fit
pub stage-Fits :
    (p : Option Progress) (t : ResponseTask) (oc : Option ResponseContext)
    (current : Option GenerationToken)
    → Agrees (stage t.phase) p oc
    → HasSpeech t
    → Fits p (some t) oc current
stage-Fits p t none current a speech = a
stage-Fits p t (some c) current a speech = (a, speech)

pub build :
    (s : VoicePipeline) (t : ResponseTask)
    → s.response_task ≡ some t
    → At (stage t.phase) s
    → IsBlocked s ⊎ HasSpeech t
    → IsSound s
build s t et h k = record {
  last = h.last;
  reached = h.reached;
  fits = elim h.agrees [
    | inl b ↦ inl b
    | inr a ↦ elim k [
      | inl b ↦ inl b
      | inr speech ↦ inr (
          subst (λ ot. Fits h.last ot s.response s.cancellation.current) (sym et)
            (stage-Fits h.last t s.response s.cancellation.current a speech))
    ]
  ];
}

pub Brings-none :
    (f : Flags) (x : VoicePipeline × Option Fault) → Brings f x → x.1 ≡ none → At f x.0
Brings-none f (s, none) h e = h
Brings-none f (s, some x) h e = h.0

pub Brings-some :
    (f : Flags) (x : VoicePipeline × Option Fault) (e : Fault)
    → Brings f x
    → x.1 ≡ some e
    → IsAt false x.0
Brings-some f (s, none) e h k = ground arith
Brings-some f (s, some x) e h k = IsAt-blocked f s h.0 h.1

-- a send that keeps the stage, and ends a stretch
pub sent-IsSound :
    (event : Event) (s : VoicePipeline) (t : ResponseTask)
    → s.response_task ≡ some t
    → HasSpeech t
    → Brings (stage t.phase) (send event s)
    → IsSound (goes_on (send event s)).0
sent-IsSound event s t et speech h =
    goes_on-IsSound false (send event s)
      (λ e.
        build (send event s).0 t ((send-frame event s).0 ∙ et)
          (Brings-none (stage t.phase) (send event s) h e) (inr speech))
      (λ x e. Brings-some (stage t.phase) (send event s) x h e)

pub not_speaking : (t : ResponseTask) (p : Phase) → t.phase ≡ p → (p ≡ speaking → ⊥) → HasSpeech t
not_speaking t p e k s = absurd (k (sym e ∙ s))

pub staged :
    (t : ResponseTask) (p : Phase) (s : VoicePipeline)
    → t.phase ≡ p
    → At (stage p) s
    → At (stage t.phase) s
staged t p s e h = subst (λ q. At (stage q) s) (sym e) h

take_streamed-IsSound :
    (event : Streamed) (t : ResponseTask) (c : ResponseContext) (s : VoicePipeline)
    → s.response_task ≡ some t
    → s.response ≡ some c
    → t.phase ≡ streaming
    → At (made false false false) s
    → IsSound (take_streamed event t c s).0
unfolding take_streamed follow
take_streamed-IsSound (text_usage u) t c s et ec ep h =
    build (with_context (record c { usage = some u }) s) t et
      (staged t streaming (with_context (record c { usage = some u }) s) ep (
        At-with (made false false false) s c (record c { usage = some u }) s.response_task ec
          (λ p a. a) h))
      (inr (not_speaking t streaming ep (λ e. ground arith)))
take_streamed-IsSound (tool_call call) t c s et ec ep h =
    let t' = record t { function_call = some call } in
    let s' = record s { response_task = some t' } in
    if-IsSound (is_some t.function_call) (fail_response model_failure s) (s', none)
      (λ e. fail-IsSound false model_failure s (IsAt-silent s h))
      (λ e.
        build s' t' refl (staged t' streaming s' ep h)
          (inr (not_speaking t' streaming ep (λ e. ground arith))))
take_streamed-IsSound (text_delta delta) t c s et ec ep h =
    let c' = record c { text = c.text ++ delta } in
    let t' = record t { tts_started = true } in
    let s' = record s { response = some c'; response_task = some t' } in
    let event = output_text_delta c' delta in
    sent-IsSound event s' t' refl (not_speaking t' streaming ep (λ e. ground arith)) (
      subst (λ q. Brings (stage q) (send event s')) (sym ep)
        (delta-Brings event (made false false false) s' c' refl
          (rw (text_eq_refl c.response_id) refl)
          (At-with (made false false false) s c c' (some t') ec (λ p a. a) h)))

streamed_of-IsSound :
    (event : Streamed) (t : ResponseTask) (c : ResponseContext) (s : VoicePipeline)
    → s.response_task ≡ some t
    → s.response ≡ some c
    → t.phase ≡ streaming
    → At (made false false false) s
    → IsSound (streamed_of event t c s).0
unfolding streamed_of
streamed_of-IsSound event t c s et ec ep h =
    if-IsSound (is_live s c) (take_streamed event t c s) (end_cancelled s)
      (λ e. take_streamed-IsSound event t c s et ec ep h)
      (λ e. end_cancelled-IsSound false s (IsAt-silent s h))

pub stream_yields-IsSound :
    (event : Streamed) (s : VoicePipeline) → IsSound s → IsSound (stream_yields event s).0
unfolding stream_yields
stream_yields-IsSound event s h = resumed-IsSound streaming s (streamed_of event) h λ t c et ec ep.
    streamed_of-IsSound event t c s et ec ep (silent-At s t c streaming et ec ep refl h)

pub ends-IsSound :
    (x : VoicePipeline × Option Fault)
    → (x.1 ≡ none → IsFinal x.0)
    → ((e : Fault) → x.1 ≡ some e → IsSound (fail_response model_failure x.0).0)
    → IsSound (ends x).0
ends-IsSound (s, none) h k = cleared-IsSound s (h refl)
ends-IsSound (s, some e) h k = k e refl

-- `_emit_tool_call` before any speech
emit-Brings :
    (call : ToolCall) (c : ResponseContext) (s : VoicePipeline)
    → s.response ≡ some c
    → At (made false false false) s
    → Brings (made false false true) (emit_of call c s)
unfolding emit_of finalize_response follow
emit-Brings call c s ec h =
    let s' = record s { pending_call = some (issued_call c call) } in
    let event = function_call_done c (issued_call c call) in
    then-Brings (made false false true) (send event s') (made false false false)
      (finalize_response completed by_tool_call)
      (delta-Brings event (made false false false) s' c ec (rw (text_eq_refl c.response_id) refl) h)
      (λ u h'. finalize_first u false completed by_tool_call u.response refl h')

pub emit_tool_call-Brings :
    (call : ToolCall) (c : ResponseContext) (s : VoicePipeline)
    → s.response ≡ some c
    → At (made false false false) s
    → Brings (made false false true) (emit_tool_call call s)
unfolding emit_tool_call
emit_tool_call-Brings call c s ec h =
    subst (λ oc. Brings (made false false true) (on_response oc (emit_of call) s)) (sym ec)
      (emit-Brings call c s ec h)

pub ended_with_call-IsSound :
    (call : ToolCall) (c : ResponseContext) (s : VoicePipeline)
    → s.response ≡ some c
    → At (made false false false) s
    → IsSound (ends (emit_tool_call call s)).0
ended_with_call-IsSound call c s ec h =
    let b = emit_tool_call-Brings call c s ec h in
    ends-IsSound (emit_tool_call call s) (λ e. Brings-IsFinal false false (emit_tool_call call s) b)
      (λ x e.
        fail-IsSound false model_failure (emit_tool_call call s).0
          (Brings-some (made false false true) (emit_tool_call call s) x b e))
