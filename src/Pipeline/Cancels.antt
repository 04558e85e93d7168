-- ===== src/Pipeline/Cancels.antt =====
-- services/gpu-service/src/hugging_voice_service/pipeline.py: the frames of the synthesis, and the
-- cancellation of a response, at every stage of its task.
use livekit_hugging_voice.Base.{
  ap, ℕ, ◌+◌, ◌≡◌, refl, sym, subst, ◌∙◌, inl, inr, true, false, Option, none, some, List, arith,
  Option-cases,
}
use livekit_hugging_voice.Text.{text_eq_refl}
use livekit_hugging_voice.Cancellation.{GenerationToken, GenerationCancellation, is_current}
use livekit_hugging_voice.Pipeline.{
  ResponseContext, ResponseTask, Phase, unstarted, streaming, speaking, Event, output_audio_delta,
  Fault, transport_refused, VoicePipeline, Run, continue, ◌>>◌, modify, send,
}
use livekit_hugging_voice.Pipeline.Responses.{
  with_context, on_response, frame_of, send_frame, is_live,
}
use livekit_hugging_voice.Pipeline.Follows.{follow}
use livekit_hugging_voice.Pipeline.Stages.{
  IsBlocked, progress_of, Brings, send-cases, send-frame, At-with, delta-Brings,
}
use livekit_hugging_voice.Pipeline.Orderly.{stage, HasSpeech, Fits, IsSound}
use livekit_hugging_voice.Pipeline.Tasks.{if-IsSound, stage_of, build}

not_live :
    (c : GenerationCancellation) (token : GenerationToken)
    → c.current ≡ none
    → is_current c token ≡ false
unfolding is_current
not_live c token e = rw e refl

blocked_send :
    (event : Event) (s : VoicePipeline) → IsBlocked s → send event s ≡ (s, some transport_refused)
blocked_send event s b = elim (send-cases event s) [
  | inl (refused, blocked) ↦
      refused ∙ ap (λ r. (record s { refused = r }, some transport_refused)) (sym b.0)
  | inr (left, took, free) ↦ absurd (free b)
]

frame_fits :
    (frame : List ℕ) (c : ResponseContext) (p : Phase)
    → follow (some (progress_of (stage p) c)) (output_audio_delta c c.audio_sequence frame)
      ≡ some (some (progress_of (stage p) c))
unfolding follow
frame_fits frame c unstarted = rw (text_eq_refl c.response_id) refl
frame_fits frame c streaming = rw (text_eq_refl c.response_id) refl
frame_fits frame c speaking = rw (text_eq_refl c.response_id) refl

abbrev counted : ResponseContext → VoicePipeline → VoicePipeline
counted c = with_context (record c { audio_sequence = c.audio_sequence + 1 })

counted-IsSound :
    (x : VoicePipeline × Option Fault) (t : ResponseTask) (c : ResponseContext)
    → Brings (stage t.phase) x
    → x.0.response_task ≡ some t
    → x.0.response ≡ some c
    → HasSpeech t
    → IsSound (continue x (modify (counted c))).0
counted-IsSound (s, none) t c h et ec speech =
    build (counted c s) t et
      (At-with (stage t.phase) s c (record c { audio_sequence = c.audio_sequence + 1 })
        s.response_task ec (λ p a. a) h)
      (inr speech)
counted-IsSound (s, some e) t c h et ec speech = build s t et h.0 (inl h.1)

-- a frame is sent at a stage that has no audio done, and counted
frame_sent :
    (frame : List ℕ) (s : VoicePipeline) (t : ResponseTask) (c : ResponseContext)
    → s.response_task ≡ some t
    → s.response ≡ some c
    → IsSound s
    → IsSound ((send (output_audio_delta c c.audio_sequence frame) >> modify (counted c)) s).0
frame_sent frame s t c et ec h =
    let event = output_audio_delta c c.audio_sequence frame in
    let (at, k) = stage_of s t c et ec h in
    elim k [
      | inl b ↦
          subst (λ (x : VoicePipeline × Option Fault). IsSound (continue x (modify (counted c))).0)
            (sym (blocked_send event s b)) h
      | inr speech ↦
          counted-IsSound (send event s) t c
            (delta-Brings event (stage t.phase) s c ec (frame_fits frame c t.phase) at)
            ((send-frame event s).0 ∙ et) ((send-frame event s).1 ∙ ec) speech
    ]

-- A context whose task has ended is not live, unless the transport takes nothing.
frame_without_task :
    (frame : List ℕ) (s : VoicePipeline) (c : ResponseContext)
    → s.response_task ≡ none
    → s.response ≡ some c
    → is_live s c ≡ true
    → IsSound s
    → IsSound ((send (output_audio_delta c c.audio_sequence frame) >> modify (counted c)) s).0
frame_without_task frame s c et ec live h = elim h.fits [
  | inl b ↦
      subst (λ (x : VoicePipeline × Option Fault). IsSound (continue x (modify (counted c))).0)
        (sym (blocked_send (output_audio_delta c c.audio_sequence frame) s b)) h
  | inr f ↦
      let f' : Fits h.last none (some c) s.cancellation.current =
        subst (λ ot. Fits h.last ot (some c) s.cancellation.current) et
          (subst (λ oc. Fits h.last s.response_task oc s.cancellation.current) ec f) in
      absurd (let dead = not_live s.cancellation c.token f'.1 in ground arith)
]

frame_of-IsSound :
    (frame : List ℕ) (c : ResponseContext) (s : VoicePipeline)
    → s.response ≡ some c
    → IsSound s
    → IsSound (frame_of frame c s).0
unfolding frame_of
frame_of-IsSound frame c s ec h =
    if-IsSound (is_live s c)
      ((send (output_audio_delta c c.audio_sequence frame) >> modify (counted c)) s) (s, none)
      (λ live. elim (Option-cases s.response_task) [
        | inl et ↦ frame_without_task frame s c et ec live h
        | inr (t, et) ↦ frame_sent frame s t c et ec h
      ])
      (λ e. h)

pub on_response-IsSound :
    (s : VoicePipeline) (f : ResponseContext → Run)
    → IsSound s
    → ((c : ResponseContext) → s.response ≡ some c → IsSound (f c s).0)
    → IsSound (on_response s.response f s).0
on_response-IsSound s f h k = elim (Option-cases s.response) [
  | inl e ↦ subst (λ oc. IsSound (on_response oc f s).0) (sym e) h
  | inr (c, e) ↦ subst (λ oc. IsSound (on_response oc f s).0) (sym e) (k c e)
]

pub send_frame-IsSound :
    (frame : List ℕ) (s : VoicePipeline) → IsSound s → IsSound (send_frame frame s).0
unfolding send_frame
send_frame-IsSound frame s h =
    on_response-IsSound s (frame_of frame) h (λ c e. frame_of-IsSound frame c s e h)
