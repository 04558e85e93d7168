-- ===== src/Pipeline/Frames/Requests.antt =====
-- services/gpu-service/src/hugging_voice_service/pipeline.py: the cancellations and the starts of responses keep
-- the frame.
use livekit_hugging_voice.Base.{
  ℕ, Bool, true, false, not, ◌&&◌, ◌||◌, Option, none, some, if◌then◌else◌,
}
use livekit_hugging_voice.Text.{Text}
use livekit_hugging_voice.AudioBuffer.{BoundedAudioBuffer}
use livekit_hugging_voice.Cancellation.{GenerationToken, GenerationCancellation}
use livekit_hugging_voice.Cancellation
use livekit_hugging_voice.Pipeline.{
  session_state_conflict, tool_call_state_conflict, cancelled, ResponseReason, ResponseContext,
  unstarted, ResponseTask, Deferred, after_direct_speak, after_announcement, TurnCandidate,
  response_created, value_error, rejected, VoicePipeline, ◌>>◌, modify, send, send_error,
}
use livekit_hugging_voice.Pipeline.Responses.{
  is_some, send_text_done, send_audio_done, finalize_response, cancelled_handler, same_phase,
  settle_of, settle, stop_task, cancel_context, names_other, cancel_of, cancel_response, Request,
  new_context, new_task, activate, schedule, begin_response, freeze_tools, ensure_turn,
  start_beside, start_with, start_response, turn_is_current, start_tool_call_response,
  start_response_after_direct_speak, run_deferred, deferred_wakes,
}
use livekit_hugging_voice.Pipeline.Frames.{
  Keeps, if-Keeps, continue-Keeps, caught-Keeps, on-Keeps, send-Keeps, error-Keeps, finalize-Keeps,
  spoken-Keeps, cancelled-Keeps,
}

module _
    (V : Bool
      → Bool
      → BoundedAudioBuffer
      → Option ℕ
      → ℕ
      → Option TurnCandidate
      → Option TurnCandidate
      → Type 0) where
  settle-Keeps :
      (reason : ResponseReason) (s : VoicePipeline) → Keeps V s → Keeps V (settle reason s).0
  unfolding settle settle_of
  settle-Keeps reason s h = on-Keeps V s.response (settle_of reason) s h λ c.
      if-Keeps V c.finalized (s, none) _ (λ e. h)
        (λ e.
          continue-Keeps V ((send_text_done >> send_audio_done) s)
            (finalize_response cancelled reason) (spoken-Keeps V s h)
            (finalize-Keeps V cancelled reason))

  stop-Keeps :
      (reason : ResponseReason) (ot : Option ResponseTask) (s : VoicePipeline)
      → Keeps V s
      → Keeps V (stop_task reason ot s).0
  unfolding stop_task
  stop-Keeps reason none s h = settle-Keeps reason s h
  stop-Keeps reason (some t) s h =
      if-Keeps V (same_phase t.phase unstarted) _ _
        (λ e. settle-Keeps reason (record s { response_task = none }) h)
        (λ e. settle-Keeps reason (cancelled_handler s).0 (cancelled-Keeps V s h))

  cancel_context-Keeps :
      (reason : ResponseReason) (c : ResponseContext)
      (y : GenerationCancellation × Option GenerationToken) (s : VoicePipeline)
      → Keeps V s
      → Keeps V (cancel_context reason c y s).0
  cancel_context-Keeps reason c (x, none) s h = h
  cancel_context-Keeps reason c (x, some token) s h =
      stop-Keeps reason s.response_task
        (record s { cancellation = x; response = some (record c { cancel_reason = reason }) }) h

  pub cancel-Keeps :
      (reason : ResponseReason) (g r : Option Text) (s : VoicePipeline)
      → Keeps V s
      → Keeps V (cancel_response reason g r s).0
  unfolding cancel_response cancel_of
  cancel-Keeps reason g r s h = on-Keeps V s.response (cancel_of reason g r) s h λ c.
      if-Keeps V (names_other r c) (s, some value_error) _ (λ e. h)
        (λ e. cancel_context-Keeps reason c (Cancellation.cancel g s.cancellation) s h)

  begin-Keeps : (r : Request) (s : VoicePipeline) → Keeps V s → Keeps V (begin_response r s).0
  unfolding begin_response
  begin-Keeps r s h =
      let event = response_created (new_context r s) in
      continue-Keeps V (send event (activate (new_context r s) s)) (modify (schedule (new_task r)))
        (send-Keeps V event (activate (new_context r s) s) h) (λ u k. k)

  -- `_start_response` opens a turn where there is none
  module _
      (mono : (smart turn : Bool) (b : BoundedAudioBuffer) (start : Option ℕ) (id : ℕ)
          (ct ft : Option TurnCandidate)
        → V smart turn b start id ct ft
        → V smart true b start id ct ft) where
    ensured-Keeps : (ot : Option Text) (s : VoicePipeline) → Keeps V s → Keeps V (ensure_turn ot s)
    unfolding ensure_turn
    ensured-Keeps none s h = mono _ _ _ _ _ _ _ h
    ensured-Keeps (some t) s h = h

    frozen-Keeps : (r : Request) (s : VoicePipeline) → Keeps V s → Keeps V (freeze_tools r s)
    unfolding freeze_tools
    frozen-Keeps r s h = by_flag (is_some r.direct_text)
      where
        by_flag : (b : Bool) → Keeps V (if b then s else record s { tools_frozen = true })
        by_flag true = h
        by_flag false = h

    start_with-Keeps :
        (oc : Option ResponseContext) (r : Request) (s : VoicePipeline)
        → Keeps V s
        → Keeps V (start_with oc r s).0
    unfolding start_beside
    start_with-Keeps (some c) r s h =
        if-Keeps V (not (is_some r.direct_text) && c.direct_speak) _ (s, some value_error)
          (λ e.
            if-Keeps V (is_some s.deferred_response) (s, some (rejected session_state_conflict)) _
              (λ e. h) (λ e. h))
          (λ e. h)
    start_with-Keeps none r s h =
        if-Keeps V (not (is_some r.direct_text) && is_some s.pending_call)
          (s, some (rejected tool_call_state_conflict)) _ (λ e. h)
          (λ e.
            begin-Keeps r (ensure_turn s.current_turn_id (freeze_tools r s))
              (ensured-Keeps s.current_turn_id (freeze_tools r s) (frozen-Keeps r s h)))

    pub start-Keeps : (r : Request) (s : VoicePipeline) → Keeps V s → Keeps V (start_response r s).0
    unfolding start_response
    start-Keeps r s h = start_with-Keeps s.response r s h

    run_deferred-Keeps :
        (d : Option Deferred) (s : VoicePipeline) → Keeps V s → Keeps V (run_deferred d s).0
    unfolding start_tool_call_response start_response_after_direct_speak
    run_deferred-Keeps none s h = h
    run_deferred-Keeps (some (after_announcement c call)) s h =
        if-Keeps V (s.draining || not (turn_is_current c s) || is_some s.response) _ _ (λ e. h)
          (λ e. start-Keeps _ s h)
    run_deferred-Keeps (some (after_direct_speak i t c)) s h =
        if-Keeps V s.draining _ _ (λ e. h)
          (λ e.
            caught-Keeps V (start_response _ s) (send_error tool_call_state_conflict)
              (start-Keeps _ s h) (error-Keeps V tool_call_state_conflict))

    pub deferred-Keeps : (s : VoicePipeline) → Keeps V s → Keeps V (deferred_wakes s).0
    unfolding deferred_wakes
    deferred-Keeps s h =
        if-Keeps V s.response_idle (run_deferred s.deferred_response s) (s, none)
          (λ e. run_deferred-Keeps s.deferred_response s h) (λ e. h)
