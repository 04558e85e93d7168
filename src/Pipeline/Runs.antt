-- ===== src/Pipeline/Runs.antt =====
-- services/gpu-service/src/hugging_voice_service/pipeline.py: the client's events, the drain, and the
-- order of all the events of a session.
use livekit_hugging_voice.Base.{
  ltb, ◌+◌, ℕ, ◌≡◌, refl, sym, ap, subst, ◌∙◌, ◌⊎◌, inl, inr, Bool, true, false, not, ◌&&◌, ◌||◌,
  Option, none, some, List, [], ◌∷◌, arith, if◌then◌else◌, Result, ok, err,
}
use livekit_hugging_voice.Text.{Text, text_eq}
use livekit_hugging_voice.AudioBuffer.{BoundedAudioBuffer}
use livekit_hugging_voice.Cancellation
use livekit_hugging_voice.Conversation.{
  Conversation, ConversationFault, user, is_empty, has_call, commit_tool_exchange,
}
use livekit_hugging_voice.Conversation
use livekit_hugging_voice.Pipeline.{
  unknown_tool_name, tool_call_state_conflict, unknown_tool_call_output, stale_tool_call_output,
  invalid_tool_configuration, by_client, by_transport_error, ResponseTask, ResponseContext,
  FunctionCallItem, session_updated, item_created, value_error, session_draining, session_mismatch,
  rejected, VoicePipeline, init, ◌>>◌, modify, send,
}
use livekit_hugging_voice.Pipeline.Responses.{or_else, cancel_response}
use livekit_hugging_voice.Pipeline.Speech.{clear_audio}
use livekit_hugging_voice.Pipeline.Items.{
  ConversationItem, message_item, call_item, output_item, CallOutputItem, same_item, knows_tool,
  reject, add_call, correlates, call_entry, output_entry, committed, add_output, add_item,
  is_busy_for, item_id, create_conversation_item,
}
use livekit_hugging_voice.Pipeline.Events.{
  SessionConfig, sort_tools, same_tools, same_flag, is_hearing, configured, update_session,
  ClientEvent, update, append_audio, commit, clear, create_item, create_response, speak, cancel,
  client_request, dispatch, keeps_replay, close_replay, handle_event, stop_tasks, reset_session,
  drain, Call, handles, hears, classifies, classify_fails, fallback, partial, transcribes,
  starts_task, yields, ends_stream, fails_stream, frame, ends_speech, fails_speech, wakes_deferred,
  drains, delivers, closes, deliver, perform, step, run,
}
use livekit_hugging_voice.Pipeline.Follows.{Progress, is_over, follow, follow_all, progress}
use livekit_hugging_voice.Pipeline.Stages.{Blocks}
use livekit_hugging_voice.Pipeline.Orderly.{Fits, IsSound}
use livekit_hugging_voice.Pipeline.Tasks.{if-IsSound, stream_yields-IsSound, stream_fails-IsSound}
use livekit_hugging_voice.Pipeline.Settles.{cancel_response-IsSound}
use livekit_hugging_voice.Pipeline.Starts.{
  start_response-IsSound, neutral-IsSound, continue-IsSound, deferred_wakes-IsSound,
}
use livekit_hugging_voice.Pipeline.Speaking.{stream_ends-IsSound, task_starts-IsSound}
use livekit_hugging_voice.Pipeline.Endings.{speech_ends-IsSound, speech_fails-IsSound}
use livekit_hugging_voice.Pipeline.Cancels.{send_frame-IsSound}
use livekit_hugging_voice.Pipeline.Histories.{
  close-IsSound, candidate_classified-IsSound, candidate_fails-IsSound, fallback_wakes-IsSound,
}
use livekit_hugging_voice.Pipeline.Ordered.{
  hear_audio-IsSound, partial-IsSound, receive_audio-IsSound, commit_audio-IsSound,
  remember-IsSound, turn_transcribed-IsSound,
}

committed-IsSound :
    (s : VoicePipeline) (r : Result ConversationFault Conversation)
    → IsSound s
    → IsSound (committed s r).0
committed-IsSound s (ok c) h = h
committed-IsSound s (err e) h = h

add_call-IsSound :
    (item : FunctionCallItem) (op : Option FunctionCallItem) (s : VoicePipeline)
    → IsSound s
    → IsSound (add_call item op s).0
unfolding add_call
add_call-IsSound item none s h =
    if-IsSound (not s.context_replay_open || s.tools_frozen) (reject tool_call_state_conflict s) _
      (λ e. h)
      (λ e.
        if-IsSound (not (knows_tool item.name s.tools)) (reject unknown_tool_name s) _ (λ e. h)
          (λ e. h))
add_call-IsSound item (some p) s h =
    if-IsSound (same_item item p) (s, none) (reject tool_call_state_conflict s) (λ e. h) (λ e. h)

add_output-IsSound :
    (item : CallOutputItem) (op : Option FunctionCallItem) (s : VoicePipeline)
    → IsSound s
    → IsSound (add_output item op s).0
unfolding add_output
add_output-IsSound item none s h = h
add_output-IsSound item (some p) s h =
    if-IsSound (not (text_eq item.call_id p.call_id)) (reject unknown_tool_call_output s) _ (λ e. h)
      (λ e.
        if-IsSound (not (text_eq item.name p.name)) (reject tool_call_state_conflict s) _ (λ e. h)
          (λ e.
            if-IsSound (not (correlates item p)) (reject stale_tool_call_output s) _ (λ e. h)
              (λ e.
                committed-IsSound s
                  (commit_tool_exchange (call_entry p) (output_entry item) s.conversation) h)))

add_item-IsSound :
    (item : ConversationItem) (s : VoicePipeline) → IsSound s → IsSound (add_item item s).0
unfolding add_item
add_item-IsSound (message_item m) s h =
    remember-IsSound s (Conversation.append m.id m.role m.content s.conversation) h
add_item-IsSound (call_item c) s h = add_call-IsSound c s.pending_call s h
add_item-IsSound (output_item o) s h = add_output-IsSound o s.pending_call s h

create_item-IsSound :
    (item : ConversationItem) (s : VoicePipeline)
    → IsSound s
    → IsSound (create_conversation_item item s).0
unfolding create_conversation_item follow
create_item-IsSound item s h =
    if-IsSound (is_busy_for s.response item) (reject tool_call_state_conflict s)
      ((add_item item >> send (item_created (item_id item))) s) (λ e. h)
      (λ e.
        continue-IsSound (add_item item s) (send (item_created (item_id item)))
          (add_item-IsSound item s h)
          (λ u k. neutral-IsSound (item_created (item_id item)) u (λ p. refl) k))

update-IsSound :
    (id : Text) (config : SessionConfig) (s : VoicePipeline)
    → IsSound s
    → IsSound (update_session id config s).0
unfolding update_session follow
update-IsSound id config s h =
    if-IsSound (not config.resolved) (s, some value_error) _ (λ e. h)
      (λ e.
        if-IsSound (s.tools_frozen && not (same_tools (sort_tools config.tools) s.tools))
          (s, some (rejected invalid_tool_configuration)) _ (λ e. h)
          (λ e.
            if-IsSound
              ((config.vad_changed || not (same_flag config.vad_enabled s.vad_enabled))
                && is_hearing s)
              (s, some value_error) _ (λ e. h)
              (λ e.
                if-IsSound (s.smart_turn && not config.silence_fits) (s, some value_error)
                  ((modify (configured config) >> send (session_updated id)) s) (λ e. h)
                  (λ e. neutral-IsSound (session_updated id) (configured config s) (λ p. refl) h))))

dispatch-IsSound :
    (event : ClientEvent) (s : VoicePipeline) → IsSound s → IsSound (dispatch event s).0
unfolding dispatch clear_audio
dispatch-IsSound (update id config) s h = update-IsSound id config s h
dispatch-IsSound (append_audio n audio) s h = receive_audio-IsSound n audio s h
dispatch-IsSound commit s h = commit_audio-IsSound s h
dispatch-IsSound clear s h = h
dispatch-IsSound (create_item item) s h = create_item-IsSound item s h
dispatch-IsSound (create_response i t c) s h =
    start_response-IsSound (client_request i t c none) s h
dispatch-IsSound (speak text) s h =
    start_response-IsSound (client_request [] none none (some text)) s h
dispatch-IsSound (cancel g r) s h = cancel_response-IsSound by_client g r s h

handle_event-IsSound :
    (id : Text) (event : ClientEvent) (s : VoicePipeline)
    → IsSound s
    → IsSound (handle_event id event s).0
unfolding handle_event
handle_event-IsSound id event s h =
    if-IsSound s.draining (s, some session_draining) _ (λ e. h)
      (λ e.
        if-IsSound (not (text_eq id s.session_id)) (s, some session_mismatch)
          (dispatch event (close_replay event s)) (λ e. h)
          (λ e. dispatch-IsSound event (close_replay event s) (closed (keeps_replay event))))
  where
    closed : (b : Bool) → IsSound (if b then s else record s { context_replay_open = false })
    closed true = h
    closed false = h

drained-IsSound : (s : VoicePipeline) → IsSound s → IsSound (reset_session s)
unfolding Cancellation.reset
drained-IsSound s h = record {
  last = h.last;
  reached = h.reached;
  fits = elim h.fits [ inl b ↦ inl b | inr f ↦ inr (withdrawn s.response_task s.response f) ];
}
  where
    withdrawn :
        (ot : Option ResponseTask) (oc : Option ResponseContext)
        → Fits h.last ot oc s.cancellation.current
        → Fits h.last ot oc none
    withdrawn none none f = f
    withdrawn (some t) none f = f
    withdrawn none (some c) f = (f.0, refl)
    withdrawn (some t) (some c) f = f

drain-IsSound : (s : VoicePipeline) → IsSound s → IsSound (drain s).0
unfolding drain
drain-IsSound s h =
    if-IsSound s.draining (s, none) _ (λ e. h)
      (λ e.
        continue-IsSound ((modify stop_tasks >> cancel_response by_transport_error none none) s)
          (modify reset_session)
          (cancel_response-IsSound by_transport_error none none (stop_tasks s) h) drained-IsSound)

-- An open transport that has refused an event delivers nothing more.
abbrev pub IsTaken : Call → VoicePipeline → Type 0
IsTaken delivers s = (s.refused ≡ false) ⊎ (s.transport_closed ≡ true)
IsTaken _ s = Unit

unfoldable pub AllTaken : List Call → VoicePipeline → Type 0
unfolding perform
AllTaken [] s = Unit
AllTaken (call ∷ calls) s = IsTaken call s × AllTaken calls (step s call)

deliver-IsSound :
    (s : VoicePipeline)
    → (s.refused ≡ false) ⊎ (s.transport_closed ≡ true)
    → IsSound s
    → IsSound (deliver s)
deliver-IsSound s taken h = delivered (ltb s.room s.max_messages)
  where
    still :
        (s.refused ≡ false) ⊎ (s.transport_closed ≡ true)
        → s.refused ≡ true
        → Blocks s.transport_closed (s.refused, s.room + 1)
    still (inl t) b = absurd (ground (arith, t, b))
    still (inr closed) b = (b, inl closed)

    kept :
        Blocks s.transport_closed (s.refused, s.room)
          ⊎ Fits h.last s.response_task s.response s.cancellation.current
        → Blocks s.transport_closed (s.refused, s.room + 1)
          ⊎ Fits h.last s.response_task s.response s.cancellation.current
    kept (inl b) = inl (still taken b.0)
    kept (inr f) = inr f

    delivered : (b : Bool) → IsSound (if b then record s { room = s.room + 1 } else s)
    delivered true = record { last = h.last; reached = h.reached; fits = kept h.fits }
    delivered false = h

perform-IsSound :
    (call : Call) (s : VoicePipeline) → IsTaken call s → IsSound s → IsSound (perform call s).0
unfolding perform
perform-IsSound (handles id event) s a h = handle_event-IsSound id event s h
perform-IsSound (hears signals due) s a h = hear_audio-IsSound signals due s h
perform-IsSound (classifies answer) s a h = candidate_classified-IsSound answer s h
perform-IsSound classify_fails s a h = candidate_fails-IsSound s h
perform-IsSound (fallback active expired) s a h = fallback_wakes-IsSound active expired s h
perform-IsSound (partial transcript) s a h = partial-IsSound transcript s h
perform-IsSound (transcribes transcript) s a h = turn_transcribed-IsSound transcript s h
perform-IsSound starts_task s a h = task_starts-IsSound s h
perform-IsSound (yields event) s a h = stream_yields-IsSound event s h
perform-IsSound ends_stream s a h = stream_ends-IsSound s h
perform-IsSound (fails_stream code) s a h = stream_fails-IsSound code s h
perform-IsSound (frame bytes) s a h = send_frame-IsSound bytes s h
perform-IsSound ends_speech s a h = speech_ends-IsSound s h
perform-IsSound fails_speech s a h = speech_fails-IsSound s h
perform-IsSound wakes_deferred s a h = deferred_wakes-IsSound s h
perform-IsSound drains s a h = drain-IsSound s h
perform-IsSound delivers s a h = deliver-IsSound s a h
perform-IsSound closes s a h = close-IsSound s h

pub run-IsSound :
    (s : VoicePipeline) (calls : List Call) → AllTaken calls s → IsSound s → IsSound (run s calls)
unfolding run AllTaken
run-IsSound s [] a h = h
run-IsSound s (call ∷ calls) a h =
    run-IsSound (step s call) calls a.1 (perform-IsSound call s a.0 h)

idle_is_over :
    (s : VoicePipeline) (last : Option Progress)
    → IsSound s
    → s.response ≡ none
    → s.refused ≡ false
    → progress s.sent ≡ some last
    → is_over last ≡ true
idle_is_over s last h e taken at =
    ap (λ (o : Option (Option Progress)). is_over (or_else o none)) (sym at ∙ h.reached)
    ∙ over h.fits
  where
    idle :
        (ot : Option ResponseTask)
        → Fits h.last ot none s.cancellation.current
        → is_over h.last ≡ true
    idle none f = f
    idle (some t) f = absurd f

    over :
        Blocks s.transport_closed (s.refused, s.room)
          ⊎ Fits h.last s.response_task s.response s.cancellation.current
        → is_over h.last ≡ true
    over (inl b) = absurd (ground (arith, b.0, taken))
    over (inr f) =
        idle s.response_task
          (subst (λ oc. Fits h.last s.response_task oc s.cancellation.current) e f)

module _ (id : Text) (uuid : ℕ → Text) (max_messages : ℕ) (smart partials : Bool)
    (max_candidate max_partial : ℕ) (buffer : BoundedAudioBuffer)
    (conversation : Conversation) where
  abbrev pub new : VoicePipeline
  new = init id uuid max_messages smart partials max_candidate max_partial buffer conversation

  init-IsSound : IsSound new
  unfolding init follow_all
  init-IsSound = record { last = none; reached = refl; fits = inr refl }

  -- Where the transport has refused no event, however full its queue was, and no response is active, the
  -- client was told the end of the last response.
  pub run_idle_is_over :
      (calls : List Call) (last : Option Progress)
      → AllTaken calls new
      → (run new calls).refused ≡ false
      → (run new calls).response ≡ none
      → progress (run new calls).sent ≡ some last
      → is_over last ≡ true
  run_idle_is_over calls last a taken e at =
      idle_is_over (run new calls) last (run-IsSound new calls a init-IsSound) e taken at
