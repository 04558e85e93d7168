-- ===== src/Pipeline/Events.antt =====
-- services/gpu-service/src/hugging_voice_service/pipeline.py: `handle_event`, `drain`, `_update_session`,
-- and the history of a session as calls: the client's events, and the wake-ups of the tasks.
-- The VAD's own state and its configuration are in Vad; here are its signals.
use livekit_hugging_voice.Base.{
  ℕ, ◌+◌, Bool, true, false, not, ◌&&◌, ◌||◌, Option, none, some, List, [], ◌∷◌, ltb, if◌then◌else◌,
}
use livekit_hugging_voice.Text.{Text, text_eq, text_lt}
use livekit_hugging_voice.AudioBuffer.{size_bytes}
use livekit_hugging_voice.Vad.{VadSignal}
use livekit_hugging_voice.Cancellation
use livekit_hugging_voice.Pipeline.{
  ErrorCode, invalid_tool_configuration, by_client, by_transport_error, FunctionTool, Streamed,
  session_updated, session_draining, session_mismatch, value_error, rejected, VoicePipeline, Run,
  ◌>>◌, modify, send, close_transport,
}
use livekit_hugging_voice.Pipeline.Responses.{
  is_some, cancel_response, Request, start_response, task_starts, stream_yields, stream_ends,
  stream_fails, speech_ends, speech_fails, send_frame, deferred_wakes,
}
use livekit_hugging_voice.Pipeline.Speech.{
  cancel_turn_detection, candidate_classified, candidate_fails, fallback_wakes, partial_transcribed,
  receive_audio, hear_audio, commit_audio, clear_audio, clear_buffer, turn_transcribed,
}
use livekit_hugging_voice.Pipeline.Items.{ConversationItem, create_conversation_item}

-- the fields of `SessionUpdateEvent` that the pipeline keeps. `resolved`: the language and the voice
-- are known; `vad_changed` compares the VAD's settings with its own; `silence_fits` is the test of
-- `min_silence_ms` against the semantic fallback.
pub record SessionConfig : Type 0 where
  pub instructions : Text
  pub tools : List FunctionTool
  pub tool_choice : Text
  pub resolved : Bool
  pub vad_changed : Bool
  pub silence_fits : Bool
  pub vad_enabled : Bool
  pub transcription_enabled : Bool
  pub interrupt_response : Bool

-- `sorted(config.tools, key=...)`: a stable sort by the name
unfoldable pub insert_tool : FunctionTool → List FunctionTool → List FunctionTool
insert_tool tool [] = tool ∷ []
insert_tool tool (head ∷ rest) =
    let later = insert_tool tool rest in
    if text_lt head.name tool.name then head ∷ later else tool ∷ head ∷ rest

unfoldable pub sort_tools : List FunctionTool → List FunctionTool
unfolding insert_tool
sort_tools [] = []
sort_tools (tool ∷ tools) = insert_tool tool (sort_tools tools)

unfoldable pub same_tools : List FunctionTool → List FunctionTool → Bool
same_tools [] [] = true
same_tools [] (b ∷ bs) = false
same_tools (a ∷ as_) [] = false
same_tools (a ∷ as_) (b ∷ bs) =
    text_eq a.name b.name && text_eq a.schema b.schema && same_tools as_ bs

abbrev pub same_flag : Bool → Bool → Bool
same_flag true b = b
same_flag false b = not b

-- input audio that the VAD has begun with
abbrev pub is_hearing : VoicePipeline → Bool
is_hearing s = is_some s.speech_start_sample || ltb 0 (size_bytes s.input_audio_buffer)

abbrev pub configured : SessionConfig → VoicePipeline → VoicePipeline
configured config s = record s {
  instructions = config.instructions;
  tools = sort_tools config.tools;
  tool_choice = config.tool_choice;
  vad_enabled = config.vad_enabled;
  transcription_enabled = config.transcription_enabled;
  interrupt_response = config.interrupt_response;
}

unfoldable pub update_session : Text → SessionConfig → Run
unfolding sort_tools same_tools send
update_session source_event_id config s =
    if not config.resolved
    then (s, some value_error)
    else if s.tools_frozen && not (same_tools (sort_tools config.tools) s.tools)
    then (s, some (rejected invalid_tool_configuration))
    else if (config.vad_changed || not (same_flag config.vad_enabled s.vad_enabled)) && is_hearing s
    then (s, some value_error)
    else if s.smart_turn && not config.silence_fits
    then (s, some value_error)
    else (modify (configured config) >> send (session_updated source_event_id)) s

pub data ClientEvent : Type 0 where
  update : Text → SessionConfig → ClientEvent
  append_audio : ℕ → Text → ClientEvent
  commit clear : ClientEvent
  create_item : ConversationItem → ClientEvent
  create_response : Text → Option (List FunctionTool) → Option Text → ClientEvent
  speak : Text → ClientEvent
  cancel : Option Text → Option Text → ClientEvent

abbrev pub keeps_replay : ClientEvent → Bool
keeps_replay (update i c) = true
keeps_replay (create_item i) = true
keeps_replay _ = false

abbrev pub client_request : Text → Option (List FunctionTool) → Option Text → Option Text → Request
client_request instructions tools choice text = record {
  response_instructions = instructions;
  wanted_tools = tools;
  wanted_choice = choice;
  direct_text = text;
  pending_tool_call = none;
}

unfoldable pub dispatch : ClientEvent → Run
unfolding update_session receive_audio commit_audio clear_audio create_conversation_item
    start_response cancel_response
dispatch (update i config) = update_session i config
dispatch (append_audio sequence audio) = receive_audio sequence audio
dispatch commit = commit_audio
dispatch clear = modify clear_audio
dispatch (create_item item) = create_conversation_item item
dispatch (create_response i t c) = start_response (client_request i t c none)
dispatch (speak text) = start_response (client_request [] none none (some text))
dispatch (cancel generation_id response_id) = cancel_response by_client generation_id response_id

abbrev pub close_replay : ClientEvent → VoicePipeline → VoicePipeline
close_replay event s = if keeps_replay event then s else record s { context_replay_open = false }

-- `handle_event`; an event that appends audio ends with `hear_audio`
unfoldable pub handle_event : Text → ClientEvent → Run
unfolding dispatch
handle_event session_id event s =
    if s.draining
    then (s, some session_draining)
    else if not (text_eq session_id s.session_id)
    then (s, some session_mismatch)
    else dispatch event (close_replay event s)

abbrev pub stop_tasks : VoicePipeline → VoicePipeline
stop_tasks s = record (cancel_turn_detection s) {
  draining = true;
  partial_epoch = s.partial_epoch + 1;
  partial_task = none;
  deferred_response = none;
  completed_turns = [];
}

abbrev pub reset_session : VoicePipeline → VoicePipeline
reset_session s = record (clear_buffer s) { cancellation = Cancellation.reset s.cancellation }

-- `drain`; the schedulers are told to drop the session, and have done so
unfoldable pub drain : Run
unfolding cancel_response
drain s =
    if s.draining
    then (s, none)
    else (modify stop_tasks >> cancel_response by_transport_error none none >> modify reset_session)
        s

-- What may happen to a session, at an await: the client's events, the wake-ups of the tasks, the drain, and
-- the transport's delivery of an event or its end.
pub data Call : Type 0 where
  handles : Text → ClientEvent → Call
  hears : List VadSignal → Bool → Call
  classifies : Option Bool → Call
  classify_fails : Call
  fallback : Bool → Bool → Call
  partial : Option Text → Call
  transcribes : Option Text → Call
  starts_task : Call
  yields : Streamed → Call
  ends_stream : Call
  fails_stream : ErrorCode → Call
  frame : List ℕ → Call
  ends_speech : Call
  fails_speech : Call
  wakes_deferred : Call
  drains : Call
  delivers : Call
  closes : Call

-- `_send_loop` takes an event off the queue, if there is one
abbrev pub deliver : VoicePipeline → VoicePipeline
deliver s = if ltb s.room s.max_messages then record s { room = s.room + 1 } else s

unfoldable pub perform : Call → Run
unfolding handle_event hear_audio candidate_classified candidate_fails fallback_wakes
    partial_transcribed turn_transcribed task_starts stream_yields stream_ends stream_fails
    send_frame speech_ends speech_fails deferred_wakes drain
perform (handles session_id event) = handle_event session_id event
perform (hears signals due) = hear_audio signals due
perform (classifies answer) = candidate_classified answer
perform classify_fails = candidate_fails
perform (fallback active expired) = fallback_wakes active expired
perform (partial transcript) = modify (partial_transcribed transcript)
perform (transcribes transcript) = turn_transcribed transcript
perform starts_task = task_starts
perform (yields event) = stream_yields event
perform ends_stream = stream_ends
perform (fails_stream code) = stream_fails code
perform (frame bytes) = send_frame bytes
perform ends_speech = speech_ends
perform fails_speech = speech_fails
perform wakes_deferred = deferred_wakes
perform drains = drain
perform delivers = modify deliver
perform closes = close_transport

abbrev pub step : VoicePipeline → Call → VoicePipeline
step s call = (perform call s).0

unfoldable pub run : VoicePipeline → List Call → VoicePipeline
unfolding perform
run s [] = s
run s (call ∷ calls) = run (step s call) calls
