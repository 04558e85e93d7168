-- ===== src/Pipeline.antt =====
-- services/gpu-service/src/hugging_voice_service/pipeline.py: VoicePipeline, what one session keeps, and
-- the monad of its coroutines. A coroutine that raises leaves behind what it has written.
-- `sent` is what the transport put into its queue of `max_messages` events, and `room` is how many more it
-- takes now: it refuses an event while the queue is full, and takes others once its sender has delivered
-- some. `refused` notes that it refused one; no function reads it. `uuid n` is the n-th draw of `uuid4` for
-- anything but an event's id, and `drawn` counts these draws; event ids, and the fields that only the
-- metrics and the logs read, are left out.
mod Responses
mod Speech
mod Items
mod Events
mod Stages
mod Orderly
mod Tasks
mod Speaking
mod Endings
mod Cancels
mod Settles
mod Starts
mod Histories
mod Ordered
mod Runs
mod Unstarted
mod Frames
mod Windows
mod Cuts
mod Segments
mod Spans
mod Live
mod Reached
mod Verdicts
mod Outputs
mod Follows
mod Examples
use livekit_hugging_voice.Base.{
  ℕ, zero, suc, ◌+◌, ◌-◌, ◌*◌, ◌/◌, ◌%◌, ◌≤◌, ◌<◌, min, max, ◌≡◌, refl, sym, ap, subst, ◌∙◌, ◌≢◌,
  ◌↔◌, ◌⊎◌, inl, inr, Bool, true, false, not, ◌&&◌, ◌||◌, Option, none, some, List, [], ◌∷◌, ◌++◌,
  map, append-nil, append_assoc, arith, ltb, leb, ◌==◌, if◌then◌else◌, Bool-cases, Option-cases,
  ==_iff, eq_refl, length, get_elem?, take, drop, length-append, length-drop, length-take,
  drop-append, take-append, drop-drop, Result, ok, err, ◌>>=◌, Result-cases,
}
use livekit_hugging_voice.Base.Int.{ℤ, negsuc}
use livekit_hugging_voice.Text.{Text, codes}
use livekit_hugging_voice.AudioBuffer.{BoundedAudioBuffer, BufferFault}
use livekit_hugging_voice.Cancellation.{GenerationToken, GenerationCancellation}
use livekit_hugging_voice.Cancellation
use livekit_hugging_voice.Conversation.{Conversation, ConversationFault}

-- hugging_voice_protocol/errors.py, the codes that the pipeline raises or sends
pub data ErrorCode : Type 0 where
  session_state_conflict model_failure invalid_tool_configuration unknown_tool_name : ErrorCode
  malformed_tool_arguments tool_call_state_conflict unknown_tool_call_output : ErrorCode
  duplicate_tool_call_output stale_tool_call_output : ErrorCode

-- hugging_voice_protocol/events.py
pub data ResponseStatus : Type 0 where
  completed cancelled failed : ResponseStatus

pub data ResponseReason : Type 0 where
  by_completion by_tool_call by_client by_barge_in by_model_error by_transport_error :
      ResponseReason

pub record FunctionCallItem : Type 0 where
  pub id : Text
  pub call_id : Text
  pub name : Text
  pub arguments : Text
  pub turn_id : Text
  pub turn_revision : ℤ
  pub generation_id : Text
  pub response_id : Text

pub record FunctionTool : Type 0 where
  pub name : Text
  pub schema : Text

-- runtimes/llama_cpp_chat.py: what the model's stream yields
pub record ToolCall : Type 0 where
  pub call_id : Text
  pub name : Text
  pub arguments : Text

pub record TextUsage : Type 0 where
  pub prompt_tokens : ℕ
  pub completion_tokens : ℕ
  pub total_tokens : ℕ

pub data Streamed : Type 0 where
  text_delta : Text → Streamed
  tool_call : ToolCall → Streamed
  text_usage : TextUsage → Streamed

-- `_response_fields`, and the fields of `ResponseContext` that decide what a response does
pub record ResponseContext : Type 0 where
  pub turn_id : Text
  pub turn_revision : ℤ
  pub generation_id : Text
  pub response_id : Text
  pub item_id : Text
  pub token : GenerationToken
  pub instructions : Text
  pub tools : List FunctionTool
  pub tool_choice : Text
  pub direct_speak : Bool
  pub text : Text
  pub audio_sequence : ℕ
  pub usage : Option TextUsage
  pub text_done : Bool
  pub audio_done : Bool
  pub finalized : Bool
  pub cancel_reason : ResponseReason

-- What the task of a response runs, and how far it is: `unstarted` until its first step, `streaming`
-- the model's answer, then `speaking` until the synthesis has ended.
pub data Runner : Type 0 where
  run_response : Runner
  run_speak_response : Text → Runner
  run_tool_call_response : ToolCall → Runner

pub data Phase : Type 0 where
  unstarted streaming speaking : Phase

-- `function_call` and `tts_task is not None` of `_run_response`
pub record ResponseTask : Type 0 where
  pub runner : Runner
  pub phase : Phase
  pub function_call : Option ToolCall
  pub tts_started : Bool

pub data Deferred : Type 0 where
  after_direct_speak : Text → Option (List FunctionTool) → Option Text → Deferred
  after_announcement : ResponseContext → ToolCall → Deferred

pub record CompletedTurn : Type 0 where
  pub turn_id : Text
  pub revision : ℤ
  pub audio : List ℕ
  pub transcription_enabled : Bool

-- the arguments of `_classify_turn_candidate` and `_semantic_fallback`
pub record TurnCandidate : Type 0 where
  pub turn_id : Text
  pub revision : ℤ
  pub candidate_id : ℕ
  pub sample_index : ℕ
  pub audio : List ℕ

-- the arguments of `_run_partial`
pub record Partial : Type 0 where
  pub turn_id : Text
  pub revision : ℤ
  pub epoch : ℕ
  pub audio : List ℕ

pub data Event : Type 0 where
  speech_started speech_stopped : Text → ℤ → ℕ → Event
  transcription_delta transcription_completed : Text → ℤ → Text → Text → Event
  response_created : ResponseContext → Event
  output_text_delta : ResponseContext → Text → Event
  output_text_done output_audio_done : ResponseContext → Event
  output_audio_delta : ResponseContext → ℕ → List ℕ → Event
  function_call_done : ResponseContext → FunctionCallItem → Event
  response_done : ResponseContext → ResponseStatus → ResponseReason → TextUsage → Event
  session_updated item_created : Text → Event
  error : ErrorCode → Event

pub data Fault : Type 0 where
  transport_refused session_draining session_mismatch value_error : Fault
  rejected : ErrorCode → Fault
  audio_fault : BufferFault → Fault
  memory_fault : ConversationFault → Fault

pub record VoicePipeline : Type 0 where
  pub session_id : Text
  pub uuid : ℕ → Text
  pub drawn : ℕ
  pub sent : List Event
  pub max_messages : ℕ
  pub room : ℕ
  pub refused : Bool
  pub transport_closed : Bool
  pub smart_turn : Bool
  pub max_candidate_samples : ℕ
  pub partial_enabled : Bool
  pub max_partial_samples : ℕ
  pub vad_enabled : Bool
  pub transcription_enabled : Bool
  pub interrupt_response : Bool
  pub context_replay_open : Bool
  pub tools_frozen : Bool
  pub instructions : Text
  pub tools : List FunctionTool
  pub tool_choice : Text
  pub next_audio_sequence : ℕ
  pub input_audio_buffer : BoundedAudioBuffer
  pub current_turn_id : Option Text
  pub current_turn_revision : ℤ
  pub speech_start_sample : Option ℕ
  pub partial_epoch : ℕ
  pub pending_call : Option FunctionCallItem
  pub conversation : Conversation
  pub cancellation : GenerationCancellation
  pub response : Option ResponseContext
  pub response_task : Option ResponseTask
  pub response_idle : Bool
  pub deferred_response : Option Deferred
  pub partial_task : Option Partial
  pub turn_candidate_task : Option TurnCandidate
  pub turn_fallback_task : Option TurnCandidate
  pub turn_candidate_id : ℕ
  pub incomplete_verdicts : ℕ
  pub completed_turn : Option (Text × ℤ)
  pub completed_turns : List CompletedTurn
  pub draining : Bool

-- `__init__` of the pipeline on a new `SessionState`
unfoldable pub init :
    Text → (ℕ → Text) → ℕ → Bool → Bool → ℕ → ℕ → BoundedAudioBuffer → Conversation → VoicePipeline
init session_id uuid max_messages smart partials max_candidate max_partial buffer conversation =
    record {
      session_id = session_id;
      uuid = uuid;
      drawn = 0;
      sent = [];
      max_messages = max_messages;
      room = max_messages;
      refused = false;
      transport_closed = false;
      smart_turn = smart;
      max_candidate_samples = max_candidate;
      partial_enabled = partials;
      max_partial_samples = max_partial;
      vad_enabled = true;
      transcription_enabled = true;
      interrupt_response = true;
      context_replay_open = true;
      tools_frozen = false;
      instructions = [];
      tools = [];
      tool_choice = codes "auto";
      next_audio_sequence = 0;
      input_audio_buffer = buffer;
      current_turn_id = none;
      current_turn_revision = negsuc 0;
      speech_start_sample = none;
      partial_epoch = 0;
      pending_call = none;
      conversation = conversation;
      cancellation = Cancellation.init session_id;
      response = none;
      response_task = none;
      response_idle = true;
      deferred_response = none;
      partial_task = none;
      turn_candidate_task = none;
      turn_fallback_task = none;
      turn_candidate_id = 0;
      incomplete_verdicts = 0;
      completed_turn = none;
      completed_turns = [];
      draining = false;
    }

-- A coroutine from one await on another task to the next: the state after it, and what it raised.
abbrev pub Run : Type 0
Run = VoicePipeline → VoicePipeline × Option Fault

abbrev pub continue : VoicePipeline × Option Fault → Run → VoicePipeline × Option Fault
continue (s, none) k = k s
continue (s, some e) k = (s, some e)

infixl 5 ◌>>◌
abbrev pub ◌>>◌ : Run → Run → Run
◌>>◌ m k s = continue (m s) k

abbrev pub done : Run
done s = (s, none)

abbrev pub raise : Fault → Run
raise e s = (s, some e)

abbrev pub modify : (VoicePipeline → VoicePipeline) → Run
modify f s = (f s, none)

-- `asyncio.gather(task, return_exceptions=True)`
abbrev pub swallow : Run → Run
swallow m s = ((m s).0, none)

-- `try: m / except Exception: handler`
abbrev pub caught : VoicePipeline × Option Fault → Run → VoicePipeline × Option Fault
caught (s, none) handler = (s, none)
caught (s, some e) handler = handler s

abbrev pub handled : Run → Run → Run
handled m handler s = caught (m s) handler

-- `try: m / finally: last`, where `last` does not raise
abbrev pub finally : Run → (VoicePipeline → VoicePipeline) → Run
finally m last s = (last (m s).0, (m s).1)

abbrev pub refuse : VoicePipeline → VoicePipeline
refuse s = record s { refused = true }

-- `transport.send`, which does not wait: the sender does not run before the next await
abbrev pub send_within : ℕ → Event → Run
send_within zero event s = (refuse s, some transport_refused)
send_within (suc room) event s = (record s { sent = s.sent ++ event ∷ []; room = room }, none)

unfoldable pub send : Event → Run
send event s =
    if s.transport_closed then (refuse s, some transport_refused) else send_within s.room event s

unfoldable pub send_error : ErrorCode → Run
unfolding send
send_error code = send (error code)

-- `transport.close`
abbrev pub close_transport : Run
close_transport s = (record s { transport_closed = true }, none)

-- `_id(prefix)`
abbrev pub fresh_id : Text → VoicePipeline → Text
fresh_id prefix s = prefix ++ s.uuid s.drawn
