-- ===== src/Pipeline/Responses/Starting.antt =====
-- services/gpu-service/src/hugging_voice_service/pipeline.py: `_start_response` and the deferred responses.
use livekit_hugging_voice.Base.{
  ◌+◌, Bool, true, false, not, ◌&&◌, ◌||◌, Option, none, some, List, [], ◌∷◌, ◌++◌, if◌then◌else◌,
}
use livekit_hugging_voice.Base.Int.{int_eq, next}
use livekit_hugging_voice.Text.{Text, codes, text_eq, strip}
use livekit_hugging_voice.Cancellation.{start}
use livekit_hugging_voice.Conversation.{is_empty}
use livekit_hugging_voice.Pipeline.{
  session_state_conflict, tool_call_state_conflict, by_client, FunctionTool, ToolCall,
  ResponseContext, Runner, run_response, run_speak_response, run_tool_call_response, unstarted,
  ResponseTask, Deferred, after_direct_speak, after_announcement, response_created, value_error,
  rejected, VoicePipeline, Run, ◌>>◌, modify, swallow, handled, finally, send, send_error, fresh_id,
}
use livekit_hugging_voice.Pipeline.Responses.Closing.{is_some, or_else}

-- `if self.state.current_turn_id is None` of `_start_response`
unfoldable pub ensure_turn : Option Text → VoicePipeline → VoicePipeline
ensure_turn (some turn_id) s = s
ensure_turn none s = record s {
  current_turn_revision = next s.current_turn_revision;
  current_turn_id = some (fresh_id (codes "turn_") s);
  drawn = s.drawn + 1;
}

-- the arguments of `_start_response`
pub record Request : Type 0 where
  pub response_instructions : Text
  pub wanted_tools : Option (List FunctionTool)
  pub wanted_choice : Option Text
  pub direct_text : Option Text
  pub pending_tool_call : Option ToolCall

abbrev pub joined : Text → Text → Text
joined instructions extra =
    if is_empty (strip extra) then instructions else strip (instructions ++ 10 ∷ extra)

unfoldable pub new_context : Request → VoicePipeline → ResponseContext
new_context r s =
    let turn = or_else s.current_turn_id [] in
    let generation_id = codes "gen_" ++ s.uuid s.drawn in
    record {
      turn_id = turn;
      turn_revision = s.current_turn_revision;
      generation_id = generation_id;
      response_id = codes "resp_" ++ s.uuid (s.drawn + 1);
      item_id = codes "item_" ++ s.uuid (s.drawn + 2);
      token = (start turn s.current_turn_revision generation_id s.cancellation).1;
      instructions = joined s.instructions r.response_instructions;
      tools = or_else r.wanted_tools s.tools;
      tool_choice = or_else r.wanted_choice s.tool_choice;
      direct_speak = is_some r.direct_text;
      text = [];
      audio_sequence = 0;
      usage = none;
      text_done = false;
      audio_done = false;
      finalized = false;
      cancel_reason = by_client;
    }

abbrev pub chosen_runner : Option ToolCall → Option Text → Runner
chosen_runner (some call) direct = run_tool_call_response call
chosen_runner none none = run_response
chosen_runner none (some text) = run_speak_response text

abbrev pub new_task : Request → ResponseTask
new_task r = record {
  runner = chosen_runner r.pending_tool_call r.direct_text;
  phase = unstarted;
  function_call = none;
  tts_started = false;
}

-- the token is issued, and the context is the active response
abbrev pub activate : ResponseContext → VoicePipeline → VoicePipeline
activate c s = record s {
  cancellation = (start c.turn_id c.turn_revision c.generation_id s.cancellation).0;
  drawn = s.drawn + 3;
  response = some c;
  response_idle = false;
}

abbrev pub schedule : ResponseTask → VoicePipeline → VoicePipeline
schedule t s = record s { response_task = some t }

unfoldable pub begin_response : Request → Run
unfolding send new_context
begin_response r s =
    (send (response_created (new_context r s)) >> modify (schedule (new_task r)))
      (activate (new_context r s) s)

unfoldable pub freeze_tools : Request → VoicePipeline → VoicePipeline
freeze_tools r s = if is_some r.direct_text then s else record s { tools_frozen = true }

-- `_start_response` while a response is active
unfoldable pub start_beside : Request → ResponseContext → Run
start_beside r c s =
    if not (is_some r.direct_text) && c.direct_speak
    then (if is_some s.deferred_response then (s, some (rejected session_state_conflict)) else (
      record s {
        deferred_response =
            some (after_direct_speak r.response_instructions r.wanted_tools r.wanted_choice);
      },
      none,
    ))
    else (s, some value_error)

abbrev pub start_with : Option ResponseContext → Request → Run
start_with (some c) r s = start_beside r c s
start_with none r s =
    if not (is_some r.direct_text) && is_some s.pending_call
    then (s, some (rejected tool_call_state_conflict))
    else begin_response r (ensure_turn s.current_turn_id (freeze_tools r s))

unfoldable pub start_response : Request → Run
unfolding start_beside begin_response ensure_turn freeze_tools
start_response r s = start_with s.response r s

-- `_turn_is_current`
abbrev pub turn_is_current : ResponseContext → VoicePipeline → Bool
turn_is_current c s =
    text_eq (or_else s.current_turn_id []) c.turn_id
    && is_some s.current_turn_id
    && int_eq s.current_turn_revision c.turn_revision

abbrev pub drop_deferred : VoicePipeline → VoicePipeline
drop_deferred s = record s { deferred_response = none }

-- `_start_tool_call_response` once no response is active; an exception costs the call only
unfoldable pub start_tool_call_response : ResponseContext → ToolCall → Run
unfolding start_response
start_tool_call_response c call s =
    if s.draining || not (turn_is_current c s) || is_some s.response
    then (drop_deferred s, none)
    else finally
        (swallow (
          start_response (record {
            response_instructions = [];
            wanted_tools = some c.tools;
            wanted_choice = some c.tool_choice;
            direct_text = none;
            pending_tool_call = some call;
          })))
        drop_deferred s

-- `_start_response_after_direct_speak` once no response is active
unfoldable pub start_response_after_direct_speak :
    Text → Option (List FunctionTool) → Option Text → Run
unfolding start_response send_error
start_response_after_direct_speak instructions tools choice s =
    if s.draining
    then (drop_deferred s, none)
    else finally
        (handled
          (start_response (record {
            response_instructions = instructions;
            wanted_tools = tools;
            wanted_choice = choice;
            direct_text = none;
            pending_tool_call = none;
          }))
          (send_error tool_call_state_conflict))
        drop_deferred s

abbrev pub run_deferred : Option Deferred → Run
run_deferred none s = (s, none)
run_deferred (some (after_direct_speak i t c)) s = start_response_after_direct_speak i t c s
run_deferred (some (after_announcement c call)) s = start_tool_call_response c call s

-- the task in the deferred slot waits for `_response_idle`
unfoldable pub deferred_wakes : Run
unfolding start_tool_call_response start_response_after_direct_speak
deferred_wakes s = if s.response_idle then run_deferred s.deferred_response s else (s, none)
