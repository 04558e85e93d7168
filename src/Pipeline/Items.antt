-- ===== src/Pipeline/Items.antt =====
-- services/gpu-service/src/hugging_voice_service/pipeline.py: `_create_conversation_item`, the items that
-- the client adds: messages, replayed calls, and the outputs of calls.
use livekit_hugging_voice.Base.{
  ◌≡◌, ◌↔◌, Bool, true, false, not, ◌&&◌, ◌||◌, Option, none, some, List, [], ◌∷◌, arith,
  if◌then◌else◌, Result, ok, err,
}
use livekit_hugging_voice.Base.Int.{ℤ, int_eq, int_eq_iff}
use livekit_hugging_voice.Text.{Text, text_eq, text_eq_iff}
use livekit_hugging_voice.Conversation.{
  Conversation, ConversationFault, ConversationRole, FunctionCallEntry, FunctionCallOutputEntry,
  has_call, commit_tool_exchange,
}
use livekit_hugging_voice.Conversation
use livekit_hugging_voice.Pipeline.{
  ErrorCode, unknown_tool_name, tool_call_state_conflict, unknown_tool_call_output,
  duplicate_tool_call_output, stale_tool_call_output, FunctionCallItem, FunctionTool,
  ResponseContext, item_created, Fault, rejected, VoicePipeline, Run, ◌>>◌, send,
}
use livekit_hugging_voice.Pipeline.Responses.{remember}

-- hugging_voice_protocol/events.py, the three kinds of `ConversationItem`
pub record MessageItem : Type 0 where
  pub id : Text
  pub role : ConversationRole
  pub content : Text

pub record CallOutputItem : Type 0 where
  pub id : Text
  pub call_id : Text
  pub name : Text
  pub output : Text
  pub is_error : Bool
  pub turn_id : Text
  pub turn_revision : ℤ
  pub generation_id : Text
  pub response_id : Text

pub data ConversationItem : Type 0 where
  message_item : MessageItem → ConversationItem
  call_item : FunctionCallItem → ConversationItem
  output_item : CallOutputItem → ConversationItem

abbrev pub item_id : ConversationItem → Text
item_id (message_item m) = m.id
item_id (call_item c) = c.id
item_id (output_item o) = o.id

-- `item == pending`: the equality of all the fields
unfoldable pub same_item : FunctionCallItem → FunctionCallItem → Bool
same_item a b =
    text_eq a.id b.id
    && text_eq a.call_id b.call_id
    && text_eq a.name b.name
    && text_eq a.arguments b.arguments
    && text_eq a.turn_id b.turn_id
    && int_eq a.turn_revision b.turn_revision
    && text_eq a.generation_id b.generation_id
    && text_eq a.response_id b.response_id

pub same_item_iff : (a b : FunctionCallItem) → (same_item a b ≡ true) ↔ (a ≡ b)
unfolding same_item
same_item_iff a b = ground (
  arith,
  text_eq_iff a.id b.id,
  text_eq_iff a.call_id b.call_id,
  text_eq_iff a.name b.name,
  text_eq_iff a.arguments b.arguments,
  text_eq_iff a.turn_id b.turn_id,
  int_eq_iff a.turn_revision b.turn_revision,
  text_eq_iff a.generation_id b.generation_id,
  text_eq_iff a.response_id b.response_id,
)

-- `item.name in {tool.function.name for tool in self.state.tools}`
unfoldable pub knows_tool : Text → List FunctionTool → Bool
knows_tool name [] = false
knows_tool name (tool ∷ tools) = text_eq name tool.name || knows_tool name tools

abbrev pub correlates : CallOutputItem → FunctionCallItem → Bool
correlates o p =
    text_eq o.turn_id p.turn_id
    && int_eq o.turn_revision p.turn_revision
    && text_eq o.generation_id p.generation_id
    && text_eq o.response_id p.response_id

abbrev pub call_entry : FunctionCallItem → FunctionCallEntry
call_entry p = record {
  item_id = p.id;
  call_id = p.call_id;
  name = p.name;
  arguments = p.arguments;
  turn_id = p.turn_id;
  turn_revision = p.turn_revision;
  generation_id = p.generation_id;
  response_id = p.response_id;
}

abbrev pub output_entry : CallOutputItem → FunctionCallOutputEntry
output_entry o = record {
  item_id = o.id;
  call_id = o.call_id;
  name = o.name;
  output = o.output;
  is_error = o.is_error;
  turn_id = o.turn_id;
  turn_revision = o.turn_revision;
  generation_id = o.generation_id;
  response_id = o.response_id;
}

abbrev pub reject : ErrorCode → Run
reject code s = (s, some (rejected code))

-- a replayed call, beside the pending one
unfoldable pub add_call : FunctionCallItem → Option FunctionCallItem → Run
unfolding same_item knows_tool
add_call item none s =
    if not s.context_replay_open || s.tools_frozen
    then reject tool_call_state_conflict s
    else if not (knows_tool item.name s.tools)
    then reject unknown_tool_name s
    else (record s { pending_call = some item }, none)
add_call item (some pending) s =
    if same_item item pending then (s, none) else reject tool_call_state_conflict s

-- the exchange is committed, and nothing is pending any more
abbrev pub committed :
    VoicePipeline → Result ConversationFault Conversation → VoicePipeline × Option Fault
committed s (err e) = remember s (err e)
committed s (ok c) = (record s { conversation = c; pending_call = none }, none)

unfoldable pub add_output : CallOutputItem → Option FunctionCallItem → Run
unfolding has_call commit_tool_exchange
add_output item none s =
    reject
      (if has_call item.call_id s.conversation
        then duplicate_tool_call_output
        else unknown_tool_call_output)
      s
add_output item (some pending) s =
    if not (text_eq item.call_id pending.call_id)
    then reject unknown_tool_call_output s
    else if not (text_eq item.name pending.name)
    then reject tool_call_state_conflict s
    else if not (correlates item pending)
    then reject stale_tool_call_output s
    else committed s (commit_tool_exchange (call_entry pending) (output_entry item) s.conversation)

unfoldable pub add_item : ConversationItem → Run
unfolding add_call add_output
add_item (message_item m) s = remember s (Conversation.append m.id m.role m.content s.conversation)
add_item (call_item c) s = add_call c s.pending_call s
add_item (output_item o) s = add_output o s.pending_call s

-- only an output is taken while a response is active, and only beside a spoken text
abbrev pub is_output : ConversationItem → Bool
is_output (output_item o) = true
is_output _ = false

abbrev pub is_busy_for : Option ResponseContext → ConversationItem → Bool
is_busy_for none item = false
is_busy_for (some c) item = not (c.direct_speak && is_output item)

unfoldable pub create_conversation_item : ConversationItem → Run
unfolding add_item send
create_conversation_item item s =
    if is_busy_for s.response item
    then reject tool_call_state_conflict s
    else (add_item item >> send (item_created (item_id item))) s
