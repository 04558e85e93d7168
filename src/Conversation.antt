-- ===== src/Conversation.antt =====
-- services/gpu-service/src/hugging_voice_service/conversation.py: the bounded memory of one session,
-- oldest group first. A method that raises leaves the conversation as it was.
mod Trim
mod Limits
mod Appends
mod Messages
mod Examples
use livekit_hugging_voice.Base.{
  ℕ, zero, suc, ◌+◌, ◌-◌, ◌*◌, ◌/◌, ◌%◌, ◌≤◌, ◌<◌, min, max, ◌≡◌, refl, sym, ap, subst, ◌∙◌, ◌≢◌,
  ◌↔◌, ◌⊎◌, inl, inr, Bool, true, false, not, ◌&&◌, ◌||◌, Option, none, some, List, [], ◌∷◌, ◌++◌,
  map, append-nil, append_assoc, arith, ltb, leb, ◌==◌, if◌then◌else◌, Bool-cases, Option-cases,
  ==_iff, eq_refl, length, get_elem?, take, drop, length-append, length-drop, length-take,
  drop-append, take-append, drop-drop, Result, ok, err, ◌>>=◌, Result-cases,
}
use livekit_hugging_voice.Base.Int.{ℤ, int_eq}
use livekit_hugging_voice.Text.{Text, codes, text_eq, strip}
use livekit_hugging_voice.Protocol.Json.{canonical_json, bool, str, obj, end, field}

pub data ConversationRole : Type 0 where
  user assistant : ConversationRole

pub record ConversationEntry : Type 0 where
  pub item_id : Text
  pub role : ConversationRole
  pub content : Text

pub record FunctionCallEntry : Type 0 where
  pub item_id : Text
  pub call_id : Text
  pub name : Text
  pub arguments : Text
  pub turn_id : Text
  pub turn_revision : ℤ
  pub generation_id : Text
  pub response_id : Text

pub record FunctionCallOutputEntry : Type 0 where
  pub item_id : Text
  pub call_id : Text
  pub name : Text
  pub output : Text
  pub is_error : Bool
  pub turn_id : Text
  pub turn_revision : ℤ
  pub generation_id : Text
  pub response_id : Text

pub data ConversationGroup : Type 0 where
  message : ConversationEntry → ConversationGroup
  exchange : FunctionCallEntry → FunctionCallOutputEntry → ConversationGroup

abbrev pub item_count : ConversationGroup → ℕ
item_count (message e) = 1
item_count (exchange call output) = 2

abbrev pub character_count : ConversationGroup → ℕ
character_count (message e) = length e.content
character_count (exchange call output) = length call.arguments + length output.output

pub record Conversation : Type 0 where
  pub groups : List ConversationGroup
  pub max_items : ℕ
  pub max_characters : ℕ
  pub items : ℕ
  pub characters : ℕ

pub data ConversationFault : Type 0 where
  limits_not_positive no_text item_too_long calls_differ correlations_differ already_committed :
      ConversationFault
  group_too_large empty_deque : ConversationFault

unfoldable pub init : ℕ → ℕ → Result ConversationFault Conversation
init max_messages max_characters =
    if ltb max_messages 1 || ltb max_characters 1
    then err limits_not_positive
    else ok (record {
      groups = [];
      max_items = max_messages;
      max_characters = max_characters;
      items = 0;
      characters = 0;
    })

-- The loop of `_trim`; `popleft` raises on an empty deque.
unfoldable pub trim_loop :
    ℕ
    → ℕ
    → List ConversationGroup
    → ℕ
    → ℕ
    → Result ConversationFault (List ConversationGroup × ℕ × ℕ)
trim_loop max_items max_characters [] items characters =
    if ltb max_items items || ltb max_characters characters
    then err empty_deque
    else ok ([], items, characters)
trim_loop max_items max_characters (removed ∷ groups) items characters =
    if ltb max_items items || ltb max_characters characters
    then trim_loop max_items max_characters groups (items - item_count removed)
        (characters - character_count removed)
    else ok (removed ∷ groups, items, characters)

unfoldable pub trim : Conversation → Result ConversationFault Conversation
unfolding trim_loop
trim c = do
  (groups, items, characters) ← trim_loop c.max_items c.max_characters c.groups c.items c.characters
  ok (record c { groups = groups; items = items; characters = characters })

unfoldable pub append_group :
    ConversationGroup → Conversation → Result ConversationFault Conversation
unfolding trim
append_group group c =
    if ltb c.max_items (item_count group) || ltb c.max_characters (character_count group)
    then err group_too_large
    else trim (record c {
      groups = c.groups ++ group ∷ [];
      items = c.items + item_count group;
      characters = c.characters + character_count group;
    })

abbrev pub is_empty : Text → Bool
is_empty [] = true
is_empty (c ∷ s) = false

unfoldable pub append :
    Text → ConversationRole → Text → Conversation → Result ConversationFault Conversation
unfolding append_group
append item_id role content c =
    let normalized = strip content in
    if is_empty normalized
    then err no_text
    else if ltb c.max_characters (length normalized)
    then err item_too_long
    else append_group (message (record { item_id = item_id; role = role; content = normalized })) c

-- `isinstance(group, ToolExchangeGroup) and group.call.call_id == call_id`
abbrev pub answers : Text → ConversationGroup → Bool
answers call_id (message e) = false
answers call_id (exchange call output) = text_eq call.call_id call_id

unfoldable pub has_call_in : Text → List ConversationGroup → Bool
has_call_in call_id [] = false
has_call_in call_id (group ∷ groups) = answers call_id group || has_call_in call_id groups

unfoldable pub has_call : Text → Conversation → Bool
unfolding has_call_in
has_call call_id c = has_call_in call_id c.groups

abbrev pub correlated : FunctionCallEntry → FunctionCallOutputEntry → Bool
correlated call output =
    text_eq call.turn_id output.turn_id
    && int_eq call.turn_revision output.turn_revision
    && text_eq call.generation_id output.generation_id
    && text_eq call.response_id output.response_id

unfoldable pub commit_tool_exchange :
    FunctionCallEntry
    → FunctionCallOutputEntry
    → Conversation
    → Result ConversationFault Conversation
unfolding append_group has_call
commit_tool_exchange call output c =
    if not (text_eq call.call_id output.call_id) || not (text_eq call.name output.name)
    then err calls_differ
    else if not (correlated call output)
    then err correlations_differ
    else if has_call call.call_id c
    then err already_committed
    else append_group (exchange call output) c

unfoldable pub clear : Conversation → Conversation
clear c = record c { groups = []; items = 0; characters = 0 }

-- `entries`: only the normal text messages.
unfoldable pub entries_of : List ConversationGroup → List ConversationEntry
entries_of [] = []
entries_of (message e ∷ groups) = e ∷ entries_of groups
entries_of (exchange call output ∷ groups) = entries_of groups

-- runtimes/llama_cpp_chat.py, GemmaMessage: what the model is shown. A message has at most one call.
pub data MessageRole : Type 0 where
  by_system by_user by_assistant by_tool : MessageRole

pub record GemmaToolCall : Type 0 where
  pub call_id : Text
  pub name : Text
  pub arguments : Text

pub record GemmaMessage : Type 0 where
  pub role : MessageRole
  pub content : Option Text
  pub tool_calls : List GemmaToolCall
  pub tool_call_id : Option Text
  pub name : Option Text

abbrev pub message_role : ConversationRole → MessageRole
message_role user = by_user
message_role assistant = by_assistant

abbrev pub group_messages : ConversationGroup → List GemmaMessage
group_messages (message e) =
    (record {
      role = message_role e.role;
      content = some e.content;
      tool_calls = [];
      tool_call_id = none;
      name = none;
    })
    ∷ []
group_messages (exchange call output) =
    (record {
      role = by_assistant;
      content = none;
      tool_calls =
          (record { call_id = call.call_id; name = call.name; arguments = call.arguments }) ∷ [];
      tool_call_id = none;
      name = none;
    })
    ∷ (record {
      role = by_tool;
      content = some (
          canonical_json (
            obj (
              field (codes "is_error") (bool output.is_error)
                (field (codes "output") (str output.output) end))));
      tool_calls = [];
      tool_call_id = some call.call_id;
      name = some call.name;
    })
    ∷ []

unfoldable pub messages_of : List ConversationGroup → List GemmaMessage
messages_of [] = []
messages_of (group ∷ groups) = group_messages group ++ messages_of groups

unfoldable pub messages : Conversation → List GemmaMessage
unfolding messages_of
messages c = messages_of c.groups

pub data Call : Type 0 where
  appends : Text → ConversationRole → Text → Call
  commits : FunctionCallEntry → FunctionCallOutputEntry → Call
  clears : Call

abbrev pub after : Conversation → Result ConversationFault Conversation → Conversation
after c (ok c') = c'
after c (err e) = c

unfoldable pub step : Conversation → Call → Conversation
step c (appends item_id role content) = after c (append item_id role content c)
step c (commits call output) = after c (commit_tool_exchange call output c)
step c clears = clear c

unfoldable pub run : Conversation → List Call → Conversation
run c [] = c
run c (call ∷ calls) = run (step c call) calls
