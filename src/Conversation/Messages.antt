-- ===== src/Conversation/Messages.antt =====
-- What `messages` shows the model.
use livekit_hugging_voice.Base.{
  ◌≤◌, ◌≡◌, refl, ◌≢◌, Option, none, some, List, [], ◌∷◌, arith, length,
}
use mathlib.Core.List.{head?}
use livekit_hugging_voice.Conversation.{
  ConversationGroup, message, exchange, Conversation, GemmaToolCall, GemmaMessage, by_tool,
  messages_of, messages, Call, run,
}
use livekit_hugging_voice.Conversation.Trim.{total_items}
use livekit_hugging_voice.Conversation.Limits.{IsBounded}
use livekit_hugging_voice.Conversation.Appends.{run-IsBounded}

-- With the call that awaits its result, if any: a call is followed at once by the tool message of
-- its id and name, and no tool message stands anywhere else.
abbrev pub Paired : Option GemmaToolCall → List GemmaMessage → Type 0
Paired none [] = Unit {0}
Paired none (m ∷ ms) = (m.role ≢ by_tool) × Paired (head? m.tool_calls) ms
Paired (some call) [] = ⊥
Paired (some call) (m ∷ ms) =
    (m.role ≡ by_tool)
    × (m.tool_call_id ≡ some call.call_id)
    × (m.name ≡ some call.name)
    × (m.tool_calls ≡ [])
    × Paired none ms

messages_of-Paired : (groups : List ConversationGroup) → Paired none (messages_of groups)
unfolding messages_of
messages_of-Paired [] = tt
messages_of-Paired (message e ∷ groups) = (ground arith, messages_of-Paired groups)
messages_of-Paired (exchange call output ∷ groups) =
    ((λ p. cc), (refl, refl, refl, refl, messages_of-Paired groups))

length-messages_of :
    (groups : List ConversationGroup) → length (messages_of groups) ≡ total_items groups
unfolding messages_of
length-messages_of [] = refl
length-messages_of (message e ∷ groups) = omega (arith, length-messages_of groups)
length-messages_of (exchange call output ∷ groups) = omega (arith, length-messages_of groups)

-- After any history of a valid conversation, the model is shown as many messages as the item counter
-- says, hence at most `max_items`; and every tool call is followed at once by its own result.
pub messages-Paired :
    (c : Conversation) (calls : List Call)
    → IsBounded c
    → (length (messages (run c calls)) ≡ (run c calls).items)
      × (length (messages (run c calls)) ≤ (run c calls).max_items)
      × Paired none (messages (run c calls))
unfolding messages
messages-Paired c calls v =
    let w = run-IsBounded c calls v in
    let n = length-messages_of (run c calls).groups in
    (omega (arith, n, w.counted_items), omega (arith, n, w.fits), messages_of-Paired _)
