-- ===== src/Conversation/Examples.antt =====
-- The theorems on conversation.py at a small conversation.
use livekit_hugging_voice.Base.{◌≤◌, ◌≡◌, refl, false, none, List, [], ◌∷◌, arith, length, ok}
use livekit_hugging_voice.Base.Int.{pos}
use livekit_hugging_voice.Text.{codes, text_eq, strip}
use livekit_hugging_voice.Conversation.{
  user, assistant, FunctionCallEntry, FunctionCallOutputEntry, Conversation, init, append,
  commit_tool_exchange, messages, Call, appends, commits, step, run,
}
use livekit_hugging_voice.Conversation.Limits.{IsBounded, Appended}
use livekit_hugging_voice.Conversation.Appends.{
  stripped, append-Appended, CommitOutcome, commit-CommitOutcome, run-IsBounded, init-IsBounded,
}
use livekit_hugging_voice.Conversation.Messages.{Paired, messages-Paired}

abbrev blank : Conversation
blank = record { groups = []; max_items = 3; max_characters = 40; items = 0; characters = 0 }

abbrev weather_call : FunctionCallEntry
weather_call = record {
  item_id = codes "item_2";
  call_id = codes "call_1";
  name = codes "weather";
  arguments = codes "{}";
  turn_id = codes "turn_1";
  turn_revision = pos 0;
  generation_id = codes "gen_1";
  response_id = codes "resp_1";
}

abbrev weather_output : FunctionCallOutputEntry
weather_output = record {
  item_id = codes "item_3";
  call_id = codes "call_1";
  name = codes "weather";
  output = codes "sunny";
  is_error = false;
  turn_id = codes "turn_1";
  turn_revision = pos 0;
  generation_id = codes "gen_1";
  response_id = codes "resp_1";
}

abbrev chat : List Call
chat =
    appends (codes "item_0") user (codes " hello ")
    ∷ appends (codes "item_1") assistant (codes "hi")
    ∷ commits weather_call weather_output
    ∷ commits weather_call weather_output
    ∷ []

blank-IsBounded : IsBounded blank × (blank.groups ≡ []) × (1 ≤ 3) × (1 ≤ 40)
unfolding init
blank-IsBounded = init-IsBounded 3 40 blank refl

run-IsBounded_example : IsBounded (run blank chat)
run-IsBounded_example = run-IsBounded blank chat blank-IsBounded.0

append-Appended_example :
    (c' : Conversation) × (append (codes "item_0") user (codes " hello ") blank ≡ ok c')
    × Appended (stripped (codes "item_0") user (codes " hello ")) blank c'
unfolding strip
append-Appended_example =
    append-Appended (codes "item_0") user (codes " hello ") blank blank-IsBounded.0 refl
      (omega arith)

commit-CommitOutcome_example :
    CommitOutcome weather_call weather_output blank
      (commit_tool_exchange weather_call weather_output blank)
commit-CommitOutcome_example =
    commit-CommitOutcome weather_call weather_output blank blank-IsBounded.0

messages-Paired_example :
    (length (messages (run blank chat)) ≡ (run blank chat).items)
    × (length (messages (run blank chat)) ≤ (run blank chat).max_items)
    × Paired none (messages (run blank chat))
messages-Paired_example = messages-Paired blank chat blank-IsBounded.0

-- the oldest message went, the exchange is there once
abbrev kept : Conversation
kept = run blank chat

kept_items : kept.items ≡ 3
unfolding run step append commit_tool_exchange strip text_eq
kept_items = refl
