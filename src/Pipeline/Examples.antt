-- ===== src/Pipeline/Examples.antt =====
-- The theorems on pipeline.py at small sessions: one with a response that fails, one that hears a turn,
-- one whose tool call is answered.
use livekit_hugging_voice.Base.{
  inl, ℕ, ◌+◌, ◌≡◌, refl, ◌⊎◌, true, false, none, some, List, [], ◌∷◌, arith, ok,
}
use livekit_hugging_voice.Base.Int.{pos}
use livekit_hugging_voice.Text.{Text, codes, text_eq, strip}
use livekit_hugging_voice.AudioBuffer.{BoundedAudioBuffer}
use livekit_hugging_voice.Vad.{VadSignal, SignalKind}
use livekit_hugging_voice.Vad
use livekit_hugging_voice.Cancellation.{GenerationToken, GenerationCancellation, is_current, start}
use livekit_hugging_voice.Cancellation
use livekit_hugging_voice.Conversation.{Conversation, has_call, commit_tool_exchange}
use livekit_hugging_voice.Pipeline.{
  model_failure, transport_refused, by_barge_in, by_client, unstarted, streaming, run_response,
  ResponseTask, ResponseContext, FunctionCallItem, TurnCandidate, value_error, VoicePipeline, init,
  send, send_error,
}
use livekit_hugging_voice.Pipeline.Responses.{
  text_done_of, send_text_done, audio_done_of, send_audio_done, finalize_of, finalize_response,
  failed_handler, fail_response, task_starts, stream_fails, cancel_response, ensure_turn,
  new_context, begin_response, freeze_tools, start_response,
}
use livekit_hugging_voice.Pipeline.Speech.{
  complete_turn, is_awaited, candidate_classified, free_candidate, no_request,
}
use livekit_hugging_voice.Pipeline.Items.{
  output_item, CallOutputItem, call_entry, output_entry, add_output, add_item,
}
use livekit_hugging_voice.Pipeline.Events.{
  append_audio, create_response, dispatch, handle_event, Call, handles, delivers, hears,
  starts_task, fails_stream, perform, run,
}
use livekit_hugging_voice.Pipeline.Follows.{Progress, is_over, follow, follow_all}
use livekit_hugging_voice.Pipeline.Runs.{AllTaken, run_idle_is_over}
use livekit_hugging_voice.Pipeline.Unstarted.{
  cancel_started-clears, IsStuck, cancel_unstarted-IsStuck,
}
use livekit_hugging_voice.Pipeline.Verdicts.{
  complete_turn_once, Awaited, candidate_classified-Awaited, second_verdict,
}
use livekit_hugging_voice.Pipeline.Outputs.{Answers, output-Answers, add_item_untouched}

abbrev silence : BoundedAudioBuffer
silence = record { max_bytes = 64; bytes = []; first_sample = 0; end_sample = 0 }

abbrev blank : Conversation
blank = record { groups = []; max_items = 8; max_characters = 80; items = 0; characters = 0 }

abbrev draws : ℕ → Text
draws n = (48 + n) ∷ []

abbrev fresh : VoicePipeline
fresh = init (codes "s") draws 20 true false 8 8 silence blank

-- a response that fails before it has any text
abbrev failing : List Call
failing =
    handles (codes "s") (create_response [] none none)
    ∷ delivers
    ∷ starts_task
    ∷ fails_stream model_failure
    ∷ []

failing-AllTaken : AllTaken failing fresh
unfolding AllTaken perform init handle_event dispatch text_eq start_response ensure_turn
    freeze_tools begin_response new_context start Cancellation.init Cancellation.next_token send
    strip
failing-AllTaken = (tt, (inl refl, (tt, (tt, tt))))

abbrev told : Progress
told = record { id = codes "resp_2"; text_done = true; audio_done = true; done = true }

run_idle_is_over_example : is_over (some told) ≡ true
unfolding run perform init handle_event dispatch text_eq start_response ensure_turn freeze_tools
    begin_response new_context start Cancellation.init Cancellation.next_token send task_starts
    stream_fails fail_response failed_handler send_error send_text_done text_done_of send_audio_done
    audio_done_of finalize_response finalize_of Cancellation.finish Cancellation.is_current
    follow_all follow strip
run_idle_is_over_example =
    run_idle_is_over (codes "s") draws 20 true false 8 8 silence blank failing (some told)
      failing-AllTaken refl refl refl

abbrev speech_at : ℕ → VadSignal
speech_at n = record { kind = Vad.speech_started; sample_index = n }

-- two samples of a turn that is still open
abbrev hearing : List Call
hearing =
    handles (codes "s") (append_audio 0 (codes "AQACAA==")) ∷ hears (speech_at 1 ∷ []) false ∷ []

abbrev token : GenerationToken
token = record {
  session_id = codes "s";
  turn_id = codes "turn_0";
  turn_revision = pos 0;
  generation_id = codes "gen_1";
  epoch = 1;
}

abbrev answer : ResponseContext
answer = record {
  turn_id = codes "turn_0";
  turn_revision = pos 0;
  generation_id = codes "gen_1";
  response_id = codes "resp_2";
  item_id = codes "item_3";
  token = token;
  instructions = [];
  tools = [];
  tool_choice = codes "auto";
  direct_speak = false;
  text = [];
  audio_sequence = 0;
  usage = none;
  text_done = false;
  audio_done = false;
  finalized = false;
  cancel_reason = by_client;
}

abbrev new_task : ResponseTask
new_task = record {
  runner = run_response;
  phase = unstarted;
  function_call = none;
  tts_started = false;
}

abbrev answering : ResponseTask → VoicePipeline
answering task = record fresh {
  cancellation = record { session_id = codes "s"; epoch = 1; current = some token };
  response = some answer;
  response_task = some task;
  response_idle = false;
}

abbrev started_task : ResponseTask
started_task = record new_task { phase = streaming }

cancel_started-clears_example :
    ((cancel_response by_barge_in none none (answering started_task)).0.response ≡ none)
    × ((cancel_response by_barge_in none none (answering started_task)).0.response_idle ≡ true)
cancel_started-clears_example =
    cancel_started-clears by_barge_in (answering started_task) answer started_task token refl refl
      (λ e. ground (arith, e)) refl

cancel_unstarted-IsStuck_example :
    IsStuck false false (cancel_response by_barge_in none none (answering new_task)).0
    × ((start_response no_request (cancel_response by_barge_in none none (answering new_task)).0).1
        ≡ some value_error)
cancel_unstarted-IsStuck_example =
    cancel_unstarted-IsStuck by_barge_in (answering new_task) answer new_task token no_request refl
      refl refl refl refl

abbrev heard : BoundedAudioBuffer
heard = record {
  max_bytes = 64;
  bytes = 1 ∷ 0 ∷ 2 ∷ 0 ∷ 3 ∷ 0 ∷ [];
  first_sample = 0;
  end_sample = 3;
}

abbrev candidate : TurnCandidate
candidate = record {
  turn_id = codes "turn_0";
  revision = pos 0;
  candidate_id = 1;
  sample_index = 2;
  audio = 1 ∷ 0 ∷ 2 ∷ 0 ∷ [];
}

-- the segment from the first sample on is open, and the candidate's number is the one given
abbrev open_turn : ℕ → VoicePipeline
open_turn id = record fresh {
  input_audio_buffer = heard;
  current_turn_id = some (codes "turn_0");
  current_turn_revision = pos 0;
  speech_start_sample = some 0;
  turn_candidate_task = some candidate;
  turn_candidate_id = id;
  incomplete_verdicts = 1;
}

complete_turn_once_example :
    complete_turn
      (codes "turn_0")
      (pos 0)
      0
      3
      (complete_turn (codes "turn_0") (pos 0) 0 2 (open_turn 1)).0
    ≡ ((complete_turn (codes "turn_0") (pos 0) 0 2 (open_turn 1)).0, none)
complete_turn_once_example = complete_turn_once (codes "turn_0") (pos 0) 0 2 0 3 (open_turn 1)

candidate_classified-Awaited_example :
    Awaited candidate (open_turn 2)
    ⊎ (candidate_classified (some true) (open_turn 2) ≡ (free_candidate (open_turn 2), none))
candidate_classified-Awaited_example =
    candidate_classified-Awaited (some true) candidate (open_turn 2) refl

second_verdict_example :
    ((candidate_classified (some false) (open_turn 1)).0.speech_start_sample ≡ none)
    ⊎ ((candidate_classified (some false) (open_turn 1)).1 ≡ some transport_refused)
    ⊎ ((candidate_classified (some false) (open_turn 1)).0.transport_closed ≡ true)
unfolding is_awaited init text_eq
second_verdict_example =
    second_verdict candidate (open_turn 1)
      (
        omega arith,
        (omega arith, omega arith),
        (refl, (omega arith, λ e. (omega arith, omega arith))),
        refl,
      )
      refl refl (omega arith)

abbrev weather_call : FunctionCallItem
weather_call = record {
  id = codes "item_3";
  call_id = codes "call";
  name = codes "weather";
  arguments = codes "{}";
  turn_id = codes "turn_0";
  turn_revision = pos 0;
  generation_id = codes "gen_1";
  response_id = codes "resp_2";
}

abbrev weather_output : CallOutputItem
weather_output = record {
  id = codes "item_4";
  call_id = codes "call";
  name = codes "weather";
  output = codes "sunny";
  is_error = false;
  turn_id = codes "turn_0";
  turn_revision = pos 0;
  generation_id = codes "gen_1";
  response_id = codes "resp_2";
}

abbrev called : VoicePipeline
called = record fresh { pending_call = some weather_call }

output-Answers_example :
    (p : FunctionCallItem) × (called.pending_call ≡ some p)
    × Answers weather_output p
    × (commit_tool_exchange (call_entry p) (output_entry weather_output) called.conversation
        ≡ ok (add_item (output_item weather_output) called).0.conversation)
    × ((add_item (output_item weather_output) called).0.pending_call ≡ none)
unfolding add_item add_output text_eq init commit_tool_exchange has_call
output-Answers_example = output-Answers weather_output called refl

add_item_untouched_example :
    ((add_item (output_item weather_output) fresh).1 ≡ none)
    ⊎ ((add_item (output_item weather_output) fresh).0 ≡ fresh)
add_item_untouched_example = add_item_untouched (output_item weather_output) fresh
