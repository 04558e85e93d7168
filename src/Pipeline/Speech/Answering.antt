-- ===== src/Pipeline/Speech/Answering.antt =====
-- services/gpu-service/src/hugging_voice_service/pipeline.py: `_commit_audio`, `_clear_audio`, and the worker on
-- the completed turns.
use livekit_hugging_voice.Base.{
  ◌+◌, not, ◌||◌, Option, none, some, List, [], ◌∷◌, ◌==◌, if◌then◌else◌,
}
use livekit_hugging_voice.Base.Int.{int_eq, next}
use livekit_hugging_voice.Text.{Text, codes, strip}
use livekit_hugging_voice.AudioBuffer.{clear, size_bytes}
use livekit_hugging_voice.Conversation.{user, is_empty}
use livekit_hugging_voice.Conversation
use livekit_hugging_voice.Pipeline.{
  CompletedTurn, transcription_completed, VoicePipeline, Run, ◌>>◌, done, modify, handled, send,
  send_error, fresh_id,
}
use livekit_hugging_voice.Pipeline.Responses.{is_some, remember, Request, start_response}
use livekit_hugging_voice.Pipeline.Speech.Turns.{
  cancel_turn_detection, announce_start, speech_stops,
}
use livekit_hugging_voice.Pipeline.Speech.Candidates.{detection_failed}
use livekit_hugging_voice.Pipeline.Speech.Hearing.{user_item_id}

abbrev pub clear_buffer : VoicePipeline → VoicePipeline
clear_buffer s = record s { input_audio_buffer = clear s.input_audio_buffer }

-- the turn that `_commit_audio` opens by itself
abbrev pub open_manual : VoicePipeline → VoicePipeline
open_manual s = record s {
  current_turn_revision = next s.current_turn_revision;
  current_turn_id = some (fresh_id (codes "turn_") s);
  drawn = s.drawn + 1;
  speech_start_sample = some s.input_audio_buffer.first_sample;
}

unfoldable pub manual_turn : Run
unfolding send speech_stops
manual_turn s =
    (modify open_manual
        >> announce_start s.input_audio_buffer.first_sample
        >> speech_stops s.input_audio_buffer.end_sample
        >> modify clear_buffer)
      s

unfoldable pub commit_open : Run
unfolding speech_stops manual_turn
commit_open s =
    if is_some s.speech_start_sample
    then (speech_stops s.input_audio_buffer.end_sample >> modify clear_buffer) s
    else if size_bytes s.input_audio_buffer == 0
    then (s, none)
    else manual_turn s

-- `_commit_audio`
unfoldable pub commit_audio : Run
unfolding commit_open
commit_audio s =
    commit_open (record (cancel_turn_detection s) { turn_candidate_id = s.turn_candidate_id + 1 })

-- `_clear_audio`
unfoldable pub clear_audio : VoicePipeline → VoicePipeline
unfolding clear
clear_audio s = record (clear_buffer (cancel_turn_detection s)) {
  partial_epoch = s.partial_epoch + 1;
  turn_candidate_id = s.turn_candidate_id + 1;
  partial_task = none;
  current_turn_id = none;
  speech_start_sample = none;
}

abbrev pub no_request : Request
no_request = record {
  response_instructions = [];
  wanted_tools = none;
  wanted_choice = none;
  direct_text = none;
  pending_tool_call = none;
}

unfoldable pub answer_turn : CompletedTurn → Text → Run
unfolding start_response
answer_turn turn transcript s =
    if is_empty (strip transcript)
      || s.draining
      || not (int_eq s.current_turn_revision turn.revision)
    then (s, none)
    else ((λ t.
            remember t
              (Conversation.append (user_item_id turn.turn_id) user transcript t.conversation))
          >> start_response no_request)
        s

-- `_process_completed_turn`, on the final transcript
unfoldable pub process_completed_turn : CompletedTurn → Text → Run
unfolding send answer_turn
process_completed_turn turn transcript s =
    ((if turn.transcription_enabled
          then send (
              transcription_completed turn.turn_id turn.revision (user_item_id turn.turn_id)
                transcript)
          else done)
        >> answer_turn turn transcript)
      s

abbrev pub worked_of : List CompletedTurn → Option Text → Run
worked_of [] transcript s = (s, none)
worked_of (turn ∷ turns) none s = detection_failed (record s { completed_turns = turns })
worked_of (turn ∷ turns) (some transcript) s =
    handled (process_completed_turn turn transcript) detection_failed
      (record s { completed_turns = turns })

-- one round of `_run_completed_turns`: the transcript, or none where the scheduler raises
unfoldable pub turn_transcribed : Option Text → Run
unfolding process_completed_turn send_error
turn_transcribed transcript s = worked_of s.completed_turns transcript s
