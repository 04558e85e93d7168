-- ===== src/Pipeline/Speech/Hearing.antt =====
-- services/gpu-service/src/hugging_voice_service/pipeline.py: `_append_audio` and the partial transcripts.
use livekit_hugging_voice.Base.{
  ℕ, ◌+◌, ◌-◌, max, Bool, not, ◌&&◌, ◌||◌, Option, none, some, List, [], ◌∷◌, ◌++◌, ltb, ◌==◌,
  if◌then◌else◌, take, drop, Result, ok, err,
}
use livekit_hugging_voice.Text.{Text, codes, text_eq}
use livekit_hugging_voice.AudioBuffer.{
  BufferFault, append, slice_samples, discard_before, size_bytes,
}
use livekit_hugging_voice.Vad.{VadSignal, SignalKind}
use livekit_hugging_voice.Vad
use livekit_hugging_voice.Protocol.Audio.{
  AudioValidationError, max_audio_bytes, decode_pcm16_base64,
}
use livekit_hugging_voice.Conversation.{is_empty}
use livekit_hugging_voice.Pipeline.{
  Partial, transcription_delta, Fault, value_error, audio_fault, VoicePipeline, Run, ◌>>◌, send,
}
use livekit_hugging_voice.Pipeline.Responses.{is_some}
use livekit_hugging_voice.Pipeline.Speech.Turns.{
  speech_starts, speech_resumes, with_buffer, speech_stop_candidate,
}
use livekit_hugging_voice.Pipeline.Speech.Candidates.{names_turn}

abbrev pub open_partial :
    Text → VoicePipeline → Result BufferFault (List ℕ) → VoicePipeline × Option Fault
open_partial turn_id s (err e) = (s, some (audio_fault e))
open_partial turn_id s (ok audio) = (
  record s {
    partial_task = some (record {
      turn_id = turn_id;
      revision = s.current_turn_revision;
      epoch = s.partial_epoch;
      audio = audio;
    });
  },
  none,
)

abbrev pub partial_of : Option Text → Option ℕ → Run
partial_of none start s = (s, none)
partial_of (some turn_id) none s = (s, none)
partial_of (some turn_id) (some start) s =
    let end_sample = s.input_audio_buffer.end_sample in
    open_partial turn_id s (
      slice_samples (max start (end_sample - s.max_partial_samples)) end_sample
        s.input_audio_buffer)

-- `_schedule_partial`; `due` tells that the interval has passed since the last one
unfoldable pub schedule_partial : Bool → Run
unfolding slice_samples
schedule_partial due s =
    if not s.partial_enabled || not due || is_some s.partial_task
    then (s, none)
    else partial_of s.current_turn_id s.speech_start_sample s

-- `_user_item_id`: the id without the five code points of its prefix
abbrev pub user_item_id : Text → Text
user_item_id turn_id =
    codes "item_" ++ (if text_eq (take 5 turn_id) (codes "turn_") then drop 5 turn_id else turn_id)

abbrev pub send_partial : Partial → Text → Run
send_partial p transcript s =
    if not (is_empty transcript)
      && not s.draining
      && names_turn p.turn_id p.revision s
      && s.partial_epoch == p.epoch
      && s.transcription_enabled
    then send (transcription_delta p.turn_id p.revision (user_item_id p.turn_id) transcript) s
    else (s, none)

abbrev pub transcribed_of : Option Partial → Option Text → Run
transcribed_of none transcript s = (s, none)
transcribed_of (some p) none s = (record s { partial_task = none }, none)
transcribed_of (some p) (some transcript) s =
    send_partial p transcript (record s { partial_task = none })

-- `_run_partial`, on the scheduler's answer; what it raises is logged only
unfoldable pub partial_transcribed : Option Text → VoicePipeline → VoicePipeline
unfolding send
partial_transcribed transcript s = (transcribed_of s.partial_task transcript s).0

abbrev pub append_payload :
    VoicePipeline → Result AudioValidationError (List ℕ) → VoicePipeline × Option Fault
append_payload s (err e) = (s, some value_error)
append_payload s (ok pcm16) = with_buffer s (append pcm16 s.input_audio_buffer)

-- `_append_audio`, up to the VAD
unfoldable pub receive_audio : ℕ → Text → Run
unfolding decode_pcm16_base64 append
receive_audio sequence audio s =
    if sequence == s.next_audio_sequence
    then append_payload (record s { next_audio_sequence = s.next_audio_sequence + 1 })
        (decode_pcm16_base64 max_audio_bytes audio)
    else (s, some value_error)

unfoldable pub hear : VadSignal → Run
unfolding speech_starts speech_resumes speech_stop_candidate
hear signal s = elim signal.kind [
  | Vad.speech_started ↦
      if is_some s.speech_start_sample
      then (speech_resumes s, none)
      else speech_starts signal.sample_index s
  | Vad.speech_stopped ↦ speech_stop_candidate signal.sample_index s
]

unfoldable pub hear_all : List VadSignal → Run
unfolding hear
hear_all [] s = (s, none)
hear_all (signal ∷ signals) s = (hear signal >> hear_all signals) s

-- the end of `_append_audio`: a partial of the open turn, or only two seconds are kept
unfoldable pub trim_silence : Bool → Run
unfolding schedule_partial discard_before
trim_silence due s =
    if is_some s.speech_start_sample
    then schedule_partial due s
    else if ltb 64000 (size_bytes s.input_audio_buffer)
    then with_buffer s (
        discard_before
          (max s.input_audio_buffer.first_sample (s.input_audio_buffer.end_sample - 32000))
          s.input_audio_buffer)
    else (s, none)

-- `_append_audio`, from the signals on
unfoldable pub hear_audio : List VadSignal → Bool → Run
unfolding hear_all trim_silence
hear_audio signals due s =
    if s.vad_enabled then (hear_all signals >> trim_silence due) s else (s, none)
