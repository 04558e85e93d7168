-- ===== src/Pipeline/Speech/Turns.antt =====
-- services/gpu-service/src/hugging_voice_service/pipeline.py: the segments and the turns that they complete.
use livekit_hugging_voice.Base.{
  ℕ, ◌+◌, ◌-◌, ◌*◌, ◌/◌, max, Bool, false, ◌&&◌, Option, none, some, List, [], ◌∷◌, ◌++◌,
  if◌then◌else◌, Result, ok, err,
}
use livekit_hugging_voice.Base.Int.{ℤ, int_eq, next}
use livekit_hugging_voice.Text.{Text, codes, text_eq}
use livekit_hugging_voice.AudioBuffer.{
  BoundedAudioBuffer, BufferFault, slice_samples, discard_before,
}
use livekit_hugging_voice.Pipeline.{
  by_barge_in, speech_started, speech_stopped, Fault, audio_fault, VoicePipeline, Run, ◌>>◌, modify,
  send, fresh_id,
}
use livekit_hugging_voice.Pipeline.Responses.{or_else, cancel_response}

-- `_cancel_turn_detection`, called by another task than the two
abbrev pub cancel_turn_detection : VoicePipeline → VoicePipeline
cancel_turn_detection s = record s { turn_candidate_task = none; turn_fallback_task = none }

abbrev pub ms_of : ℕ → ℕ
ms_of sample_index = sample_index * 1000 / 16000

-- `_speech_started`, up to the barge-in
unfoldable pub open_segment : ℕ → VoicePipeline → VoicePipeline
open_segment sample_index s = record s {
  incomplete_verdicts = 0;
  current_turn_revision = next s.current_turn_revision;
  current_turn_id = some (fresh_id (codes "turn_") s);
  drawn = s.drawn + 1;
  speech_start_sample = some (max sample_index s.input_audio_buffer.first_sample);
  partial_epoch = s.partial_epoch + 1;
  pending_call = none;
}

abbrev pub barge_in : Run
barge_in s = if s.interrupt_response then cancel_response by_barge_in none none s else (s, none)

abbrev pub announce_start : ℕ → Run
announce_start sample_index s =
    send
      (speech_started (or_else s.current_turn_id []) s.current_turn_revision (ms_of sample_index)) s

unfoldable pub speech_starts : ℕ → Run
unfolding open_segment cancel_response send
speech_starts sample_index s =
    (modify (open_segment sample_index)
        >> barge_in
        >> announce_start (max sample_index s.input_audio_buffer.first_sample))
      s

-- `_speech_resumed`
unfoldable pub speech_resumes : VoicePipeline → VoicePipeline
speech_resumes s = record (cancel_turn_detection s) {
  turn_candidate_id = s.turn_candidate_id + 1;
  partial_epoch = s.partial_epoch + 1;
}

-- `turn_key == self._completed_turn`
abbrev pub is_completed : Text → ℤ → Option (Text × ℤ) → Bool
is_completed turn_id revision none = false
is_completed turn_id revision (some (t, r)) = text_eq turn_id t && int_eq revision r

-- the end of `_complete_turn`, on the slice
abbrev pub queue_turn :
    Text → ℤ → VoicePipeline → Result BufferFault (List ℕ) → VoicePipeline × Option Fault
queue_turn turn_id revision s (err e) = (s, some (audio_fault e))
queue_turn turn_id revision s (ok audio) = (
  record s {
    completed_turns =
        s.completed_turns
        ++ record {
          turn_id = turn_id;
          revision = revision;
          audio = audio;
          transcription_enabled = s.transcription_enabled;
        }
          ∷ [];
  },
  none,
)

abbrev pub with_buffer :
    VoicePipeline → Result BufferFault BoundedAudioBuffer → VoicePipeline × Option Fault
with_buffer s (err e) = (s, some (audio_fault e))
with_buffer s (ok b) = (record s { input_audio_buffer = b }, none)

-- the slice is taken first; then the buffer is cut
abbrev pub cut_turn :
    Text → ℤ → ℕ → VoicePipeline → Result BufferFault (List ℕ) → VoicePipeline × Option Fault
cut_turn turn_id revision end_sample s (err e) = (s, some (audio_fault e))
cut_turn turn_id revision end_sample s (ok audio) =
    ((λ t. with_buffer t (discard_before end_sample t.input_audio_buffer))
        >> (λ t. queue_turn turn_id revision t (ok audio)))
      s

unfoldable pub complete_turn : Text → ℤ → ℕ → ℕ → Run
unfolding slice_samples discard_before
complete_turn turn_id revision start_sample end_sample s =
    if is_completed turn_id revision s.completed_turn
    then (s, none)
    else cut_turn turn_id revision end_sample
        (record s {
          completed_turn = some (turn_id, revision);
          partial_epoch = s.partial_epoch + 1;
          partial_task = none;
        })
        (slice_samples start_sample end_sample s.input_audio_buffer)

abbrev pub stop_segment : Option Text → Option ℕ → ℕ → Run
stop_segment none start sample_index s = (s, none)
stop_segment (some turn_id) none sample_index s = (s, none)
stop_segment (some turn_id) (some start) sample_index s =
    (send (speech_stopped turn_id s.current_turn_revision (ms_of sample_index))
        >> modify (λ t. record t { speech_start_sample = none })
        >> complete_turn turn_id s.current_turn_revision start sample_index)
      s

-- `_speech_stopped`
unfoldable pub speech_stops : ℕ → Run
unfolding send complete_turn
speech_stops sample_index s = stop_segment s.current_turn_id s.speech_start_sample sample_index s

-- a candidate's task is created, after the tasks before it are cancelled
abbrev pub open_candidate :
    Text → ℕ → VoicePipeline → Result BufferFault (List ℕ) → VoicePipeline × Option Fault
open_candidate turn_id sample_index s (err e) = (s, some (audio_fault e))
open_candidate turn_id sample_index s (ok audio) = (
  record s {
    turn_candidate_task = some (record {
      turn_id = turn_id;
      revision = s.current_turn_revision;
      candidate_id = s.turn_candidate_id;
      sample_index = sample_index;
      audio = audio;
    });
    turn_fallback_task = none;
  },
  none,
)

abbrev pub stop_candidate : Option Text → Option ℕ → ℕ → Run
stop_candidate none start sample_index s = (s, none)
stop_candidate (some turn_id) none sample_index s = (s, none)
stop_candidate (some turn_id) (some start) sample_index s =
    open_candidate turn_id sample_index (record s { turn_candidate_id = s.turn_candidate_id + 1 })
      (slice_samples (max start (sample_index - s.max_candidate_samples)) sample_index
        s.input_audio_buffer)

-- `_speech_stop_candidate`
unfoldable pub speech_stop_candidate : ℕ → Run
unfolding speech_stops slice_samples
speech_stop_candidate sample_index s =
    if s.smart_turn
    then stop_candidate s.current_turn_id s.speech_start_sample sample_index s
    else speech_stops sample_index s
