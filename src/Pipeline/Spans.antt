-- ===== src/Pipeline/Spans.antt =====
-- services/gpu-service/src/hugging_voice_service/pipeline.py: every event, signal and verdict keeps the
-- window of the open segment.
use livekit_hugging_voice.Base.{
  ℕ, ◌+◌, ◌-◌, ◌*◌, ◌≤◌, max, ◌≡◌, refl, sym, subst, Bool, false, not, ◌||◌, Option, none, some,
  List, arith, ltb, ◌==◌, drop, Result, ok, err,
}
use livekit_hugging_voice.Text.{Text}
use livekit_hugging_voice.AudioBuffer.{
  BoundedAudioBuffer, BufferFault, append, slice_samples, discard_before, size_bytes,
}
use livekit_hugging_voice.Vad.{VadSignal}
use livekit_hugging_voice.Protocol.Audio.{
  AudioValidationError, max_audio_bytes, decode_pcm16_base64,
}
use livekit_hugging_voice.Pipeline.{value_error, VoicePipeline, ◌>>◌}
use livekit_hugging_voice.Pipeline.Responses.{is_some}
use livekit_hugging_voice.Pipeline.Speech.{
  with_buffer, open_partial, partial_of, schedule_partial, append_payload, receive_audio, hear_all,
  trim_silence, hear_audio,
}
use livekit_hugging_voice.Pipeline.Frames.{continue-Keeps}
use livekit_hugging_voice.Pipeline.Windows.{
  Opens, Window, IsWindowed, Pending-longer, discard_inside,
}
use livekit_hugging_voice.Pipeline.Segments.{windowed_if, AllPromised, hear_all-IsWindowed}

partial_opened :
    (t : Text) (s : VoicePipeline) (r : Result BufferFault (List ℕ))
    → IsWindowed s
    → IsWindowed (open_partial t s r).0
partial_opened t s (ok audio) h = h
partial_opened t s (err e) h = h

partial_of-IsWindowed :
    (ot : Option Text) (os : Option ℕ) (s : VoicePipeline)
    → IsWindowed s
    → IsWindowed (partial_of ot os s).0
partial_of-IsWindowed none os s h = h
partial_of-IsWindowed (some t) none s h = h
partial_of-IsWindowed (some t) (some m) s h =
    partial_opened t s
      (slice_samples (max m (s.input_audio_buffer.end_sample - s.max_partial_samples))
        s.input_audio_buffer.end_sample s.input_audio_buffer)
      h

-- two seconds of silence are kept
trimmed :
    (s : VoicePipeline)
    → s.speech_start_sample ≡ none
    → IsWindowed s
    → IsWindowed
        (with_buffer s (
          discard_before
            (max s.input_audio_buffer.first_sample (s.input_audio_buffer.end_sample - 32000))
            s.input_audio_buffer)).0
trimmed s e h =
    let b = s.input_audio_buffer in
    let n = max b.first_sample (b.end_sample - 32000) in
    let le : n ≤ b.end_sample = omega (arith, h.0) in
    subst (λ r. IsWindowed (with_buffer s r).0) (sym (discard_inside n b (omega arith) le))
      (
        le,
        subst
            (Opens (record b { bytes = drop ((n - b.first_sample) * 2) b.bytes; first_sample = n }))
            (sym e) tt,
        Pending-longer s.smart_turn b
            (record b { bytes = drop ((n - b.first_sample) * 2) b.bytes; first_sample = n })
            s.speech_start_sample s.turn_candidate_id s.turn_candidate_task s.turn_fallback_task
            (omega arith) h.2,
        h.3,
      )

pub none_of : (os : Option ℕ) → is_some os ≡ false → os ≡ none
none_of none e = refl
none_of (some m) e = ground arith

trim-IsWindowed :
    (due : Bool) (s : VoicePipeline) → IsWindowed s → IsWindowed (trim_silence due s).0
unfolding trim_silence schedule_partial
trim-IsWindowed due s h =
    windowed_if (is_some s.speech_start_sample) (schedule_partial due s) _
      (λ e.
        windowed_if (not s.partial_enabled || not due || is_some s.partial_task) (s, none)
          (partial_of s.current_turn_id s.speech_start_sample s) (λ e. h)
          (λ e. partial_of-IsWindowed s.current_turn_id s.speech_start_sample s h))
      (λ e.
        windowed_if (ltb 64000 (size_bytes s.input_audio_buffer)) _ (s, none)
          (λ e'. trimmed s (none_of s.speech_start_sample e) h) (λ e. h))

pub hear_audio-IsWindowed :
    (signals : List VadSignal) (due : Bool) (s : VoicePipeline)
    → AllPromised signals s
    → IsWindowed s
    → IsWindowed (hear_audio signals due s).0
unfolding hear_audio
hear_audio-IsWindowed signals due s p h =
    windowed_if s.vad_enabled ((hear_all signals >> trim_silence due) s) (s, none)
      (λ e.
        continue-Keeps Window (hear_all signals s) (trim_silence due)
          (hear_all-IsWindowed signals s p h) (trim-IsWindowed due))
      (λ e. h)

Opens-longer :
    (os : Option ℕ) (b b' : BoundedAudioBuffer)
    → b'.first_sample ≡ b.first_sample
    → b.end_sample ≤ b'.end_sample
    → Opens b os
    → Opens b' os
Opens-longer none b b' e le h = tt
Opens-longer (some m) b b' e le h = (omega (arith, e, h.0), omega (arith, le, h.1))

appended-IsWindowed :
    (pcm16 : List ℕ) (s : VoicePipeline)
    → IsWindowed s
    → IsWindowed (with_buffer s (append pcm16 s.input_audio_buffer)).0
appended-IsWindowed pcm16 s h = of_result (append pcm16 s.input_audio_buffer) refl
  where
    grows :
        (b : BoundedAudioBuffer)
        → append pcm16 s.input_audio_buffer ≡ ok b
        → (b.first_sample ≡ s.input_audio_buffer.first_sample)
          × (s.input_audio_buffer.end_sample ≤ b.end_sample)
    grows b e = unfold append in ground arith

    of_result :
        (r : Result BufferFault BoundedAudioBuffer)
        → append pcm16 s.input_audio_buffer ≡ r
        → IsWindowed (with_buffer s r).0
    of_result (err e) k = h
    of_result (ok b) k =
        let (f, l) = grows b k in
        (
          omega (arith, f, l, h.0),
          Opens-longer s.speech_start_sample s.input_audio_buffer b f l h.1,
          Pending-longer s.smart_turn s.input_audio_buffer b s.speech_start_sample
              s.turn_candidate_id s.turn_candidate_task s.turn_fallback_task l h.2,
          h.3,
        )

payload-IsWindowed :
    (s : VoicePipeline) (r : Result AudioValidationError (List ℕ))
    → IsWindowed s
    → IsWindowed (append_payload s r).0
payload-IsWindowed s (ok pcm16) h = appended-IsWindowed pcm16 s h
payload-IsWindowed s (err e) h = h

pub receive-IsWindowed :
    (n : ℕ) (audio : Text) (s : VoicePipeline)
    → IsWindowed s
    → IsWindowed (receive_audio n audio s).0
unfolding receive_audio
receive-IsWindowed n audio s h =
    let s' = record s { next_audio_sequence = s.next_audio_sequence + 1 } in
    windowed_if (n == s.next_audio_sequence)
      (append_payload s' (decode_pcm16_base64 max_audio_bytes audio)) (s, some value_error)
      (λ e. payload-IsWindowed s' (decode_pcm16_base64 max_audio_bytes audio) h) (λ e. h)
