-- ===== src/AudioBuffer.antt =====
-- services/gpu-service/src/hugging_voice_service/sessions.py, BoundedAudioBuffer: PCM16 bytes that
-- are addressed by absolute sample numbers. A method that raises leaves the buffer as it was.
mod Stream
mod Examples
use livekit_hugging_voice.Base.{
  ℕ, zero, suc, ◌+◌, ◌-◌, ◌*◌, ◌/◌, ◌%◌, ◌≤◌, ◌<◌, min, max, ◌≡◌, refl, sym, ap, subst, ◌∙◌, ◌≢◌,
  ◌↔◌, ◌⊎◌, inl, inr, Bool, true, false, not, ◌&&◌, ◌||◌, Option, none, some, List, [], ◌∷◌, ◌++◌,
  map, append-nil, append_assoc, arith, ltb, leb, ◌==◌, if◌then◌else◌, Bool-cases, Option-cases,
  ==_iff, eq_refl, length, get_elem?, take, drop, length-append, length-drop, length-take,
  drop-append, take-append, drop-drop, Result, ok, err, ◌>>=◌, Result-cases,
}

-- PCM16_BYTES_PER_SAMPLE of hugging_voice_protocol/audio.py
abbrev pub bytes_per_sample : ℕ
bytes_per_sample = 2

pub record BoundedAudioBuffer : Type 0 where
  pub max_bytes : ℕ
  pub bytes : List ℕ
  pub first_sample : ℕ
  pub end_sample : ℕ

pub data BufferFault : Type 0 where
  incomplete_sample capacity_exceeded outside_buffer : BufferFault

unfoldable pub init : ℕ → ℕ → BoundedAudioBuffer
init max_seconds sample_rate = record {
  max_bytes = max_seconds * sample_rate * bytes_per_sample;
  bytes = [];
  first_sample = 0;
  end_sample = 0;
}

abbrev pub size_bytes : BoundedAudioBuffer → ℕ
size_bytes b = length b.bytes

unfoldable pub append : List ℕ → BoundedAudioBuffer → Result BufferFault BoundedAudioBuffer
append payload b =
    if ltb 0 (length payload % bytes_per_sample)
    then err incomplete_sample
    else if ltb b.max_bytes (length b.bytes + length payload)
    then err capacity_exceeded
    else ok (record b {
      bytes = b.bytes ++ payload;
      end_sample = b.end_sample + length payload / bytes_per_sample;
    })

unfoldable pub slice_samples : ℕ → ℕ → BoundedAudioBuffer → Result BufferFault (List ℕ)
slice_samples start stop b =
    if ltb start b.first_sample || ltb b.end_sample stop || ltb stop start
    then err outside_buffer
    else (let offset = (start - b.first_sample) * bytes_per_sample in
        let size = (stop - start) * bytes_per_sample in ok (take size (drop offset b.bytes)))

unfoldable pub discard_before : ℕ → BoundedAudioBuffer → Result BufferFault BoundedAudioBuffer
discard_before sample b =
    if leb b.first_sample sample && leb sample b.end_sample
    then (let count = (sample - b.first_sample) * bytes_per_sample in
        ok (record b { bytes = drop count b.bytes; first_sample = sample }))
    else err outside_buffer

unfoldable pub clear : BoundedAudioBuffer → BoundedAudioBuffer
clear b = record b { bytes = []; first_sample = 0; end_sample = 0 }

pub data Call : Type 0 where
  appends : List ℕ → Call
  discards : ℕ → Call
  clears : Call

abbrev pub after : BoundedAudioBuffer → Result BufferFault BoundedAudioBuffer → BoundedAudioBuffer
after b (ok b') = b'
after b (err e) = b

unfoldable pub step : BoundedAudioBuffer → Call → BoundedAudioBuffer
unfolding append discard_before clear
step b (appends payload) = after b (append payload b)
step b (discards sample) = after b (discard_before sample b)
step b clears = clear b

unfoldable pub run : BoundedAudioBuffer → List Call → BoundedAudioBuffer
run b [] = b
run b (call ∷ calls) = run (step b call) calls
