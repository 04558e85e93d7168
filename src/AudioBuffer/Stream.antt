-- ===== src/AudioBuffer/Stream.antt =====
-- The buffer refines a stream: all the bytes since the last `clear`, and the sample from which they
-- are still held.
use livekit_hugging_voice.Base.{
  ℕ, ◌+◌, ◌-◌, ◌*◌, ◌/◌, ◌%◌, ◌≤◌, ◌≡◌, refl, sym, ap, subst, ◌∙◌, ◌&&◌, ◌||◌, List, [], ◌∷◌, ◌++◌,
  arith, ltb, leb, if◌then◌else◌, length, take, drop, length-append, length-drop, drop-append,
  drop-drop, ok, err,
}
use livekit_hugging_voice.AudioBuffer.{
  BoundedAudioBuffer, outside_buffer, init, slice_samples, clear, Call, appends, discards, clears,
  step, run,
}

pub record Stream : Type 0 where
  pub heard : List ℕ
  pub kept_from : ℕ

abbrev pub silence : Stream
silence = record { heard = []; kept_from = 0 }

-- What a call means for the stream, in a buffer of `max_bytes`.
abbrev pub heard_after : ℕ → Stream → Call → Stream
heard_after max_bytes s (appends payload) =
    if ltb 0 (length payload % 2)
      || ltb (max_bytes + s.kept_from * 2) (length s.heard + length payload)
    then s
    else record s { heard = s.heard ++ payload }
heard_after max_bytes s (discards sample) =
    if ltb sample s.kept_from || ltb (length s.heard) (sample * 2)
    then s
    else record s { kept_from = sample }
heard_after max_bytes s clears = silence

abbrev pub heard_after_all : ℕ → Stream → List Call → Stream
heard_after_all max_bytes s [] = s
heard_after_all max_bytes s (call ∷ calls) =
    heard_after_all max_bytes (heard_after max_bytes s call) calls

-- The buffer holds the stream's bytes from `kept_from` on, all of it whole samples, within its limit.
pub record Holds (b : BoundedAudioBuffer) (s : Stream) : Type 0 where
  pub first : b.first_sample ≡ s.kept_from
  pub last : b.end_sample * 2 ≡ length s.heard
  pub ordered : b.first_sample ≤ b.end_sample
  pub tail : b.bytes ≡ drop (b.first_sample * 2) s.heard
  pub bounded : length b.bytes ≤ b.max_bytes

pub init-Holds : (seconds rate : ℕ) → Holds (init seconds rate) silence
unfolding init
init-Holds seconds rate = ground arith

size-Holds :
    {b : BoundedAudioBuffer} {s : Stream}
    → Holds b s
    → length b.bytes + s.kept_from * 2 ≡ length s.heard
size-Holds {b} {s} h = omega (
  arith,
  ap (length {A = ℕ}) h.tail,
  length-drop (b.first_sample * 2) s.heard,
  h.first,
  h.last,
  h.ordered,
)

extended-Holds :
    (payload : List ℕ) (b : BoundedAudioBuffer) (s : Stream)
    → Holds b s
    → length payload % 2 ≡ 0
    → length b.bytes + length payload ≤ b.max_bytes
    → Holds
        (record b { bytes = b.bytes ++ payload; end_sample = b.end_sample + length payload / 2 })
        (record s { heard = s.heard ++ payload })
extended-Holds payload b s h even fits = record {
  first = h.first;
  last = omega (arith, length-append s.heard payload);
  ordered = omega arith;
  tail =
      ap (λ (l : List ℕ). l ++ payload) h.tail
      ∙ sym (drop-append (b.first_sample * 2) s.heard payload (omega arith));
  bounded = omega (arith, length-append b.bytes payload);
}

append-Holds :
    (payload : List ℕ) (b : BoundedAudioBuffer) (s : Stream)
    → Holds b s
    → Holds (step b (appends payload)) (heard_after b.max_bytes s (appends payload))
unfolding step
append-Holds payload b s h = ground (arith, size-Holds h, extended-Holds payload b s h)

discarded-Holds :
    (sample : ℕ) (b : BoundedAudioBuffer) (s : Stream)
    → Holds b s
    → b.first_sample ≤ sample
    → sample ≤ b.end_sample
    → Holds
        (record b { bytes = drop ((sample - b.first_sample) * 2) b.bytes; first_sample = sample })
        (record s { kept_from = sample })
discarded-Holds sample b s h lo hi = record {
  first = refl;
  last = h.last;
  ordered = hi;
  tail =
      ap (drop ((sample - b.first_sample) * 2)) h.tail
      ∙ drop-drop ((sample - b.first_sample) * 2) (b.first_sample * 2) s.heard
      ∙ ap (λ (k : ℕ). drop k s.heard) (omega arith);
  bounded = omega (arith, length-drop ((sample - b.first_sample) * 2) b.bytes);
}

discard-Holds :
    (sample : ℕ) (b : BoundedAudioBuffer) (s : Stream)
    → Holds b s
    → Holds (step b (discards sample)) (heard_after b.max_bytes s (discards sample))
unfolding step
discard-Holds sample b s h = ground (arith, discarded-Holds sample b s h)

clear-Holds : (b : BoundedAudioBuffer) (s : Stream) → Holds b s → Holds (clear b) silence
unfolding clear
clear-Holds b s h = ground arith

step-Holds :
    (call : Call) (b : BoundedAudioBuffer) (s : Stream)
    → Holds b s
    → Holds (step b call) (heard_after b.max_bytes s call)
step-Holds (appends payload) b s h = append-Holds payload b s h
step-Holds (discards sample) b s h = discard-Holds sample b s h
step-Holds clears b s h = unfold step in clear-Holds b s h

max_bytes-step : (call : Call) (b : BoundedAudioBuffer) → (step b call).max_bytes ≡ b.max_bytes
unfolding step
max_bytes-step (appends payload) b = ground arith
max_bytes-step (discards sample) b = ground arith
max_bytes-step clears b = refl

-- From a buffer that holds a stream, every history of calls leaves one that holds the stream after
-- the same calls: the bytes since the last `clear`, from the last accepted discard point on, and
-- never more than the limit.
pub run-Holds :
    (calls : List Call) (b : BoundedAudioBuffer) (s : Stream)
    → Holds b s
    → Holds (run b calls) (heard_after_all b.max_bytes s calls)
unfolding run
run-Holds [] b s h = h
run-Holds (call ∷ calls) b s h =
    subst
      (λ (limit : ℕ).
        Holds (run (step b call) calls)
          (heard_after_all limit (heard_after b.max_bytes s call) calls))
      (max_bytes-step call b)
      (run-Holds calls (step b call) (heard_after b.max_bytes s call) (step-Holds call b s h))

held_from :
    (start : ℕ) (b : BoundedAudioBuffer) (s : Stream)
    → Holds b s
    → b.first_sample ≤ start
    → drop ((start - b.first_sample) * 2) b.bytes ≡ drop (start * 2) s.heard
held_from start b s h lo =
    ap (drop ((start - b.first_sample) * 2)) h.tail
    ∙ drop-drop ((start - b.first_sample) * 2) (b.first_sample * 2) s.heard
    ∙ ap (λ (k : ℕ). drop k s.heard) (omega arith)

-- A slice of a buffer that holds a stream is that stretch of the stream, if it lies between the
-- first sample held and the last sample heard, and an error otherwise.
pub slice_samples-Holds :
    (start stop : ℕ) (b : BoundedAudioBuffer) (s : Stream)
    → Holds b s
    → slice_samples start stop b ≡ (
        if leb s.kept_from start && leb start stop && leb (stop * 2) (length s.heard)
        then ok (take ((stop - start) * 2) (drop (start * 2) s.heard))
        else err outside_buffer)
unfolding slice_samples
slice_samples-Holds start stop b s h = ground (arith, held_from start b s h)
