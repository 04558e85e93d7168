-- ===== src/Pipeline/Segments.antt =====
-- services/gpu-service/src/hugging_voice_service/pipeline.py: the signals of the VAD, the verdicts on the
-- candidates and the client's commits and clears keep the window.
use livekit_hugging_voice.Base.{
  ℕ, ◌+◌, ◌-◌, ◌≤◌, max, ◌≡◌, refl, sym, subst, Bool, true, false, Option, none, some, List, [],
  ◌∷◌, arith, if◌then◌else◌, Result, ok, err,
}
use livekit_hugging_voice.Text.{Text}
use livekit_hugging_voice.AudioBuffer.{BoundedAudioBuffer, BufferFault, slice_samples}
use livekit_hugging_voice.Vad.{VadSignal, SignalKind}
use livekit_hugging_voice.Vad
use livekit_hugging_voice.Pipeline.{
  by_barge_in, TurnCandidate, speech_started, Fault, VoicePipeline, Run, continue, ◌>>◌, modify,
}
use livekit_hugging_voice.Pipeline.Responses.{is_some, or_else, cancel_response}
use livekit_hugging_voice.Pipeline.Speech.{
  ms_of, open_segment, barge_in, announce_start, speech_starts, speech_resumes, speech_stops,
  open_candidate, stop_candidate, speech_stop_candidate, hear, hear_all,
}
use livekit_hugging_voice.Pipeline.Frames.{if-Keeps, continue-Keeps, send-Keeps}
use livekit_hugging_voice.Pipeline.Frames.Requests.{cancel-Keeps}
use livekit_hugging_voice.Pipeline.Windows.{Covers, Pending, Window, IsWindowed, reopened, outdated}
use livekit_hugging_voice.Pipeline.Cuts.{speech_stops-IsWindowed}

abbrev pub windowed_if :
    (b : Bool) (x y : VoicePipeline × Option Fault)
    → (b ≡ true → IsWindowed x.0)
    → (b ≡ false → IsWindowed y.0)
    → IsWindowed (if b then x else y).0
windowed_if = if-Keeps Window

-- What is asked of a signal: a start that opens a segment is not later than the audio received. A stop may
-- be anywhere.
abbrev pub Promised : SignalKind → ℕ → Option ℕ → BoundedAudioBuffer → Type 0
Promised Vad.speech_started n none b = n ≤ b.end_sample
Promised Vad.speech_started n (some m) b = Unit
Promised Vad.speech_stopped n os b = Unit

starts-IsWindowed :
    (n : ℕ) (s : VoicePipeline)
    → s.speech_start_sample ≡ none
    → n ≤ s.input_audio_buffer.end_sample
    → IsWindowed s
    → IsWindowed (speech_starts n s).0
unfolding speech_starts open_segment
starts-IsWindowed n s e le h =
    let s' = open_segment n s in
    let opened : IsWindowed s' =
      let (o, w, p, held) = h in
      (
        o,
        (omega arith, omega (arith, le, o)),
        reopened s.smart_turn s.input_audio_buffer s'.speech_start_sample s.turn_candidate_id
            s.turn_candidate_task s.turn_fallback_task
            (subst
              (λ os.
                Pending s.smart_turn s.input_audio_buffer os s.turn_candidate_id
                  s.turn_candidate_task s.turn_fallback_task)
              e p),
        refl,
      ) in
    continue-Keeps Window ((modify (open_segment n) >> barge_in) s)
      (announce_start (max n s.input_audio_buffer.first_sample))
      (windowed_if s.interrupt_response (cancel_response by_barge_in none none s') (s', none)
        (λ e. cancel-Keeps Window by_barge_in none none s' opened) (λ e. opened))
      (λ u k.
        send-Keeps Window
          (speech_started (or_else u.current_turn_id []) u.current_turn_revision
            (ms_of (max n s.input_audio_buffer.first_sample)))
          u k)

resumes-IsWindowed : (s : VoicePipeline) → IsWindowed s → IsWindowed (speech_resumes s)
unfolding speech_resumes
resumes-IsWindowed s h = (h.0, h.1, tt, h.3)

-- a slice that is taken is covered
slice-Covers :
    (k m n : ℕ) (b : BoundedAudioBuffer) (audio : List ℕ)
    → slice_samples (max m k) n b ≡ ok audio
    → Covers (some m) n b
unfolding slice_samples
slice-Covers k m n b audio e = ground (arith, e)

-- a new candidate covers its slice, wherever the signal is: outside the segment there is no slice
open_candidate-IsWindowed :
    (t : Text) (n : ℕ) (s : VoicePipeline) (r : Result BufferFault (List ℕ))
    → s.smart_turn ≡ true
    → ((audio : List ℕ) → r ≡ ok audio → Covers s.speech_start_sample n s.input_audio_buffer)
    → IsWindowed s
    → IsWindowed (open_candidate t n s r).0
open_candidate-IsWindowed t n s (err e) smart c h = h
open_candidate-IsWindowed t n s (ok audio) smart c h =
    (h.0, h.1, (smart, (omega arith, λ e. c audio refl)), h.3)

bumped :
    (s : VoicePipeline)
    → IsWindowed s
    → IsWindowed (record s { turn_candidate_id = s.turn_candidate_id + 1 })
bumped s h = (
  h.0,
  h.1,
  outdated s.smart_turn s.input_audio_buffer s.speech_start_sample s.turn_candidate_id
      s.turn_candidate_task s.turn_fallback_task h.2,
  h.3,
)

candidate-IsWindowed :
    (ot : Option Text) (os : Option ℕ) (n : ℕ) (s : VoicePipeline)
    → s.smart_turn ≡ true
    → s.speech_start_sample ≡ os
    → IsWindowed s
    → IsWindowed (stop_candidate ot os n s).0
candidate-IsWindowed none os n s smart e h = h
candidate-IsWindowed (some t) none n s smart e h = h
candidate-IsWindowed (some t) (some m) n s smart e h =
    let s' = record s { turn_candidate_id = s.turn_candidate_id + 1 } in
    let k = n - s.max_candidate_samples in
    open_candidate-IsWindowed t n s' (slice_samples (max m k) n s.input_audio_buffer) smart
      (λ audio sliced.
        subst (λ os. Covers os n s.input_audio_buffer) (sym e)
          (slice-Covers k m n s.input_audio_buffer audio sliced))
      (bumped s h)

-- with a fixed silence there are no candidates
no_candidates :
    (smart : Bool) (b : BoundedAudioBuffer) (start : Option ℕ) (id : ℕ)
    (ct ft : Option TurnCandidate)
    → smart ≡ false
    → Pending smart b start id ct ft
    → Pending smart b none id ct ft
no_candidates smart b start id none none e h = tt
no_candidates smart b start id (some c) none e h = ground (arith, h.0)
no_candidates smart b start id none (some c) e h = ground (arith, h.0)
no_candidates smart b start id (some c) (some d) e h = h

-- With a fixed silence, `_speech_stopped` at any sample.
stop_candidate-IsWindowed :
    (n : ℕ) (s : VoicePipeline) → IsWindowed s → IsWindowed (speech_stop_candidate n s).0
unfolding speech_stop_candidate
stop_candidate-IsWindowed n s h =
    windowed_if s.smart_turn (stop_candidate s.current_turn_id s.speech_start_sample n s)
      (speech_stops n s)
      (λ e. candidate-IsWindowed s.current_turn_id s.speech_start_sample n s e refl h)
      (λ e. speech_stops-IsWindowed n s h (
        no_candidates s.smart_turn s.input_audio_buffer s.speech_start_sample s.turn_candidate_id
          s.turn_candidate_task s.turn_fallback_task e h.2))

pub hear-IsWindowed :
    (signal : VadSignal) (s : VoicePipeline)
    → Promised signal.kind signal.sample_index s.speech_start_sample s.input_audio_buffer
    → IsWindowed s
    → IsWindowed (hear signal s).0
unfolding hear
hear-IsWindowed signal s p h = by_kind signal.kind p
  where
    started :
        (os : Option ℕ)
        → s.speech_start_sample ≡ os
        → Promised Vad.speech_started signal.sample_index os s.input_audio_buffer
        → IsWindowed
            (if is_some os then (speech_resumes s, none) else speech_starts signal.sample_index s).0
    started none e p = starts-IsWindowed signal.sample_index s e p h
    started (some m) e p = resumes-IsWindowed s h

    by_kind :
        (k : SignalKind)
        → Promised k signal.sample_index s.speech_start_sample s.input_audio_buffer
        → IsWindowed (hear (record { kind = k; sample_index = signal.sample_index }) s).0
    by_kind Vad.speech_started p = started s.speech_start_sample refl p
    by_kind Vad.speech_stopped p = stop_candidate-IsWindowed signal.sample_index s h

-- each signal as asked, in the state that the signals before it leave
unfoldable pub AllPromised : List VadSignal → VoicePipeline → Type 0
unfolding hear
AllPromised [] s = Unit
AllPromised (signal ∷ signals) s =
    Promised signal.kind signal.sample_index s.speech_start_sample s.input_audio_buffer
    × AllPromised signals (hear signal s).0

pub continue_with :
    (x : VoicePipeline × Option Fault) (k : Run)
    → IsWindowed x.0
    → IsWindowed (k x.0).0
    → IsWindowed (continue x k).0
continue_with (s, none) k h rest = rest
continue_with (s, some e) k h rest = h

pub hear_all-IsWindowed :
    (signals : List VadSignal) (s : VoicePipeline)
    → AllPromised signals s
    → IsWindowed s
    → IsWindowed (hear_all signals s).0
unfolding hear_all AllPromised
hear_all-IsWindowed [] s p h = h
hear_all-IsWindowed (signal ∷ signals) s p h =
    continue_with (hear signal s) (hear_all signals) (hear-IsWindowed signal s p.0 h)
      (hear_all-IsWindowed signals (hear signal s).0 p.1 (hear-IsWindowed signal s p.0 h))
