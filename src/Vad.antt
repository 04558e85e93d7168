-- ===== src/Vad.antt =====
-- services/gpu-service/src/hugging_voice_service/runtimes/silero.py: the voice activity detection of one
-- session. The Silero model and the floats are parameters: `Silero` holds what the code uses of them.
mod Signals
mod Chunks
mod Examples
use livekit_hugging_voice.Base.{
  ℕ, zero, suc, ◌+◌, ◌-◌, ◌*◌, ◌/◌, ◌%◌, ◌≤◌, ◌<◌, min, max, ◌≡◌, refl, sym, ap, subst, ◌∙◌, ◌≢◌,
  ◌↔◌, ◌⊎◌, inl, inr, Bool, true, false, not, ◌&&◌, ◌||◌, Option, none, some, List, [], ◌∷◌, ◌++◌,
  map, append-nil, append_assoc, arith, ltb, leb, ◌==◌, if◌then◌else◌, Bool-cases, Option-cases,
  ==_iff, eq_refl, length, get_elem?, take, drop, length-append, length-drop, length-take,
  drop-append, take-append, drop-drop, Result, ok, err, ◌>>=◌, Result-cases,
}
use livekit_hugging_voice.Base.Int.{ℤ}

-- The model with its hidden state `M`, and the comparison of the probabilities `F`; `load` is what
-- `model_factory` returns.
pub record Silero (M F : Type 0) : Type 0 where
  pub load : M
  pub infer : M → List ℕ → M × F
  pub reset_states : M → M
  pub at_most : F → F → Bool
  pub same : F → F → Bool
  pub zero_point_zero : F
  pub one_point_zero : F
  pub threshold_min : F
  pub threshold_max : F

pub data SignalKind : Type 0 where
  speech_started speech_stopped : SignalKind

pub record VadSignal : Type 0 where
  pub kind : SignalKind
  pub sample_index : ℕ

pub data Error : Type 0 where
  incomplete_sample invalid_probability invalid_threshold : Error

abbrev pub sample_rate : ℕ
sample_rate = 16000

abbrev pub window_samples : ℕ
window_samples = 512

abbrev pub window_bytes : ℕ
window_bytes = 1024

pub record VadConfiguration (F : Type 0) : Type 0 where
  pub threshold : F
  pub min_speech_ms : ℕ
  pub min_speech_continuation_ms : ℕ
  pub min_silence_ms : ℕ
  pub speech_pad_ms : ℕ

pub record SessionVad (M F : Type 0) : Type 0 where
  pub configuration : VadConfiguration F
  pub min_speech_samples : ℕ
  pub continuation_samples : ℕ
  pub min_silence_samples : ℕ
  pub speech_pad_samples : ℕ
  pub model : M
  pub remainder : List ℕ
  pub processed_samples : ℕ
  pub candidate_start : Option ℕ
  pub candidate_silence_start : Option ℕ
  pub speech_start : Option ℕ
  pub silence_start : Option ℕ

unfoldable pub ms_to_samples : ℕ → ℕ
ms_to_samples milliseconds = sample_rate * milliseconds / 1000

abbrev pub is_some : Option ℕ → Bool
is_some none = false
is_some (some n) = true

abbrev pub or_now : Option ℕ → ℕ → ℕ
or_now none now = now
or_now (some n) now = n

module _ {M F : Type 0} where
  unfoldable pub speaking : SessionVad M F → Bool
  speaking v = is_some v.speech_start

  unfoldable pub clear_turn_state : SessionVad M F → SessionVad M F
  clear_turn_state v = record v {
    candidate_start = none;
    candidate_silence_start = none;
    speech_start = none;
    silence_start = none;
  }

  abbrev pub window_end : SessionVad M F → ℕ
  window_end v = v.processed_samples + window_samples

  -- `_advance` before speech, in a window with speech
  unfoldable pub heard_speech : SessionVad M F → SessionVad M F × List VadSignal
  heard_speech v =
      let start = or_now v.candidate_start v.processed_samples in
      let begun = start - v.speech_pad_samples in
      let v' = record v { candidate_start = some start; candidate_silence_start = none } in
      if leb v.min_speech_samples (window_end v - start)
      then (
        record v' { speech_start = some begun },
        record { kind = speech_started; sample_index = begun } ∷ [],
      )
      else (v', [])

  -- `_advance` before speech, in a window without speech
  unfoldable pub heard_nothing : SessionVad M F → SessionVad M F
  heard_nothing v = elim v.candidate_start [
    | none ↦ v
    | some start ↦
        let since = or_now v.candidate_silence_start v.processed_samples in
        if ltb v.continuation_samples (window_end v - since)
        then record v { candidate_start = none; candidate_silence_start = none }
        else record v { candidate_silence_start = some since }
  ]

  -- `_advance` in speech, in a window without speech
  unfoldable pub heard_silence : SessionVad M F → SessionVad M F × List VadSignal
  unfolding clear_turn_state
  heard_silence v =
      let since = or_now v.silence_start v.processed_samples in
      if leb v.min_silence_samples (window_end v - since)
      then (
        clear_turn_state v,
        record {
          kind = speech_stopped;
          sample_index = min (window_end v) (since + v.speech_pad_samples);
        }
            ∷ [],
      )
      else (record v { silence_start = some since }, [])

  -- `_advance`, once the probability is compared with the threshold
  unfoldable pub advance : Bool → SessionVad M F → SessionVad M F × List VadSignal
  unfolding heard_speech heard_nothing heard_silence speaking
  advance is_speech v =
      if speaking v
      then (if is_speech then (record v { silence_start = none }, []) else heard_silence v)
      else if is_speech
      then heard_speech v
      else (heard_nothing v, [])

module _ {M F : Type 0} where
  abbrev pub past_window :
      SessionVad M F × List VadSignal → SessionVad M F × Result Error (List VadSignal)
  past_window (v, signals) =
      (record v { processed_samples = v.processed_samples + window_samples }, ok signals)

  abbrev pub with_signals :
      List VadSignal
      → SessionVad M F × Result Error (List VadSignal)
      → SessionVad M F × Result Error (List VadSignal)
  with_signals out (v, err e) = (v, err e)
  with_signals out (v, ok rest) = (v, ok (out ++ rest))

  unfoldable pub chain :
      SessionVad M F × Result Error (List VadSignal)
      → (SessionVad M F → SessionVad M F × Result Error (List VadSignal))
      → SessionVad M F × Result Error (List VadSignal)
  chain (v, err e) k = (v, err e)
  chain (v, ok out) k = with_signals out (k v)

module _ {M F : Type 0} (silero : Silero M F) where
  unfoldable pub init : VadConfiguration F → SessionVad M F
  unfolding ms_to_samples
  init c = record {
    configuration = c;
    min_speech_samples = ms_to_samples c.min_speech_ms;
    continuation_samples = ms_to_samples c.min_speech_continuation_ms;
    min_silence_samples = ms_to_samples c.min_silence_ms;
    speech_pad_samples = ms_to_samples c.speech_pad_ms;
    model = silero.load;
    remainder = [];
    processed_samples = 0;
    candidate_start = none;
    candidate_silence_start = none;
    speech_start = none;
    silence_start = none;
  }

  -- the range check of `_speech_probability`
  abbrev pub is_probability : F → Bool
  is_probability p =
      silero.at_most silero.zero_point_zero p && silero.at_most p silero.one_point_zero

  -- the window is taken out of the remainder, and the model has run on it
  unfoldable pub infer_window : SessionVad M F → SessionVad M F × F
  infer_window v =
      let out = silero.infer v.model (take window_bytes v.remainder) in
      (record v { remainder = drop window_bytes v.remainder; model = out.0 }, out.1)

  -- what follows the model's answer: its range check, `_advance`, and the count of the window
  unfoldable pub judge : SessionVad M F × F → SessionVad M F × Result Error (List VadSignal)
  unfolding advance
  judge (v, p) =
      if is_probability p
      then past_window (advance (silero.at_most v.configuration.threshold p) v)
      else (v, err invalid_probability)

  -- one round of the loop of `process_pcm16`
  unfoldable pub process_window : SessionVad M F → SessionVad M F × Result Error (List VadSignal)
  unfolding infer_window judge
  process_window v = judge (infer_window v)

  -- The loop of `process_pcm16`, on fuel; an exception loses the signals of the rounds before.
  unfoldable pub process_windows :
      ℕ → SessionVad M F → SessionVad M F × Result Error (List VadSignal)
  unfolding process_window chain
  process_windows zero v = (v, ok [])
  process_windows (suc n) v =
      if leb window_bytes (length v.remainder)
      then chain (process_window v) (λ v'. process_windows n v')
      else (v, ok [])

  -- Each round takes a window, so the number of bytes is fuel enough.
  unfoldable pub process_pcm16 :
      List ℕ → SessionVad M F → SessionVad M F × Result Error (List VadSignal)
  unfolding process_windows
  process_pcm16 payload v =
      if length payload % 2 == 0
      then (let bytes = v.remainder ++ payload in
          process_windows (length bytes) (record v { remainder = bytes }))
      else (v, err incomplete_sample)

  unfoldable pub flush : SessionVad M F → SessionVad M F × List VadSignal
  unfolding clear_turn_state speaking
  flush v = (
    record (clear_turn_state v) { remainder = []; model = silero.reset_states v.model },
    if speaking v
        then record { kind = speech_stopped; sample_index = v.processed_samples } ∷ []
        else [],
  )

  unfoldable pub reset : SessionVad M F → SessionVad M F
  unfolding clear_turn_state
  reset v = record (clear_turn_state v) {
    processed_samples = 0;
    remainder = [];
    model = silero.reset_states v.model;
  }

  abbrev pub same_configuration : VadConfiguration F → VadConfiguration F → Bool
  same_configuration a b =
      silero.same a.threshold b.threshold
      && a.min_speech_ms == b.min_speech_ms
      && a.min_speech_continuation_ms == b.min_speech_continuation_ms
      && a.min_silence_ms == b.min_silence_ms
      && a.speech_pad_ms == b.speech_pad_ms

  unfoldable pub configure :
      VadConfiguration F → SessionVad M F → Result Error (SessionVad M F × Bool)
  unfolding ms_to_samples reset
  configure c v =
      if not (
        silero.at_most silero.threshold_min c.threshold
        && silero.at_most c.threshold silero.threshold_max)
      then err invalid_threshold
      else if same_configuration c v.configuration
      then ok (v, false)
      else ok (
        reset (record v {
          configuration = c;
          min_speech_samples = ms_to_samples c.min_speech_ms;
          continuation_samples = ms_to_samples c.min_speech_continuation_ms;
          min_silence_samples = ms_to_samples c.min_silence_ms;
          speech_pad_samples = ms_to_samples c.speech_pad_ms;
        }),
        true,
      )
