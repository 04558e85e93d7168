-- ===== src/Vad/Examples.antt =====
-- The theorems on silero.py, with a model that hears speech in every window; probabilities are in tenths.
use livekit_hugging_voice.Base.{
  ℕ, zero, suc, ◌+◌, ◌≡◌, refl, none, some, List, [], ◌∷◌, ◌++◌, leb, ◌==◌, ok,
}
use livekit_hugging_voice.Vad.{
  Silero, speech_started, VadConfiguration, SessionVad, ms_to_samples, speaking, heard_speech,
  advance, init, infer_window, judge, process_window, with_signals, chain, process_windows,
  process_pcm16,
}
use livekit_hugging_voice.Vad.Signals.{Followed, process_pcm16-Followed, init-IsTimed}
use livekit_hugging_voice.Vad.Chunks.{process_pcm16-append}

abbrev always_speech : Silero ℕ ℕ
always_speech = record {
  load = 0;
  infer = λ m window. (m + 1, 9);
  reset_states = λ m. 0;
  at_most = leb;
  same = λ a b. a == b;
  zero_point_zero = 0;
  one_point_zero = 10;
  threshold_min = 1;
  threshold_max = 9;
}

abbrev fast : VadConfiguration ℕ
fast = record {
  threshold = 6;
  min_speech_ms = 20;
  min_speech_continuation_ms = 192;
  min_silence_ms = 500;
  speech_pad_ms = 200;
}

abbrev silence : ℕ → List ℕ
silence zero = []
silence (suc n) = 0 ∷ silence n

-- one window was heard, and two bytes wait
abbrev heard : SessionVad ℕ ℕ
heard = record {
  configuration = fast;
  min_speech_samples = 320;
  continuation_samples = 3072;
  min_silence_samples = 8000;
  speech_pad_samples = 3200;
  model = 1;
  remainder = 0 ∷ 0 ∷ [];
  processed_samples = 512;
  candidate_start = some 0;
  candidate_silence_start = none;
  speech_start = some 0;
  silence_start = none;
}

process-window :
    process_pcm16 always_speech (silence 1026) (init always_speech fast)
    ≡ (heard, ok (record { kind = speech_started; sample_index = 0 } ∷ []))
unfolding process_pcm16 process_windows process_window judge infer_window advance speaking
    heard_speech chain init ms_to_samples
process-window = refl

process_pcm16-Followed_example :
    Followed
      (init always_speech fast)
      (process_pcm16 always_speech (silence 1026) (init always_speech fast))
process_pcm16-Followed_example =
    process_pcm16-Followed always_speech (silence 1026) (init always_speech fast)
      (init-IsTimed always_speech fast)

process_pcm16-append_example :
    process_pcm16 always_speech (silence 1026 ++ 0 ∷ 0 ∷ []) (init always_speech fast)
    ≡ with_signals
        (record { kind = speech_started; sample_index = 0 } ∷ [])
        (process_pcm16 always_speech (0 ∷ 0 ∷ []) heard)
process_pcm16-append_example =
    process_pcm16-append always_speech (silence 1026) (0 ∷ 0 ∷ []) (init always_speech fast) heard
      (record { kind = speech_started; sample_index = 0 } ∷ []) refl process-window
