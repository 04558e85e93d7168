-- ===== src/AudioBuffer/Examples.antt =====
-- The theorems on BoundedAudioBuffer at a buffer that appends, discards and slices.
use livekit_hugging_voice.Base.{◌≡◌, refl, List, [], ◌∷◌, ok, err}
use livekit_hugging_voice.AudioBuffer.{
  BoundedAudioBuffer, outside_buffer, init, slice_samples, Call, appends, discards, step, run,
}
use livekit_hugging_voice.AudioBuffer.Stream.{
  silence, heard_after_all, Holds, init-Holds, run-Holds, slice_samples-Holds,
}

abbrev small : BoundedAudioBuffer
small = init 1 4

abbrev talk : List Call
talk =
    appends (1 ∷ 2 ∷ 3 ∷ 4 ∷ [])
    ∷ appends (9 ∷ [])
    ∷ discards 1
    ∷ appends (5 ∷ 6 ∷ [])
    ∷ discards 9
    ∷ []

talked-Holds : Holds (run small talk) (heard_after_all 8 silence talk)
unfolding init
talked-Holds = run-Holds talk small silence (init-Holds 1 4)

run-Holds_example : Holds (run small talk) (heard_after_all 8 silence talk)
unfolding init
run-Holds_example = run-Holds talk small silence (init-Holds 1 4)

slice_samples-Holds_example : slice_samples 1 3 (run small talk) ≡ ok (3 ∷ 4 ∷ 5 ∷ 6 ∷ [])
slice_samples-Holds_example =
    slice_samples-Holds 1 3 (run small talk) (heard_after_all 8 silence talk) talked-Holds

sliced_out : slice_samples 0 2 (run small talk) ≡ err outside_buffer
unfolding slice_samples run step init
sliced_out = refl
