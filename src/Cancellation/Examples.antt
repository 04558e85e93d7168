-- ===== src/Cancellation/Examples.antt =====
-- The theorems on cancellation.py at a session that starts, cancels and starts again.
use livekit_hugging_voice.Base.{◌≡◌, refl, false, some, [], ◌∷◌, List, arith}
use livekit_hugging_voice.Base.Int.{pos}
use livekit_hugging_voice.Text.{codes, text_eq}
use livekit_hugging_voice.Cancellation.{
  GenerationToken, GenerationCancellation, Call, starts, finishes, resets, init, start, cancel,
  is_current, run, step,
}
use livekit_hugging_voice.Cancellation.Staleness.{IsValid, init-IsValid, step-IsValid, run-stale}

abbrev fresh : GenerationCancellation
fresh = init (codes "session_a")

abbrev first : GenerationToken
first = (start (codes "turn_1") (pos 0) (codes "gen_1") fresh).1

abbrev speaking : GenerationCancellation
speaking = (start (codes "turn_1") (pos 0) (codes "gen_1") fresh).0

abbrev barged_in : GenerationCancellation
barged_in = (cancel (some (codes "gen_1")) speaking).0

abbrev later : List Call
later = starts (codes "turn_2") (pos 1) (codes "gen_1") ∷ finishes first ∷ resets ∷ []

run-stale_example : is_current (run barged_in later) first ≡ false
unfolding start cancel init is_current text_eq
run-stale_example = run-stale first barged_in later (omega arith) refl

abbrev started_again : GenerationCancellation
started_again = (start (codes "turn_2") (pos 1) (codes "gen_2") speaking).0

reset_fresh-IsValid : IsValid (step fresh resets)
reset_fresh-IsValid = step-IsValid fresh resets (init-IsValid (codes "session_a"))
