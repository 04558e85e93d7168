-- ===== src/Transport/Examples.antt =====
-- The theorems on the transport at one generation that is cancelled while its audio is queued.
use livekit_hugging_voice.Base.{ℕ, ◌≡◌, true, false, some, List, [], ◌∷◌, ◌++◌}
use livekit_hugging_voice.Text.{codes}
use livekit_hugging_voice.Transport.{
  ServerEvent, audio_delta, response_done, other, WebSocketTransport, cancel_generation, Call,
  sends, cancels, closes, puts_none, picks, delivers, run,
}
use livekit_hugging_voice.Transport.Silenced.{Silent, cancel_generation-Silent}
use livekit_hugging_voice.Transport.Order.{in_order, accepted, run-in_order}

abbrev delta : ℕ → ServerEvent ℕ
delta n = audio_delta (codes "generation_1") n

-- one delta is held by the sender, one is queued
abbrev speaking : WebSocketTransport ℕ
speaking = record {
  max_messages = 4;
  queue = some (delta 2) ∷ some (other 3) ∷ [];
  sender = true;
  sending = true;
  in_flight = some (delta 1);
  closed = false;
  cancelled_generations = [];
  sent = [];
}

abbrev rest_of_response : List (Call ℕ)
rest_of_response =
    delivers
    ∷ picks
    ∷ sends (delta 4)
    ∷ sends (response_done (codes "generation_1") 5)
    ∷ delivers
    ∷ picks
    ∷ delivers
    ∷ closes
    ∷ puts_none
    ∷ []

cancel_generation-Silent_example :
    Silent
      (codes "generation_1")
      speaking
      (run (cancel_generation (codes "generation_1") speaking).0 rest_of_response)
cancel_generation-Silent_example =
    cancel_generation-Silent (codes "generation_1") speaking rest_of_response

run-in_order_example :
    in_order (run speaking (cancels (codes "generation_1") ∷ rest_of_response))
    ≡ in_order speaking ++ accepted speaking (cancels (codes "generation_1") ∷ rest_of_response)
run-in_order_example = run-in_order speaking (cancels (codes "generation_1") ∷ rest_of_response) tt
