-- ===== src/Endpoints/Examples.antt =====
-- The theorem on the endpoints at four services, with a shuffle that turns the list round.
use livekit_hugging_voice.Base.{◌≡◌, refl, Bool, some, List, [], ◌∷◌, ◌++◌, arith}
use livekit_hugging_voice.Base.Int.{pos}
use livekit_hugging_voice.Text.{Text, codes}
use livekit_hugging_voice.Endpoints.{
  CapacitySnapshot, Probe, no_response, response, order_by_capacity,
}
use livekit_hugging_voice.Endpoints.Ordering.{count, count-append, Ranked, order_by_capacity-Ranked}

abbrev reversed : List CapacitySnapshot → List CapacitySnapshot
reversed [] = []
reversed (c ∷ cs) = reversed cs ++ c ∷ []

count-reversed :
    (p : CapacitySnapshot → Bool) (cs : List CapacitySnapshot) → count p (reversed cs) ≡ count p cs
unfolding count
count-reversed p [] = refl
count-reversed p (c ∷ cs) =
    omega (arith, count-append p (reversed cs) (c ∷ []), count-reversed p cs)

abbrev four_probes : List (Text × Probe)
four_probes =
    (codes "ws://a", response 200 (some (pos 4, pos 3, pos 1)))
    ∷ (codes "ws://b", no_response)
    ∷ (codes "ws://c", response 200 (some (pos 4, pos 4, pos 0)))
    ∷ (codes "ws://d", response 200 (some (pos 4, pos 1, pos 3)))
    ∷ []

order_by_capacity-Ranked_example : Ranked four_probes (order_by_capacity reversed four_probes)
order_by_capacity-Ranked_example = order_by_capacity-Ranked reversed four_probes count-reversed
