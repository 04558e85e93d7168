-- ===== src/Registry/Examples.antt =====
-- The theorem on the registry at two slots and three sessions, one of which does not drain.
use livekit_hugging_voice.Base.{true, false, List, [], ◌∷◌}
use livekit_hugging_voice.Text.{codes}
use livekit_hugging_voice.Capacity.{CapacityManager, fresh_slot}
use livekit_hugging_voice.Registry.{Call, creates, releases, begins, ends, init, run}
use livekit_hugging_voice.Registry.Ownership.{IsExclusive}
use livekit_hugging_voice.Registry.Exclusive.{init-run-IsExclusive}

abbrev two_slots : CapacityManager
two_slots = record {
  slots = fresh_slot 0 ∷ fresh_slot 1 ∷ [];
  service_draining = false;
  telemetry = record {
    sessions_active = 0;
    sessions_draining = 0;
    sessions_stuck = 0;
    sessions_available = 2;
    sessions_rejected = 0;
  };
}

abbrev day : List Call
day =
    creates (codes "a") 1 true
    ∷ creates (codes "b") 2 true
    ∷ releases 0
    ∷ begins (codes "a") 3
    ∷ ends (codes "a") false 4
    ∷ releases 1
    ∷ releases 1
    ∷ begins (codes "b") 5
    ∷ ends (codes "b") true 6
    ∷ creates (codes "c") 7 true
    ∷ []

init-run-IsExclusive_example : IsExclusive (run (init two_slots) day)
init-run-IsExclusive_example = init-run-IsExclusive two_slots day
