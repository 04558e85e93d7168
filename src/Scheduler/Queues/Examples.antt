-- ===== src/Scheduler/Queues/Examples.antt =====
-- The round robin at two sessions.
use livekit_hugging_voice.Base.{ℕ, [], ◌∷◌}
use livekit_hugging_voice.Text.{codes}
use livekit_hugging_voice.Scheduler.Queues.{Queues}

abbrev two_wait : Queues ℕ
two_wait = (codes "b", 1 ∷ []) ∷ (codes "a", 2 ∷ 3 ∷ []) ∷ []
