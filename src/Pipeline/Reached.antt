-- ===== src/Pipeline/Reached.antt =====
-- services/gpu-service/src/hugging_voice_service/pipeline.py: each history before the drain keeps the window
-- of the open segment.
use livekit_hugging_voice.Base.{List, [], ◌∷◌}
use livekit_hugging_voice.Text.{Text}
use livekit_hugging_voice.Conversation.{Conversation, has_call}
use livekit_hugging_voice.Conversation
use livekit_hugging_voice.Pipeline.{VoicePipeline}
use livekit_hugging_voice.Pipeline.Events.{Call, hears, drains, perform, step}
use livekit_hugging_voice.Pipeline.Segments.{AllPromised}

-- A call before the drain, with no start later than the audio received.
abbrev pub IsAllowed : Call → VoicePipeline → Type 0
IsAllowed (hears signals due) s = AllPromised signals s
IsAllowed drains s = ⊥
IsAllowed _ s = Unit

unfoldable pub AllAllowed : List Call → VoicePipeline → Type 0
unfolding perform
AllAllowed [] s = Unit
AllAllowed (call ∷ calls) s = IsAllowed call s × AllAllowed calls (step s call)
