-- ===== src/Pipeline/Follows.antt =====
-- services/gpu-service/src/hugging_voice_service/pipeline.py: the order of the events of a response, as a
-- client may rely on it: an automaton that reads what the transport took.
use livekit_hugging_voice.Base.{
  ◌≡◌, refl, Bool, true, false, not, ◌&&◌, Option, none, some, List, [], ◌∷◌, ◌++◌, if◌then◌else◌,
}
use livekit_hugging_voice.Text.{Text, text_eq}
use livekit_hugging_voice.Pipeline.{
  ResponseContext, Event, speech_started, speech_stopped, transcription_delta,
  transcription_completed, response_created, output_text_delta, output_text_done, output_audio_done,
  output_audio_delta, function_call_done, response_done, session_updated, item_created, error,
}

-- the response that was created last, and what has been said of it
pub record Progress : Type 0 where
  pub id : Text
  pub text_done : Bool
  pub audio_done : Bool
  pub done : Bool

abbrev pub begun : Text → Progress
begun id = record { id = id; text_done = false; audio_done = false; done = false }

-- an event of the last response, before it is done
abbrev pub is_open : Progress → ResponseContext → Bool
is_open p c = text_eq p.id c.response_id && not p.done

abbrev pub equal : Bool → Bool → Bool
equal true b = b
equal false b = not b

abbrev pub admit : Bool → Progress → Option (Option Progress)
admit allowed p = if allowed then some (some p) else none

abbrev pub is_over : Option Progress → Bool
is_over none = true
is_over (some p) = p.done

-- The outer option is none where the order is broken.
unfoldable pub follow : Option Progress → Event → Option (Option Progress)
follow p (response_created c) = if is_over p then some (some (begun c.response_id)) else none
follow (some p) (output_text_delta c delta) = admit (is_open p c && not p.text_done) p
follow (some p) (output_audio_delta c n frame) = admit (is_open p c && not p.audio_done) p
follow (some p) (output_text_done c) =
    admit (is_open p c && not p.text_done) (record p { text_done = true })
follow (some p) (output_audio_done c) =
    admit (is_open p c && p.text_done && not p.audio_done) (record p { audio_done = true })
follow (some p) (function_call_done c call) = admit (is_open p c && not p.text_done) p
follow (some p) (response_done c status reason usage) =
    admit (is_open p c && equal p.text_done p.audio_done) (record p { done = true })
follow none (output_text_delta c delta) = none
follow none (output_audio_delta c n frame) = none
follow none (output_text_done c) = none
follow none (output_audio_done c) = none
follow none (function_call_done c call) = none
follow none (response_done c status reason usage) = none
follow p (speech_started t r n) = some p
follow p (speech_stopped t r n) = some p
follow p (transcription_delta t r i d) = some p
follow p (transcription_completed t r i d) = some p
follow p (session_updated e) = some p
follow p (item_created i) = some p
follow p (error code) = some p

abbrev pub and_follow : Option (Option Progress) → Event → Option (Option Progress)
and_follow none event = none
and_follow (some p) event = follow p event

unfoldable pub follow_all : Option (Option Progress) → List Event → Option (Option Progress)
follow_all o [] = o
follow_all o (event ∷ events) = follow_all (and_follow o event) events

pub follow_all-append :
    (o : Option (Option Progress)) (xs : List Event) (event : Event)
    → follow_all o (xs ++ event ∷ []) ≡ and_follow (follow_all o xs) event
unfolding follow_all
follow_all-append o [] event = refl
follow_all-append o (x ∷ xs) event = follow_all-append (and_follow o x) xs event

abbrev pub progress : List Event → Option (Option Progress)
progress events = follow_all (some none) events

-- The events of the responses come in order: a response is created once the one before is done, its text
-- deltas come before the text is done and its audio deltas before the audio is, its text is done before
-- its audio, a call comes only where no text is done, and `response.done` comes last and once, with both
-- of the others before it or neither.
pub record IsOrderly (events : List Event) : Type 0 where
  pub last : Option Progress
  pub reached : progress events ≡ some last
