-- ===== src/Cancellation.antt =====
-- services/gpu-service/src/hugging_voice_service/cancellation.py: generation tokens of one session.
mod Staleness
mod Examples
use livekit_hugging_voice.Base.{
  ℕ, suc, ◌+◌, ◌≡◌, refl, ◌↔◌, Bool, true, false, ◌&&◌, Option, none, some, List, [], ◌∷◌, ◌==◌,
  if◌then◌else◌, arith,
}
use livekit_hugging_voice.Base.Int.{ℤ, int_eq, int_eq_iff}
use livekit_hugging_voice.Text.{Text, text_eq, text_eq_iff}

pub record GenerationToken : Type 0 where
  pub session_id : Text
  pub turn_id : Text
  pub turn_revision : ℤ
  pub generation_id : Text
  pub epoch : ℕ

-- The equality that a frozen dataclass has: that of all the fields.
unfoldable pub token_eq : GenerationToken → GenerationToken → Bool
token_eq a b =
    text_eq a.session_id b.session_id
    && text_eq a.turn_id b.turn_id
    && int_eq a.turn_revision b.turn_revision
    && text_eq a.generation_id b.generation_id
    && a.epoch == b.epoch

pub token_eq_iff : (a b : GenerationToken) → (token_eq a b ≡ true) ↔ (a ≡ b)
unfolding token_eq
token_eq_iff a b = ground (
  arith,
  text_eq_iff a.session_id b.session_id,
  text_eq_iff a.turn_id b.turn_id,
  int_eq_iff a.turn_revision b.turn_revision,
  text_eq_iff a.generation_id b.generation_id,
)

pub record GenerationCancellation : Type 0 where
  pub session_id : Text
  pub epoch : ℕ
  pub current : Option GenerationToken

unfoldable pub init : Text → GenerationCancellation
init session_id = record { session_id = session_id; epoch = 0; current = none }

-- The token that `start` issues.
unfoldable pub next_token : Text → ℤ → Text → GenerationCancellation → GenerationToken
next_token turn_id turn_revision generation_id c = record {
  session_id = c.session_id;
  turn_id = turn_id;
  turn_revision = turn_revision;
  generation_id = generation_id;
  epoch = c.epoch + 1;
}

unfoldable pub start :
    Text → ℤ → Text → GenerationCancellation → GenerationCancellation × GenerationToken
unfolding next_token
start turn_id turn_revision generation_id c =
    let token = next_token turn_id turn_revision generation_id c in
    (record c { epoch = c.epoch + 1; current = some token }, token)

-- `generation_id is not None and generation_id != current.generation_id`
unfoldable pub names_another : Option Text → GenerationToken → Bool
names_another none token = false
names_another (some g) token = if text_eq g token.generation_id then false else true

unfoldable pub cancel :
    Option Text → GenerationCancellation → GenerationCancellation × Option GenerationToken
unfolding names_another
cancel generation_id c = elim c.current [
  | none ↦ (c, none)
  | some token ↦
      if names_another generation_id token
      then (c, none)
      else (record c { epoch = c.epoch + 1; current = none }, some token)
]

unfoldable pub is_current : GenerationCancellation → GenerationToken → Bool
is_current c token = elim c.current [
  | none ↦ false
  | some u ↦ token_eq u token && token.epoch == c.epoch
]

unfoldable pub finish : GenerationToken → GenerationCancellation → GenerationCancellation × Bool
unfolding is_current
finish token c = if is_current c token then (record c { current = none }, true) else (c, false)

unfoldable pub reset : GenerationCancellation → GenerationCancellation
reset c = record c { epoch = c.epoch + 1; current = none }

-- A call of one of the methods that change the state.
pub data Call : Type 0 where
  starts : Text → ℤ → Text → Call
  cancels : Option Text → Call
  finishes : GenerationToken → Call
  resets : Call

unfoldable pub step : GenerationCancellation → Call → GenerationCancellation
unfolding start cancel finish reset
step c (starts t r g) = (start t r g c).0
step c (cancels g) = (cancel g c).0
step c (finishes token) = (finish token c).0
step c resets = reset c

unfoldable pub run : GenerationCancellation → List Call → GenerationCancellation
run c [] = c
run c (call ∷ calls) = run (step c call) calls
