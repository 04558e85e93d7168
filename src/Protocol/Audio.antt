-- ===== src/Protocol/Audio.antt =====
-- packages/hugging-voice-protocol/src/hugging_voice_protocol/audio.py: PCM16 frames and strict base64.
-- `b64decode(value, validate=True)` and `b64encode` are written out; a byte is a number below 256.
mod Examples
pub mod RoundTrip
use livekit_hugging_voice.Base.{
  ℕ, zero, suc, ◌+◌, ◌-◌, ◌*◌, ◌/◌, ◌%◌, ◌≤◌, ◌<◌, min, max, ◌≡◌, refl, sym, ap, subst, ◌∙◌, ◌≢◌,
  ◌↔◌, ◌⊎◌, inl, inr, Bool, true, false, not, ◌&&◌, ◌||◌, Option, none, some, List, [], ◌∷◌, ◌++◌,
  map, append-nil, append_assoc, arith, ltb, leb, ◌==◌, if◌then◌else◌, Bool-cases, Option-cases,
  ==_iff, eq_refl, length, get_elem?, take, drop, length-append, length-drop, length-take,
  drop-append, take-append, drop-drop, Result, ok, err, ◌>>=◌, Result-cases,
}
use livekit_hugging_voice.Text.{Text}

abbrev pub max_audio_bytes : ℕ
max_audio_bytes = 65536

abbrev pub max_audio_base64_chars : ℕ
max_audio_base64_chars = (max_audio_bytes + 2) / 3 * 4

pub data AudioValidationError : Type 0 where
  rate_not_positive frame_not_positive not_mono partial_sample : AudioValidationError
  empty_payload not_base64 payload_too_long incomplete_sample : AudioValidationError

unfoldable pub pcm16_frame_bytes : ℕ → ℕ → ℕ → Result AudioValidationError ℕ
pcm16_frame_bytes sample_rate frame_ms channels =
    if leb sample_rate 0
    then err rate_not_positive
    else if leb frame_ms 0
    then err frame_not_positive
    else if not (channels == 1)
    then err not_mono
    else if not (sample_rate * frame_ms % 1000 == 0)
    then err partial_sample
    else ok (sample_rate * frame_ms / 1000 * channels * 2)

-- the character of a six-bit value
unfoldable pub digit : ℕ → ℕ
digit v =
    if ltb v 26
    then 65 + v
    else if ltb v 52
    then 71 + v
    else if ltb v 62
    then v - 4
    else if v == 62
    then 43
    else 47

-- the six-bit value of a character of the alphabet
unfoldable pub digit_value : ℕ → Option ℕ
digit_value c =
    if leb 65 c && leb c 90
    then some (c - 65)
    else if leb 97 c && leb c 122
    then some (c - 71)
    else if leb 48 c && leb c 57
    then some (c + 4)
    else if c == 43
    then some 62
    else if c == 47
    then some 63
    else none

abbrev pub pad : ℕ
pad = 61

unfoldable pub b64encode : List ℕ → Text
unfolding digit
b64encode [] = []
b64encode (a ∷ []) = digit (a / 4) ∷ digit (a % 4 * 16) ∷ pad ∷ pad ∷ []
b64encode (a ∷ b ∷ []) = digit (a / 4) ∷ digit (a % 4 * 16 + b / 16) ∷ digit (b % 16 * 4) ∷ pad ∷ []
b64encode (a ∷ b ∷ c ∷ bytes) =
    digit (a / 4)
    ∷ digit (a % 4 * 16 + b / 16)
    ∷ digit (b % 16 * 4 + c / 64)
    ∷ digit (c % 64)
    ∷ b64encode bytes

-- The bytes of a group of four; a padded group is the last one, and its spare bits are not looked at.
abbrev pub group_of : Option ℕ → Option ℕ → Option ℕ → Option ℕ → Option (List ℕ) → Option (List ℕ)
group_of (some w) (some x) (some y) (some z) (some rest) =
    some ((w * 4 + x / 16) ∷ (x % 16 * 16 + y / 4) ∷ (y % 4 * 64 + z) ∷ rest)
group_of _ _ _ _ _ = none

abbrev pub pair_of : Option ℕ → Option ℕ → Option ℕ → Option (List ℕ)
pair_of (some w) (some x) (some y) = some ((w * 4 + x / 16) ∷ (x % 16 * 16 + y / 4) ∷ [])
pair_of _ _ _ = none

abbrev pub single_of : Option ℕ → Option ℕ → Option (List ℕ)
single_of (some w) (some x) = some ((w * 4 + x / 16) ∷ [])
single_of _ _ = none

unfoldable pub padded : ℕ → ℕ → ℕ → Option (List ℕ)
unfolding digit_value
padded a b c =
    if c == pad
    then single_of (digit_value a) (digit_value b)
    else pair_of (digit_value a) (digit_value b) (digit_value c)

unfoldable pub b64decode : Text → Option (List ℕ)
unfolding digit_value padded
b64decode [] = some []
b64decode (a ∷ b ∷ c ∷ d ∷ []) =
    if d == pad
    then padded a b c
    else group_of (digit_value a) (digit_value b) (digit_value c) (digit_value d) (some [])
b64decode (a ∷ b ∷ c ∷ d ∷ e ∷ rest) =
    let after = b64decode (e ∷ rest) in
    group_of (digit_value a) (digit_value b) (digit_value c) (digit_value d) after
b64decode _ = none

-- `not value`
abbrev pub is_nil : List ℕ → Bool
is_nil [] = true
is_nil (x ∷ xs) = false

unfoldable pub checked : ℕ → List ℕ → Result AudioValidationError (List ℕ)
checked max_bytes payload =
    if ltb max_bytes (length payload)
    then err payload_too_long
    else if not (length payload % 2 == 0)
    then err incomplete_sample
    else ok payload

abbrev pub check_decoded : ℕ → Option (List ℕ) → Result AudioValidationError (List ℕ)
check_decoded max_bytes none = err not_base64
check_decoded max_bytes (some payload) = checked max_bytes payload

unfoldable pub decode_pcm16_base64 : ℕ → Text → Result AudioValidationError (List ℕ)
unfolding b64decode checked
decode_pcm16_base64 max_bytes value =
    if is_nil value then err empty_payload else check_decoded max_bytes (b64decode value)

unfoldable pub encode_pcm16_base64 : ℕ → List ℕ → Result AudioValidationError Text
unfolding b64encode
encode_pcm16_base64 max_bytes payload =
    if is_nil payload
    then err empty_payload
    else if ltb max_bytes (length payload)
    then err payload_too_long
    else if not (length payload % 2 == 0)
    then err incomplete_sample
    else ok (b64encode payload)
