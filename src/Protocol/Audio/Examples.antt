-- ===== src/Protocol/Audio/Examples.antt =====
-- The theorems on audio.py at two small payloads.
use livekit_hugging_voice.Base.{ℕ, ◌+◌, ◌*◌, ◌/◌, ◌≤◌, ◌≡◌, refl, List, [], ◌∷◌, arith, length, ok}
use livekit_hugging_voice.Text.{codes}
use livekit_hugging_voice.Protocol.Audio.{
  digit, b64encode, encode_pcm16_base64, decode_pcm16_base64,
}
use livekit_hugging_voice.Protocol.Audio.RoundTrip.{encode-decode, Sound, decode-Sound}

-- one sample, so that the text ends in padding
abbrev sample : List ℕ
sample = 1 ∷ 2 ∷ []

encode-decode_example :
    (decode_pcm16_base64 4 (codes "AQI=") ≡ ok sample) × (length (codes "AQI=") ≤ (4 + 2) / 3 * 4)
unfolding encode_pcm16_base64 b64encode digit
encode-decode_example = encode-decode 4 sample (codes "AQI=") (omega arith, (omega arith, tt)) refl

decode-Sound_example : Sound 4 (decode_pcm16_base64 4 (codes "AQIDBA=="))
decode-Sound_example = decode-Sound 4 (codes "AQIDBA==")
