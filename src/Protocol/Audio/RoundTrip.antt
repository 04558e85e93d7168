-- ===== src/Protocol/Audio/RoundTrip.antt =====
-- packages/hugging-voice-protocol/src/hugging_voice_protocol/audio.py: the two directions of the codec.
use livekit_hugging_voice.Base.{
  ℕ, ◌+◌, ◌*◌, ◌/◌, ◌%◌, ◌≤◌, ◌<◌, ◌≡◌, refl, true, false, Option, none, some, List, [], ◌∷◌, arith,
  ltb, ◌==◌, length, Result, ok, err,
}
use livekit_hugging_voice.Text.{Text}
use livekit_hugging_voice.Protocol.Audio.{
  AudioValidationError, digit, digit_value, pad, b64encode, b64decode, group_of, pair_of, single_of,
  padded, checked, check_decoded, decode_pcm16_base64, encode_pcm16_base64, is_nil,
}

abbrev pub AllBytes : List ℕ → Type 0
AllBytes [] = Unit
AllBytes (b ∷ bytes) = (b < 256) × AllBytes bytes

digit_value-digit : (v : ℕ) → v < 64 → digit_value (digit v) ≡ some v
unfolding digit digit_value
digit_value-digit v h = ground arith

digit-ne-pad : (v : ℕ) → (digit v == pad) ≡ false
unfolding digit
digit-ne-pad v = ground arith

three_bytes :
    (a b c : ℕ)
    → a < 256
    → b < 256
    → c < 256
    → (a / 4 < 64)
      × (a % 4 * 16 + b / 16 < 64)
      × (b % 16 * 4 + c / 64 < 64)
      × (c % 64 < 64)
      × (a / 4 * 4 + (a % 4 * 16 + b / 16) / 16 ≡ a)
      × ((a % 4 * 16 + b / 16) % 16 * 16 + (b % 16 * 4 + c / 64) / 4 ≡ b)
      × ((b % 16 * 4 + c / 64) % 4 * 64 + c % 64 ≡ c)
three_bytes a b c ha hb hc = ground arith

two_bytes :
    (a b : ℕ)
    → a < 256
    → b < 256
    → (a / 4 < 64)
      × (a % 4 * 16 + b / 16 < 64)
      × (b % 16 * 4 < 64)
      × (a / 4 * 4 + (a % 4 * 16 + b / 16) / 16 ≡ a)
      × ((a % 4 * 16 + b / 16) % 16 * 16 + b % 16 * 4 / 4 ≡ b)
two_bytes a b ha hb = ground arith

one_byte : (a : ℕ) → a < 256 → (a / 4 < 64) × (a % 4 * 16 < 64) × (a / 4 * 4 + a % 4 * 16 / 16 ≡ a)
one_byte a ha = ground arith

group-digits :
    (a b c : ℕ) (rest : List ℕ)
    → a < 256
    → b < 256
    → c < 256
    → group_of
        (digit_value (digit (a / 4)))
        (digit_value (digit (a % 4 * 16 + b / 16)))
        (digit_value (digit (b % 16 * 4 + c / 64)))
        (digit_value (digit (c % 64)))
        (some rest)
      ≡ some (a ∷ b ∷ c ∷ rest)
group-digits a b c rest ha hb hc =
    let (p, q, r, s, x, y, z) = three_bytes a b c ha hb hc in
    rw
      (
        digit_value-digit _ p,
        digit_value-digit _ q,
        digit_value-digit _ r,
        digit_value-digit _ s,
        x,
        y,
        z,
      )
      refl

pub b64decode-b64encode :
    (bytes : List ℕ) → AllBytes bytes → b64decode (b64encode bytes) ≡ some bytes
unfolding b64encode b64decode
b64decode-b64encode [] h = refl
b64decode-b64encode (a ∷ []) h =
    let (p, q, x) = one_byte a h.0 in
    unfold padded in rw (digit_value-digit _ p, digit_value-digit _ q, x) refl
b64decode-b64encode (a ∷ b ∷ []) h =
    let (p, q, r, x, y) = two_bytes a b h.0 h.1.0 in
    unfold padded in
    rw
      (
        digit-ne-pad (b % 16 * 4),
        digit_value-digit _ p,
        digit_value-digit _ q,
        digit_value-digit _ r,
        x,
        y,
      )
      refl
b64decode-b64encode (a ∷ b ∷ c ∷ []) h =
    rw (digit-ne-pad (c % 64)) (group-digits a b c [] h.0 h.1.0 h.1.1.0)
b64decode-b64encode (a ∷ b ∷ c ∷ d ∷ []) h =
    rw (b64decode-b64encode (d ∷ []) h.1.1.1) (group-digits a b c (d ∷ []) h.0 h.1.0 h.1.1.0)
b64decode-b64encode (a ∷ b ∷ c ∷ d ∷ e ∷ []) h =
    rw (b64decode-b64encode (d ∷ e ∷ []) h.1.1.1)
      (group-digits a b c (d ∷ e ∷ []) h.0 h.1.0 h.1.1.0)
b64decode-b64encode (a ∷ b ∷ c ∷ d ∷ e ∷ f ∷ bytes) h =
    rw (b64decode-b64encode (d ∷ e ∷ f ∷ bytes) h.1.1.1)
      (group-digits a b c (d ∷ e ∷ f ∷ bytes) h.0 h.1.0 h.1.1.0)

pub length-b64encode : (bytes : List ℕ) → length (b64encode bytes) ≡ (length bytes + 2) / 3 * 4
unfolding b64encode
length-b64encode [] = refl
length-b64encode (a ∷ []) = refl
length-b64encode (a ∷ b ∷ []) = refl
length-b64encode (a ∷ b ∷ c ∷ bytes) = omega (arith, length-b64encode bytes)

checked_ok :
    (m : ℕ) (p : List ℕ)
    → ltb m (length p) ≡ false
    → (length p % 2 == 0) ≡ true
    → checked m p ≡ ok p
unfolding checked
checked_ok m p long even = rw (long, even) refl

b64encode_ne : (p : List ℕ) → is_nil p ≡ false → is_nil (b64encode p) ≡ false
unfolding b64encode
b64encode_ne [] h = ground arith
b64encode_ne (a ∷ []) h = refl
b64encode_ne (a ∷ b ∷ []) h = refl
b64encode_ne (a ∷ b ∷ c ∷ p) h = refl

decode_of_encode :
    (m : ℕ) (p : List ℕ)
    → AllBytes p
    → is_nil p ≡ false
    → ltb m (length p) ≡ false
    → (length p % 2 == 0) ≡ true
    → decode_pcm16_base64 m (b64encode p) ≡ ok p
unfolding decode_pcm16_base64
decode_of_encode m p bytes full long even =
    rw (b64encode_ne p full, b64decode-b64encode p bytes) (checked_ok m p long even)

-- A payload of bytes that the encoder accepts, the decoder gives back with the same limit, and the text is
-- no longer than the base64 of the limit: with the default limit, than MAX_AUDIO_BASE64_CHARS.
pub encode-decode :
    (m : ℕ) (payload : List ℕ) (value : Text)
    → AllBytes payload
    → encode_pcm16_base64 m payload ≡ ok value
    → (decode_pcm16_base64 m value ≡ ok payload) × (length value ≤ (m + 2) / 3 * 4)
unfolding encode_pcm16_base64
encode-decode m p v bytes e = ground (arith, decode_of_encode m p bytes, length-b64encode p)

abbrev Sextet : Option ℕ → Type 0
Sextet none = Unit
Sextet (some v) = v < 64

abbrev AllIn : Option (List ℕ) → Type 0
AllIn none = Unit
AllIn (some p) = AllBytes p

digit_value-Sextet : (c : ℕ) → Sextet (digit_value c)
unfolding digit_value
digit_value-Sextet c = ground arith

group-AllIn :
    (w x y z : Option ℕ) (rest : Option (List ℕ))
    → Sextet w
    → Sextet x
    → Sextet y
    → Sextet z
    → AllIn rest
    → AllIn (group_of w x y z rest)
group-AllIn none x y z rest hw hx hy hz hr = tt
group-AllIn (some w) none y z rest hw hx hy hz hr = tt
group-AllIn (some w) (some x) none z rest hw hx hy hz hr = tt
group-AllIn (some w) (some x) (some y) none rest hw hx hy hz hr = tt
group-AllIn (some w) (some x) (some y) (some z) none hw hx hy hz hr = tt
group-AllIn (some w) (some x) (some y) (some z) (some rest) hw hx hy hz hr =
    (omega arith, (omega arith, (omega arith, hr)))

pair-AllIn : (w x y : Option ℕ) → Sextet w → Sextet x → Sextet y → AllIn (pair_of w x y)
pair-AllIn none x y hw hx hy = tt
pair-AllIn (some w) none y hw hx hy = tt
pair-AllIn (some w) (some x) none hw hx hy = tt
pair-AllIn (some w) (some x) (some y) hw hx hy = (omega arith, (omega arith, tt))

single-AllIn : (w x : Option ℕ) → Sextet w → Sextet x → AllIn (single_of w x)
single-AllIn none x hw hx = tt
single-AllIn (some w) none hw hx = tt
single-AllIn (some w) (some x) hw hx = (omega arith, tt)

padded-AllIn : (a b c : ℕ) → AllIn (padded a b c)
unfolding padded
padded-AllIn a b c = ground (
  arith,
  single-AllIn (digit_value a) (digit_value b) (digit_value-Sextet a) (digit_value-Sextet b),
  pair-AllIn (digit_value a) (digit_value b) (digit_value c) (digit_value-Sextet a)
      (digit_value-Sextet b) (digit_value-Sextet c),
)

four-AllIn :
    (a b c d : ℕ) (rest : Option (List ℕ))
    → AllIn rest
    → AllIn (group_of (digit_value a) (digit_value b) (digit_value c) (digit_value d) rest)
four-AllIn a b c d rest h =
    group-AllIn (digit_value a) (digit_value b) (digit_value c) (digit_value d) rest
      (digit_value-Sextet a) (digit_value-Sextet b) (digit_value-Sextet c) (digit_value-Sextet d) h

b64decode-AllIn : (text : Text) → AllIn (b64decode text)
unfolding b64decode
b64decode-AllIn [] = tt
b64decode-AllIn (a ∷ []) = tt
b64decode-AllIn (a ∷ b ∷ []) = tt
b64decode-AllIn (a ∷ b ∷ c ∷ []) = tt
b64decode-AllIn (a ∷ b ∷ c ∷ d ∷ []) =
    ground (arith, padded-AllIn a b c, four-AllIn a b c d (some []) tt)
b64decode-AllIn (a ∷ b ∷ c ∷ d ∷ e ∷ rest) =
    four-AllIn a b c d (b64decode (e ∷ rest)) (b64decode-AllIn (e ∷ rest))

abbrev pub Sound : ℕ → Result AudioValidationError (List ℕ) → Type 0
Sound m (err e) = Unit
Sound m (ok p) = (length p ≤ m) × (length p % 2 ≡ 0) × AllBytes p

check-Sound : (m : ℕ) (o : Option (List ℕ)) → AllIn o → Sound m (check_decoded m o)
unfolding checked
check-Sound m none h = tt
check-Sound m (some p) h = ground arith

-- Whatever text the decoder is given, what it returns is whole samples of bytes within its limit.
pub decode-Sound : (m : ℕ) (value : Text) → Sound m (decode_pcm16_base64 m value)
unfolding decode_pcm16_base64
decode-Sound m value = ground (arith, check-Sound m (b64decode value) (b64decode-AllIn value))
