-- ===== src/Protocol/Json.antt =====
-- packages/hugging-voice-protocol/src/hugging_voice_protocol/events.py, canonical_json: the text that
-- `json.dumps(value, ensure_ascii=False, sort_keys=True, separators=(",", ":"), allow_nan=False)`
-- prints, for values without numbers.
use livekit_hugging_voice.Base.{
  ℕ, ◌+◌, ◌/◌, ◌%◌, Bool, true, false, [], ◌∷◌, ◌++◌, ltb, ◌==◌, if◌then◌else◌,
}
use livekit_hugging_voice.Text.{Text, codes}

abbrev quote : ℕ
quote = 34

abbrev backslash : ℕ
backslash = 92

abbrev hex_digit : ℕ → ℕ
hex_digit d = if ltb d 10 then 48 + d else 87 + d

-- One code point of a string literal.
unfoldable pub escape : ℕ → Text
escape c =
    if c == quote
    then backslash ∷ quote ∷ []
    else if c == backslash
    then backslash ∷ backslash ∷ []
    else if c == 8
    then backslash ∷ b'b' ∷ []
    else if c == 12
    then backslash ∷ b'f' ∷ []
    else if c == 10
    then backslash ∷ b'n' ∷ []
    else if c == 13
    then backslash ∷ b'r' ∷ []
    else if c == 9
    then backslash ∷ b't' ∷ []
    else if ltb c 32
    then backslash ∷ b'u' ∷ b'0' ∷ b'0' ∷ hex_digit (c / 16) ∷ hex_digit (c % 16) ∷ []
    else c ∷ []

unfoldable pub escape_all : Text → Text
unfolding escape
escape_all [] = []
escape_all (c ∷ s) = escape c ++ escape_all s

mutual
  pub data Value : Type 0 where
    bool : Bool → Value
    str : Text → Value
    obj : Fields → Value

  -- The members in the order of their keys.
  pub data Fields : Type 0 where
    end : Fields
    field : Text → Value → Fields → Fields

unfoldable pub string_literal : Text → Text
unfolding escape_all
string_literal s = quote ∷ (escape_all s ++ quote ∷ [])

unfoldable mutual
  unfolding string_literal

  pub canonical_json : Value → Text
  canonical_json (bool true) = codes "true"
  canonical_json (bool false) = codes "false"
  canonical_json (str s) = string_literal s
  canonical_json (obj fields) = b'{' ∷ members fields

  pub members : Fields → Text
  members end = b'}' ∷ []
  members (field k v end) = string_literal k ++ b':' ∷ (canonical_json v ++ b'}' ∷ [])
  members (field k v (field j w rest)) =
      string_literal k ++ b':' ∷ (canonical_json v ++ b',' ∷ members (field j w rest))
