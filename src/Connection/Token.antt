-- ===== src/Connection/Token.antt =====
-- Which headers are accepted.
use livekit_hugging_voice.Base.{
  ℕ, ◌+◌, ◌≤◌, ◌≡◌, refl, ap, ◌∙◌, ◌↔◌, inl, inr, true, not, ◌&&◌, Option, none, some, [], ◌∷◌,
  ◌++◌, arith, ltb, ◌==◌, Bool-cases, ==_iff, eq_refl, length, length-append,
}
use livekit_hugging_voice.Text.{Text, text_eq_iff, text_eq_refl}
use livekit_hugging_voice.Connection.{
  TokenAuthenticator, make_authenticator, strip_prefix, bearer, is_token, authenticate_header,
}

strip_prefix-append : (p text : Text) → strip_prefix p (p ++ text) ≡ some text
unfolding strip_prefix
strip_prefix-append [] text = refl
strip_prefix-append (c ∷ p) text = rw (eq_refl c) (strip_prefix-append p text)

strip_prefix-inv : (p text rest : Text) → strip_prefix p text ≡ some rest → text ≡ p ++ rest
unfolding strip_prefix
strip_prefix-inv [] text rest e = cc e
strip_prefix-inv (c ∷ p) [] rest e = absurd (cc e)
strip_prefix-inv (c ∷ p) (d ∷ text) rest e = elim (Bool-cases (c == d)) [
  | inl same ↦
      let q : c ≡ d = (==_iff c d).0 same in
      cc (q, strip_prefix-inv p text rest (ground (arith, same, e)))
  | inr other ↦ absurd (ground (arith, other, e))
]

is_token_iff : (token : Text) (o : Option Text) → is_token token o ≡ true → o ≡ some token
is_token_iff token none e = cc
is_token_iff token (some candidate) e = ap some ((text_eq_iff candidate token).0 e)

made-token :
    (token : Text) (a : TokenAuthenticator)
    → make_authenticator token ≡ some a
    → (a.token ≡ token) × (length token ≤ 4096)
unfolding make_authenticator
made-token token a e = ground arith

-- An authenticator that was made for a token accepts a header if and only if it is `Bearer ` with this
-- token after it.
pub authenticate_header_iff :
    (token : Text) (a : TokenAuthenticator) (header : Text)
    → make_authenticator token ≡ some a
    → (authenticate_header (some header) a ≡ true) ↔ (header ≡ bearer ++ token)
unfolding authenticate_header
authenticate_header_iff token a header made = (accepted, accepts)
  where
    accepted :
        (not (ltb 4103 (length header)) && is_token a.token (strip_prefix bearer header)) ≡ true
        → header ≡ bearer ++ token
    accepted e = strip_prefix-inv bearer header token (
        is_token_iff a.token (strip_prefix bearer header) (ground arith)
        ∙ ap some (made-token token a made).0)

    accepts :
        header ≡ bearer ++ token
        → (not (ltb 4103 (length header)) && is_token a.token (strip_prefix bearer header)) ≡ true
    accepts e =
        let (same, short) = made-token token a made in
        let stripped : strip_prefix bearer header ≡ some token =
          ap (strip_prefix bearer) e ∙ strip_prefix-append bearer token in
        let size : length header ≡ 7 + length token =
          ap (length {A = ℕ}) e ∙ length-append bearer token in
        rw (stripped, same) (rw (text_eq_refl token) (ground (arith, size, short)))
