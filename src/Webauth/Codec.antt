-- ===== src/Webauth/Codec.antt =====
-- The libraries that webauth encodes and signs with: base64.RawURLEncoding, encoding/json on the two
-- records that the package stores, and HMAC-SHA256.
use botkit.Prelude.{ℕ, ◌≡◌, ◌≢◌, List, nat_eq, All, Text, text_eq}
use botkit.Errors.{Result, ok}
use botkit.Prelude.Int.{ℤ}

-- webauth/token.go: times are Unix seconds.
pub record Claims : Type 0 where
  pub group : Text
  pub member : Text
  pub issued_at : ℤ
  pub expires : ℤ
  pub absolute : ℤ

-- webauth/webauth.go: what a pending magic link stores under its nonce.
pub record NonceRecord : Type 0 where
  pub group : Text
  pub member : Text
  pub expires : ℤ

-- Bytes are numbers. `hmac key body` is the MAC of the body's bytes.
pub record Codec : Type 0 where
  pub b64_encode : List ℕ → Text
  pub b64_decode : Text → Result (List ℕ)
  pub hmac : Text → Text → List ℕ
  pub marshal_claims : Claims → Result (List ℕ)
  pub unmarshal_claims : List ℕ → Result Claims
  pub marshal_nonce : NonceRecord → Result Text
  pub unmarshal_nonce : Text → Result NonceRecord

abbrev pub NoDot : Text → Type 0
NoDot s = All (λ c. c ≢ b'.') s

-- What their documentation promises: decoding undoes encoding, the alphabet of base64 has no ".", and
-- a record of strings and integers is always encoded.
pub record CodecLaws (codec : Codec) : Type 0 where
  pub b64_round : (bs : List ℕ) → codec.b64_decode (codec.b64_encode bs) ≡ ok bs
  pub b64_no_dot : (bs : List ℕ) → NoDot (codec.b64_encode bs)
  pub claims_total : (c : Claims) → (bs : List ℕ) × (codec.marshal_claims c ≡ ok bs)
  pub claims_round :
      (c : Claims) (bs : List ℕ) → codec.marshal_claims c ≡ ok bs → codec.unmarshal_claims bs ≡ ok c
  pub nonce_total : (r : NonceRecord) → (s : Text) × (codec.marshal_nonce r ≡ ok s)
  pub nonce_round :
      (r : NonceRecord) (s : Text) → codec.marshal_nonce r ≡ ok s → codec.unmarshal_nonce s ≡ ok r
