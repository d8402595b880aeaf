-- ===== src/Webauth/Token.antt =====
-- webauth/token.go: session tokens.
use botkit.Prelude.{
  ℕ, Bool, true, false, not, ◌||◌, List, [], ◌∷◌, ◌++◌, ◌==◌, nat_eq, Text, codes, text_eq,
  is_blank, split,
}
use botkit.Errors.{new_error, Result, ok, err, ◌>>=◌, ◌>>◌, in_context}
use botkit.Webauth.Codec.{Codec, Claims}

abbrev pub jwt_header : Text
jwt_header = codes "eyJhbGciOiJIUzI1NiIsInR5cCI6IkpXVCJ9"

-- body + "." + s
abbrev pub dotted : Text → Text → Text
dotted s t = s ++ b'.' ∷ t

-- A result of the library, with the error of `parse` in place of its own.
abbrev pub or_refuse : {A : Type 0} → Text → Result A → Result A
or_refuse m (ok a) = ok a
or_refuse m (err e) = err (new_error m)

abbrev pub require : Bool → Text → Result (Unit {0})
require true m = ok tt
require false m = err (new_error m)

module _ (codec : Codec) (signing_key : Text) where
  open codec use {b64_encode, b64_decode, hmac, marshal_claims, unmarshal_claims}

  pub mac : Text → List ℕ
  mac body = hmac signing_key body

  unfoldable pub sign : Claims → Result Text
  unfolding mac
  sign c = do
    payload ← in_context (codes "webauth: encode claims") (marshal_claims c)
    let body = dotted jwt_header (b64_encode payload)
    ok (dotted body (b64_encode (mac body)))

  unfoldable pub parse_parts : List Text → Result Claims
  unfolding mac
  parse_parts (header ∷ payload ∷ signature ∷ []) = do
    require (header == jwt_header) (codes "unexpected token header")
    sig ← or_refuse (codes "malformed signature") (b64_decode signature)
    require (sig == mac (dotted header payload)) (codes "bad signature")
    bytes ← or_refuse (codes "malformed payload") (b64_decode payload)
    c ← or_refuse (codes "malformed claims") (unmarshal_claims bytes)
    require (not (is_blank c.group || is_blank c.member)) (codes "incomplete claims")
    ok c
  parse_parts _ = err (new_error (codes "malformed token"))

  unfoldable pub parse : Text → Result Claims
  unfolding parse_parts
  parse token = parse_parts (split b'.' token)
