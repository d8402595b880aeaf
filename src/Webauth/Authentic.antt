-- ===== src/Webauth/Authentic.antt =====
-- webauth/token.go: the tokens that `parse` accepts.
use botkit.Prelude.{
  ℕ, ◌≡◌, refl, sym, ap, ◌∙◌, ◌≢◌, ◌↔◌, inl, inr, List, [], ◌∷◌, ◌++◌, append_assoc, arith, nat_eq,
  All, Text, text_beq_refl, text_beq_iff, text_eq, split, intercalate, split_lacking, split_first,
  intercalate-split, split-Lacks,
}
use botkit.Errors.{ok, Result-cases}
use botkit.Webauth.Codec.{CodecLaws, Codec, Claims, NoDot}
use botkit.Webauth.Token.{parse, sign, jwt_header, dotted, parse_parts}

-- A token that the holder of the key made for these claims: three parts, of which the first is the
-- fixed header and the third encodes the MAC of the other two.
pub record IsAuthentic (codec : Codec) (key token : Text) (c : Claims) : Type 0 where
  pub payload : Text
  pub signature : Text
  pub bytes : List ℕ
  pub shape : token ≡ dotted (dotted jwt_header payload) signature
  pub payload_no_dot : NoDot payload
  pub signature_no_dot : NoDot signature
  pub signed : codec.b64_decode signature ≡ ok (codec.hmac key (dotted jwt_header payload))
  pub decoded : codec.b64_decode payload ≡ ok bytes
  pub claims : codec.unmarshal_claims bytes ≡ ok c
  pub has_group : c.group ≢ []
  pub has_member : c.member ≢ []

module _ (codec : Codec) (key : Text) where
  parse_parts_ok :
      (payload signature : Text) (bytes : List ℕ) (c : Claims)
      → codec.b64_decode signature ≡ ok (codec.hmac key (dotted jwt_header payload))
      → codec.b64_decode payload ≡ ok bytes
      → codec.unmarshal_claims bytes ≡ ok c
      → c.group ≢ []
      → c.member ≢ []
      → parse_parts codec key (jwt_header ∷ payload ∷ signature ∷ []) ≡ ok c
  unfolding parse_parts
  parse_parts_ok payload signature bytes c es ep ec hg hm =
      rw
        (
          text_beq_refl jwt_header,
          es,
          text_beq_refl (codec.hmac key (dotted jwt_header payload)),
          ep,
          ec,
        )
        (ground arith)

  parse_parts_sound :
      (header payload signature : Text) (c : Claims)
      → NoDot payload
      → NoDot signature
      → parse_parts codec key (header ∷ payload ∷ signature ∷ []) ≡ ok c
      → IsAuthentic codec key (dotted (dotted header payload) signature) c
  unfolding parse_parts
  parse_parts_sound header payload signature c clean_payload clean_signature h =
      elim (Result-cases (codec.b64_decode signature)) [
        | inr (e, refused) ↦ absurd (ground (arith, refused))
        | inl (sig, e1) ↦ elim (Result-cases (codec.b64_decode payload)) [
          | inr (e, refused) ↦ absurd (ground (arith, refused, e1))
          | inl (bytes, e2) ↦ elim (Result-cases (codec.unmarshal_claims bytes)) [
            | inr (e, refused) ↦ absurd (ground (arith, refused, e1, e2))
            | inl (claims, e3) ↦
                let same_header : header ≡ jwt_header =
                  ground (arith, e1, e2, e3, text_beq_iff header jwt_header) in
                let same_mac : sig ≡ codec.hmac key (dotted header payload) =
                  ground (
                    arith,
                    e1,
                    e2,
                    e3,
                    text_beq_iff sig (codec.hmac key (dotted header payload)),
                  ) in
                let complete : (claims ≡ c) × (c.group ≢ []) × (c.member ≢ []) =
                  ground (arith, e1, e2, e3) in
                record {
                  payload = payload;
                  signature = signature;
                  bytes = bytes;
                  shape = rw same_header;
                  payload_no_dot = clean_payload;
                  signature_no_dot = clean_signature;
                  signed =
                      e1
                      ∙ ap ok (
                          same_mac
                          ∙ ap (λ (h : Text). codec.hmac key (dotted h payload)) same_header);
                  decoded = e2;
                  claims = e3 ∙ ap ok complete.0;
                  has_group = complete.1;
                  has_member = complete.2;
                }
          ]
        ]
      ]

  IsAuthentic-of_parts :
      (token : Text) (c : Claims) (parts : List Text)
      → intercalate b'.' parts ≡ token
      → All NoDot parts
      → parse_parts codec key parts ≡ ok c
      → IsAuthentic codec key token c
  unfolding parse_parts
  IsAuthentic-of_parts token c [] joined clean h = cc
  IsAuthentic-of_parts token c (p ∷ []) joined clean h = cc
  IsAuthentic-of_parts token c (p ∷ q ∷ []) joined clean h = cc
  IsAuthentic-of_parts token c (header ∷ payload ∷ signature ∷ []) joined clean h = rw (← joined) (
      rw (← append_assoc header (b'.' ∷ payload) (b'.' ∷ signature))
        (parse_parts_sound header payload signature c clean.1.0 clean.1.1.0 h))
  IsAuthentic-of_parts token c (p ∷ q ∷ r ∷ s ∷ rest) joined clean h = cc

  split-dotted :
      (payload signature : Text)
      → NoDot payload
      → NoDot signature
      → split b'.' (dotted (dotted jwt_header payload) signature)
        ≡ jwt_header ∷ payload ∷ signature ∷ []
  split-dotted payload signature clean_payload clean_signature =
      rw
        (
          append_assoc jwt_header (b'.' ∷ payload) (b'.' ∷ signature),
          split_first b'.' jwt_header (payload ++ b'.' ∷ signature) (omega arith),
          split_first b'.' payload signature clean_payload,
          split_lacking b'.' signature clean_signature,
        )
        refl

  parse_complete :
      (token : Text) (c : Claims) → IsAuthentic codec key token c → parse codec key token ≡ ok c
  unfolding parse
  parse_complete token c a =
      rw (a.shape, split-dotted a.payload a.signature a.payload_no_dot a.signature_no_dot)
        (parse_parts_ok a.payload a.signature a.bytes c a.signed a.decoded a.claims a.has_group
          a.has_member)

  -- `parse` accepts exactly the tokens of three parts whose header is the fixed one, whatever
  -- algorithm another would name, whose signature is this key's MAC of header and payload, and whose
  -- payload is claims with a group and a member; and it returns those claims.
  pub parse_iff :
      (token : Text) (c : Claims) → (parse codec key token ≡ ok c) ↔ IsAuthentic codec key token c
  unfolding parse
  parse_iff token c = (
    IsAuthentic-of_parts token c (split b'.' token) (intercalate-split b'.' token)
        (split-Lacks b'.' token),
    parse_complete token c,
  )

-- A token that was signed is accepted with the claims that were signed, if they name a group and a
-- member.
pub parse-sign :
    (codec : Codec) (key token : Text) (c : Claims)
    → CodecLaws codec
    → c.group ≢ []
    → c.member ≢ []
    → sign codec key c ≡ ok token
    → parse codec key token ≡ ok c
unfolding sign
parse-sign codec key token c laws hg hm h =
    let (bytes, e) = laws.claims_total c in
    let payload = codec.b64_encode bytes in
    let signature = codec.b64_encode (codec.hmac key (dotted jwt_header payload)) in
    parse_complete codec key token c (record {
      payload = payload;
      signature = signature;
      bytes = bytes;
      shape = ground (arith, e);
      payload_no_dot = laws.b64_no_dot bytes;
      signature_no_dot = laws.b64_no_dot _;
      signed = laws.b64_round _;
      decoded = laws.b64_round bytes;
      claims = laws.claims_round c bytes e;
      has_group = hg;
      has_member = hm;
    })

-- A token that was signed is accepted with no other claims than those that were signed.
pub parse-sign-eq :
    (codec : Codec) (key token : Text) (c seen : Claims)
    → CodecLaws codec
    → sign codec key c ≡ ok token
    → parse codec key token ≡ ok seen
    → seen ≡ c
unfolding sign
parse-sign-eq codec key token c seen laws h accepted =
    let (bytes, e) = laws.claims_total c in
    let payload = codec.b64_encode bytes in
    let signature = codec.b64_encode (codec.hmac key (dotted jwt_header payload)) in
    let a = (parse_iff codec key token seen).0 accepted in
    let shape : token ≡ dotted (dotted jwt_header payload) signature = ground (arith, e) in
    let parts : a.payload ∷ a.signature ∷ [] ≡ payload ∷ signature ∷ [] = cc (
      ap (split b'.') (sym a.shape ∙ shape),
      split-dotted codec key a.payload a.signature a.payload_no_dot a.signature_no_dot,
      split-dotted codec key payload signature (laws.b64_no_dot bytes) (laws.b64_no_dot _),
    ) in
    let same : a.payload ≡ payload = cc parts in
    let read : a.bytes ≡ bytes = cc (a.decoded, same, laws.b64_round bytes) in
    cc (a.claims, read, laws.claims_round c bytes e)

-- With the documented encoders signing never fails.
pub sign-total :
    (codec : Codec) (key : Text)
    → CodecLaws codec
    → (c : Claims) → (token : Text) × (sign codec key c ≡ ok token)
unfolding sign
sign-total codec key laws c =
    let (bytes, e) = laws.claims_total c in
    let body = dotted jwt_header (codec.b64_encode bytes) in
    (dotted body (codec.b64_encode (codec.hmac key body)), rw e)
