-- ===== src/Webauth/Links.antt =====
-- webauth/webauth.go: a minted link redeems.
use botkit.Webauth.Authentic.{parse-sign, sign-total}
use botkit.Webauth.Token.{sign, parse}
use botkit.Prelude.Int.{pos, leb_ℤ}
use botkit.Prelude.{
  ℕ, ◌+◌, ◌≤◌, ◌≡◌, refl, ◌≢◌, inl, inr, true, ◌||◌, some, List, [], ◌∷◌, ◌++◌, arith, nat_eq,
  Bool-cases, Text, text_beq_refl, text_eq, is_blank,
}
use botkit.Errors.{ok, Result-cases}
use botkit.Jid.{IsCanonical, Jid, JidApi}
use botkit.Store.Kv
use botkit.Store.Kv.{Kv, Driver}
use botkit.Store.Table.{select_value}
use botkit.Store.Lookup.{select_value-upsert}
use botkit.Webauth.Config.{Config}
use botkit.Webauth.Codec.{NonceRecord, CodecLaws, Codec}
use botkit.Webauth.Auth.{
  session_ttl, session_claims, link_ttl, take_nonce, Membership, redeem, redeem_record,
  nonce_prefix, unix, Mint, link_of, swept, nonce_record, mint_link,
}

module _ (api : JidApi) (codec : Codec) (cfg : Config) where
  pub mint_link-stored :
      (m : Mint) (raw : List ℕ) (group member : Jid) (link : Text) (kv : Kv)
      → m.random ≡ ok raw
      → (mint_link api codec cfg m group member kv).1 ≡ ok link
      → (link ≡ link_of cfg (codec.b64_encode raw))
        × (rec : Text) × (codec.marshal_nonce (nonce_record api cfg group member m.clock_at)
            ≡ ok rec)
        × (select_value
              (nonce_prefix ++ codec.b64_encode raw)
              (mint_link api codec cfg m group member kv).0.rows
            ≡ some rec)
  unfolding mint_link Kv.set
  mint_link-stored m raw group member link kv er h =
      elim (Bool-cases (api.is_empty group || api.is_empty member || is_blank member.user)) [
        | inl refused ↦ absurd (ground (arith, refused))
        | inr valid ↦
            elim (Result-cases
              (codec.marshal_nonce (nonce_record api cfg group member m.clock_at))) [
                | inr (x, refused) ↦ absurd (ground (arith, er, valid, refused))
                | inl (rec, e) ↦
                    let works : m.store ≡ Kv.works = ground (arith, er, valid, e) in
                    (
                      ground (arith, h, er, valid, e, works),
                      rec,
                      e,
                      rw (valid, er, e, works)
                          (rw (
                            select_value-upsert (nonce_prefix ++ codec.b64_encode raw)
                                (record {
                                  key = nonce_prefix ++ codec.b64_encode raw;
                                  value = rec;
                                  updated_at = unix m.store_at;
                                })
                                (swept cfg m kv).rows,
                            text_beq_refl (nonce_prefix ++ codec.b64_encode raw),
                          )),
                    )
              ]
      ]

  redeem_record_complete :
      (now : ℕ) (mem : Membership) (raw token : Text) (rec : NonceRecord) (group member : Jid)
      → codec.unmarshal_nonce raw ≡ ok rec
      → leb_ℤ (pos (unix now)) rec.expires ≡ true
      → api.parse_jid rec.group ≡ ok group
      → api.parse_jid rec.member ≡ ok member
      → mem group member ≡ ok true
      → sign codec cfg.signing_key
          (session_claims api cfg group member now (pos (unix (now + session_ttl cfg))))
        ≡ ok token
      → redeem_record api codec cfg now mem raw ≡ ok token
  unfolding redeem_record
  redeem_record_complete now mem raw token rec group member e1 live e2 e3 e4 e5 =
      rw (e1, live, e2, e3, e4) e5

  redeem_complete :
      (now : ℕ) (mem : Membership) (nonce raw token : Text) (kv : Kv)
      → nonce ≢ []
      → select_value (nonce_prefix ++ nonce) kv.rows ≡ some raw
      → redeem_record api codec cfg now mem raw ≡ ok token
      → (redeem api codec cfg Kv.works now mem nonce kv).1 ≡ ok token
  unfolding redeem take_nonce Kv.get Kv.consume
  redeem_complete now mem [] raw token kv n there h = absurd (n refl)
  redeem_complete now mem (c ∷ nonce) raw token kv n there h = ground arith

-- Where the store holds the record of a mint, the redeem of its nonce gives a token for its member.
pub redeem-stored :
    (api : JidApi) (codec : Codec) (cfg : Config) (nonce rec : Text) (group member : Jid)
    (minted_at : ℕ) (kv : Kv) (now : ℕ) (mem : Membership)
    → CodecLaws codec
    → IsCanonical api group
    → IsCanonical api member
    → nonce ≢ []
    → codec.marshal_nonce (nonce_record api cfg group member minted_at) ≡ ok rec
    → select_value (nonce_prefix ++ nonce) kv.rows ≡ some rec
    → unix now ≤ unix (minted_at + link_ttl cfg)
    → mem group member ≡ ok true
    → (token : Text) × ((redeem api codec cfg Kv.works now mem nonce kv).1 ≡ ok token)
      × (parse codec cfg.signing_key token
          ≡ ok (session_claims api cfg group member now (pos (unix (now + session_ttl cfg)))))
redeem-stored api codec cfg nonce rec group member minted_at kv now mem laws cg cm n marshalled
      there live current =
    let claims = session_claims api cfg group member now (pos (unix (now + session_ttl cfg))) in
    let (token, signed) = sign-total codec cfg.signing_key laws claims in
    (
      token,
      redeem_complete api codec cfg now mem nonce rec token kv n there (
          redeem_record_complete api codec cfg now mem rec token
            (nonce_record api cfg group member minted_at) group member
            (laws.nonce_round _ rec marshalled) (ground arith) cg.round cm.round current signed),
      parse-sign codec cfg.signing_key token claims laws cg.written cm.written signed,
    )

-- A link that was minted redeems: within its lifetime, for a member that WhatsApp says is in the
-- group, with a store that works, the redeem of its nonce returns a token, and that token carries
-- the claims of this group and member, issued now, up to now plus the session's length.
redeem-mint_link :
    (api : JidApi) (codec : Codec) (cfg : Config) (m : Mint) (raw : List ℕ) (group member : Jid)
    (link : Text) (kv : Kv) (now : ℕ) (mem : Membership)
    → CodecLaws codec
    → IsCanonical api group
    → IsCanonical api member
    → codec.b64_encode raw ≢ []
    → m.random ≡ ok raw
    → (mint_link api codec cfg m group member kv).1 ≡ ok link
    → unix now ≤ unix (m.clock_at + link_ttl cfg)
    → mem group member ≡ ok true
    → (link ≡ link_of cfg (codec.b64_encode raw))
      × (token : Text) × ((redeem api codec cfg Kv.works now mem
            (codec.b64_encode raw)
            (mint_link api codec cfg m group member kv).0).1
          ≡ ok token)
      × (parse codec cfg.signing_key token
          ≡ ok (session_claims api cfg group member now (pos (unix (now + session_ttl cfg)))))
redeem-mint_link api codec cfg m raw group member link kv now mem laws cg cm n er h live current =
    let (shape, rec, marshalled, there) =
      mint_link-stored api codec cfg m raw group member link kv er h in
    let (token, redeemed, carries) =
      redeem-stored api codec cfg (codec.b64_encode raw) rec group member m.clock_at _ now mem laws
        cg cm n marshalled there live current in
    (shape, token, redeemed, carries)
