-- ===== src/Webauth/Grants.antt =====
-- webauth/webauth.go: when `Redeem` and `Refresh` grant a session, and that refusals are opaque.
use botkit.Prelude.{
  ℕ, ◌+◌, ◌≡◌, inl, inr, true, false, none, some, [], ◌∷◌, ◌++◌, arith, nat_eq, Bool-cases, Text,
  text_beq_refl, text_eq,
}
use botkit.Errors.{ok, Result-cases}
use botkit.Prelude.Int.{ltb_ℤ, pos, leb_ℤ}
use botkit.Store.Lookup.{select_value-delete_key}
use botkit.Jid.{Jid, JidApi}
use botkit.Store.Kv
use botkit.Store.Kv.{Kv, Driver}
use botkit.Webauth.Config.{single_use, Config}
use botkit.Webauth.Codec.{Claims, Codec, NonceRecord}
use botkit.Webauth.Token.{parse, sign}
use botkit.Webauth.Auth.{
  refresh, redeem, take_nonce, redeem_record, nonce_prefix, unix, Membership, session_ttl,
  session_claims, assert_member,
}

-- Why a token was handed out at a redeem: the nonce stood in the store with a record that was not
-- expired, the record names a group and a member, WhatsApp said that moment that the one is in the
-- other, and the token is signed for them, to the ceiling of this login.
pub record IsRedeemed (api : JidApi) (codec : Codec) (cfg : Config) (now : ℕ) (mem : Membership)
    (nonce : Text) (kv : Kv) (token : Text) : Type 0 where
  pub raw : Text
  pub record_of : NonceRecord
  pub group : Jid
  pub member : Jid
  pub stored : Kv.get Kv.works (nonce_prefix ++ nonce) kv ≡ ok (some raw)
  pub decoded : codec.unmarshal_nonce raw ≡ ok record_of
  pub live : leb_ℤ (pos (unix now)) record_of.expires ≡ true
  pub names_group : api.parse_jid record_of.group ≡ ok group
  pub names_member : api.parse_jid record_of.member ≡ ok member
  pub current : mem group member ≡ ok true
  pub signed :
      sign codec cfg.signing_key
        (session_claims api cfg group member now (pos (unix (now + session_ttl cfg))))
      ≡ ok token

assert_member-eq-ok :
    (mem : Membership) (group member : Jid)
    → assert_member mem group member ≡ ok tt
    → mem group member ≡ ok true
unfolding assert_member
assert_member-eq-ok mem group member h = elim (Result-cases (mem group member)) [
  | inl (true, e) ↦ e
  | inl (false, e) ↦ absurd (ground (arith, e))
  | inr (x, e) ↦ absurd (ground (arith, e))
]

take_nonce-hit :
    (cfg : Config) (d : Driver) (nonce raw : Text) (kv : Kv)
    → (take_nonce cfg d nonce kv).1 ≡ ok (some raw)
    → (Kv.get Kv.works (nonce_prefix ++ nonce) kv ≡ ok (some raw))
      × (single_use cfg ≡ true
          → Kv.get Kv.works (nonce_prefix ++ nonce) (take_nonce cfg d nonce kv).0 ≡ ok none)
unfolding take_nonce Kv.get Kv.consume
take_nonce-hit cfg Kv.works nonce raw kv h = (
  ground arith,
  λ once. rw once (
      rw (
        select_value-delete_key (nonce_prefix ++ nonce) (nonce_prefix ++ nonce) kv.rows,
        text_beq_refl (nonce_prefix ++ nonce),
      )),
)
take_nonce-hit cfg (Kv.fails e) nonce raw kv h = absurd (ground arith)
take_nonce-hit cfg (Kv.lost e) nonce raw kv h = absurd (ground arith)

module _ (api : JidApi) (codec : Codec) (cfg : Config) where
  redeem_record_sound :
      (d : Driver) (now : ℕ) (mem : Membership) (nonce raw token : Text) (kv : Kv)
      → Kv.get Kv.works (nonce_prefix ++ nonce) kv ≡ ok (some raw)
      → redeem_record api codec cfg now mem raw ≡ ok token
      → IsRedeemed api codec cfg now mem nonce kv token
  unfolding redeem_record
  redeem_record_sound d now mem nonce raw token kv there h =
      elim (Result-cases (codec.unmarshal_nonce raw)) [
        | inr (x, refused) ↦ absurd (ground (arith, refused))
        | inl (rec, e1) ↦ elim (Bool-cases (leb_ℤ (pos (unix now)) rec.expires)) [
          | inr late ↦ absurd (ground (arith, e1, late))
          | inl live ↦ elim (Result-cases (api.parse_jid rec.group)) [
            | inr (x, refused) ↦ absurd (ground (arith, e1, live, refused))
            | inl (group, e2) ↦ elim (Result-cases (api.parse_jid rec.member)) [
              | inr (x, refused) ↦ absurd (ground (arith, e1, live, e2, refused))
              | inl (member, e3) ↦ elim (Result-cases (mem group member)) [
                | inr (x, refused) ↦ absurd (ground (arith, e1, live, e2, e3, refused))
                | inl (false, refused) ↦ absurd (ground (arith, e1, live, e2, e3, refused))
                | inl (true, e4) ↦ record {
                  raw = raw;
                  record_of = rec;
                  group = group;
                  member = member;
                  stored = there;
                  decoded = e1;
                  live = live;
                  names_group = e2;
                  names_member = e3;
                  current = e4;
                  signed = ground (arith, e1, live, e2, e3, e4);
                }
              ]
            ]
          ]
        ]
      ]

  -- A session is handed out by `Redeem` only where the nonce was stored with a record not yet expired,
  -- for a group and a member of which WhatsApp says at that moment that the one is in the other; and
  -- unless links are reusable, the nonce is gone from the store then.
  pub redeem-IsRedeemed :
      (d : Driver) (now : ℕ) (mem : Membership) (nonce token : Text) (kv : Kv)
      → (redeem api codec cfg d now mem nonce kv).1 ≡ ok token
      → IsRedeemed api codec cfg now mem nonce kv token
        × (single_use cfg ≡ true
            → Kv.get Kv.works (nonce_prefix ++ nonce) (redeem api codec cfg d now mem nonce kv).0
              ≡ ok none)
  unfolding redeem
  redeem-IsRedeemed d now mem [] token kv h = cc
  redeem-IsRedeemed d now mem (c ∷ nonce) token kv h =
      elim (Result-cases (take_nonce cfg d (c ∷ nonce) kv).1) [
        | inr (x, refused) ↦ absurd (ground (arith, refused))
        | inl (none, missing) ↦ absurd (ground (arith, missing))
        | inl (some raw, hit) ↦
            let (there, gone) = take_nonce-hit cfg d (c ∷ nonce) raw kv hit in
            (
              redeem_record_sound d now mem (c ∷ nonce) raw token kv there (ground (arith, hit)),
              gone,
            )
      ]

-- Why a token was handed out at a refresh: the old one is authentic, its ceiling lies ahead, WhatsApp
-- said that moment that its member is in its group, and the new one is signed for them to the same
-- ceiling.
pub record IsRefreshed (api : JidApi) (codec : Codec) (cfg : Config) (now : ℕ) (mem : Membership)
    (old token : Text) : Type 0 where
  pub claims : Claims
  pub group : Jid
  pub member : Jid
  pub parsed : parse codec cfg.signing_key old ≡ ok claims
  pub below_ceiling : ltb_ℤ (pos (unix now)) claims.absolute ≡ true
  pub names_group : api.parse_jid claims.group ≡ ok group
  pub names_member : api.parse_jid claims.member ≡ ok member
  pub current : mem group member ≡ ok true
  pub signed :
      sign codec cfg.signing_key (session_claims api cfg group member now claims.absolute)
      ≡ ok token

module _ (api : JidApi) (codec : Codec) (cfg : Config) where
  -- `Refresh` hands out a session only for an authentic token below its ceiling, whose member is, says
  -- WhatsApp at that moment, in its group; the new token has the same ceiling.
  pub refresh-IsRefreshed :
      (now : ℕ) (mem : Membership) (old token : Text)
      → refresh api codec cfg now mem old ≡ ok token
      → IsRefreshed api codec cfg now mem old token
  unfolding refresh
  refresh-IsRefreshed now mem old token h = elim (Result-cases (parse codec cfg.signing_key old)) [
    | inr (x, refused) ↦ absurd (ground (arith, refused))
    | inl (claims, e1) ↦ elim (Bool-cases (ltb_ℤ (pos (unix now)) claims.absolute)) [
      | inr late ↦ absurd (ground (arith, e1, late))
      | inl below ↦ elim (Result-cases (api.parse_jid claims.group)) [
        | inr (x, refused) ↦ absurd (ground (arith, e1, below, refused))
        | inl (group, e2) ↦ elim (Result-cases (api.parse_jid claims.member)) [
          | inr (x, refused) ↦ absurd (ground (arith, e1, below, e2, refused))
          | inl (member, e3) ↦ elim (Result-cases (mem group member)) [
            | inr (x, refused) ↦ absurd (ground (arith, e1, below, e2, e3, refused))
            | inl (false, refused) ↦ absurd (ground (arith, e1, below, e2, e3, refused))
            | inl (true, e4) ↦ record {
              claims = claims;
              group = group;
              member = member;
              parsed = e1;
              below_ceiling = below;
              names_group = e2;
              names_member = e3;
              current = e4;
              signed = ground (arith, e1, below, e2, e3, e4);
            }
          ]
        ]
      ]
    ]
  ]
