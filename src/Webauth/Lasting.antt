-- ===== src/Webauth/Lasting.antt =====
-- webauth/webauth.go: what leaves the record of a nonce in the store.
use botkit.Prelude.{
  ℕ, ◌+◌, ◌/◌, ◌≤◌, ◌≡◌, ◌≢◌, inl, inr, false, ◌||◌, List, [], ◌∷◌, ◌++◌, arith, nat_eq, Bool-cases,
  Text, text_beq, text_beq_iff, text_eq, is_blank,
}
use botkit.Errors.{ok, Result-cases}
use botkit.Jid.{Jid, JidApi}
use botkit.Store.Kv
use botkit.Store.Kv.{Kv, Driver}
use botkit.Store.Table.{IsUnique}
use botkit.Store.Uniqueness.{set_op, consume_op, expire_op, apply-IsUnique}
use botkit.Store.Spared.{Holds, apply-Holds, set-Holds}
use botkit.Webauth.Config.{Config, single_use, second}
use botkit.Webauth.Codec.{Codec}
use botkit.Webauth.Auth.{
  Membership, Mint, redeem, take_nonce, nonce_prefix, nonce_record, swept, mint_link, unix,
  link_ttl,
}
use botkit.Webauth.Spent.{draws}

-- The store holds this record for the nonce, written in this second.
abbrev pub HoldsNonce : Text → Text → ℕ → Kv → Type 0
HoldsNonce nonce rec stamp kv = Holds (nonce_prefix ++ nonce) rec stamp kv

prefixed_apart :
    (n nonce : Text) → text_beq n nonce ≡ false → nonce_prefix ++ n ≢ nonce_prefix ++ nonce
unfolding text_beq
prefixed_apart n nonce apart e =
    cc ((text_beq_iff (nonce_prefix ++ n) (nonce_prefix ++ nonce)).1 e, apart)

module _ (api : JidApi) (codec : Codec) (cfg : Config) (nonce rec : Text) (stamp : ℕ) where
  take_nonce-HoldsNonce :
      (d : Driver) (n : Text) (kv : Kv)
      → text_beq n nonce ≡ false
      → HoldsNonce nonce rec stamp kv
      → HoldsNonce nonce rec stamp (take_nonce cfg d n kv).0
  unfolding take_nonce
  take_nonce-HoldsNonce d n kv apart h = elim (Bool-cases (single_use cfg)) [
    | inr reusable ↦ rw reusable h
    | inl once ↦ rw once (
        apply-Holds (nonce_prefix ++ nonce) rec stamp (consume_op d (nonce_prefix ++ n)) kv h
          (prefixed_apart n nonce apart))
  ]

  pub redeem-HoldsNonce :
      (d : Driver) (now : ℕ) (mem : Membership) (n : Text) (kv : Kv)
      → text_beq n nonce ≡ false
      → HoldsNonce nonce rec stamp kv
      → HoldsNonce nonce rec stamp (redeem api codec cfg d now mem n kv).0
  unfolding redeem
  redeem-HoldsNonce d now mem [] kv apart h = h
  redeem-HoldsNonce d now mem (c ∷ n) kv apart h = take_nonce-HoldsNonce d (c ∷ n) kv apart h

  -- A sweep not past the record's second plus the link's lifetime leaves it.
  pub swept-HoldsNonce :
      (m : Mint) (kv : Kv)
      → unix m.sweep_at ≤ stamp + link_ttl cfg / second
      → HoldsNonce nonce rec stamp kv
      → HoldsNonce nonce rec stamp (swept cfg m kv)
  swept-HoldsNonce m kv young h =
      apply-Holds (nonce_prefix ++ nonce) rec stamp
        (expire_op m.sweep m.counted (unix m.sweep_at) nonce_prefix (link_ttl cfg)) kv h young

  pub mint_link-HoldsNonce :
      (m : Mint) (group member : Jid) (kv : Kv)
      → draws api codec cfg nonce m ≡ false
      → unix m.sweep_at ≤ stamp + link_ttl cfg / second
      → HoldsNonce nonce rec stamp kv
      → HoldsNonce nonce rec stamp (mint_link api codec cfg m group member kv).0
  unfolding mint_link
  mint_link-HoldsNonce m group member kv another young h =
      let kept = swept-HoldsNonce m kv young h in
      elim (Bool-cases (api.is_empty group || api.is_empty member || is_blank member.user)) [
        | inl refused ↦ rw refused h
        | inr valid ↦ elim (Result-cases m.random) [
          | inr (x, failed) ↦ rw (valid, failed) kept
          | inl (raw, drawn) ↦
              elim (Result-cases
                (codec.marshal_nonce (nonce_record api cfg group member m.clock_at))) [
                  | inr (x, failed) ↦ rw (valid, drawn, failed) kept
                  | inl (written, e) ↦
                      rw (valid, drawn, e)
                        (apply-Holds (nonce_prefix ++ nonce) rec stamp
                          (set_op m.store (unix m.store_at) (nonce_prefix ++ codec.b64_encode raw)
                            written)
                          (swept cfg m kv) kept
                          (prefixed_apart (codec.b64_encode raw) nonce (rw drawn at another)))
                ]
        ]
      ]

swept-IsUnique :
    (cfg : Config) (m : Mint) (kv : Kv) → IsUnique kv.rows → IsUnique (swept cfg m kv).rows
swept-IsUnique cfg m kv =
    apply-IsUnique (expire_op m.sweep m.counted (unix m.sweep_at) nonce_prefix (link_ttl cfg)) kv

-- After a mint that gave its link, the store holds the record of its nonce.
pub mint_link-fresh :
    (api : JidApi) (codec : Codec) (cfg : Config) (m : Mint) (raw : List ℕ) (group member : Jid)
    (link : Text) (kv : Kv)
    → IsUnique kv.rows
    → m.random ≡ ok raw
    → (mint_link api codec cfg m group member kv).1 ≡ ok link
    → (rec : Text) × (codec.marshal_nonce (nonce_record api cfg group member m.clock_at) ≡ ok rec)
      × HoldsNonce
          (codec.b64_encode raw)
          rec
          (unix m.store_at)
          (mint_link api codec cfg m group member kv).0
unfolding mint_link Kv.set
mint_link-fresh api codec cfg m raw group member link kv unique drawn h =
    elim (Bool-cases (api.is_empty group || api.is_empty member || is_blank member.user)) [
      | inl refused ↦ absurd (ground (arith, refused))
      | inr valid ↦
          elim (Result-cases (codec.marshal_nonce (nonce_record api cfg group member m.clock_at))) [
            | inr (x, refused) ↦ absurd (ground (arith, drawn, valid, refused))
            | inl (rec, e) ↦
                let stored : m.store ≡ Kv.works = ground (arith, drawn, valid, e) in
                let kept =
                  set-Holds (nonce_prefix ++ codec.b64_encode raw) rec (unix m.store_at)
                    (swept cfg m kv) (swept-IsUnique cfg m kv unique) in
                (rec, e, rw (valid, drawn, e, stored) kept)
          ]
    ]
