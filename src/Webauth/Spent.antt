-- ===== src/Webauth/Spent.antt =====
-- webauth/webauth.go: what a redeem and a mint do to the store's entry for one nonce.
use botkit.Errors.{ok, err, is_ok, Result-cases}
use botkit.Prelude.{
  tally, ℕ, ◌≤◌, ◌≡◌, refl, inl, inr, Bool, true, false, ◌&&◌, ◌||◌, none, some, [], ◌∷◌, ◌++◌,
  arith, nat_eq, Bool-cases, Option-cases, Text, text_beq, text_beq_iff, text_eq, is_blank,
}
use botkit.Webauth.Codec.{Codec}
use botkit.Webauth.Grants.{redeem-IsRedeemed}
use mathlib.Core.Path.{subst}
use botkit.Store.Kv
use botkit.Store.Kv.{Kv, Driver}
use botkit.Store.Table.{select_value}
use botkit.Store.Lookup.{select_value-upsert}
use botkit.Store.SingleUse.{prize, prize-apply}
use botkit.Store.Uniqueness.{consume_op, expire_op}
use botkit.Webauth.Config.{Config, single_use}
use botkit.Jid.{Jid, JidApi}
use botkit.Webauth.Auth.{
  Membership, Mint, redeem, take_nonce, nonce_prefix, nonce_record, swept, mint_link, unix,
  link_ttl,
}

-- How many links of this nonce the store holds: none or one.
abbrev pub held : Text → Kv → ℕ
held nonce kv = prize (select_value (nonce_prefix ++ nonce) kv.rows)

held-absent :
    (nonce : Text) (kv : Kv)
    → Kv.get Kv.works (nonce_prefix ++ nonce) kv ≡ ok none
    → held nonce kv ≡ 0
unfolding Kv.get
held-absent nonce kv h = elim (Option-cases (select_value (nonce_prefix ++ nonce) kv.rows)) [
  | inl e ↦ rw e refl
  | inr (v, e) ↦ ground (arith, e)
]

held-present :
    (nonce raw : Text) (kv : Kv)
    → Kv.get Kv.works (nonce_prefix ++ nonce) kv ≡ ok (some raw)
    → held nonce kv ≡ 1
unfolding Kv.get
held-present nonce raw kv h = ground (arith)

tally_le : (b : Bool) (n : ℕ) → n ≤ tally b n
tally_le b n = ground arith

set-held :
    (d : Driver) (now : ℕ) (n nonce v : Text) (kv : Kv)
    → held nonce (Kv.set d now (nonce_prefix ++ n) v kv).0
      ≤ tally (text_beq n nonce) (held nonce kv)
unfolding Kv.set text_beq
set-held Kv.works now n nonce v kv = ground (
  arith,
  select_value-upsert (nonce_prefix ++ nonce)
      (record { key = nonce_prefix ++ n; value = v; updated_at = now }) kv.rows,
)
set-held (Kv.fails e) now n nonce v kv = ground (arith)
set-held (Kv.lost e) now n nonce v kv = ground (
  arith,
  select_value-upsert (nonce_prefix ++ nonce)
      (record { key = nonce_prefix ++ n; value = v; updated_at = now }) kv.rows,
)

module _ (api : JidApi) (codec : Codec) (cfg : Config) where
  redeem-held :
      (d : Driver) (now : ℕ) (mem : Membership) (n nonce : Text) (kv : Kv)
      → single_use cfg ≡ true
      → held nonce (redeem api codec cfg d now mem n kv).0 ≤ held nonce kv
  unfolding redeem take_nonce
  redeem-held d now mem [] nonce kv once = omega arith
  redeem-held d now mem (c ∷ n) nonce kv once =
      rw once (prize-apply (nonce_prefix ++ nonce) (consume_op d (nonce_prefix ++ (c ∷ n))) kv tt)

  -- A redeem that grants takes the nonce's link, and none adds one.
  pub redeem-spends :
      (d : Driver) (now : ℕ) (mem : Membership) (n nonce : Text) (kv : Kv)
      → single_use cfg ≡ true
      → tally
          (is_ok (redeem api codec cfg d now mem n kv).1 && text_beq n nonce)
          (held nonce (redeem api codec cfg d now mem n kv).0)
        ≤ held nonce kv
  redeem-spends d now mem n nonce kv once =
      elim (Result-cases (redeem api codec cfg d now mem n kv).1) [
        | inr (x, refused) ↦ rw refused (redeem-held d now mem n nonce kv once)
        | inl (token, granted) ↦ elim (Bool-cases (text_beq n nonce)) [
          | inr apart ↦ rw (granted, apart) (redeem-held d now mem n nonce kv once)
          | inl same ↦
              let after = (redeem api codec cfg d now mem n kv).0 in
              let (was, spent) = redeem-IsRedeemed api codec cfg d now mem n token kv granted in
              let same_text : n ≡ nonce = (text_beq_iff n nonce).0 same in
              rw (granted, same)
                (omega (
                  arith,
                  held-absent nonce after (
                      subst (λ (x : Text). Kv.get Kv.works (nonce_prefix ++ x) after ≡ ok none)
                        same_text (spent once)),
                  held-present nonce was.raw kv (
                      subst
                        (λ (x : Text). Kv.get Kv.works (nonce_prefix ++ x) kv ≡ ok (some was.raw))
                        same_text was.stored),
                ))
        ]
      ]

  -- The draw of a mint is this nonce.
  abbrev pub draws : Text → Mint → Bool
  draws nonce m = elim m.random [ ok raw ↦ text_beq (codec.b64_encode raw) nonce | err e ↦ false ]

  pub swept-held : (m : Mint) (nonce : Text) (kv : Kv) → held nonce (swept cfg m kv) ≤ held nonce kv
  swept-held m nonce kv =
      prize-apply (nonce_prefix ++ nonce)
        (expire_op m.sweep m.counted (unix m.sweep_at) nonce_prefix (link_ttl cfg)) kv tt

  pub mint_link-adds :
      (m : Mint) (group member : Jid) (nonce : Text) (kv : Kv)
      → held nonce (mint_link api codec cfg m group member kv).0
        ≤ tally (draws nonce m) (held nonce kv)
  unfolding mint_link
  mint_link-adds m group member nonce kv =
      elim (Bool-cases (api.is_empty group || api.is_empty member || is_blank member.user)) [
        | inl refused ↦ rw refused (tally_le _ _)
        | inr valid ↦ elim (Result-cases m.random) [
          | inr (x, failed) ↦ rw (valid, failed) (swept-held m nonce kv)
          | inl (raw, drawn) ↦
              elim (Result-cases
                (codec.marshal_nonce (nonce_record api cfg group member m.clock_at))) [
                  | inr (x, failed) ↦
                      rw (valid, drawn, failed)
                        (omega (
                          arith,
                          swept-held m nonce kv,
                          tally_le (text_beq (codec.b64_encode raw) nonce) (held nonce kv),
                        ))
                  | inl (rec, written) ↦
                      rw (valid, drawn, written)
                        (ground (
                          arith,
                          swept-held m nonce kv,
                          set-held m.store (unix m.store_at) (codec.b64_encode raw) nonce rec
                              (swept cfg m kv),
                        ))
                ]
        ]
      ]
