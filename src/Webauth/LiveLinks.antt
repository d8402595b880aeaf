-- ===== src/Webauth/LiveLinks.antt =====
-- webauth/webauth.go and store/kv.go: the sweep of each mint removes no link that still redeems.
use botkit.Prelude.{
  ℕ, ◌+◌, ◌/◌, ◌%◌, ◌≤◌, ◌≡◌, refl, sym, ap, ◌∙◌, inl, inr, Bool, true, false, ◌||◌, some, List, [],
  ◌∷◌, ◌++◌, arith, ◌==◌, nat_eq, Bool-cases, Option-cases, All, Text, text_eq, is_blank,
}
use botkit.Errors.{ok, err, Result-cases}
use botkit.Prelude.Int.{pos, leb_ℤ, ◌≤ℤ◌}
use mathlib.Core.Path.{subst}
use botkit.Jid.{Jid, JidApi}
use botkit.Store.Kv
use botkit.Store.Kv.{Driver-cases, Kv, Driver}
use botkit.Store.Table.{Row, select_value, upsert, delete_where, is_expired, IsUnique}
use botkit.Store.Sweep.{find_row, keep_unless, find_row-delete_where, select_value-find_row}
use botkit.Webauth.Config.{Config, second}
use botkit.Webauth.Codec.{CodecLaws, Codec, NonceRecord}
use botkit.Webauth.Denials.{redeem-missing}
use botkit.Webauth.Auth.{
  nonce_record, mint_link, swept, nonce_prefix, err_denied, unix, Membership, Mint, link_ttl,
  take_nonce, redeem_record, redeem,
}

-- The record that a row holds, if any, expires at most the link's lifetime after the row was written.
pub record RowIsTimely (codec : Codec) (cfg : Config) (r : Row) : Type 0 where
  pub within :
      (rec : NonceRecord)
      → codec.unmarshal_nonce r.value ≡ ok rec
      → rec.expires ≤ℤ pos (r.updated_at + link_ttl cfg / second)

abbrev pub IsTimely : Codec → Config → Kv → Type 0
IsTimely codec cfg kv = All (RowIsTimely codec cfg) kv.rows

RowIsTimely-of_find :
    (codec : Codec) (cfg : Config) (k : Text) (rs : List Row) (r : Row)
    → All (RowIsTimely codec cfg) rs
    → find_row k rs ≡ some r
    → RowIsTimely codec cfg r
unfolding find_row
RowIsTimely-of_find codec cfg k [] r h e = absurd (ground arith)
RowIsTimely-of_find codec cfg k (q ∷ rs) r h e = elim (Bool-cases (q.key == k)) [
  | inl same ↦ subst (RowIsTimely codec cfg) (ground (arith, same)) h.0
  | inr different ↦ RowIsTimely-of_find codec cfg k rs r h.1 (ground (arith, different))
]

All-upsert : (P : Row → Type 0) (n : Row) (rs : List Row) → P n → All P rs → All P (upsert n rs)
unfolding upsert
All-upsert P n [] p h = (p, tt)
All-upsert P n (r ∷ rs) p h = elim (Bool-cases (r.key == n.key)) [
  | inl same ↦ rw same (p, h.1)
  | inr different ↦ rw different (h.0, All-upsert P n rs p h.1)
]

All-delete_where :
    (P : Row → Type 0) (p : Row → Bool) (rs : List Row) → All P rs → All P (delete_where p rs)
unfolding delete_where
All-delete_where P p [] h = tt
All-delete_where P p (r ∷ rs) h = elim (Bool-cases (p r)) [
  | inl gone ↦ rw gone (All-delete_where P p rs h.1)
  | inr kept ↦ rw kept (h.0, All-delete_where P p rs h.1)
]

module _ (api : JidApi) (codec : Codec) (cfg : Config) where
  redeem_record-late :
      (now : ℕ) (mem : Membership) (raw : Text)
      → ((rec : NonceRecord)
          → codec.unmarshal_nonce raw ≡ ok rec
          → leb_ℤ (pos (unix now)) rec.expires ≡ false)
      → redeem_record api codec cfg now mem raw ≡ err err_denied
  unfolding redeem_record
  redeem_record-late now mem raw late = elim (Result-cases (codec.unmarshal_nonce raw)) [
    | inr (x, refused) ↦ rw refused
    | inl (rec, e) ↦ rw (e, late rec e)
  ]

  swept_record :
      (d : Driver) (now : ℕ) (mem : Membership) (nonce : Text) (m : Mint) (kv : Kv) (r : Row)
      → RowIsTimely codec cfg r
      → unix m.sweep_at ≤ unix now
      → is_expired nonce_prefix (link_ttl cfg / second) (unix m.sweep_at) r ≡ true
      → redeem_record api codec cfg now mem r.value ≡ err err_denied
  unfolding is_expired
  swept_record d now mem nonce m kv r timely later old =
      redeem_record-late now mem r.value (λ rec e. let bound = timely.within rec e in ground arith)

  redeem-same :
      (d : Driver) (now : ℕ) (mem : Membership) (nonce : Text) (kv kv' : Kv)
      → select_value (nonce_prefix ++ nonce) kv.rows ≡ select_value (nonce_prefix ++ nonce) kv'.rows
      → (redeem api codec cfg d now mem nonce kv).1 ≡ (redeem api codec cfg d now mem nonce kv').1
  unfolding redeem take_nonce Kv.get Kv.consume
  redeem-same d now mem [] kv kv' h = refl
  redeem-same Kv.works now mem (c ∷ nonce) kv kv' h = ground arith
  redeem-same (Kv.fails e) now mem (c ∷ nonce) kv kv' h = ground arith
  redeem-same (Kv.lost e) now mem (c ∷ nonce) kv kv' h = ground arith

  redeem-denied :
      (d : Driver) (now : ℕ) (mem : Membership) (nonce raw : Text) (kv : Kv)
      → select_value (nonce_prefix ++ nonce) kv.rows ≡ some raw
      → redeem_record api codec cfg now mem raw ≡ err err_denied
      → (redeem api codec cfg d now mem nonce kv).1 ≡ err err_denied
  unfolding redeem take_nonce Kv.get Kv.consume
  redeem-denied d now mem [] raw kv h e = refl
  redeem-denied Kv.works now mem (c ∷ nonce) raw kv h e = ground arith
  redeem-denied (Kv.fails x) now mem (c ∷ nonce) raw kv h e = ground arith
  redeem-denied (Kv.lost x) now mem (c ∷ nonce) raw kv h e = ground arith

  swept_by :
      (d : Driver) (now : ℕ) (mem : Membership) (nonce : Text) (m : Mint) (kv kv' : Kv)
      → kv'.rows
        ≡ delete_where (is_expired nonce_prefix (link_ttl cfg / second) (unix m.sweep_at)) kv.rows
      → IsUnique kv.rows
      → IsTimely codec cfg kv
      → unix m.sweep_at ≤ unix now
      → (redeem api codec cfg d now mem nonce kv').1 ≡ (redeem api codec cfg d now mem nonce kv).1
  swept_by d now mem nonce m kv kv' same unique timely later =
      let key = nonce_prefix ++ nonce in
      let expired = is_expired nonce_prefix (link_ttl cfg / second) (unix m.sweep_at) in
      let after : find_row key kv'.rows ≡ keep_unless expired (find_row key kv.rows) =
        rw same (find_row-delete_where key expired kv.rows unique) in
      elim (Option-cases (find_row key kv.rows)) [
        | inl missing ↦
            redeem-same d now mem nonce kv' kv
              (rw (select_value-find_row, select_value-find_row) (rw (after, missing)))
        | inr (r, found) ↦ elim (Bool-cases (expired r)) [
          | inr kept ↦
              redeem-same d now mem nonce kv' kv
                (rw (select_value-find_row, select_value-find_row) (rw (after, found, kept)))
          | inl old ↦
              redeem-missing api codec cfg d now mem nonce kv'
                (rw select_value-find_row (rw (after, found, old)))
              ∙ sym (
                  redeem-denied d now mem nonce r.value kv (rw select_value-find_row (rw found)) (
                    swept_record d now mem nonce m kv r
                      (RowIsTimely-of_find codec cfg key kv.rows r timely found) later old))
        ]
      ]

  -- The sweep that a mint begins with cannot be noticed by redeeming: of every nonce, a redeem at or
  -- after the sweep's instant answers from the swept store what it would have answered before, if the
  -- store's keys are unique and each of its records expires within the link's lifetime of its write.
  redeem-swept :
      (d : Driver) (now : ℕ) (mem : Membership) (nonce : Text) (m : Mint) (kv : Kv)
      → IsUnique kv.rows
      → IsTimely codec cfg kv
      → unix m.sweep_at ≤ unix now
      → (redeem api codec cfg d now mem nonce (swept cfg m kv)).1
        ≡ (redeem api codec cfg d now mem nonce kv).1
  unfolding Kv.delete_expired
  redeem-swept d now mem nonce m kv unique timely later = elim (Driver-cases m.sweep) [
    | inl e ↦ ap (λ (k : Kv). (redeem api codec cfg d now mem nonce k).1) (rw e.1)
    | inr e ↦
        swept_by d now mem nonce m kv (swept cfg m kv) (ap (λ (k : Kv). k.rows) (e _ kv)) unique
          timely later
  ]

  swept-IsTimely :
      (m : Mint) (kv : Kv) → IsTimely codec cfg kv → IsTimely codec cfg (swept cfg m kv)
  unfolding Kv.delete_expired
  swept-IsTimely m kv timely = elim (Driver-cases m.sweep) [
    | inl e ↦ rw e.1 timely
    | inr e ↦ rw e (
        All-delete_where (RowIsTimely codec cfg)
          (is_expired nonce_prefix (link_ttl cfg / second) (unix m.sweep_at)) kv.rows timely)
  ]

  new_row-IsTimely :
      (m : Mint) (group member : Jid) (k raw : Text)
      → CodecLaws codec
      → link_ttl cfg % second ≡ 0
      → m.clock_at ≤ m.store_at
      → codec.marshal_nonce (nonce_record api cfg group member m.clock_at) ≡ ok raw
      → RowIsTimely codec cfg (record { key = k; value = raw; updated_at = unix m.store_at })
  new_row-IsTimely m group member k raw laws whole order marshalled = record {
    within = λ rec e.
        let same : rec ≡ nonce_record api cfg group member m.clock_at =
          ground (arith, laws.nonce_round _ raw marshalled, e) in
        rw same (omega arith);
  }

  set-IsTimely :
      (d : Driver) (now : ℕ) (k v : Text) (kv : Kv)
      → RowIsTimely codec cfg (record { key = k; value = v; updated_at = now })
      → IsTimely codec cfg kv
      → IsTimely codec cfg (Kv.set d now k v kv).0
  unfolding Kv.set
  set-IsTimely d now k v kv row timely = elim (Driver-cases d) [
    | inl e ↦ rw e.1 timely
    | inr e ↦ rw e (
        All-upsert (RowIsTimely codec cfg) (record { key = k; value = v; updated_at = now }) kv.rows
          row timely)
  ]

  -- Minting keeps the records timely, where the lifetime of a link is a whole number of seconds and the
  -- record is written no earlier than its expiry was computed.
  mint_link-IsTimely :
      (m : Mint) (group member : Jid) (kv : Kv)
      → CodecLaws codec
      → link_ttl cfg % second ≡ 0
      → m.clock_at ≤ m.store_at
      → IsTimely codec cfg kv
      → IsTimely codec cfg (mint_link api codec cfg m group member kv).0
  unfolding mint_link
  mint_link-IsTimely m group member kv laws whole order timely =
      elim (Bool-cases (api.is_empty group || api.is_empty member || is_blank member.user)) [
        | inl refused ↦ rw refused timely
        | inr valid ↦ elim (Result-cases m.random) [
          | inr (x, failed) ↦ rw (valid, failed) (swept-IsTimely m kv timely)
          | inl (raw, drawn) ↦
              elim (Result-cases
                (codec.marshal_nonce (nonce_record api cfg group member m.clock_at))) [
                  | inr (x, failed) ↦ rw (valid, drawn, failed) (swept-IsTimely m kv timely)
                  | inl (rec, marshalled) ↦
                      rw (valid, drawn, marshalled)
                        (set-IsTimely m.store (unix m.store_at)
                          (nonce_prefix ++ codec.b64_encode raw) rec (swept cfg m kv)
                          (new_row-IsTimely m group member _ rec laws whole order marshalled)
                          (swept-IsTimely m kv timely))
                ]
        ]
      ]
