-- ===== src/Webauth/Tickets/Refinement.antt =====
-- webauth/webauth.go: that minting and redeeming over the store do what the book of tickets does.
use botkit.Prelude.{
  ℕ, ◌+◌, ◌%◌, ◌≤◌, ◌≡◌, refl, ap, ap₂, ◌∙◌, inl, inr, true, ◌||◌, Option, none, some, List, [],
  ◌∷◌, ◌++◌, arith, leb, nat_eq, Bool-cases, Text, text_eq, is_blank,
}
use botkit.Errors.{Result, ok, Result-cases}
use botkit.Jid.{Jid, IsCanonical, JidApi}
use botkit.Prelude.Int.{leb_ℤ, pos}
use botkit.Store.Kv
use botkit.Store.Kv.{Kv, Driver}
use botkit.Store.Table.{IsUnique}
use botkit.Store.Cells.{value_in, cells}
use botkit.Store.Refinement.{value_in-cells}
use botkit.Webauth.Config.{single_use, Config, second}
use botkit.Webauth.Codec.{CodecLaws, Codec}
use botkit.Webauth.Auth.{
  Membership, assert_member, take_nonce, mint_link, redeem_found, redeem, redeem_record, Mint,
  swept, unix, link_ttl, nonce_prefix,
}
use botkit.Webauth.Tickets.{
  ticket_events, events, InOrder, Event, ticket_event, minting, redeeming, admit, event, Ticket,
  Tickets,
}
use botkit.Webauth.Tickets.Models.{
  record_of, Stored, Fits, Models, swept-Models, set-Models, consume-Models, Models-later,
}

module _ (api : JidApi) (codec : Codec) (cfg : Config) where
  -- What one event answers, and what it leaves.
  Follows : ℕ → Kv × Result Text → Tickets × Result Text → Type 0
  Follows at (kv, answer) (ts, promised) = (answer ≡ promised) × Models api codec cfg at kv ts

  module _ (laws : CodecLaws codec) where
    redeem_record-admit :
        (now stamp : ℕ) (mem : Membership) (raw : Text) (t : Ticket)
        → Stored api codec cfg raw stamp t
        → redeem_record api codec cfg now mem raw ≡ admit api codec cfg now mem (some t)
    unfolding redeem_record assert_member
    redeem_record-admit now stamp mem raw t h =
        let live : leb_ℤ (pos (unix now)) (pos t.until) ≡ leb (unix now) t.until = ground arith in
        rw (laws.nonce_round (record_of api codec cfg t) raw h.written, live)
          (elim (Bool-cases (leb (unix now) t.until)) [
            | inr over ↦ rw over refl
            | inl in_time ↦
                rw (in_time, h.group.round, h.member.round)
                  (elim (Result-cases (mem t.group t.member)) [
                    | inr (e, failed) ↦ rw failed refl
                    | inl (answer, found) ↦ elim (Bool-cases answer) [
                      | inl yes_there ↦ rw (found, yes_there) refl
                      | inr not_there ↦ rw (found, not_there) refl
                    ]
                  ])
          ])

    redeem_found-admit :
        (now at : ℕ) (mem : Membership) (c : Option (Text × ℕ)) (t : Option Ticket)
        → at ≤ unix now
        → Fits api codec cfg at c t
        → redeem_found api codec cfg now mem (ok (value_in c)) ≡ admit api codec cfg now mem t
    unfolding redeem_found
    redeem_found-admit now at mem none none le h = refl
    redeem_found-admit now at mem none (some t) le h = ground (arith, le, h)
    redeem_found-admit now at mem (some (raw, stamp)) none le h = absurd h
    redeem_found-admit now at mem (some (raw, stamp)) (some t) le h =
        redeem_record-admit now stamp mem raw t h

    redeem-Follows :
        (now at : ℕ) (mem : Membership) (nonce : Text) (kv : Kv) (ts : Tickets)
        → single_use cfg ≡ true
        → at ≤ unix now
        → Models api codec cfg at kv ts
        → Follows
            (unix now)
            (event api codec cfg (redeeming now mem nonce) kv)
            (ticket_event api codec cfg (redeeming now mem nonce) ts)
    unfolding Follows redeem take_nonce Kv.consume
    redeem-Follows now at mem [] kv ts once le h =
        (refl, Models-later api codec cfg at (unix now) kv ts le h)
    redeem-Follows now at mem (c ∷ nonce) kv ts once le h = rw once (
      ap (λ (v : Option Text). redeem_found api codec cfg now mem (ok v))
            (value_in-cells (nonce_prefix ++ (c ∷ nonce)) kv.rows)
          ∙ redeem_found-admit now at mem (cells kv.rows (nonce_prefix ++ (c ∷ nonce)))
              (ts (c ∷ nonce)) le (h.fits (c ∷ nonce)),
      Models-later api codec cfg at (unix now) _ _ le
          (consume-Models api codec cfg (c ∷ nonce) at kv ts h),
    )

    mint_link-Follows :
        (m : Mint) (group member : Jid) (at : ℕ) (kv : Kv) (ts : Tickets)
        → link_ttl cfg % second ≡ 0
        → at ≤ unix m.sweep_at
        → m.clock_at ≤ m.store_at
        → m.store ≡ Kv.works
        → IsCanonical api group
        → IsCanonical api member
        → Models api codec cfg at kv ts
        → Follows
            (unix m.sweep_at)
            (event api codec cfg (minting m group member) kv)
            (ticket_event api codec cfg (minting m group member) ts)
    unfolding Follows mint_link Kv.set
    mint_link-Follows m group member at kv ts whole le order works cg cm h =
        let kept = swept-Models api codec cfg m at kv ts le h in
        elim (Bool-cases (api.is_empty group || api.is_empty member || is_blank member.user)) [
          | inl refused ↦
              rw refused (refl, Models-later api codec cfg at (unix m.sweep_at) kv ts le h)
          | inr valid ↦ elim (Result-cases m.random) [
            | inr (e, failed) ↦ rw (valid, failed) (refl, kept)
            | inl (raw, drawn) ↦
                let ticket : Ticket = record {
                  group = group;
                  member = member;
                  until = unix (m.clock_at + link_ttl cfg);
                } in
                let (rec, marshalled) = laws.nonce_total (record_of api codec cfg ticket) in
                let stored : Stored api codec cfg rec (unix m.store_at) ticket = record {
                  written = marshalled;
                  short = omega (arith, whole, order);
                  group = cg;
                  member = cm;
                } in
                rw (valid, drawn, marshalled, works)
                  (
                    refl,
                    set-Models api codec cfg (codec.b64_encode raw) rec (unix m.sweep_at)
                        (unix m.store_at) ticket (swept cfg m kv) ts stored kept,
                  )
          ]
        ]

    events-Models :
        (es : List Event) (at : ℕ) (kv : Kv) (ts : Tickets)
        → single_use cfg ≡ true
        → link_ttl cfg % second ≡ 0
        → InOrder api at es
        → Models api codec cfg at kv ts
        → events api codec cfg es kv ≡ ticket_events api codec cfg es ts
    unfolding Follows
    events-Models [] at kv ts once whole order h = refl
    events-Models (minting m group member ∷ es) at kv ts once whole (le, later, works, cg, cm, rest)
          h =
        let (same, after) =
          mint_link-Follows m group member at kv ts whole le later works cg cm h in
        ap₂ (λ x xs. x ∷ xs) same (events-Models es (unix m.sweep_at) _ _ once whole rest after)
    events-Models (redeeming now mem nonce ∷ es) at kv ts once whole (le, rest) h =
        let (same, after) = redeem-Follows now at mem nonce kv ts once le h in
        ap₂ (λ x xs. x ∷ xs) same (events-Models es (unix now) _ _ once whole rest after)

  -- From a store without links, any sequence of mints and redeems is answered as by a book of tickets
  -- that is never swept: a mint writes a ticket for its nonce, with the member, the group and the last
  -- second of its lifetime, and a redeem takes the ticket away, and gives a session exactly if there is
  -- one, it is not over, and WhatsApp says that the member is in the group. So neither the sweeps, which
  -- may fail, nor the encoding of the records can be told from the answers. The conditions: links are
  -- single-use, their lifetime is a whole number of seconds, the store answers each Set and Consume, the
  -- events come in the order of their seconds, no record is written before its expiry was reckoned, and
  -- the JIDs are such as are read back.
  pub events-ticket_events :
      (es : List Event) (kv : Kv)
      → CodecLaws codec
      → single_use cfg ≡ true
      → link_ttl cfg % second ≡ 0
      → InOrder api 0 es
      → IsUnique kv.rows
      → ((n : Text) → cells kv.rows (nonce_prefix ++ n) ≡ none)
      → events api codec cfg es kv ≡ ticket_events api codec cfg es (λ n. none)
  events-ticket_events es kv laws once whole order unique vacant =
      events-Models laws es 0 kv (λ n. none) once whole order
        (record { unique = unique; fits = λ n. rw (vacant n) tt })
