-- ===== src/Webauth/Tickets.antt =====
-- webauth/webauth.go: what minting and redeeming promise, as a book of tickets that nobody sweeps.
pub mod Models
pub mod Refinement
use botkit.Prelude.{
  ℕ, ◌+◌, ◌≤◌, ◌≡◌, Bool, true, false, ◌||◌, Option, none, some, List, [], ◌∷◌, leb, if◌then◌else◌,
  ◌==◌, Text, codes, is_blank, nat_eq, text_eq,
}
use botkit.Errors.{wrap, new_error, Result, ok, err}
use botkit.Jid.{IsCanonical, Jid, JidApi}
use botkit.Prelude.Int.{pos}
use botkit.Store.Kv
use botkit.Store.Kv.{Kv}
use botkit.Webauth.Config.{Config}
use botkit.Webauth.Codec.{Codec}
use botkit.Webauth.Auth.{
  Membership, Mint, mint_link, redeem, mint, unix, link_ttl, session_ttl, link_of, err_denied,
}

-- For whom a link was minted, and the last second of its lifetime.
pub record Ticket : Type 0 where
  pub group : Jid
  pub member : Jid
  pub until : ℕ

abbrev pub Tickets : Type 0
Tickets = Text → Option Ticket

pub data Event : Type 0 where
  minting : Mint → Jid → Jid → Event
  redeeming : (now : ℕ) → Membership → (nonce : Text) → Event

-- The events come in the order of their seconds; the store takes the records of the links, no earlier
-- than their expiry was reckoned, and the JIDs are such as are read back.
abbrev pub InOrder : JidApi → ℕ → List Event → Type 0
InOrder api at [] = Unit
InOrder api at (minting m group member ∷ rest) =
    (at ≤ unix m.sweep_at)
    × (m.clock_at ≤ m.store_at)
    × (m.store ≡ Kv.works)
    × IsCanonical api group
    × IsCanonical api member
    × InOrder api (unix m.sweep_at) rest
InOrder api at (redeeming now mem nonce ∷ rest) = (at ≤ unix now) × InOrder api (unix now) rest

module _ (api : JidApi) (codec : Codec) (cfg : Config) where
  open api use {is_empty}

  -- The code.
  abbrev pub event : Event → Kv → Kv × Result Text
  event (minting m group member) kv = mint_link api codec cfg m group member kv
  event (redeeming now mem nonce) kv = redeem api codec cfg Kv.works now mem nonce kv

  abbrev pub events : List Event → Kv → List (Result Text)
  events [] kv = []
  events (e ∷ rest) kv = let (kv', answer) = event e kv in answer ∷ events rest kv'

  -- The book.
  abbrev pub issue : Mint → Jid → Jid → Result (List ℕ) → Tickets → Tickets × Result Text
  issue m group member (err e) ts = (ts, err (wrap (codes "webauth: generate nonce") e))
  issue m group member (ok raw) ts =
      let ticket : Ticket = record {
        group = group;
        member = member;
        until = unix (m.clock_at + link_ttl cfg);
      } in
      (
        λ n. if codec.b64_encode raw == n then some ticket else ts n,
        ok (link_of cfg (codec.b64_encode raw)),
      )

  abbrev pub if_in : Result Bool → Result Text → Result Text
  if_in (ok true) session = session
  if_in (ok false) session = err err_denied
  if_in (err e) session = err err_denied

  abbrev pub admit : ℕ → Membership → Option Ticket → Result Text
  admit now mem none = err err_denied
  admit now mem (some t) =
      if leb (unix now) t.until
      then if_in (mem t.group t.member)
          (mint api codec cfg t.group t.member now (pos (unix (now + session_ttl cfg))))
      else err err_denied

  abbrev pub ticket_event : Event → Tickets → Tickets × Result Text
  ticket_event (minting m group member) ts =
      if is_empty group || is_empty member || is_blank member.user
      then (ts, err (new_error (codes "webauth: MintLink needs both a group and a member JID")))
      else issue m group member m.random ts
  ticket_event (redeeming now mem nonce) ts =
      if is_blank nonce
      then (ts, err err_denied)
      else (λ n. if nonce == n then none else ts n, admit now mem (ts nonce))

  abbrev pub ticket_events : List Event → Tickets → List (Result Text)
  ticket_events [] ts = []
  ticket_events (e ∷ rest) ts =
      let (ts', answer) = ticket_event e ts in answer ∷ ticket_events rest ts'
