-- ===== src/Bot/Ops.antt =====
-- bot/bot.go: the ops port, which joins the pairing API and the dashboard's endpoints.
use botkit.Pairing.Cooldown.{may_pair, handler_pairs_exactly}
use botkit.Webauth.Server.Doors.{handler-IsEarned, token_of}
use botkit.Prelude.{
  ◌≡◌, refl, ◌∙◌, ◌⊎◌, inl, inr, Bool, true, false, not, List, [], ◌∷◌, arith, if◌then◌else◌,
  nat_eq, Bool-cases, Option-cases, is_none, Text, codes, text_beq_iff, text_eq,
}
use botkit.Http.{Request, bearer, Routed, to, redirect, not_found, route}
use botkit.Jid.{JidApi}
use botkit.Store.Kv.{Kv}
use botkit.Pairing.{Server, WhatsApp, Clock, Response as PairingResponse}
use botkit.Pairing
use botkit.Webauth.Config.{Config as WebauthConfig}
use botkit.Webauth.Codec.{Codec}
use botkit.Webauth.Server
use botkit.Webauth.Server.{Exchange, Response as WebauthResponse}

-- The two APIs' states.
pub record Port : Type 0 where
  pub pairing : Server
  pub kv : Kv

pub data Answer : Type 0 where
  by_pairing : PairingResponse → Answer
  by_webauth : WebauthResponse → Answer
  moved : Text → Answer
  missing : Answer

pub data Side : Type 0 where
  pairing_side webauth_side : Side

abbrev pub sides : List (Text × Side)
sides = (codes "/", pairing_side) ∷ (codes "/webauth/", webauth_side) ∷ []

module _ (api : JidApi) (codec : Codec) (cfg : WebauthConfig) (wa : WhatsApp) (clock : Clock) where
  to_pairing : Exchange → Port → Port × Answer
  unfolding Pairing.handler
  to_pairing x port =
      let (s, response) = Pairing.handler wa clock x.request port.pairing in
      (record port { pairing = s }, by_pairing response)

  to_webauth : Exchange → Port → Port × Answer
  unfolding Server.handler
  to_webauth x port =
      let (kv, response) = Server.handler api codec cfg x port.kv in
      (record port { kv = kv }, by_webauth response)

  by_side : Exchange → Routed Side → Port → Port × Answer
  unfolding to_pairing to_webauth
  by_side x (to pairing_side) port = to_pairing x port
  by_side x (to webauth_side) port = to_webauth x port
  by_side x (redirect path) port = (port, moved path)
  by_side x not_found port = (port, missing)

  -- `opsHandler`; `mounted` is whether there is a webauth handler.
  unfoldable pub ops_handler : (mounted : Bool) → Exchange → Port → Port × Answer
  unfolding by_side to_pairing route
  ops_handler mounted x port =
      if not mounted then to_pairing x port else by_side x (route sides x.request.path) port

-- A session, or an attempt to pair, came of the request.
abbrev pub gives_session : Answer → Bool
gives_session (by_webauth r) = not (is_none (token_of r.body))
gives_session _ = false

abbrev pub pairs : Answer → Bool
pairs (by_pairing r) = r.attempted
pairs _ = false

-- What a request may have done, by its header.
abbrev pub Kept : WebauthConfig → Exchange → Port → Port × Answer → Type 0
Kept cfg x port (after, answer) =
    ((gives_session answer ≡ false) ⊎ (x.request.authorization ≡ bearer cfg.api_token))
    × ((pairs answer ≡ false) ⊎ (x.request.authorization ≡ bearer port.pairing.token))
    × ((after.pairing ≡ port.pairing) ⊎ (after.kv ≡ port.kv))

pub may_pair-bearer :
    (wa : WhatsApp) (clock : Clock) (r : Request) (s : Server)
    → may_pair wa clock r s ≡ true
    → r.authorization ≡ bearer s.token
may_pair-bearer wa clock r s h =
    (text_beq_iff r.authorization (bearer s.token)).0 (ground (arith, h))

module _ (api : JidApi) (codec : Codec) (cfg : WebauthConfig) (wa : WhatsApp) (clock : Clock) where
  to_pairing-Kept :
      (x : Exchange) (port : Port) → Kept cfg x port (to_pairing api codec cfg wa clock x port)
  unfolding to_pairing
  to_pairing-Kept x port =
      let (attempted, state) = handler_pairs_exactly wa clock x.request port.pairing in
      (
        inl refl,
        elim (Bool-cases (may_pair wa clock x.request port.pairing)) [
          | inl may ↦ inr (may_pair-bearer wa clock x.request port.pairing may)
          | inr never ↦ inl (attempted ∙ never)
        ],
        inr refl,
      )

  to_webauth-Kept :
      (x : Exchange) (port : Port) → Kept cfg x port (to_webauth api codec cfg wa clock x port)
  unfolding to_webauth
  to_webauth-Kept x port = (
    elim (Option-cases (token_of (Server.handler api codec cfg x port.kv).1.body)) [
      | inl silent ↦ inl (rw silent refl)
      | inr (token, given) ↦ inr ((handler-IsEarned api codec cfg x port.kv token given).0)
    ],
    inl refl,
    inl refl,
  )

  by_side-Kept :
      (x : Exchange) (routed : Routed Side) (port : Port)
      → Kept cfg x port (by_side api codec cfg wa clock x routed port)
  unfolding by_side
  by_side-Kept x (to pairing_side) port = to_pairing-Kept x port
  by_side-Kept x (to webauth_side) port = to_webauth-Kept x port
  by_side-Kept x (redirect path) port = (inl refl, inl refl, inl refl)
  by_side-Kept x not_found port = (inl refl, inl refl, inl refl)

  -- The two APIs on the one port are kept apart: a session is answered only to a request with the
  -- dashboard's token, `Pair` is called only for one with the ops token, and no request changes the
  -- states of both.
  pub ops_handler-Kept :
      (mounted : Bool) (x : Exchange) (port : Port)
      → Kept cfg x port (ops_handler api codec cfg wa clock mounted x port)
  unfolding ops_handler
  ops_handler-Kept true x port = by_side-Kept x (route sides x.request.path) port
  ops_handler-Kept false x port = to_pairing-Kept x port
