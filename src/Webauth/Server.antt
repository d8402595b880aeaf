-- ===== src/Webauth/Server.antt =====
-- webauth/server.go: the /webauth/* endpoints over redeeming and refreshing.
pub mod Doors
pub mod Spent
pub mod Lasting
use botkit.Webauth.Codec.{Codec}
use botkit.Webauth.Auth.{recheck_interval, refresh, redeem, Membership}
use botkit.Store.Kv.{Kv, Driver}
use botkit.Jid.{JidApi}
use botkit.Webauth.Config.{second, Config}
use botkit.Prelude.{
  ℕ, ◌/◌, ◌⊎◌, inl, inr, Bool, true, false, not, List, [], ◌∷◌, if◌then◌else◌, ◌==◌, nat_eq, Text,
  codes, text_eq,
}
use botkit.Errors.{denied, Result, ok, err}
use botkit.Http.{
  Request, Routed, method_post, status_ok, status_unauthorized, status_forbidden, status_not_found,
  status_method_not_allowed, bearer, route, to, redirect, not_found,
}

-- Bodies of responses. `expires_in` is in seconds.
pub data Body : Type 0 where
  line : Text → Body
  session : Text → ℕ → Body

pub record Response : Type 0 where
  pub status : ℕ
  pub body : Body
  pub no_store : Bool  -- the header Cache-Control: no-store

pub data Endpoint : Type 0 where
  at_redeem at_refresh : Endpoint

-- What a request finds: the request line and headers, what the JSON decoder makes of its body for the
-- field that the endpoint reads, the store's answer, the instant and WhatsApp's answers.
pub record Exchange : Type 0 where
  pub request : Request
  pub field : Endpoint → Result Text
  pub store : Driver
  pub now : ℕ
  pub membership : Membership

abbrev pub error_reply : ℕ → Text → Response
error_reply status text = record { status = status; body = line text; no_store = false }

abbrev pub denied_reply : Response
denied_reply = error_reply status_forbidden (codes "denied")

-- `writeSession`, with `int(a.TTL().Seconds())`
abbrev pub write_session : Config → Text → Response
write_session cfg token = record {
  status = status_ok;
  body = session token (recheck_interval cfg / second);
  no_store = true;
}

-- The session, or the one refusal.
abbrev pub answer_with : Config → Result Text → Response
answer_with cfg (ok token) = write_session cfg token
answer_with cfg (err e) = denied_reply

-- `decode`: what the handler goes on with, or the response that it has written.
unfoldable pub decode : Request → Result Text → Response ⊎ Text
decode r read =
    if not (r.method == method_post)
    then inl (error_reply status_method_not_allowed (codes "use POST"))
    else elim read [ err e ↦ inl denied_reply | ok text ↦ inr text ]

abbrev pub endpoints : List (Text × Endpoint)
endpoints = (codes "/webauth/redeem", at_redeem) ∷ (codes "/webauth/refresh", at_refresh) ∷ []

module _ (api : JidApi) (codec : Codec) (cfg : Config) where
  redeem_decoded : Exchange → Response ⊎ Text → Kv → Kv × Response
  unfolding redeem
  redeem_decoded x (inl response) kv = (kv, response)
  redeem_decoded x (inr nonce) kv =
      let (kv', outcome) = redeem api codec cfg x.store x.now x.membership nonce kv in
      (kv', answer_with cfg outcome)

  refresh_decoded : Exchange → Response ⊎ Text → Response
  unfolding refresh
  refresh_decoded x (inl response) = response
  refresh_decoded x (inr token) = answer_with cfg (refresh api codec cfg x.now x.membership token)

  unfoldable pub handle_redeem : Exchange → Kv → Kv × Response
  unfolding decode redeem_decoded
  handle_redeem x kv = redeem_decoded x (decode x.request (x.field at_redeem)) kv

  unfoldable pub handle_refresh : Exchange → Kv → Kv × Response
  unfolding decode refresh_decoded
  handle_refresh x kv = (kv, refresh_decoded x (decode x.request (x.field at_refresh)))

  -- The middleware `auth` around a handler.
  unfoldable pub auth : (Exchange → Kv → Kv × Response) → Exchange → Kv → Kv × Response
  auth next x kv =
      if not (x.request.authorization == bearer cfg.api_token)
      then (kv, error_reply status_unauthorized (codes "unauthorized"))
      else next x kv

  unfoldable pub serve : Exchange → Endpoint → Kv → Kv × Response
  unfolding auth handle_redeem handle_refresh
  serve x at_redeem kv = auth handle_redeem x kv
  serve x at_refresh kv = auth handle_refresh x kv

  serve_routed : Exchange → Routed Endpoint → Kv → Kv × Response
  unfolding serve
  serve_routed x (to e) kv = serve x e kv
  serve_routed x (redirect path) kv = (kv, error_reply 301 path)
  serve_routed x not_found kv = (kv, error_reply status_not_found (codes "404 page not found"))

  -- `Handler`
  unfoldable pub handler : Exchange → Kv → Kv × Response
  unfolding serve_routed route
  handler x kv = serve_routed x (route endpoints x.request.path) kv
