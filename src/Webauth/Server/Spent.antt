-- ===== src/Webauth/Server/Spent.antt =====
-- webauth/server.go: a session that the endpoints grant for a nonce takes its link from the store.
use botkit.Errors.{err, is_ok}
use botkit.Prelude.{
  tally, ◌≤◌, ◌≡◌, refl, inl, inr, Bool, true, false, not, ◌&&◌, none, arith, ◌==◌, nat_eq,
  Bool-cases, is_none, Text, text_beq, text_eq,
}
use botkit.Store.Kv.{Kv}
use botkit.Webauth.Codec.{Codec}
use botkit.Webauth.Auth.{redeem}
use botkit.Webauth.Config.{Config, single_use}
use botkit.Jid.{JidApi}
use botkit.Webauth.Server.{
  ok, Result, Response, Endpoint, at_redeem, at_refresh, Exchange, redeem_decoded, handle_redeem,
  handle_refresh, auth, serve, serve_routed, endpoints, handler, answer_with,
}
use botkit.Webauth.Server.Doors.{token_of, decode-cases}
use botkit.Webauth.Spent.{held, redeem-spends}
use botkit.Http.{bearer, Routed, route, to, redirect, not_found}

-- The body read for the redeem endpoint is this nonce.
abbrev pub names : Text → Result Text → Bool
names nonce (ok text) = text_beq text nonce
names nonce (err e) = false

abbrev pub is_at_redeem : Routed Endpoint → Bool
is_at_redeem (to at_redeem) = true
is_at_redeem (to at_refresh) = false
is_at_redeem (redirect path) = false
is_at_redeem not_found = false

abbrev pub has_session : Response → Bool
has_session r = not (is_none (token_of r.body))

-- The answer to this exchange is a session that was redeemed with this nonce.
abbrev pub grants : Text → Exchange → Response → Bool
grants nonce x r =
    is_at_redeem (route endpoints x.request.path)
    && (has_session r && names nonce (x.field at_redeem))

module _ (api : JidApi) (codec : Codec) (cfg : Config) where
  has_session-answer_with :
      (outcome : Result Text) → has_session (answer_with cfg outcome) ≡ is_ok outcome
  has_session-answer_with (ok token) = refl
  has_session-answer_with (err e) = refl

  -- What an exchange that is answered so leaves of the nonce's link.
  abbrev Spends : Text → Exchange → Kv → Kv × Response → Type 0
  Spends nonce x kv (kv', r) =
      tally (has_session r && names nonce (x.field at_redeem)) (held nonce kv') ≤ held nonce kv

  silent-Spends :
      (x : Exchange) (nonce : Text) (kv : Kv) (r : Response)
      → token_of r.body ≡ none
      → Spends nonce x kv (kv, r)
  silent-Spends x nonce kv r silent = rw silent (omega arith)

  redeemed-Spends :
      (x : Exchange) (n nonce : Text) (kv : Kv)
      → x.field at_redeem ≡ ok n
      → single_use cfg ≡ true
      → Spends nonce x kv (redeem_decoded api codec cfg x (inr n) kv)
  unfolding redeem_decoded
  redeemed-Spends x n nonce kv read once =
      rw (read, has_session-answer_with (redeem api codec cfg x.store x.now x.membership n kv).1)
        (redeem-spends api codec cfg x.store x.now x.membership n nonce kv once)

  handle_redeem-Spends :
      (x : Exchange) (nonce : Text) (kv : Kv)
      → single_use cfg ≡ true
      → Spends nonce x kv (handle_redeem api codec cfg x kv)
  unfolding handle_redeem redeem_decoded
  handle_redeem-Spends x nonce kv once = elim (decode-cases x.request (x.field at_redeem)) [
    | inl (n, post, read, e) ↦ rw e (redeemed-Spends x n nonce kv read once)
    | inr (r, silent, e) ↦ rw e (silent-Spends x nonce kv r silent)
  ]

  auth-Spends :
      (next : Exchange → Kv → Kv × Response) (x : Exchange) (nonce : Text) (kv : Kv)
      → Spends nonce x kv (next x kv)
      → Spends nonce x kv (auth api codec cfg next x kv)
  unfolding auth
  auth-Spends next x nonce kv h =
      elim (Bool-cases (x.request.authorization == bearer cfg.api_token)) [
        | inr bad ↦ rw bad (omega arith)
        | inl good ↦ rw good h
      ]

  pub auth-keeps :
      (x : Exchange) (kv : Kv) → (auth api codec cfg (handle_refresh api codec cfg) x kv).0 ≡ kv
  unfolding auth handle_refresh
  auth-keeps x kv = ground arith

  serve_routed-spends :
      (x : Exchange) (routed : Routed Endpoint) (nonce : Text) (kv : Kv)
      → single_use cfg ≡ true
      → let (kv', r) = serve_routed api codec cfg x routed kv in
        tally
          (is_at_redeem routed && (has_session r && names nonce (x.field at_redeem)))
          (held nonce kv')
        ≤ held nonce kv
  unfolding serve_routed serve
  serve_routed-spends x (to at_redeem) nonce kv once =
      auth-Spends (handle_redeem api codec cfg) x nonce kv (handle_redeem-Spends x nonce kv once)
  serve_routed-spends x (to at_refresh) nonce kv once = rw (auth-keeps x kv) (omega arith)
  serve_routed-spends x (redirect path) nonce kv once = omega arith
  serve_routed-spends x not_found nonce kv once = omega arith

  -- A session granted for a nonce takes its link, and no exchange adds one.
  pub handler-spends :
      (x : Exchange) (nonce : Text) (kv : Kv)
      → single_use cfg ≡ true
      → tally
          (grants nonce x (handler api codec cfg x kv).1)
          (held nonce (handler api codec cfg x kv).0)
        ≤ held nonce kv
  unfolding handler
  handler-spends x nonce kv once =
      serve_routed-spends x (route endpoints x.request.path) nonce kv once
