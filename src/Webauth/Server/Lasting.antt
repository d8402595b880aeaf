-- ===== src/Webauth/Server/Lasting.antt =====
-- webauth/server.go: the exchanges that leave the record of a nonce in the store.
use botkit.Prelude.{ℕ, ◌≡◌, inl, inr, Bool, false, ◌&&◌, ◌==◌, nat_eq, Bool-cases, Text, text_eq}
use botkit.Jid.{JidApi}
use botkit.Http.{bearer, Routed, route, to, redirect, not_found}
use botkit.Store.Kv.{Kv}
use botkit.Webauth.Config.{Config}
use botkit.Webauth.Codec.{Codec}
use botkit.Webauth.Lasting.{HoldsNonce, redeem-HoldsNonce}
use botkit.Webauth.Server.{
  Exchange, Endpoint, at_redeem, at_refresh, redeem_decoded, handle_redeem, auth, serve,
  serve_routed, endpoints, handler,
}
use botkit.Webauth.Server.Doors.{decode-cases}
use botkit.Webauth.Server.Spent.{names, auth-keeps}

-- Whether an exchange has the dashboard's token and names the nonce.
abbrev pub presents : Config → Text → Exchange → Bool
presents cfg nonce x =
    x.request.authorization == bearer cfg.api_token && names nonce (x.field at_redeem)

module _ (api : JidApi) (codec : Codec) (cfg : Config) (nonce rec : Text) (stamp : ℕ) where
  handle_redeem-HoldsNonce :
      (x : Exchange) (kv : Kv)
      → names nonce (x.field at_redeem) ≡ false
      → HoldsNonce nonce rec stamp kv
      → HoldsNonce nonce rec stamp (handle_redeem api codec cfg x kv).0
  unfolding handle_redeem redeem_decoded
  handle_redeem-HoldsNonce x kv apart h = elim (decode-cases x.request (x.field at_redeem)) [
    | inl (n, post, read, e) ↦ rw e (
        redeem-HoldsNonce api codec cfg nonce rec stamp x.store x.now x.membership n kv
          (rw read at apart) h)
    | inr (r, silent, e) ↦ rw e h
  ]

  auth-HoldsNonce :
      (x : Exchange) (kv : Kv)
      → presents cfg nonce x ≡ false
      → HoldsNonce nonce rec stamp kv
      → HoldsNonce nonce rec stamp (auth api codec cfg (handle_redeem api codec cfg) x kv).0
  unfolding auth
  auth-HoldsNonce x kv apart h =
      elim (Bool-cases (x.request.authorization == bearer cfg.api_token)) [
        | inr bad ↦ rw bad h
        | inl good ↦ rw good (handle_redeem-HoldsNonce x kv (rw good at apart) h)
      ]

  serve_routed-HoldsNonce :
      (x : Exchange) (routed : Routed Endpoint) (kv : Kv)
      → presents cfg nonce x ≡ false
      → HoldsNonce nonce rec stamp kv
      → HoldsNonce nonce rec stamp (serve_routed api codec cfg x routed kv).0
  unfolding serve_routed serve
  serve_routed-HoldsNonce x (to at_redeem) kv apart h = auth-HoldsNonce x kv apart h
  serve_routed-HoldsNonce x (to at_refresh) kv apart h = rw (auth-keeps api codec cfg x kv) h
  serve_routed-HoldsNonce x (redirect path) kv apart h = h
  serve_routed-HoldsNonce x not_found kv apart h = h

  -- An exchange that does not name the nonce under the token leaves its record.
  pub handler-HoldsNonce :
      (x : Exchange) (kv : Kv)
      → presents cfg nonce x ≡ false
      → HoldsNonce nonce rec stamp kv
      → HoldsNonce nonce rec stamp (handler api codec cfg x kv).0
  unfolding handler
  handler-HoldsNonce x kv = serve_routed-HoldsNonce x (route endpoints x.request.path) kv
