-- ===== src/Webauth/Server/Doors.antt =====
-- webauth/server.go: who gets through the /webauth/* endpoints, and what all others are told.
use botkit.Prelude.{
  ◌/◌, ◌≡◌, refl, ◌≢◌, ◌⊎◌, inl, inr, true, false, Option, none, some, arith, ◌==◌, nat_eq,
  Bool-cases, Text, codes, text_beq, text_beq_refl, text_beq_iff, text_eq,
}
use botkit.Errors.{Result, ok, err, Result-cases}
use botkit.Http.{
  Request, Routed, method_post, status_unauthorized, status_not_found, status_method_not_allowed,
  bearer, route, to, redirect, not_found,
}
use botkit.Webauth.Server.{
  recheck_interval, redeem, refresh, redeem_decoded, refresh_decoded, Kv, Config, Codec, JidApi,
  Body, line, session, Response, Endpoint, at_redeem, at_refresh, Exchange, error_reply,
  denied_reply, answer_with, decode, handle_redeem, handle_refresh, auth, serve, endpoints,
  serve_routed, handler,
}
use botkit.Webauth.Grants.{IsRedeemed, IsRefreshed, redeem-IsRedeemed, refresh-IsRefreshed}

-- The token of a session answer.
abbrev pub token_of : Body → Option Text
token_of (line text) = none
token_of (session token n) = some token

-- How a session came to be handed out: by a nonce or by an older session.
abbrev pub IsEarned : JidApi → Codec → Config → Exchange → Kv → Text → Type 0
IsEarned api codec cfg x kv token =
    ((nonce : Text) × (x.field at_redeem ≡ ok nonce)
      × IsRedeemed api codec cfg x.now x.membership nonce kv token)
    ⊎ ((old : Text) × (x.field at_refresh ≡ ok old)
        × IsRefreshed api codec cfg x.now x.membership old token)

-- What a request without the bearer token is told.
abbrev pub turned_away : Routed Endpoint → Response
turned_away (to e) = error_reply status_unauthorized (codes "unauthorized")
turned_away (redirect path) = error_reply 301 path
turned_away not_found = error_reply status_not_found (codes "404 page not found")

abbrev use_post : Response
use_post = error_reply status_method_not_allowed (codes "use POST")

pub decode-cases :
    (r : Request) (read : Result Text)
    → ((text : Text) × (r.method ≡ method_post) × (read ≡ ok text) × (decode r read ≡ inr text))
      ⊎ ((response : Response) × (token_of response.body ≡ none) × (decode r read ≡ inl response))
unfolding decode
decode-cases r (ok text) = elim (Bool-cases (r.method == method_post)) [
  | inl post ↦ inl (text, (text_beq_iff r.method method_post).0 post, refl, rw post refl)
  | inr get ↦ inr (use_post, refl, rw get refl)
]
decode-cases r (err e) = elim (Bool-cases (r.method == method_post)) [
  | inl post ↦ inr (denied_reply, refl, rw post refl)
  | inr get ↦ inr (use_post, refl, rw get refl)
]

module _ (api : JidApi) (codec : Codec) (cfg : Config) where
  answer_with-token :
      (outcome : Result Text) (token : Text)
      → token_of (answer_with cfg outcome).body ≡ some token
      → outcome ≡ ok token
  answer_with-token (ok t) token h = ground arith
  answer_with-token (err e) token h = absurd (ground arith)

  handle_redeem-IsEarned :
      (x : Exchange) (kv : Kv) (token : Text)
      → token_of (handle_redeem api codec cfg x kv).1.body ≡ some token
      → (x.request.method ≡ method_post) × IsEarned api codec cfg x kv token
  unfolding handle_redeem redeem_decoded
  handle_redeem-IsEarned x kv token h = elim (decode-cases x.request (x.field at_redeem)) [
    | inl (nonce, post, read, e) ↦ (
      post,
      inl (
        nonce,
        read,
        (redeem-IsRedeemed api codec cfg x.store x.now x.membership nonce token kv (
            answer_with-token (redeem api codec cfg x.store x.now x.membership nonce kv).1 token
              (rw e at h))).0,
      ),
    )
    | inr (response, silent, e) ↦ absurd (cc (rw e at h, silent))
  ]

  handle_refresh-IsEarned :
      (x : Exchange) (kv : Kv) (token : Text)
      → token_of (handle_refresh api codec cfg x kv).1.body ≡ some token
      → (x.request.method ≡ method_post) × IsEarned api codec cfg x kv token
  unfolding handle_refresh refresh_decoded
  handle_refresh-IsEarned x kv token h = elim (decode-cases x.request (x.field at_refresh)) [
    | inl (old, post, read, e) ↦ (
      post,
      inr (
        old,
        read,
        refresh-IsRefreshed api codec cfg x.now x.membership old token
            (answer_with-token (refresh api codec cfg x.now x.membership old) token (rw e at h)),
      ),
    )
    | inr (response, silent, e) ↦ absurd (cc (rw e at h, silent))
  ]

  auth-passes :
      (next : Exchange → Kv → Kv × Response) (x : Exchange) (kv : Kv) (token : Text)
      → token_of (auth api codec cfg next x kv).1.body ≡ some token
      → (x.request.authorization ≡ bearer cfg.api_token)
        × (token_of (next x kv).1.body ≡ some token)
  unfolding auth
  auth-passes next x kv token h =
      elim (Bool-cases (x.request.authorization == bearer cfg.api_token)) [
        | inr bad ↦ absurd (cc (rw bad at h))
        | inl good ↦
            ((text_beq_iff x.request.authorization (bearer cfg.api_token)).0 good, rw good at h)
      ]

  serve_routed-IsEarned :
      (x : Exchange) (routed : Routed Endpoint) (kv : Kv) (token : Text)
      → token_of (serve_routed api codec cfg x routed kv).1.body ≡ some token
      → (x.request.authorization ≡ bearer cfg.api_token)
        × ((x.request.method ≡ method_post) × IsEarned api codec cfg x kv token)
  unfolding serve_routed serve
  serve_routed-IsEarned x (to at_redeem) kv token h =
      let (good, inner) = auth-passes (handle_redeem api codec cfg) x kv token h in
      (good, handle_redeem-IsEarned x kv token inner)
  serve_routed-IsEarned x (to at_refresh) kv token h =
      let (good, inner) = auth-passes (handle_refresh api codec cfg) x kv token h in
      (good, handle_refresh-IsEarned x kv token inner)
  serve_routed-IsEarned x (redirect path) kv token h = cc
  serve_routed-IsEarned x not_found kv token h = cc

  -- The endpoints answer with a session only to a POST that carries the bearer token, and only one
  -- that was earned: redeemed with the nonce that the body names, or refreshed from the session that
  -- it names, with the membership checked at that moment.
  pub handler-IsEarned :
      (x : Exchange) (kv : Kv) (token : Text)
      → token_of (handler api codec cfg x kv).1.body ≡ some token
      → (x.request.authorization ≡ bearer cfg.api_token)
        × ((x.request.method ≡ method_post) × IsEarned api codec cfg x kv token)
  unfolding handler
  handler-IsEarned x kv token h =
      serve_routed-IsEarned x (route endpoints x.request.path) kv token h

  serve_routed-turned_away :
      (x : Exchange) (routed : Routed Endpoint) (kv : Kv)
      → (x.request.authorization == bearer cfg.api_token) ≡ false
      → serve_routed api codec cfg x routed kv ≡ (kv, turned_away routed)
  unfolding serve_routed serve auth
  serve_routed-turned_away x (to at_redeem) kv bad = rw bad refl
  serve_routed-turned_away x (to at_refresh) kv bad = rw bad refl
  serve_routed-turned_away x (redirect path) kv bad = refl
  serve_routed-turned_away x not_found kv bad = refl

  -- Without the bearer token a request changes nothing in the store, so burns no link, and its answer
  -- depends on the path alone: 401 at both endpoints, whatever the method, the body or the nonce.
  handler_turns_away :
      (x : Exchange) (kv : Kv)
      → x.request.authorization ≢ bearer cfg.api_token
      → handler api codec cfg x kv ≡ (kv, turned_away (route endpoints x.request.path))
  unfolding handler
  handler_turns_away x kv bad =
      elim (Bool-cases (x.request.authorization == bearer cfg.api_token)) [
        | inl good ↦
            absurd (bad ((text_beq_iff x.request.authorization (bearer cfg.api_token)).0 good))
        | inr wrong ↦ serve_routed-turned_away x (route endpoints x.request.path) kv wrong
      ]

  -- A session, of which no copy is to be kept, or the refusal.
  abbrev pub IsOpaque : Response → Type 0
  IsOpaque response =
      ((token : Text) × (response ≡ record {
        status = 200;
        body = session token (recheck_interval cfg / 1_000_000_000);
        no_store = true;
      }))
      ⊎ (response ≡ record { status = 403; body = line (codes "denied"); no_store = false })

  answer_with-cases : (outcome : Result Text) → IsOpaque (answer_with cfg outcome)
  answer_with-cases (ok token) = inl (token, refl)
  answer_with-cases (err e) = inr refl

  -- A POST with the bearer token to one of the endpoints is answered 200, with a session token, its
  -- lifetime in seconds (the recheck interval), and the header that forbids caches to keep it; or it is
  -- answered 403 "denied" without that header, whatever went wrong: the body, the nonce, the token, the
  -- membership or the store.
  pub serve-IsOpaque :
      (x : Exchange) (e : Endpoint) (kv : Kv)
      → x.request.authorization ≡ bearer cfg.api_token
      → x.request.method ≡ method_post
      → IsOpaque (serve api codec cfg x e kv).1
  unfolding serve auth handle_redeem handle_refresh redeem_decoded refresh_decoded decode text_beq
  serve-IsOpaque x at_redeem kv good post =
      rw (good, post, text_beq_refl (bearer cfg.api_token))
        (elim (Result-cases (x.field at_redeem)) [
          | inl (nonce, e) ↦ rw e (answer_with-cases _)
          | inr (y, e) ↦ rw e (inr refl)
        ])
  serve-IsOpaque x at_refresh kv good post =
      rw (good, post, text_beq_refl (bearer cfg.api_token))
        (elim (Result-cases (x.field at_refresh)) [
          | inl (old, e) ↦ rw e (answer_with-cases _)
          | inr (y, e) ↦ rw e (inr refl)
        ])
