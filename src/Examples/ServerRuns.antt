-- ===== src/Examples/ServerRuns.antt =====
-- webauth/server.go: runs of the theorems.
use botkit.Bot.Links.{Use, exchange, mints, fires, sessions, drawn, used, gives, sessions_bound}
use botkit.Webauth.Spent.{held}
use botkit.Bot.Jobs.{Firing, fire_job}
use botkit.Schedule.{daily_at, date_key, is_daily}
use botkit.Bot.Links.Lasting.{redeem-lasting, store_after}
use botkit.Errors.{Result, ok}
use botkit.Store.Kv.{works, lost}
use botkit.Webauth.Auth.{redeem, link_of, session_claims, session_ttl, unix}
use botkit.Webauth.Config.{second}
use botkit.Webauth.Token.{parse}
use botkit.Examples.WebauthRuns.{minted_link, ann, team-IsCanonical, ann-IsCanonical}
use botkit.Examples.StoreRuns.{down}
use botkit.Prelude.Int.{pos}
use botkit.Webauth.Config.{single_use}
use botkit.Examples.BotRuns.{utc}
use botkit.Examples.TransportRuns.{team}
use botkit.Pairing.{WhatsApp, Clock}
use botkit.Bot.Ops.{Port, ops_handler, gives_session, Kept, ops_handler-Kept}
use botkit.Prelude.{
  ◌+◌, ◌≤◌, ◌≡◌, refl, true, false, none, some, List, [], ◌∷◌, arith, nat_eq, Text, codes, text_beq,
  text_eq,
}
use botkit.Store.Kv
use botkit.Http.{method_post, bearer}
use botkit.Webauth.Server.{at_refresh, Exchange, handler, serve}
use botkit.Webauth.Server.Doors.{token_of, IsEarned, IsOpaque, handler-IsEarned, serve-IsOpaque}
use botkit.Examples.WebauthRuns.{
  minting, empty, runs, cfg, now, yes_member, minted, login, redeemed,
}
use botkit.Examples.Libraries.{toy_codec-laws, at_api, toy_codec}

abbrev ask : Text → Exchange
ask authorization = record {
  request = record {
    method = method_post;
    path = codes "/webauth/redeem";
    authorization = authorization;
  };
  field = λ e. ok (codes "G");
  store = Kv.works;
  now = now;
  membership = yes_member;
}

abbrev pub good : Exchange
good = ask (bearer (codes "A"))

answered : token_of (handler at_api toy_codec cfg good minted.0).1.body ≡ some login
unfolding handler text_beq
answered = rw redeemed refl

handler-IsEarned_example :
    (good.request.authorization ≡ bearer cfg.api_token)
    × ((good.request.method ≡ method_post) × IsEarned at_api toy_codec cfg good minted.0 login)
handler-IsEarned_example = handler-IsEarned at_api toy_codec cfg good minted.0 login answered

abbrev bad : Exchange
bad = ask (bearer (codes "B"))

serve-IsOpaque_example :
    IsOpaque at_api toy_codec cfg (serve at_api toy_codec cfg good at_refresh minted.0).1
serve-IsOpaque_example = serve-IsOpaque at_api toy_codec cfg good at_refresh minted.0 refl refl

abbrev unpaired : WhatsApp
unpaired = record { paired = false; connected = false; pair = ok (codes "ABCD"); groups = ok [] }

abbrev clock : Clock
clock = record { check = 5; stamp = 6 }

abbrev port : Port
port = record { pairing = record { token = codes "B"; last_pair = none }; kv = minted.0 }

-- The same nonce with each of the two tokens: it is redeemed, and it is refused.
opened : gives_session (ops_handler at_api toy_codec cfg unpaired clock true good port).1 ≡ true
unfolding ops_handler handler text_beq
opened = rw redeemed refl

stays_shut : gives_session (ops_handler at_api toy_codec cfg unpaired clock true bad port).1 ≡ false
unfolding ops_handler handler text_beq
stays_shut = refl

ops_handler-Kept_example :
    Kept cfg bad port (ops_handler at_api toy_codec cfg unpaired clock true bad port)
ops_handler-Kept_example = ops_handler-Kept at_api toy_codec cfg unpaired clock true bad port

abbrev job : Firing
job = record {
  job = record { name = codes "audit"; spec = daily_at utc (λ tz. none) (pos 9) [] };
  now = 109;
  reading = Kv.works;
  writing = Kv.works;
  set_at = 0;
  failure = none;
}

-- A link is minted, redeemed, and sent again after a job has run.
abbrev history : List Use
history = mints minting team ann ∷ exchange good ∷ fires job ∷ exchange good ∷ []

one_session : sessions at_api toy_codec cfg utc true (codes "G") history empty ≡ 1
unfolding sessions runs daily_at date_key is_daily fire_job handler used gives
one_session = refl

sessions_bound_example :
    sessions at_api toy_codec cfg utc true (codes "G") history empty
    ≤ held (codes "G") empty + drawn at_api toy_codec cfg utc true (codes "G") history
sessions_bound_example =
    sessions_bound at_api toy_codec cfg utc true (codes "G") history empty
      (unfold single_use in refl)

-- Between its mint and its redeem another link is minted with its sweep, the nonce is sent without the
-- token, and a job fires.
abbrev between : List Use
between =
    mints (record minting { random = ok (8 ∷ []); sweep_at = now + second; store = lost down }) team
      ann
    ∷ exchange bad
    ∷ fires job
    ∷ []

abbrev redeemed_late : Result Text
redeemed_late =
    (redeem at_api toy_codec cfg works (now + second) yes_member (codes "G")
      (store_after at_api toy_codec cfg utc true between minted.0)).1

redeem-lasting_example :
    (codes "https://d/auth?t=G" ≡ link_of cfg (codes "G"))
    × (token : Text) × (redeemed_late ≡ ok token)
    × (parse toy_codec cfg.signing_key token
        ≡ ok (
            session_claims at_api cfg team ann
              (now + second)
              (pos (unix (now + second + session_ttl cfg)))))
unfolding text_beq
redeem-lasting_example =
    redeem-lasting at_api toy_codec cfg utc true minting (7 ∷ []) team ann
      (codes "https://d/auth?t=G") empty between (now + second) yes_member toy_codec-laws
      team-IsCanonical ann-IsCanonical (λ e. cc) tt refl (omega arith) minted_link
      ((refl, omega arith), (refl, (tt, tt))) (omega arith) refl
