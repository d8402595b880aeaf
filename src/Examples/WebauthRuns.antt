-- ===== src/Examples/WebauthRuns.antt =====
-- webauth/: runs of the theorems.
use botkit.Webauth.Codec.{Claims}
use botkit.Webauth.Sessions.{here, next, revocation_lag, session_ceiling}
use botkit.Webauth.Grants.{redeem-IsRedeemed, IsRedeemed}
use botkit.Webauth.Authentic.{parse_iff, IsAuthentic}
use botkit.Webauth.Tickets.{Event, redeeming, events, ticket_events}
use botkit.Webauth.Tickets.Refinement.{events-ticket_events}
use botkit.Store.Cells.{cells}
use botkit.Webauth.Config.{single_use}
use botkit.Errors.{Result, ok, err}
use botkit.Webauth.Auth.{mint, link_of, err_denied}
use botkit.Prelude.{
  ℕ, ◌+◌, ◌*◌, ◌≤◌, ◌<◌, ◌≡◌, refl, ◌↔◌, true, none, some, List, [], ◌∷◌, ◌++◌, arith, nat_eq, Text,
  codes, text_beq, text_eq, trim_space, split,
}
use botkit.Prelude.Int.{pos_part, pos}
use botkit.Jid.{Jid, IsCanonical, group_server, default_user_server}
use botkit.Examples.Libraries.{
  bytes_of, get_nonce, get_claims, put_claims, at_api, at_parse, toy_codec, toy_codec-laws,
}
use botkit.Store.Kv
use botkit.Store.Kv.{Kv}
use botkit.Webauth.Config.{Config, Url, with_defaults, single_use, fill, second}
use botkit.Webauth.Defaults.{IsFilled, IsAccepted, with_defaults_exact}
use botkit.Webauth.Token.{parse, sign, dotted, jwt_header}
use botkit.Webauth.Auth.{
  nonce_prefix, recheck_interval, refresh, verify, Mint, Membership, redeem, mint_link, unix,
  session_ttl, session_claims,
}

abbrev given : Config
given = record {
  dashboard_url = codes "https://d/";
  api_token = codes "A";
  signing_key = codes "K";
  link_ttl = pos 0;
  link_single_use = none;
  session_ttl = pos 0;
  recheck_interval = pos 0;
}

abbrev parse_url : Text → Result Url
parse_url s = ok (record { scheme = codes "https"; host = codes "d" })

abbrev pub cfg : Config
cfg = record {
  dashboard_url = codes "https://d";
  api_token = codes "A";
  signing_key = codes "K";
  link_ttl = pos 900_000_000_000;
  link_single_use = some true;
  session_ttl = pos 172_800_000_000_000;
  recheck_interval = pos 3_600_000_000_000;
}

defaults : with_defaults parse_url given ≡ ok cfg
unfolding with_defaults fill trim_space text_beq
defaults = refl

with_defaults_exact_example : (with_defaults parse_url given ≡ ok cfg) ↔ (
    IsAccepted parse_url given
    × IsFilled given cfg
    × (pos_part cfg.recheck_interval ≤ pos_part cfg.session_ttl))
with_defaults_exact_example = with_defaults_exact parse_url given cfg

abbrev team : Jid
team = record { user = codes "1"; server = group_server; raw_agent = 0; device = 0; integrator = 0 }

abbrev pub ann : Jid
ann = record {
  user = codes "2";
  server = default_user_server;
  raw_agent = 0;
  device = 0;
  integrator = 0;
}

pub team-IsCanonical : IsCanonical at_api team
team-IsCanonical = record { round = unfold at_parse split in refl; written = λ e. cc }

pub ann-IsCanonical : IsCanonical at_api ann
ann-IsCanonical = record { round = unfold at_parse split in refl; written = λ e. cc }

abbrev pub now : ℕ
now = 1000 * second

abbrev pub minting : Mint
minting = record {
  sweep = Kv.works;
  counted = true;
  store = Kv.works;
  sweep_at = now;
  clock_at = now;
  store_at = now;
  random = ok (7 ∷ []);
}

abbrev pub empty : Kv
empty = record { rows = [] }

abbrev pub yes_member : Membership
yes_member group member = ok true

abbrev pub minted : Kv × Result Text
minted = mint_link at_api toy_codec cfg minting team ann empty

pub minted_link : minted.1 ≡ ok (codes "https://d/auth?t=G")
unfolding mint_link Kv.set Kv.delete_expired
minted_link = refl

-- What `sign` makes with the stand-in libraries.
abbrev signed : Claims → Text
signed c =
    let body = dotted jwt_header (toy_codec.b64_encode (put_claims c)) in
    dotted body (toy_codec.b64_encode (toy_codec.hmac cfg.signing_key body))

abbrev login_claims : Claims
login_claims = session_claims at_api cfg team ann now (pos (unix (now + session_ttl cfg)))

abbrev pub login : Text
login = signed login_claims

-- Everything that runs of webauth compute with.
unfoldable pub runs : Unit {0}
unfolding redeem refresh verify mint_link parse sign Kv.set Kv.get Kv.consume Kv.delete_expired
    at_parse split get_claims get_nonce bytes_of text_beq single_use
runs = tt

pub redeemed :
    (redeem at_api toy_codec cfg Kv.works now yes_member (codes "G") minted.0).1 ≡ ok login
unfolding runs
redeemed = refl

login_parses : parse toy_codec cfg.signing_key login ≡ ok login_claims
unfolding runs
login_parses = refl

parse_iff_example :
    (parse toy_codec cfg.signing_key login ≡ ok login_claims)
    ↔ IsAuthentic toy_codec cfg.signing_key login login_claims
parse_iff_example = parse_iff toy_codec cfg.signing_key login login_claims

redeem-IsRedeemed_example :
    IsRedeemed at_api toy_codec cfg now yes_member (codes "G") minted.0 login
    × (single_use cfg ≡ true
        → Kv.get Kv.works
            (nonce_prefix ++ codes "G")
            (redeem at_api toy_codec cfg Kv.works now yes_member (codes "G") minted.0).0
          ≡ ok none)
redeem-IsRedeemed_example =
    redeem-IsRedeemed at_api toy_codec cfg Kv.works now yes_member (codes "G") login minted.0
      redeemed

abbrev later : ℕ
later = now + 7200 * second

abbrev renewed : Text
renewed = signed (session_claims at_api cfg team ann later login_claims.absolute)

refreshed : refresh at_api toy_codec cfg later yes_member login ≡ ok renewed
unfolding runs
refreshed = refl

verified :
    verify at_api toy_codec cfg (later + second) renewed
    ≡ ok (session_claims at_api cfg team ann later login_claims.absolute)
unfolding runs
verified = refl

session_ceiling_example : unix (later + second) < unix (now + session_ttl cfg)
session_ceiling_example =
    session_ceiling at_api toy_codec cfg toy_codec-laws Kv.works now (later + second) yes_member
      (codes "G") login renewed minted.0
      (session_claims at_api cfg team ann later login_claims.absolute) redeemed
      (next later yes_member here refreshed) verified

revocation_lag_example :
    (unix (later + second) < unix (later + recheck_interval cfg))
    × (group : Jid) × (member : Jid) × (yes_member group member ≡ ok true)
    × (at_api.jid_string team ≡ at_api.jid_string group)
    × (at_api.jid_string ann ≡ at_api.jid_string member)
revocation_lag_example =
    revocation_lag at_api toy_codec cfg toy_codec-laws later (later + second) yes_member login
      renewed (session_claims at_api cfg team ann later login_claims.absolute) refreshed verified

-- A link is minted, redeemed, and sent again.
abbrev sent_twice : List Event
sent_twice =
    Event.minting minting team ann
    ∷ redeeming (now + second) yes_member (codes "G")
    ∷ redeeming (now + second) yes_member (codes "G")
    ∷ []

events-ticket_events_example :
    events at_api toy_codec cfg sent_twice empty
    ≡ ticket_events at_api toy_codec cfg sent_twice (λ n. none)
events-ticket_events_example =
    events-ticket_events at_api toy_codec cfg sent_twice empty toy_codec-laws
      (unfold single_use in refl) refl
      (
        omega arith,
        omega arith,
        refl,
        team-IsCanonical,
        ann-IsCanonical,
        (omega arith, (omega arith, tt)),
      )
      tt (λ n. unfold cells in refl)

sent_twice_answers :
    ticket_events at_api toy_codec cfg sent_twice (λ n. none)
    ≡ ok (link_of cfg (codes "G"))
      ∷ mint at_api toy_codec cfg team ann
          (now + second)
          (pos (unix (now + second + session_ttl cfg)))
      ∷ err err_denied
      ∷ []
unfolding text_beq
sent_twice_answers = refl
