-- ===== src/Examples/AppRuns.antt =====
-- cmd/hello and the development server: runs of the theorems.
use botkit.Telemetry.{Telemetry, opens, shut_down}
use botkit.Hello.Process.{Outside, main, all_well, endpoint, main_exits}
use botkit.Examples.LifetimeRuns.{busy, idle}
use botkit.Bot.Run.{run}
use botkit.Pairing.{handler}
use botkit.Bot.Message.{err_no_media}
use botkit.Http.{route, method_post}
use botkit.Devserver.Removal.{dev_answers-removed, session_of, dev_answers, IsSpared}
use botkit.Devserver.{has_member, remove_member, Dev, DevRequest, dev_handler}
use botkit.Jid.{group_server}
use botkit.Examples.BotRuns.{parse_url, client}
use botkit.Examples.Libraries.{toy_codec, at_parse, at_api}
use botkit.Bot.{dms_from_members, Bot, new}
use botkit.Hello.{hello_bot, env_or, split_list, hello_config, Environment}
use botkit.Examples.WebauthRuns.{minted, minting, runs, cfg as webauth_cfg}
use botkit.Examples.ServerRuns.{good}
use botkit.Prelude.{
  tally, ◌≡◌, refl, true, false, [], ◌∷◌, map, if◌then◌else◌, ◌==◌, nat_eq, is_none, All, Text,
  codes, text_beq, text_eq, trim_space, split,
}
use botkit.Errors.{ok, err}
use botkit.Examples.TransportRuns.{team}

-- The groups of the environment, with a space between them.
abbrev env : Environment
env key = if key == codes "MANAGED_GROUPS" then codes "2@g.us, 1@g.us" else []

abbrev hello : Bot
hello = record {
  cfg = hello_config env;
  groups = record {
    allowed = codes "1@g.us" ∷ codes "2@g.us" ∷ [];
    list =
        record {
          user = codes "2";
          server = group_server;
          raw_agent = 0;
          device = 0;
          integrator = 0;
        }
        ∷ team
        ∷ [];
    all = false;
  };
  on_group = true;
  on_dm = true;
  dm_policy = dms_from_members;
}

hello-built : hello_bot at_api parse_url env ≡ ok hello
unfolding new text_beq trim_space at_parse split split_list env_or
hello-built = refl

-- The member of the open link, and another, who is added while the link is tried.
abbrev of_link : Text
of_link = codes "2@s.whatsapp.net"

abbrev dev : Dev
dev = record { group = (of_link, codes "Ann") ∷ []; kv = minted.0 }

abbrev try_link : DevRequest
try_link = record {
  exchange = good;
  member = err err_no_media;
  edit = err err_no_media;
  minting = minting;
}

abbrev add_other : DevRequest
add_other = record try_link {
  exchange = record good {
    request = record { method = method_post; path = codes "/dev/members"; authorization = [] };
  };
  edit = ok (record { jid = codes "3@s.whatsapp.net"; name = []; action = [] });
}

dev_answers-removed_example : All (IsSpared at_api toy_codec webauth_cfg of_link) (
    dev_answers at_api toy_codec webauth_cfg
      (add_other ∷ try_link ∷ [])
      (record dev { group = remove_member of_link dev.group }))
dev_answers-removed_example =
    dev_answers-removed at_api toy_codec webauth_cfg of_link (add_other ∷ try_link ∷ []) dev
      (unfold text_beq in refl, (refl, tt))

-- Before the removal the same link is good for a session.
link_works :
    map
      (λ r. is_none (session_of r.body))
      (dev_answers at_api toy_codec webauth_cfg (try_link ∷ []) dev)
    ≡ false ∷ []
unfolding dev_handler handler route text_beq has_member runs
link_works = refl

abbrev env_otlp : Environment
env_otlp key = if key == codes "OTEL_EXPORTER_OTLP_ENDPOINT" then codes "http://c" else env key

abbrev outside : Outside
outside = record { exporter = ok tt; resource_found = ok tt; client = client; answered = busy }

abbrev untouched : Telemetry
untouched = record { slog_json = false; provider = false; exporters = 0 }

-- A run that ends well, and one that the bot's group list stops.
ended_well : (main at_api parse_url env_otlp outside untouched idle).telemetry.exporters ≡ 0
unfolding main shut_down run new text_beq trim_space at_parse split split_list env_or
ended_well = refl

abbrev env_typo : Environment
env_typo key = if key == codes "MANAGED_GROUPS" then codes "1@x" else env_otlp key

ended_badly : (main at_api parse_url env_typo outside untouched idle).telemetry.exporters ≡ 1
unfolding main shut_down run new text_beq trim_space at_parse split split_list env_or
ended_badly = refl

main_exits_example :
    ((main at_api parse_url env_typo outside untouched idle).status
      ≡ (if all_well at_api parse_url env_typo outside idle then 0 else 1))
    × (is_none (main at_api parse_url env_typo outside untouched idle).fatal
        ≡ all_well at_api parse_url env_typo outside idle)
    × ((main at_api parse_url env_typo outside untouched idle).telemetry.exporters ≡ (
        if all_well at_api parse_url env_typo outside idle
        then 0
        else tally (opens (endpoint at_api parse_url env_typo outside) outside.exporter) 0))
main_exits_example = main_exits at_api parse_url env_typo outside untouched idle
