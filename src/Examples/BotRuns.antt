-- ===== src/Examples/BotRuns.antt =====
-- bot/: runs of the theorems.
use botkit.Prelude.{
  ℕ, ◌+◌, ◌*◌, ◌/◌, ◌≡◌, refl, ◌≢◌, ◌↔◌, true, false, Option, none, some, List, [], ◌∷◌, nat_eq,
  length, any, Text, codes, text_beq, text_eq, trim_space, split,
}
use botkit.Errors.{Error, new_error, Result, ok}
use botkit.Prelude.Int.{pos}
use botkit.Jid.{Jid, group_server}
use botkit.Store.Kv
use botkit.Transport.Groups.{is_member_of_any}
use botkit.Gate.{list_groups}
use botkit.Gate.Listing.{is_written, WrittenApart, AllGroups}
use botkit.Bot.Actions.{managed_groups, managed_groups_iff}
use botkit.Transport.Retry.{retry_from}
use botkit.Schedule.{date_key, is_daily}
use botkit.Store.Kv.{Kv}
use botkit.Identity.{normalize}
use botkit.Transport.Members.{resolve_phone}
use botkit.Transport.Groups.Search.{IsFound}
use botkit.Webauth.Config.{Url}
use botkit.Gate.{Groups}
use botkit.Schedule.{Location, daily_at}
use botkit.Bot.Message.{Event}
use botkit.Proto.{Message, message, no_extended, no_attachment, no_wrapper, no_parts}
use botkit.Bot.{
  Config, Bot, Client, new, dispatch, group_handler, dm_handler, dms_from_anyone, dms_from_members,
}
use botkit.Bot.Gating.{listening, dispatch-dm_iff}
use botkit.Bot.Jobs.{Job, Firing}
use botkit.Bot.Jobs.Daily.{completed}
use botkit.Examples.Libraries.{at_api, at_parse}
use botkit.Examples.TransportRuns.{team, ann, known, query, always}

abbrev pub parse_url : Text → Result Url
parse_url s = ok (record { scheme = codes "https"; host = codes "d" })

abbrev pub cfg : Config
cfg = record {
  bot_phone = codes "0500000001";
  managed_groups = codes " 1@g.us" ∷ [];
  all_groups = false;
  ops_addr = [];
  ops_token = [];
  web_auth = none;
  accept_media = false;
}

abbrev groups : Groups
groups = record { allowed = codes "1@g.us" ∷ []; list = team ∷ []; all = false }

abbrev pub bot : Bot
bot = record { cfg = cfg; groups = groups; on_group = false; on_dm = false; dm_policy = 0 }

pub built : new at_api parse_url cfg ≡ ok bot
unfolding new text_beq trim_space at_parse split
built = refl

abbrev pub client : Client
client = record { country = codes "972"; lids = known; query = query; wait = λ g. always }

abbrev pub empty_message : Message
empty_message =
    message [] no_extended no_attachment no_attachment no_attachment no_attachment no_attachment
      no_parts no_wrapper no_wrapper

abbrev pub from : Jid → Event
from chat = record {
  chat = chat;
  sender = ann;
  is_from_me = false;
  id = [];
  push_name = [];
  timestamp = 0;
  message = empty_message;
}

managed_groups_iff_example :
    ((evt : Event)
      → evt.chat.server ≡ group_server
      → (dispatch at_api client (listening dms_from_anyone bot) evt ≡ group_handler) ↔ (
          (evt.is_from_me ≡ false)
          × (any (is_written at_api (at_api.jid_string evt.chat)) (managed_groups bot) ≡ true)))
    × WrittenApart at_api (managed_groups bot)
    × AllGroups at_api (managed_groups bot)
managed_groups_iff_example =
    managed_groups_iff at_api parse_url cfg bot client dms_from_anyone built refl

reached : dispatch at_api client (listening dms_from_members bot) (from ann) ≡ dm_handler
unfolding dispatch text_beq resolve_phone is_member_of_any list_groups retry_from
reached = refl

dispatch-dm_iff_example :
    (dispatch at_api client (listening dms_from_members bot) (from ann) ≡ dm_handler) ↔ (
      (false ≡ false)
      × (ann.server ≢ group_server)
      × (normalize (codes "972") (resolve_phone known ann) ≢ [])
      × IsFound
          (codes "972")
          known
          query
          (λ g. always)
          (normalize (codes "972") (resolve_phone known ann))
          (team ∷ []))
dispatch-dm_iff_example = dispatch-dm_iff at_api client bot (from ann)

-- Days of 100 ns, each named by one letter.
abbrev pub utc : Location
utc = record {
  today_at = λ now hour. now / 100 * 100 + hour;
  tomorrow_at = λ now hour. now / 100 * 100 + 100 + hour;
  date = λ now. now / 100 ∷ [];
}

abbrev job : Job
job = record { name = codes "audit"; spec = daily_at utc (λ tz. none) (pos 9) [] }

abbrev firing : ℕ → Option Error → Firing
firing now failure = record {
  job = job;
  now = now;
  reading = Kv.works;
  writing = Kv.works;
  set_at = 0;
  failure = failure;
}

abbrev firings : List Firing
firings =
    firing 109 (some (new_error [])) ∷ firing 110 none ∷ firing 150 none ∷ firing 209 none ∷ []

abbrev empty : Kv
empty = record { rows = [] }

twice : length (completed utc firings empty) ≡ 2
unfolding completed daily_at text_beq date_key is_daily Kv.get Kv.set
twice = refl
