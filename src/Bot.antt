-- ===== src/Bot.antt =====
-- bot/bot.go and bot/config.go: building the bot, and which messages reach its handlers.
pub mod Message
pub mod Contact
pub mod Delivery
pub mod Gating
pub mod Jobs
pub mod Actions
pub mod Links
pub mod Run
pub mod Adapter
pub mod Ops
use botkit.Prelude.{
  ℕ, Bool, true, false, not, ◌||◌, Option, none, some, List, if◌then◌else◌, ◌==◌, nat_eq, Text,
  codes, text_eq, is_blank,
}
use botkit.Errors.{Error, new_error, Result, ok, err, ◌>>=◌}
use botkit.Jid.{Jid, JidApi, group_server}
use botkit.Gate.{Groups, allow_all, parse_groups, allows, list_groups}
use botkit.Transport.Retry.{Wait}
use botkit.Transport.Members.{GroupInfo, LidStore, resolve_phone}
use botkit.Transport.Groups.{is_member_of_any}
use botkit.Bot.Message.{Event, InboundMessage}
use botkit.Bot.Message.Build.{build_message}
use botkit.Webauth.Config.{Url, validate, Config as WebauthConfig}

-- `Config`, but for the session's path.
pub record Config : Type 0 where
  pub bot_phone : Text
  pub managed_groups : List Text
  pub all_groups : Bool
  pub ops_addr : Text
  pub ops_token : Text
  pub web_auth : Option WebauthConfig
  pub accept_media : Bool

-- `DMPolicy`, an int; 0 is the zero value.
abbrev pub dms_from_members : ℕ
dms_from_members = 1

abbrev pub dms_from_anyone : ℕ
dms_from_anyone = 2

-- `on_group` and `on_dm` are whether a handler is registered.
pub record Bot : Type 0 where
  pub cfg : Config
  pub groups : Groups
  pub on_group : Bool
  pub on_dm : Bool
  pub dm_policy : ℕ

-- The whitelist that a configuration asks for.
unfoldable pub groups_of : JidApi → Config → Result Groups
unfolding parse_groups
groups_of api cfg = if cfg.all_groups then ok allow_all else parse_groups api cfg.managed_groups

abbrev pub bot_with : Config → Groups → Bot
bot_with cfg groups = record {
  cfg = cfg;
  groups = groups;
  on_group = false;
  on_dm = false;
  dm_policy = 0;
}

-- The checks of a dashboard's configuration, whose endpoints need the ops port.
web_checked : (Text → Result Url) → Config → Option WebauthConfig → Option Error
unfolding validate
web_checked parse_url cfg none = none
web_checked parse_url cfg (some w) = elim (validate parse_url w) [
  | some e ↦ some e
  | none ↦
      if is_blank cfg.ops_addr then some (new_error (codes "bot: WebAuth needs OpsAddr")) else none
]

-- `New`
unfoldable pub new : JidApi → (Text → Result Url) → Config → Result Bot
unfolding groups_of web_checked
new api parse_url cfg = do
  groups ← groups_of api cfg
  elim (web_checked parse_url cfg cfg.web_auth) [ some e ↦ err e | none ↦ ok (bot_with cfg groups) ]

-- `OnGroupMessage` and `OnDirectMessage`, with a handler.
abbrev pub on_group_message : Bot → Bot
on_group_message b = record b { on_group = true }

abbrev pub on_direct_message : ℕ → Bot → Bot
on_direct_message policy b = record b { on_dm = true; dm_policy = policy }

-- Where a message goes.
pub data Reaches : Type 0 where
  nobody group_handler dm_handler : Reaches

-- What the client answers to the bot.
pub record Client : Type 0 where
  pub country : Text
  pub lids : LidStore
  pub query : Jid → ℕ → Result GroupInfo
  pub wait : Jid → ℕ → Wait

abbrev if_member : Result Bool → Reaches
if_member (err e) = nobody
if_member (ok false) = nobody
if_member (ok true) = dm_handler

-- `IsMemberOfAny` of the sender's phone in the managed groups.
abbrev pub sender_check : Client → Bot → Event → Result Bool
sender_check c b evt =
    is_member_of_any c.country c.lids c.query c.wait (resolve_phone c.lids evt.sender)
      (list_groups (some b.groups))

unfoldable pub handle : JidApi → Client → Bot → Event → Reaches
unfolding allows
handle api c b evt =
    if evt.chat.server == group_server
    then (if not b.on_group || not (allows api (some b.groups) evt.chat)
        then nobody
        else group_handler)
    else if not b.on_dm
    then nobody
    else if b.dm_policy == dms_from_members
    then if_member (sender_check c b evt)
    else dm_handler

unfoldable pub dispatch : JidApi → Client → Bot → Event → Reaches
unfolding handle
dispatch api c b evt = if evt.is_from_me then nobody else handle api c b evt

-- A handler with the envelope that it gets.
unfoldable pub handed : Reaches → (Bool → InboundMessage) → Option (Reaches × InboundMessage)
handed nobody envelope = none
handed group_handler envelope = some (group_handler, envelope false)
handed dm_handler envelope = some (dm_handler, envelope true)

-- The handler that runs for an event, if any.
unfoldable pub deliver : JidApi → Client → Bot → Event → Option (Reaches × InboundMessage)
deliver api c b evt =
    handed (dispatch api c b evt) (build_message api c.lids b.cfg.accept_media evt)
