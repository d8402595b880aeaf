-- ===== src/Bot/Actions.antt =====
-- bot/actions.go: what a handler or a job can ask of the bot, and the groups that it is told.
use botkit.Prelude.{ℕ, ◌≡◌, ◌↔◌, true, false, Option, some, List, arith, nat_eq, any, Text, text_eq}
use botkit.Jid.{Jid, JidApi, group_server}
use botkit.Gate.{Groups as Whitelist, list_groups, parse_groups}
use botkit.Gate.Listing.{is_written, WrittenApart, AllGroups, parse_groups-IsListed}
use botkit.Transport.Retry.{Wait}
use botkit.Transport.Members.{
  GroupInfo, GroupSummary, LidStore, Member, PendingRequest, Participant, resolve_phone,
}
use botkit.Transport.Groups
use botkit.Transport.Presence
use botkit.Webauth.Config.{Url, Config as WebauthConfig}
use botkit.Bot.Message.{Event}
use botkit.Bot.{Error, ok, Result, Config, Bot, Client, new, groups_of, dispatch, group_handler}
use botkit.Bot.Gating.{listening, new-groups, group_message}

-- A bot that is connected: its transport's stored identities, and its minter of links, if any.
pub record Live : Type 0 where
  pub bot : Bot
  pub lids : LidStore
  pub session : Presence.Session
  pub own_lid : Jid
  pub dashboard : Option WebauthConfig

-- `WebAuth`
abbrev pub web_auth : Live → Option WebauthConfig
web_auth l = l.dashboard

-- `ManagedGroups`
unfoldable pub managed_groups : Bot → List Jid
unfolding list_groups
managed_groups b = list_groups (some b.groups)

-- `SelfJID`
abbrev pub self_jid : Live → Jid
self_jid l = Presence.self_jid l.session

-- `SelfLID`
abbrev pub self_lid : Live → Jid
self_lid l = l.own_lid

-- `ResolvePhone`
abbrev pub phone : Live → Jid → Text
phone l jid = resolve_phone l.lids jid

-- `GroupMembers`
abbrev pub group_members :
    Live → (Jid → ℕ → Result GroupInfo) → (ℕ → Wait) → Jid → Result (List Member)
group_members l query wait group = Groups.members_of l.lids query wait group

module _ (api : JidApi) where
  -- `AllGroups`
  abbrev pub all_groups :
      Live → (ℕ → Result (List GroupInfo)) → (ℕ → Wait) → Result (List GroupSummary)
  all_groups l query wait = Groups.all_groups api l.lids (self_jid l) (self_lid l) query wait

  -- `PendingJoinRequests`
  abbrev pub pending_join_requests :
      Live → (ℕ → Result (List Jid)) → (ℕ → Wait) → Result (List PendingRequest)
  pending_join_requests l query wait = Groups.pending_requests api l.lids query wait

  -- `ApproveJoin`
  abbrev pub approve_join :
      (itoa : ℕ → Text)
      → (update : List Jid → Result (List Participant)) → (drawn : ℕ) → List Jid
      → Option Error × Option ℕ
  approve_join itoa update drawn requesters = Groups.approve api itoa update drawn requesters

  groups_of-listed :
      (cfg : Config) (g : Whitelist)
      → cfg.all_groups ≡ false
      → groups_of api cfg ≡ ok g
      → parse_groups api cfg.managed_groups ≡ ok g
  unfolding groups_of
  groups_of-listed cfg g some_groups h = ground (arith, some_groups)

  -- ManagedGroups is the exact list of the groups that a listening bot reacts in, each once: a group's
  -- message that the bot did not send reaches the group handler if and only if one of the list is
  -- written like its chat; no two of the list are written the same, and all are groups. The bot was
  -- built by New, and not for all groups.
  pub managed_groups_iff :
      (parse_url : Text → Result Url) (cfg : Config) (b : Bot) (c : Client) (policy : ℕ)
      → new api parse_url cfg ≡ ok b
      → cfg.all_groups ≡ false
      → ((evt : Event)
          → evt.chat.server ≡ group_server
          → (dispatch api c (listening policy b) evt ≡ group_handler) ↔ (
              (evt.is_from_me ≡ false)
              × (any (is_written api (api.jid_string evt.chat)) (managed_groups b) ≡ true)))
        × WrittenApart api (managed_groups b)
        × AllGroups api (managed_groups b)
  unfolding managed_groups
  managed_groups_iff parse_url cfg b c policy built some_groups =
      let listed =
        parse_groups-IsListed api cfg.managed_groups b.groups
          (groups_of-listed cfg b.groups some_groups (new-groups api parse_url cfg b built).0) in
      (
        λ evt group. rw (← listed.0 evt.chat) (group_message api c policy b evt group),
        listed.1,
        listed.2,
      )
