-- ===== src/Bot/Gating.antt =====
-- bot/bot.go: which messages reach a handler of a bot that `New` built.
use botkit.Prelude.{
  ℕ, ◌≡◌, refl, ◌≢◌, ◌↔◌, inl, inr, Bool, true, false, ◌||◌, some, [], arith, ◌==◌, nat_eq,
  Bool-cases, Option-cases, any, Text, text_beq_iff, text_eq,
}
use botkit.Errors.{Result, ok, err, Result-cases}
use botkit.Jid.{Jid, JidApi, group_server}
use botkit.Gate.{Groups, allow_all, allows, list_groups}
use botkit.Gate.Whitelist.{is_entry_of, allows-parse_groups}
use botkit.Identity.{normalize}
use botkit.Transport.Members.{resolve_phone}
use botkit.Transport.Groups.Search.{IsFound, is_member_of_any_iff}
use botkit.Webauth.Config.{Url}
use botkit.Bot.Message.{Event}
use botkit.Bot.{
  Config, Bot, Client, group_handler, dm_handler, new, groups_of, bot_with, web_checked, handle,
  dispatch, if_member, sender_check, dms_from_members, on_group_message, on_direct_message,
}

-- A bot with both handlers registered.
abbrev pub listening : ℕ → Bot → Bot
listening policy b = on_direct_message policy (on_group_message b)

pub new-groups :
    (api : JidApi) (parse_url : Text → Result Url) (cfg : Config) (b : Bot)
    → new api parse_url cfg ≡ ok b
    → (groups_of api cfg ≡ ok b.groups) × (b.cfg ≡ cfg)
unfolding new
new-groups api parse_url cfg b h = elim (Result-cases (groups_of api cfg)) [
  | inr (x, bad) ↦ absurd (ground (arith, bad))
  | inl (g, good) ↦ elim (Option-cases (web_checked parse_url cfg cfg.web_auth)) [
    | inr (x, bad) ↦ absurd (ground (arith, good, bad))
    | inl fine ↦ let e : bot_with cfg g ≡ b = ground (arith, good, fine) in rw (← e) (good, refl)
  ]
]

groups_of-allows :
    (api : JidApi) (cfg : Config) (g : Groups) (jid : Jid)
    → groups_of api cfg ≡ ok g
    → allows api (some g) jid ≡ (cfg.all_groups || any (is_entry_of api jid) cfg.managed_groups)
unfolding groups_of allows
groups_of-allows api cfg g jid h = elim (Bool-cases cfg.all_groups) [
  | inl every ↦ let e : allow_all ≡ g = ground (arith, every) in rw (← e, every) refl
  | inr listed ↦
      rw listed (allows-parse_groups api cfg.managed_groups g jid (ground (arith, listed)))
]

pub group_message :
    (api : JidApi) (c : Client) (policy : ℕ) (b : Bot) (evt : Event)
    → evt.chat.server ≡ group_server
    → (dispatch api c (listening policy b) evt ≡ group_handler)
      ↔ ((evt.is_from_me ≡ false) × (allows api (some b.groups) evt.chat ≡ true))
unfolding dispatch handle
group_message api c policy b evt group =
    let is_group : (evt.chat.server == group_server) ≡ true =
      (text_beq_iff evt.chat.server group_server).1 group in
    (λ h. ground (arith, is_group), λ (mine, allowed). ground (arith, is_group, mine, allowed))

-- A message of a group reaches the group handler of a listening bot exactly if the bot did not send
-- it and, unless the bot is for all groups, the group is written like an entry of ManagedGroups.
pub dispatch-group_iff :
    (api : JidApi) (parse_url : Text → Result Url) (cfg : Config) (b : Bot) (c : Client)
    (policy : ℕ) (evt : Event)
    → new api parse_url cfg ≡ ok b
    → evt.chat.server ≡ group_server
    → (dispatch api c (listening policy b) evt ≡ group_handler) ↔ (
        (evt.is_from_me ≡ false)
        × ((cfg.all_groups || any (is_entry_of api evt.chat) cfg.managed_groups) ≡ true))
dispatch-group_iff api parse_url cfg b c policy evt built group =
    rw (← groups_of-allows api cfg b.groups evt.chat (new-groups api parse_url cfg b built).0)
      (group_message api c policy b evt group)

if_member_iff : (r : Result Bool) → (if_member r ≡ dm_handler) ↔ (r ≡ ok true)
if_member_iff (ok true) = (λ h. refl, λ h. refl)
if_member_iff (ok false) = (λ h. cc, λ h. absurd (ground arith))
if_member_iff (err e) = (λ h. cc, λ h. absurd (ground arith))

-- Where DMs are for members only, a message reaches the DM handler if and only if the bot did not send
-- it, it was not sent in a group, and its sender resolves to a phone number with a digit that a
-- participant of some managed group has, where that group can be read at that moment and so can every
-- group before it in the list: one group that cannot be read shuts out the members of the later ones.
pub dispatch-dm_iff :
    (api : JidApi) (c : Client) (b : Bot) (evt : Event)
    → (dispatch api c (listening dms_from_members b) evt ≡ dm_handler) ↔ (
        (evt.is_from_me ≡ false)
        × (evt.chat.server ≢ group_server)
        × (normalize c.country (resolve_phone c.lids evt.sender) ≢ [])
        × IsFound c.country c.lids c.query c.wait
            (normalize c.country (resolve_phone c.lids evt.sender))
            b.groups.list)
unfolding dispatch handle list_groups
dispatch-dm_iff api c b evt =
    let (there, back) =
      is_member_of_any_iff c.country c.lids c.query c.wait (resolve_phone c.lids evt.sender)
        b.groups.list in
    let check = if_member_iff (sender_check c (listening dms_from_members b) evt) in
    (
      λ h. elim (Bool-cases evt.is_from_me) [
        | inl mine ↦ absurd (ground (arith, mine))
        | inr foreign ↦ elim (Bool-cases (evt.chat.server == group_server)) [
          | inl group ↦ absurd (ground (arith, foreign, group))
          | inr direct ↦
              let (digits, found) = there (check.0 (rw (foreign, direct) at h)) in
              (
                foreign,
                λ e. ground (arith, direct, (text_beq_iff evt.chat.server group_server).1 e),
                digits,
                found,
              )
        ]
      ],
      λ (foreign, no_group, digits, found).
          let direct : (evt.chat.server == group_server) ≡ false =
            ground (arith, no_group, text_beq_iff evt.chat.server group_server) in
          rw (foreign, direct) (check.1 (back (digits, found))),
    )
