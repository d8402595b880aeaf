-- ===== src/Hello.antt =====
-- cmd/hello/main.go: the configuration from the environment, and the two handlers.
pub mod Process
use botkit.Bot.Gating.{dispatch-group_iff, listening}
use botkit.Gate.Whitelist.{is_entry_of}
use botkit.Bot.Message.{Event, reply, InboundMessage}
use botkit.Webauth.Config.{Url}
use botkit.Jid.{group_server, JidApi, Jid}
use botkit.Prelude.{
  ◌≡◌, ap, ◌∙◌, ◌↔◌, inl, inr, Bool, true, false, Option, none, List, [], ◌∷◌, if◌then◌else◌,
  nat_eq, any, All, Text, codes, text_eq, is_blank, trim_space, split, intercalate, Lacks,
  split-intercalate,
}
use botkit.Errors.{Error, Result, ok, ◌>>=◌, Result-cases}
use botkit.Bot.{
  group_handler, dispatch, on_group_message, dms_from_members, on_direct_message, Config, Bot,
  Client, new,
}

-- os.Getenv, after the .env files were read.
abbrev pub Environment : Type 0
Environment = Text → Text

unfoldable pub env_or : Environment → Text → Text → Text
env_or env key default = if is_blank (env key) then default else env key

unfoldable pub split_list : Text → List Text
unfolding split trim_space
split_list s = if is_blank (trim_space s) then [] else split b',' s

abbrev pub hello_config : Environment → Config
hello_config env = record {
  bot_phone = env (codes "BOT_PHONE");
  managed_groups = split_list (env (codes "MANAGED_GROUPS"));
  all_groups = false;
  ops_addr = env_or env (codes "OPS_ADDR") (codes ":8099");
  ops_token = env (codes "PAIR_TOKEN");
  web_auth = none;
  accept_media = false;
}

-- The bot that is run: `New`, with both handlers registered.
abbrev pub hello_bot : JidApi → (Text → Result Url) → Environment → Result Bot
hello_bot api parse_url env = do
  b ← new api parse_url (hello_config env)
  ok (on_direct_message dms_from_members (on_group_message b))

module _ (equal_fold : Text → Text → Bool) (send : Jid → Text → Option Error) where
  -- The handlers; `equal_fold` is strings.EqualFold and `send` the client's SendText.
  abbrev pub on_ping : InboundMessage → Option Error
  on_ping msg =
      if equal_fold (trim_space msg.text) (codes "ping")
      then reply send msg (codes "pong 🏓 — botkit is alive")
      else none

  abbrev pub nudge : InboundMessage → Option Error
  nudge msg = reply send msg (codes "hey — talk to me in the group 🙂")

-- A list that was written with commas is read back, unless nothing but space is in it.
split_list-intercalate :
    (w : Text) (ws : List Text)
    → All (Lacks b',') (w ∷ ws)
    → is_blank (trim_space (intercalate b',' (w ∷ ws))) ≡ false
    → split_list (intercalate b',' (w ∷ ws)) ≡ w ∷ ws
unfolding split_list
split_list-intercalate w ws clean ink = rw ink (split-intercalate b',' (w ∷ ws) (λ e. cc) clean)

-- With the groups written into MANAGED_GROUPS, separated by commas, a message in a group reaches
-- the group handler exactly if the bot did not send it and the group is written like one of them.
hello_bot-group_iff :
    (api : JidApi) (parse_url : Text → Result Url) (env : Environment) (b : Bot) (c : Client)
    (w : Text) (ws : List Text) (evt : Event)
    → env (codes "MANAGED_GROUPS") ≡ intercalate b',' (w ∷ ws)
    → All (Lacks b',') (w ∷ ws)
    → is_blank (trim_space (intercalate b',' (w ∷ ws))) ≡ false
    → hello_bot api parse_url env ≡ ok b
    → evt.chat.server ≡ group_server
    → (dispatch api c b evt ≡ group_handler)
      ↔ ((evt.is_from_me ≡ false) × (any (is_entry_of api evt.chat) (w ∷ ws) ≡ true))
hello_bot-group_iff api parse_url env b c w ws evt written clean ink built group =
    elim (Result-cases (new api parse_url (hello_config env))) [
      | inr (x, failed) ↦ absurd (cc (rw failed at built))
      | inl (fresh, e) ↦
          let same : ok (listening dms_from_members fresh) ≡ ok b = rw e at built in
          let listed : split_list (env (codes "MANAGED_GROUPS")) ≡ w ∷ ws =
            ap split_list written ∙ split_list-intercalate w ws clean ink in
          let same_bot : listening dms_from_members fresh ≡ b = cc in
          let gated : (dispatch api c (listening dms_from_members fresh) evt ≡ group_handler) ↔ (
              (evt.is_from_me ≡ false)
              × (any (is_entry_of api evt.chat) (split_list (env (codes "MANAGED_GROUPS")))
                  ≡ true)) =
            dispatch-group_iff api parse_url (hello_config env) fresh c dms_from_members evt e
              group in
          rw (← same_bot) (rw listed at gated)
    ]
