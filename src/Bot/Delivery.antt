-- ===== src/Bot/Delivery.antt =====
-- bot/bot.go: what a handler that runs can rely on, and where its reply goes.
use botkit.Prelude.{
  ◌≡◌, refl, ◌≢◌, ◌⊎◌, inl, inr, Bool, true, false, Option, some, if◌then◌else◌, ◌==◌, nat_eq,
  Bool-cases, Text, text_beq_iff, text_eq,
}
use botkit.Errors.{Error, Result, ok, err}
use botkit.Jid.{Jid, JidApi, group_server}
use botkit.Gate.{allows}
use botkit.Bot.Message.{InboundMessage, Event, reply}
use botkit.Bot.Message.Build.{build_message}
use botkit.Bot.Message.Build.Origin.{Says, build_message-Says}
use botkit.Bot.{
  handed, Bot, Client, Reaches, nobody, group_handler, dm_handler, handle, dispatch, if_member,
  sender_check, dms_from_members, deliver,
}

-- Why a handler runs.
abbrev pub IsGated : JidApi → Bot → Event → Reaches → Type 0
IsGated api b evt nobody = ⊥
IsGated api b evt group_handler =
    (b.on_group ≡ true)
    × (evt.chat.server ≡ group_server)
    × (allows api (some b.groups) evt.chat ≡ true)
IsGated api b evt dm_handler = (b.on_dm ≡ true) × (evt.chat.server ≢ group_server)

abbrev pub is_dm_handler : Reaches → Bool
is_dm_handler dm_handler = true
is_dm_handler _ = false

if_member-reaches : (r : Result Bool) → (if_member r ≡ nobody) ⊎ (if_member r ≡ dm_handler)
if_member-reaches (ok true) = inr refl
if_member-reaches (ok false) = inl refl
if_member-reaches (err e) = inl refl

direct_cases :
    (c : Client) (b : Bot) (evt : Event)
    → ((if b.dm_policy == dms_from_members then if_member (sender_check c b evt) else dm_handler)
        ≡ nobody)
      ⊎ ((if b.dm_policy == dms_from_members then if_member (sender_check c b evt) else dm_handler)
          ≡ dm_handler)
direct_cases c b evt = elim (Bool-cases (b.dm_policy == dms_from_members)) [
  | inl members ↦ rw members (if_member-reaches (sender_check c b evt))
  | inr anyone ↦ rw anyone (inr refl)
]

-- What `dispatch` came to.
dispatch-cases :
    (api : JidApi) (c : Client) (b : Bot) (evt : Event)
    → (dispatch api c b evt ≡ nobody)
      ⊎ ((evt.is_from_me ≡ false)
          × (r : Reaches) × (dispatch api c b evt ≡ r)
          × IsGated api b evt r)
unfolding dispatch handle
dispatch-cases api c b evt = elim (Bool-cases evt.is_from_me) [
  | inl mine ↦ inl (rw mine refl)
  | inr foreign ↦ elim (Bool-cases (evt.chat.server == group_server)) [
    | inl group ↦ elim (Bool-cases b.on_group) [
      | inr off ↦ inl (rw (foreign, group, off) refl)
      | inl on ↦ elim (Bool-cases (allows api (some b.groups) evt.chat)) [
        | inr closed ↦ inl (rw (foreign, group, on, closed) refl)
        | inl allowed ↦ inr (
          foreign,
          group_handler,
          rw (foreign, group, on, allowed) refl,
          (on, (text_beq_iff evt.chat.server group_server).0 group, allowed),
        )
      ]
    ]
    | inr direct ↦ elim (Bool-cases b.on_dm) [
      | inr off ↦ inl (rw (foreign, direct, off) refl)
      | inl on ↦ elim (direct_cases c b evt) [
        | inl e ↦ inl (rw (foreign, direct, on) e)
        | inr e ↦ inr (
          foreign,
          dm_handler,
          rw (foreign, direct, on) e,
          (on, λ same. cc (direct, (text_beq_iff evt.chat.server group_server).1 same)),
        )
      ]
    ]
  ]
]

reply-Says :
    (evt : Event) (is_dm : Bool) (m : InboundMessage) (send : Jid → Text → Option Error)
    (text : Text)
    → Says evt is_dm m
    → reply send m text ≡ send evt.chat text
unfolding reply
reply-Says evt is_dm m send text (dm, sender, group, to_chat) = rw to_chat refl

-- A handler runs only for a message that the bot did not send, in a chat that its own gate lets
-- through: a group of the whitelist, or a chat that is no group, with the handler registered; the
-- envelope tells the sender, and the group or that it is a DM; and a reply goes to this chat.
pub deliver-IsGated :
    (api : JidApi) (c : Client) (b : Bot) (evt : Event) (r : Reaches) (m : InboundMessage)
    (send : Jid → Text → Option Error) (text : Text)
    → deliver api c b evt ≡ some (r, m)
    → (evt.is_from_me ≡ false)
      × IsGated api b evt r
      × Says evt (is_dm_handler r) m
      × (reply send m text ≡ send evt.chat text)
unfolding deliver handed
deliver-IsGated api c b evt r m send text h = elim (dispatch-cases api c b evt) [
  | inl e ↦ absurd (cc (rw e at h))
  | inr (foreign, nobody, e, gated) ↦ absurd gated
  | inr (foreign, group_handler, e, gated) ↦
      let env = build_message api c.lids b.cfg.accept_media evt false in
      let says = build_message-Says api c.lids b.cfg.accept_media evt false in
      let same : some (group_handler, env) ≡ some (r, m) = rw e at h in
      let same_handler : group_handler ≡ r = cc in
      let same_message : env ≡ m = cc in
      rw (← same_handler, ← same_message)
        (foreign, gated, says, reply-Says evt false env send text says)
  | inr (foreign, dm_handler, e, gated) ↦
      let env = build_message api c.lids b.cfg.accept_media evt true in
      let says = build_message-Says api c.lids b.cfg.accept_media evt true in
      let same : some (dm_handler, env) ≡ some (r, m) = rw e at h in
      let same_handler : dm_handler ≡ r = cc in
      let same_message : env ≡ m = cc in
      rw (← same_handler, ← same_message)
        (foreign, gated, says, reply-Says evt true env send text says)
]
