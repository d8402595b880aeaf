-- ===== src/Bot/Message/Build/Origin.antt =====
-- bot/bot.go: what an envelope says of where its message came from.
use botkit.Prelude.{
  ◌≡◌, refl, inl, inr, Bool, some, if◌then◌else◌, nat_eq, Bool-cases, text_eq, is_blank,
}
use botkit.Jid.{JidApi, zero_jid}
use botkit.Proto.{Message, ContextInfo, no_context, context}
use botkit.Transport.Members.{LidStore}
use botkit.Bot.Message.{InboundMessage, Event, unwrap_view_once, extract_text, context_info_of}
use botkit.Bot.Message.Build.{
  Primary, attached, contacts_shared, location_shared, reacted, nothing_else, primary,
  build_message, with_primary, with_attached, with_text, with_context, envelope, unwrapped,
}

-- What the envelope says of the event, whatever the message holds.
abbrev pub Says : Event → Bool → InboundMessage → Type 0
Says evt is_dm m =
    (m.is_dm ≡ is_dm)
    × (m.sender_jid ≡ evt.sender)
    × (m.group_jid ≡ (if is_dm then zero_jid else evt.chat))
    × (m.reply_to ≡ some evt.chat)

with_primary-Says :
    (accept : Bool) (raw : Message) (view_once : Bool) (evt : Event) (is_dm : Bool)
    (m : InboundMessage) (p : Primary)
    → Says evt is_dm m
    → Says evt is_dm (with_primary accept raw view_once m p)
unfolding with_primary with_attached
with_primary-Says accept raw view_once evt is_dm m (attached k a) h = h
with_primary-Says accept raw view_once evt is_dm m (contacts_shared cs) h = h
with_primary-Says accept raw view_once evt is_dm m (location_shared l) h = h
with_primary-Says accept raw view_once evt is_dm m (reacted r) h = h
with_primary-Says accept raw view_once evt is_dm m nothing_else h =
    elim (Bool-cases (is_blank m.text)) [ inl blank ↦ rw blank h | inr full ↦ rw full h ]

with_text-Says :
    (evt : Event) (is_dm : Bool) (m : InboundMessage) (inner : Message)
    → Says evt is_dm m
    → Says evt is_dm (with_text m inner)
unfolding with_text
with_text-Says evt is_dm m inner h = go (context_info_of inner)
  where
    go :
        (c : ContextInfo) → Says evt is_dm (with_context (record m { text = extract_text inner }) c)
    go no_context = h
    go (context mentioned q) = h

pub build_message-Says :
    (api : JidApi) (lids : LidStore) (accept : Bool) (evt : Event) (is_dm : Bool)
    → Says evt is_dm (build_message api lids accept evt is_dm)
unfolding build_message unwrapped envelope
build_message-Says api lids accept evt is_dm =
    let u = unwrap_view_once evt.message in
    let m = envelope api lids evt is_dm in
    with_primary-Says accept evt.message u.1 evt is_dm (with_text m u.0) (primary u.0)
      (with_text-Says evt is_dm m u.0 (refl, refl, refl, refl))
