-- ===== src/Bot/Message/Build/Unwrapped.antt =====
-- bot/bot.go and bot/message.go: what view-once wrappers and the media setting do to an envelope.
use botkit.Proto.{context, no_context}
use botkit.Jid.{JidApi}
use botkit.Transport.Members.{LidStore}
use botkit.Prelude.{
  ◌≡◌, refl, sym, ap, ◌∙◌, Bool, true, false, Option, none, some, arith, nat_eq, text_eq,
}
use botkit.Proto.{Message}
use botkit.Proto.{ContextInfo, no_context, context}
use botkit.Bot.Message.{
  context_info_of, unwrap_view_once, extract_text, Event, Media, InboundMessage,
}
use botkit.Bot.Message.Build.{
  primary, unwrapped, envelope, with_context, build_message, with_text, Primary, attached,
  contacts_shared, location_shared, reacted, nothing_else, with_primary, with_attached, media_for,
}

-- The same media, downloaded from another raw message and marked as view-once.
abbrev pub once_from : Message → Option Media → Option Media
once_from raw none = none
once_from raw (some media) = some (record media { is_view_once = true; download_of = some raw })

-- The envelope of a message as that of the view-once message that wraps it.
abbrev pub seen_once : Message → InboundMessage → InboundMessage
seen_once raw m = record m { raw = raw; media = once_from raw m.media }

module _ (accept : Bool) (outer inner : Message) where
  with_primary-seen_once :
      (m : InboundMessage) (p : Primary)
      → m.media ≡ none
      → with_primary accept outer true (record m { raw = outer }) p
        ≡ seen_once outer (with_primary accept inner false m p)
  unfolding with_primary with_attached media_for
  with_primary-seen_once m (attached k a) h = ground arith
  with_primary-seen_once m (contacts_shared cs) h = ground arith
  with_primary-seen_once m (location_shared l) h = ground arith
  with_primary-seen_once m (reacted r) h = ground arith
  with_primary-seen_once m nothing_else h = ground arith

with_text-raw :
    (m : InboundMessage) (raw inner : Message)
    → (with_text (record m { raw = raw }) inner ≡ record (with_text m inner) { raw = raw })
      × ((with_text m inner).media ≡ m.media)
unfolding with_text
with_text-raw m raw inner = go (context_info_of inner)
  where
    go :
        (c : ContextInfo)
        → (with_context (record m { raw = raw; text = extract_text inner }) c
            ≡ record (with_context (record m { text = extract_text inner }) c) { raw = raw })
          × ((with_context (record m { text = extract_text inner }) c).media ≡ m.media)
    go no_context = (refl, refl)
    go (context mentioned q) = (refl, refl)

unwrapped-seen_once :
    (api : JidApi) (lids : LidStore) (accept : Bool) (evt : Event) (inner : Message) (is_dm : Bool)
    → unwrapped api lids accept evt is_dm (inner, true)
      ≡ seen_once evt.message
          (unwrapped api lids accept (record evt { message = inner }) is_dm (inner, false))
unfolding unwrapped envelope
unwrapped-seen_once api lids accept evt inner is_dm =
    let bare = envelope api lids (record evt { message = inner }) is_dm in
    let (raw_only, media) = with_text-raw bare evt.message inner in
    ap (λ (m : InboundMessage). with_primary accept evt.message true m (primary inner)) raw_only
    ∙ with_primary-seen_once accept evt.message inner (with_text bare inner) (primary inner) media

-- A view-once message, where what it wraps is no wrapper itself (the code takes off one wrapper only),
-- is delivered as the message that it wraps would be: the same kind, text, context and parts, with the
-- media, if the bot accepts any, marked as view-once; only the raw message, from which the media is
-- downloaded, stays the wrapper.
pub build_message-seen_once :
    (api : JidApi) (lids : LidStore) (accept : Bool) (evt : Event) (inner : Message) (is_dm : Bool)
    → unwrap_view_once evt.message ≡ (inner, true)
    → unwrap_view_once inner ≡ (inner, false)
    → build_message api lids accept evt is_dm
      ≡ seen_once evt.message (build_message api lids accept (record evt { message = inner }) is_dm)
unfolding build_message
build_message-seen_once api lids accept evt inner is_dm wraps plain_message =
    ap (unwrapped api lids accept evt is_dm) wraps
    ∙ (unwrapped-seen_once api lids accept evt inner is_dm
        ∙ ap
            (λ (u : Message × Bool).
              seen_once evt.message
                (unwrapped api lids accept (record evt { message = inner }) is_dm u))
            (sym plain_message))
