-- ===== src/Bot/Message/Build.antt =====
-- bot/bot.go: `buildMessage`, from an event to the envelope.
pub mod Unwrapped
pub mod Origin
pub mod OptIn
use botkit.Prelude.{
  ℕ, Bool, true, false, not, ◌&&◌, Option, none, some, List, [], ◌∷◌, map, if◌then◌else◌, nat_eq,
  Text, text_eq, is_blank,
}
use botkit.Prelude.Int.{pos}
use botkit.Jid.{JidApi, zero_jid}
use botkit.Proto.{
  Message, message, Attachment, no_attachment, attachment, Attached, ContextInfo, no_context,
  context, Quote, no_quote, quote, Parts, ContactMessage, LocationMessage, ReactionMessage,
}
use botkit.Transport.Members.{LidStore, resolve_phone}
use botkit.Schedule.{wrap_64}
use botkit.Bot.Message.{
  Kind, kind_text, kind_image, kind_video, kind_audio, kind_document, kind_sticker, kind_contact,
  kind_location, kind_reaction, kind_other, Media, Contact, Quoted, InboundMessage, Event,
  extract_text, unwrap_view_once, context_info_of,
}

unfoldable pub first_non_empty : Text → Text → Text
first_non_empty a b = if is_blank a then b else a

unfoldable pub sender_name : Event → Text
sender_name evt = if is_blank evt.push_name then evt.sender.user else evt.push_name

unfoldable pub media_for :
    (accept : Bool) → Message → Kind → Text → Text → ℕ → (voice view_once : Bool) → Option Media
unfolding wrap_64
media_for accept raw kind mime filename size voice view_once =
    if not accept
    then none
    else some (record {
      kind = kind;
      mime = mime;
      filename = filename;
      size = wrap_64 (pos size);
      is_voice_note = voice;
      is_view_once = view_once;
      download_of = some raw;
    })

quoted_of : Quote → Option Quoted
unfolding extract_text
quoted_of no_quote = none
quoted_of (quote q) = some (record { sender_phone = []; text = extract_text q })

pub with_context : InboundMessage → ContextInfo → InboundMessage
unfolding quoted_of
with_context m no_context = m
with_context m (context mentioned q) = record m { mentions = mentioned; quoted = quoted_of q }

contact_of : ContactMessage → Contact
contact_of c = record { display_name = c.display_name; vcard = c.vcard }

-- What the switch of `buildMessage` finds first: an attachment with its kind, or another part.
pub data Primary : Type 0 where
  attached : Kind → Attached → Primary
  contacts_shared : List ContactMessage → Primary
  location_shared : LocationMessage → Primary
  reacted : ReactionMessage → Primary
  nothing_else : Primary

pub reaction_or : Option ReactionMessage → Primary
reaction_or none = nothing_else
reaction_or (some r) = reacted r

pub location_or : Option LocationMessage → Primary → Primary
location_or none rest = rest
location_or (some l) rest = location_shared l

pub contacts_or : Option (List ContactMessage) → Primary → Primary
contacts_or none rest = rest
contacts_or (some cs) rest = contacts_shared cs

pub contact_or : Option ContactMessage → Primary → Primary
contact_or none rest = rest
contact_or (some c) rest = contacts_shared (c ∷ [])

abbrev pub parts_primary : Parts → Primary
parts_primary p =
    contact_or p.contact
      (contacts_or p.contacts_array (location_or p.location (reaction_or p.reaction)))

pub attachment_or : Kind → Attachment → Primary → Primary
attachment_or kind no_attachment rest = rest
attachment_or kind (attachment a c) rest = attached kind a

unfoldable pub primary : Message → Primary
unfolding attachment_or contact_or contacts_or location_or reaction_or
primary (message c e image video audio document sticker parts w w2) =
    attachment_or kind_image image (
      attachment_or kind_video video (
        attachment_or kind_audio audio (
          attachment_or kind_document document
            (attachment_or kind_sticker sticker (parts_primary parts)))))

-- Whether the caption is folded into the text, the file's name kept, and the voice flag read.
abbrev pub has_caption : Kind → Bool
has_caption kind_image = true
has_caption kind_video = true
has_caption kind_document = true
has_caption _ = false

abbrev pub has_filename : Kind → Bool
has_filename kind_document = true
has_filename _ = false

abbrev pub has_voice : Kind → Bool
has_voice kind_audio = true
has_voice _ = false

pub with_attached :
    (accept : Bool)
    → Message
    → (view_once : Bool) → InboundMessage
    → Kind
    → Attached
    → InboundMessage
unfolding media_for first_non_empty
with_attached accept raw view_once m kind a = record m {
  kind = kind;
  text = if has_caption kind then first_non_empty m.text a.caption else m.text;
  media =
      media_for accept raw kind a.mimetype (if has_filename kind then a.file_name else [])
        a.file_length (has_voice kind && a.ptt) view_once;
}

-- One case of the switch.
unfoldable pub with_primary :
    (accept : Bool) → Message → (view_once : Bool) → InboundMessage → Primary → InboundMessage
unfolding with_attached contact_of
with_primary accept raw view_once m (attached kind a) = with_attached accept raw view_once m kind a
with_primary accept raw view_once m (contacts_shared cs) = record m {
  kind = kind_contact;
  contacts = map contact_of cs;
}
with_primary accept raw view_once m (location_shared l) = record m {
  kind = kind_location;
  location = some (record {
    lat = l.degrees_latitude;
    lng = l.degrees_longitude;
    name = l.name;
    address = l.address;
  });
}
with_primary accept raw view_once m (reacted r) = record m {
  kind = kind_reaction;
  reaction = some (record { emoji = r.text; target_id = r.key_id });
}
with_primary accept raw view_once m nothing_else =
    if is_blank m.text then record m { kind = kind_other } else m

-- The envelope before the message's parts are read.
pub envelope : JidApi → LidStore → Event → (is_dm : Bool) → InboundMessage
unfolding sender_name resolve_phone
envelope api lids evt is_dm = record {
  id = evt.id;
  group_id = if is_dm then [] else api.jid_string evt.chat;
  sender_phone = resolve_phone lids evt.sender;
  sender_name = sender_name evt;
  sender_jid = evt.sender;
  group_jid = if is_dm then zero_jid else evt.chat;
  timestamp = evt.timestamp;
  is_dm = is_dm;
  is_from_me = evt.is_from_me;
  kind = kind_text;
  text = [];
  media = none;
  contacts = [];
  location = none;
  reaction = none;
  mentions = [];
  quoted = none;
  raw = evt.message;
  reply_to = some evt.chat;
}

-- The message's text and context, from the unwrapped message.
pub with_text : InboundMessage → Message → InboundMessage
unfolding with_context extract_text context_info_of
with_text m inner = with_context (record m { text = extract_text inner }) (context_info_of inner)

-- The envelope of an unwrapped message, and of whether it was wrapped.
pub unwrapped :
    JidApi → LidStore → (accept : Bool) → Event → (is_dm : Bool) → Message × Bool → InboundMessage
unfolding envelope with_text with_primary primary
unwrapped api lids accept evt is_dm (inner, view_once) =
    with_primary accept evt.message view_once (with_text (envelope api lids evt is_dm) inner)
      (primary inner)

-- `buildMessage`
unfoldable pub build_message :
    JidApi → LidStore → (accept : Bool) → Event → (is_dm : Bool) → InboundMessage
unfolding unwrapped unwrap_view_once
build_message api lids accept evt is_dm =
    unwrapped api lids accept evt is_dm (unwrap_view_once evt.message)
