-- ===== src/Bot/Message.antt =====
-- bot/message.go: the envelope that a handler is given, and what is read off a message for it.
pub mod Build
use botkit.Prelude.{
  ℕ, Bool, true, false, Option, none, some, List, [], ◌∷◌, if◌then◌else◌, nat_eq, Text, codes,
  text_eq, is_blank,
}
use botkit.Errors.{Error, new_error, Result, err}
use botkit.Prelude.Int.{ℤ}
use botkit.Jid.{Jid}
use botkit.Proto.{
  Message, message, Wrapped, no_wrapper, empty_wrapper, wrapped, ExtendedText, no_extended,
  extended_text, Attachment, no_attachment, attachment, ContextInfo, no_context,
}

pub data Kind : Type 0 where
  kind_text kind_image kind_video kind_audio kind_document kind_sticker : Kind
  kind_contact kind_location kind_reaction kind_other : Kind

-- `download` is whether the bot gave it a way to download.
pub record Media : Type 0 where
  pub kind : Kind
  pub mime : Text
  pub filename : Text
  pub size : ℤ
  pub is_voice_note : Bool
  pub is_view_once : Bool
  pub download_of : Option Message

pub record Contact : Type 0 where
  pub display_name : Text
  pub vcard : Text

-- The coordinates are float64, by their bits.
pub record Location : Type 0 where
  pub lat : ℕ
  pub lng : ℕ
  pub name : Text
  pub address : Text

pub record Quoted : Type 0 where
  pub sender_phone : Text
  pub text : Text

pub record Reaction : Type 0 where
  pub emoji : Text
  pub target_id : Text

-- `reply_to` is the chat that the reply function sends to.
pub record InboundMessage : Type 0 where
  pub id : Text
  pub group_id : Text
  pub sender_phone : Text
  pub sender_name : Text
  pub sender_jid : Jid
  pub group_jid : Jid
  pub timestamp : ℕ
  pub is_dm : Bool
  pub is_from_me : Bool
  pub kind : Kind
  pub text : Text
  pub media : Option Media
  pub contacts : List Contact
  pub location : Option Location
  pub reaction : Option Reaction
  pub mentions : List Text
  pub quoted : Option Quoted
  pub raw : Message
  pub reply_to : Option Jid

-- events.Message
pub record Event : Type 0 where
  pub chat : Jid
  pub sender : Jid
  pub is_from_me : Bool
  pub id : Text
  pub push_name : Text
  pub timestamp : ℕ
  pub message : Message

extended_or_blank : ExtendedText → Text
extended_or_blank no_extended = []
extended_or_blank (extended_text t c) = t

unfoldable pub extract_text : Message → Text
unfolding extended_or_blank
extract_text (message conversation extended i v a d s parts w w2) =
    if is_blank conversation then extended_or_blank extended else conversation

-- The second wrapper, where the first holds nothing.
unwrap_second : Message → Wrapped → Message × Bool
unwrap_second msg no_wrapper = (msg, false)
unwrap_second msg empty_wrapper = (msg, false)
unwrap_second msg (wrapped inner) = (inner, true)

unwrap_first : Message → Wrapped → Wrapped → Message × Bool
unfolding unwrap_second
unwrap_first msg no_wrapper second = unwrap_second msg second
unwrap_first msg empty_wrapper second = unwrap_second msg second
unwrap_first msg (wrapped inner) second = (inner, true)

abbrev wrappers : Message → Wrapped × Wrapped
wrappers (message c e i v a d s parts w w2) = (w, w2)

unfoldable pub unwrap_view_once : Message → Message × Bool
unfolding unwrap_first
unwrap_view_once msg = unwrap_first msg (wrappers msg).0 (wrappers msg).1

-- The context of the first of these parts that is there.
context_among : List Attachment → ContextInfo
context_among [] = no_context
context_among (no_attachment ∷ rest) = context_among rest
context_among (attachment a c ∷ rest) = c

context_or : ExtendedText → List Attachment → ContextInfo
unfolding context_among
context_or no_extended rest = context_among rest
context_or (extended_text t c) rest = c

unfoldable pub context_info_of : Message → ContextInfo
unfolding context_or
context_info_of (message c e image video audio document s parts w w2) =
    context_or e (image ∷ video ∷ document ∷ audio ∷ [])

abbrev pub err_no_reply : Error
err_no_reply = new_error (codes "reply unavailable on this message")

abbrev pub err_no_media : Error
err_no_media = new_error (codes "no downloadable media")

-- `Reply`; `send` is the client's SendText.
unfoldable pub reply : (send : Jid → Text → Option Error) → InboundMessage → Text → Option Error
reply send m text = elim m.reply_to [ none ↦ some err_no_reply | some chat ↦ send chat text ]

download_any : (Message → Result (List ℕ)) → Option Message → Result (List ℕ)
download_any fetch none = err err_no_media
download_any fetch (some raw) = fetch raw

-- `Download`; `fetch` is the client's DownloadAny.
unfoldable pub download : (fetch : Message → Result (List ℕ)) → Option Media → Result (List ℕ)
unfolding download_any
download fetch none = err err_no_media
download fetch (some media) = download_any fetch media.download_of
