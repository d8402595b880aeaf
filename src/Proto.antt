-- ===== src/Proto.antt =====
-- go.mau.fi/whatsmeow/proto/waE2E, as far as the code reads it. A getter of an absent part gives the
-- zero value, so a missing message reads like one without parts.
use botkit.Prelude.{ℕ, Bool, Option, none, List, nat_eq, Text, text_eq}

-- What an image, a video, an audio, a document or a sticker carries; a field that its type does not
-- have is the zero value. `file_length` is a uint64.
pub record Attached : Type 0 where
  pub caption : Text
  pub mimetype : Text
  pub file_name : Text
  pub file_length : ℕ
  pub ptt : Bool

pub record ContactMessage : Type 0 where
  pub display_name : Text
  pub vcard : Text

-- The degrees are float64, by their bits.
pub record LocationMessage : Type 0 where
  pub degrees_latitude : ℕ
  pub degrees_longitude : ℕ
  pub name : Text
  pub address : Text

-- `key_id` is the ID of the key, "" if there is none.
pub record ReactionMessage : Type 0 where
  pub text : Text
  pub key_id : Text

-- The parts that hold no message and no context that the code reads.
pub record Parts : Type 0 where
  pub contact : Option ContactMessage
  pub contacts_array : Option (List ContactMessage)
  pub location : Option LocationMessage
  pub reaction : Option ReactionMessage

mutual
  -- `view_once` and `view_once_v2` are the two wrappers.
  pub data Message : Type 0 where
    message :
        (conversation : Text) (extended : ExtendedText)
        (image video audio document sticker : Attachment) (parts : Parts)
        (view_once view_once_v2 : Wrapped)
        → Message

  -- A wrapper that is absent, holds no message, or holds one.
  pub data Wrapped : Type 0 where
    no_wrapper empty_wrapper : Wrapped
    wrapped : Message → Wrapped

  -- The text, and what it refers to.
  pub data ExtendedText : Type 0 where
    no_extended : ExtendedText
    extended_text : Text → ContextInfo → ExtendedText

  pub data Attachment : Type 0 where
    no_attachment : Attachment
    attachment : Attached → ContextInfo → Attachment

  -- The mentioned JIDs and the quoted message.
  pub data ContextInfo : Type 0 where
    no_context : ContextInfo
    context : List Text → Quote → ContextInfo

  pub data Quote : Type 0 where
    no_quote : Quote
    quote : Message → Quote

abbrev pub no_parts : Parts
no_parts = record { contact = none; contacts_array = none; location = none; reaction = none }
