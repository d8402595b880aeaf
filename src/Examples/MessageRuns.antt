-- ===== src/Examples/MessageRuns.antt =====
-- bot/message.go and `buildMessage`: runs of the theorems.
use botkit.Gate.{list_groups, allows}
use botkit.Bot.Message.Build.Unwrapped.{build_message-seen_once, seen_once}
use botkit.Bot.Message.Build.OptIn.{build_message-opted, is_media}
use botkit.Bot.Message.Build.Origin.{Says}
use botkit.Examples.TransportRuns.{team, known}
use botkit.Examples.BotRuns.{client, bot, from}
use botkit.Bot.Gating.{listening}
use botkit.Examples.Libraries.{at_api}
use botkit.Bot.Contact.{phones}
use botkit.Bot.Message.Build.{with_primary, primary, build_message}
use botkit.Bot.Message.{reply, kind_image, unwrap_view_once, Event}
use botkit.Bot.{handle, dms_from_anyone, group_handler, dispatch, handed, deliver, Bot}
use botkit.Bot.Delivery.{deliver-IsGated, IsGated}
use botkit.Bot.Contact.Cards.{phones-card_of, tel, other_line, card_of, Line, IsLine}
use botkit.Proto.{
  message, wrapped, no_wrapper, no_parts, no_context, no_attachment, attachment, no_extended,
  Attached, Message,
}
use botkit.Prelude.{
  ℕ, ◌-◌, ◌≡◌, refl, true, false, not, ◌&&◌, none, some, [], ◌∷◌, arith, leb, if◌then◌else◌, nat_eq,
  is_none, All, codes, text_beq, text_eq, has_prefix, is_space, trim_space,
}

-- A photo with a caption, sent to be seen once.
abbrev photo_parts : Attached
photo_parts = record {
  caption = codes "look";
  mimetype = codes "image/jpeg";
  file_name = [];
  file_length = 1024;
  ptt = false;
}

abbrev photo : Message
photo =
    message [] no_extended (attachment photo_parts no_context) no_attachment no_attachment
      no_attachment no_attachment no_parts no_wrapper no_wrapper

abbrev seen_once_photo : Message
seen_once_photo =
    message [] no_extended no_attachment no_attachment no_attachment no_attachment no_attachment
      no_parts no_wrapper (wrapped photo)

abbrev photo_event : Event
photo_event = record (from team) { message = seen_once_photo }

unwraps : unwrap_view_once seen_once_photo ≡ (photo, true)
unfolding unwrap_view_once
unwraps = refl

unwrapped_photo : unwrap_view_once photo ≡ (photo, false)
unfolding unwrap_view_once
unwrapped_photo = refl

build_message-seen_once_example :
    build_message at_api known true photo_event false
    ≡ seen_once seen_once_photo
        (build_message at_api known true (record photo_event { message = photo }) false)
build_message-seen_once_example =
    build_message-seen_once at_api known true photo_event photo false unwraps unwrapped_photo

photo_kind : (build_message at_api known true photo_event false).kind ≡ kind_image
unfolding build_message unwrap_view_once primary with_primary
photo_kind = refl

build_message-opted_example :
    (build_message at_api known false photo_event false
      ≡ record (build_message at_api known true photo_event false) { media = none })
    × (is_none (build_message at_api known true photo_event false).media
        ≡ not (is_media (build_message at_api known true photo_event false).kind))
build_message-opted_example = build_message-opted at_api known photo_event false

abbrev capital : ℕ → ℕ
capital c = if leb 97 c && leb c 122 then c - 32 else c

abbrev begin : Line
begin = other_line (codes "BEGIN:VCARD")

abbrev folded : Line
folded = other_line (codes " folded:1")

abbrev mobile : Line
mobile = tel (codes "tel") (codes ";type=CELL") (codes "+972 50")

lines-IsLine : All (IsLine capital) (begin ∷ mobile ∷ folded ∷ [])
unfolding has_prefix is_space trim_space
lines-IsLine = ((refl, ground arith), (ground arith, ((refl, ground arith), tt)))

phones-card_of_example :
    phones capital
      (record { display_name = codes "Ann"; vcard = card_of (begin ∷ mobile ∷ folded ∷ []) })
    ≡ codes "+972 50" ∷ []
phones-card_of_example =
    phones-card_of capital (codes "Ann") (begin ∷ mobile ∷ folded ∷ []) lines-IsLine

-- A message of ann in the team's group.
abbrev text_event : Event
text_event = record (from team) {
  message =
      message (codes "hi") no_extended no_attachment no_attachment no_attachment no_attachment
        no_attachment no_parts no_wrapper no_wrapper;
}

abbrev group_bot : Bot
group_bot = listening dms_from_anyone bot

delivered :
    deliver at_api client group_bot text_event
    ≡ some (group_handler, build_message at_api known false text_event false)
unfolding deliver handed dispatch handle allows list_groups text_beq
delivered = refl

deliver-IsGated_example :
    (false ≡ false)
    × IsGated at_api group_bot text_event group_handler
    × Says text_event false (build_message at_api known false text_event false)
    × (reply (λ chat text. none) (build_message at_api known false text_event false) (codes "hello")
        ≡ none)
deliver-IsGated_example =
    deliver-IsGated at_api client group_bot text_event group_handler
      (build_message at_api known false text_event false) (λ chat text. none) (codes "hello")
      delivered
