-- ===== src/Bot/Message/Build/OptIn.antt =====
-- bot/bot.go: which envelopes carry media, and which are not normalised.
use botkit.Prelude.{
  ◌≡◌, refl, inl, inr, Bool, true, false, not, none, arith, nat_eq, Option-cases, is_none, text_eq,
}
use botkit.Jid.{JidApi}
use botkit.Proto.{
  Message, message, Attachment, no_attachment, attachment, Parts, ContextInfo, no_context, context,
}
use botkit.Transport.Members.{LidStore}
use botkit.Bot.Message.{
  Kind, kind_text, kind_image, kind_video, kind_audio, kind_document, kind_sticker, InboundMessage,
  Event, unwrap_view_once, context_info_of, extract_text,
}
use botkit.Bot.Message.Build.{
  parts_primary, reaction_or, location_or, contacts_or, attachment_or, contact_or, Primary,
  attached, contacts_shared, location_shared, reacted, nothing_else, with_primary, with_attached,
  with_text, with_context, envelope, primary, build_message, unwrapped, media_for,
}

-- The kinds that can be downloaded.
abbrev pub is_media : Kind → Bool
is_media kind_image = true
is_media kind_video = true
is_media kind_audio = true
is_media kind_document = true
is_media kind_sticker = true
is_media _ = false

abbrev IsSound : Primary → Type 0
IsSound (attached kind a) = is_media kind ≡ true
IsSound _ = Unit

attachment_or-IsSound :
    (kind : Kind) (a : Attachment) (rest : Primary)
    → is_media kind ≡ true
    → IsSound rest
    → IsSound (attachment_or kind a rest)
unfolding attachment_or
attachment_or-IsSound kind no_attachment rest h k = k
attachment_or-IsSound kind (attachment a c) rest h k = h

parts_primary-IsSound : (p : Parts) → IsSound (parts_primary p)
unfolding contact_or contacts_or location_or reaction_or
parts_primary-IsSound p = elim (Option-cases p.contact) [
  | inr (c, e) ↦ rw e tt
  | inl e ↦ elim (Option-cases p.contacts_array) [
    | inr (cs, e2) ↦ rw (e, e2) tt
    | inl e2 ↦ elim (Option-cases p.location) [
      | inr (l, e3) ↦ rw (e, e2, e3) tt
      | inl e3 ↦ elim (Option-cases p.reaction) [
        | inr (r, e4) ↦ rw (e, e2, e3, e4) tt
        | inl e4 ↦ rw (e, e2, e3, e4) tt
      ]
    ]
  ]
]

primary-IsSound : (msg : Message) → IsSound (primary msg)
unfolding primary
primary-IsSound (message c e image video audio document sticker parts w w2) =
    attachment_or-IsSound kind_image image _ refl (
      attachment_or-IsSound kind_video video _ refl (
        attachment_or-IsSound kind_audio audio _ refl (
          attachment_or-IsSound kind_document document _ refl
            (attachment_or-IsSound kind_sticker sticker _ refl (parts_primary-IsSound parts)))))

-- An envelope from which no part has been taken yet.
abbrev IsBare : InboundMessage → Type 0
IsBare m = (m.kind ≡ kind_text) × (m.media ≡ none)

with_text-IsBare : (m : InboundMessage) (inner : Message) → IsBare m → IsBare (with_text m inner)
unfolding with_text
with_text-IsBare m inner h = go (context_info_of inner)
  where
    go : (c : ContextInfo) → IsBare (with_context (record m { text = extract_text inner }) c)
    go no_context = h
    go (context mentioned q) = h

module _ (raw : Message) (view_once : Bool) (m : InboundMessage) (bare : IsBare m) where
  with_primary-opted :
      (p : Primary)
      → IsSound p
      → (with_primary false raw view_once m p
          ≡ record (with_primary true raw view_once m p) { media = none })
        × (is_none (with_primary true raw view_once m p).media
            ≡ not (is_media (with_primary true raw view_once m p).kind))
  unfolding with_primary with_attached media_for
  with_primary-opted (attached kind a) h = (ground (arith, bare), ground (arith, h))
  with_primary-opted (contacts_shared cs) h = (ground (arith, bare), ground (arith, bare))
  with_primary-opted (location_shared l) h = (ground (arith, bare), ground (arith, bare))
  with_primary-opted (reacted r) h = (ground (arith, bare), ground (arith, bare))
  with_primary-opted nothing_else h = (ground (arith, bare), ground (arith, bare))

-- Media is opt-in: a bot that does not accept it gets the same envelope without it, and a bot that
-- does gets media exactly with the five kinds that can be downloaded.
pub build_message-opted :
    (api : JidApi) (lids : LidStore) (evt : Event) (is_dm : Bool)
    → (build_message api lids false evt is_dm
        ≡ record (build_message api lids true evt is_dm) { media = none })
      × (is_none (build_message api lids true evt is_dm).media
          ≡ not (is_media (build_message api lids true evt is_dm).kind))
unfolding build_message unwrapped envelope
build_message-opted api lids evt is_dm =
    let u = unwrap_view_once evt.message in
    let m = with_text (envelope api lids evt is_dm) u.0 in
    with_primary-opted evt.message u.1 m
      (with_text-IsBare (envelope api lids evt is_dm) u.0 (refl, refl)) (primary u.0)
      (primary-IsSound u.0)
