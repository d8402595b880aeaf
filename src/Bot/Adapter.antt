-- ===== src/Bot/Adapter.antt =====
-- bot/bot.go: `pairAdapter`, by which the ops API reaches the client.
pub mod Manual
use botkit.Http.{Request}
use botkit.Transport.Members.{GroupSummary}
use botkit.Jid.{JidApi}
use botkit.Transport.Presence.{Call, connected, Answers, paired, Session, pair}
use botkit.Prelude.{List, [], map, if◌then◌else◌, nat_eq, length, Text, text_eq}
use botkit.Errors.{Result, ok, err}
use botkit.Pairing
use botkit.Pairing.{Server, Clock, WhatsApp, Group}

-- The JID, name, admin flag and number of members of a group.
group_of : JidApi → GroupSummary → Group
group_of api g = record {
  jid = api.jid_string g.jid;
  name = g.name;
  is_admin = g.is_admin;
  members = length g.members;
}

-- `Groups`
adapted_groups : JidApi → Result (List GroupSummary) → Result (List Group)
unfolding group_of
adapted_groups api (err e) = err e
adapted_groups api (ok gs) = ok (map (group_of api) gs)

-- The client's session, what WhatsApp answers while pairing, and what `AllGroups` returns.
pub record Link : Type 0 where
  pub session : Session
  pub answers : Answers
  pub all_groups : Result (List GroupSummary)

-- The adapter with its phone. A call of `Pair` passes on the phone, whatever the request.
unfoldable pub adapter : JidApi → (country phone : Text) → Link → WhatsApp
unfolding adapted_groups pair
adapter api country phone l = record {
  paired = paired l.session;
  connected = connected l.session;
  pair = (pair country l.session l.answers phone).outcome;
  groups = adapted_groups api l.all_groups;
}

-- The calls that one request to the ops API makes to pair.
unfoldable pub calls_made :
    JidApi → (country phone : Text) → Link → Clock → Request → Server → List Call
unfolding adapter
calls_made api country phone l clock r s =
    if (Pairing.handler (adapter api country phone l) clock r s).1.attempted
    then (pair country l.session l.answers phone).calls
    else []
