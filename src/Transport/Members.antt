-- ===== src/Transport/Members.antt =====
-- transport/client.go and transport/message.go: identities, group members, and the membership check.
pub mod Agreement
use botkit.Prelude.{
  ℕ, Bool, true, false, not, ◌&&◌, ◌||◌, Option, none, some, List, [], ◌∷◌, if◌then◌else◌, ◌==◌,
  nat_eq, any, Text, codes, text_eq, is_blank,
}
use botkit.Errors.{wrap, Result, ok, err}
use botkit.Jid.{Jid, JidApi, default_user_server, hidden_user_server}
use botkit.Identity.{normalize}
use botkit.Transport.Retry.{Wait, with_rate_retry}

-- types.GroupParticipant; `error` is its code, 0 for none.
pub record Participant : Type 0 where
  pub jid : Jid
  pub phone_number : Jid
  pub lid : Jid
  pub is_admin : Bool
  pub is_super_admin : Bool
  pub error : ℕ

pub record Member : Type 0 where
  pub jid : Jid
  pub phone : Text
  pub is_admin : Bool

pub record PendingRequest : Type 0 where
  pub jid : Jid
  pub phone : Text
  pub lid : Text

-- types.GroupInfo, as far as it is read.
pub record GroupInfo : Type 0 where
  pub jid : Jid
  pub name : Text
  pub linked_parent_jid : Jid
  pub is_parent : Bool
  pub participants : List Participant

pub record GroupSummary : Type 0 where
  pub jid : Jid
  pub name : Text
  pub parent_jid : Jid
  pub is_community : Bool
  pub is_admin : Bool
  pub members : List Member

-- `c.wm.Store.LIDs.GetPNForLID`, `none` where the client has no such store.
abbrev pub LidStore : Type 0
LidStore = Option (Jid → Result Jid)

abbrev user_of : Result Jid → Text
user_of (ok pn) = if pn.server == default_user_server then pn.user else []
user_of (err e) = []

abbrev pub look_up : LidStore → Jid → Text
look_up none jid = []
look_up (some get_pn) jid = user_of (get_pn jid)

unfoldable pub resolve_phone : LidStore → Jid → Text
resolve_phone lids jid = if jid.server == default_user_server then jid.user else look_up lids jid

-- The phone of a participant: its own phone number, or else what its JID resolves to.
abbrev pub phone_of : LidStore → Participant → Text
phone_of lids p =
    if is_blank p.phone_number.user then resolve_phone lids p.jid else p.phone_number.user

unfoldable pub members_from : LidStore → List Participant → List Member
members_from lids [] = []
members_from lids (p ∷ parts) =
    record { jid = p.jid; phone = phone_of lids p; is_admin = p.is_admin || p.is_super_admin }
    ∷ members_from lids parts

module _ (api : JidApi) where
  open api use {is_empty, jid_string}

  unfoldable pub same_jid : Jid → Jid → Bool
  same_jid a b =
      not (is_empty a) && (not (is_empty b) && (a.user == b.user && a.server == b.server))

  unfoldable pub participant_is_self : Participant → (self self_lid : Jid) → Bool
  unfolding same_jid
  participant_is_self p self self_lid =
      if (is_empty self || is_blank self.user) && is_empty self_lid
      then false
      else (not (is_empty self) && same_jid p.jid self)
        || ((not (is_empty self) && same_jid p.phone_number self)
            || ((not (is_empty self_lid) && same_jid p.jid self_lid)
                || (not (is_empty self_lid) && same_jid p.lid self_lid)))

  unfoldable pub self_is_admin : List Participant → (self self_lid : Jid) → Bool
  unfolding participant_is_self
  self_is_admin [] self self_lid = false
  self_is_admin (p ∷ parts) self self_lid =
      let rest = self_is_admin parts self self_lid in
      if participant_is_self p self self_lid then p.is_admin || p.is_super_admin else rest

  unfoldable pub pending_request : LidStore → Jid → PendingRequest
  unfolding resolve_phone
  pending_request lids jid = record {
    jid = jid;
    phone = resolve_phone lids jid;
    lid = if jid.server == hidden_user_server then jid_string jid else [];
  }

  -- Whether one participant is the wanted person, known as `member` and by `want`.
  unfoldable pub matches : Text → LidStore → (member : Jid) → (want : Text) → Participant → Bool
  unfolding same_jid resolve_phone normalize
  matches country lids member want p =
      if same_jid p.jid member || (same_jid p.phone_number member || same_jid p.lid member)
      then true
      else if is_blank want
      then false
      else not (is_blank (phone_of lids p)) && normalize country (phone_of lids p) == want

  is_member_of : Text → LidStore → Jid → Result GroupInfo → Result Bool
  unfolding matches
  is_member_of country lids member (err e) = err (wrap (codes "get group info") e)
  is_member_of country lids member (ok info) = ok (
      any (matches country lids member (normalize country (resolve_phone lids member)))
        info.participants)

  -- `IsMember`: `query i` is what the i-th query of the group answers, `wait i` how the wait after it
  -- ends.
  unfoldable pub is_member :
      Text
      → LidStore
      → (query : Jid → ℕ → Result GroupInfo) → (wait : ℕ → Wait) → (group member : Jid)
      → Result Bool
  unfolding is_member_of
  is_member country lids query wait group member =
      if is_empty group || (is_empty member || is_blank member.user)
      then ok false
      else is_member_of country lids member (with_rate_retry (query group) wait).outcome
