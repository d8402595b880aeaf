-- ===== src/Transport/Groups.antt =====
-- transport/client.go and transport/message.go: what is read of groups, and approving join requests.
pub mod Refusals
pub mod Search
use botkit.Prelude.{
  ℕ, ◌+◌, Bool, true, false, Option, none, some, List, [], ◌∷◌, ◌++◌, map, if◌then◌else◌, ◌==◌,
  nat_eq, any, Text, codes, text_eq, is_blank,
}
use botkit.Errors.{Error, wrap, new_error, Result, ok, err, ◌>>=◌, in_context}
use botkit.Jid.{Jid, JidApi}
use botkit.Identity.{normalize}
use botkit.Transport.Retry.{Wait, with_rate_retry}
use botkit.Transport.Members.{
  Participant, Member, PendingRequest, GroupInfo, GroupSummary, LidStore, members_from,
  self_is_admin, pending_request,
}

-- What one retried query answers.
abbrev pub asked : {A : Type 0} → (ℕ → Result A) → (ℕ → Wait) → Result A
asked query wait = (with_rate_retry query wait).outcome

members_of_info : LidStore → GroupInfo → List Member
unfolding members_from
members_of_info lids info = members_from lids info.participants

-- `Members`
unfoldable pub members_of :
    LidStore → (Jid → ℕ → Result GroupInfo) → (ℕ → Wait) → Jid → Result (List Member)
unfolding members_of_info
members_of lids query wait group = do
  info ← in_context (codes "get group info") (asked (query group) wait)
  ok (members_of_info lids info)

-- The inner loop of `IsMemberOfAny`: whether a member has the phone.
abbrev pub has_phone : Text → Text → List Member → Bool
has_phone country want members = any (λ m. normalize country m.phone == want) members

-- The outer loop, which asks no further group than the one where the person is found.
unfoldable pub search_groups :
    Text
    → LidStore
    → (Jid → ℕ → Result GroupInfo)
    → (Jid → ℕ → Wait)
    → Text
    → List Jid
    → Result Bool
unfolding members_of
search_groups country lids query wait want [] = ok false
search_groups country lids query wait want (g ∷ groups) =
    let rest = search_groups country lids query wait want groups in
    do
      members ← members_of lids query (wait g) g
      if has_phone country want members then ok true else rest

unfoldable pub is_member_of_any :
    Text
    → LidStore
    → (Jid → ℕ → Result GroupInfo)
    → (Jid → ℕ → Wait)
    → (phone : Text) → List Jid
    → Result Bool
unfolding search_groups normalize
is_member_of_any country lids query wait phone groups =
    if is_blank (normalize country phone)
    then ok false
    else search_groups country lids query wait (normalize country phone) groups

-- strings.Join
unfoldable pub joined : Text → List Text → Text
joined sep [] = []
joined sep (w ∷ []) = w
joined sep (w ∷ v ∷ ws) = w ++ (sep ++ joined sep (v ∷ ws))

module _ (api : JidApi) where
  open api use {jid_string}

  summary : LidStore → (self self_lid : Jid) → GroupInfo → GroupSummary
  unfolding members_of_info self_is_admin
  summary lids self self_lid g = record {
    jid = g.jid;
    name = g.name;
    parent_jid = g.linked_parent_jid;
    is_community = g.is_parent;
    is_admin = self_is_admin api g.participants self self_lid;
    members = members_of_info lids g;
  }

  -- `AllGroups`
  unfoldable pub all_groups :
      LidStore
      → (self self_lid : Jid) → (ℕ → Result (List GroupInfo))
      → (ℕ → Wait)
      → Result (List GroupSummary)
  unfolding summary
  all_groups lids self self_lid query wait = do
    groups ← in_context (codes "list joined groups") (asked query wait)
    ok (map (summary lids self self_lid) groups)

  -- `PendingRequests`
  unfoldable pub pending_requests :
      LidStore → (ℕ → Result (List Jid)) → (ℕ → Wait) → Result (List PendingRequest)
  unfolding pending_request
  pending_requests lids query wait = do
    requests ← in_context (codes "get group requests") (asked query wait)
    ok (map (pending_request api lids) requests)

  -- The messages of those that WhatsApp refused; `itoa` is `%d`.
  unfoldable pub refused : (itoa : ℕ → Text) → List Participant → List Text
  refused itoa [] = []
  refused itoa (p ∷ results) =
      let rest = refused itoa results in
      if p.error == 0 then rest else (jid_string p.jid ++ (codes ": error " ++ itoa p.error)) ∷ rest

  as_error : List Text → Option Error
  unfolding joined
  as_error [] = none
  as_error (m ∷ ms) =
      some (new_error (codes "refused by whatsapp: " ++ joined (codes "; ") (m ∷ ms)))

  unfoldable pub participant_errors : (itoa : ℕ → Text) → List Participant → Option Error
  unfolding as_error refused
  participant_errors itoa results = as_error (refused itoa results)

  wrapped : Option Error → Option Error
  wrapped none = none
  wrapped (some e) = some (wrap (codes "approve participants") e)

  approved : (itoa : ℕ → Text) → Result (List Participant) → Option Error
  unfolding participant_errors wrapped
  approved itoa (err e) = some (wrap (codes "approve participants") e)
  approved itoa (ok results) = wrapped (participant_errors itoa results)

  -- `approvePause`, in milliseconds; `drawn` is rand.IntN(2000).
  abbrev pub approve_pause : ℕ → ℕ
  approve_pause drawn = 1000 + drawn

  -- `Approve`: the error that it returns, and for how long it paused before it asked WhatsApp, if it
  -- did; `update` is what that answers.
  unfoldable pub approve :
      (itoa : ℕ → Text)
      → (update : List Jid → Result (List Participant)) → (drawn : ℕ) → List Jid
      → Option Error × Option ℕ
  unfolding approved
  approve itoa update drawn [] = (none, none)
  approve itoa update drawn (j ∷ requesters) =
      (approved itoa (update (j ∷ requesters)), some (approve_pause drawn))
