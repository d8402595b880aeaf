-- ===== src/Transport/Members/Agreement.antt =====
-- transport/message.go: whom `IsMember` takes for a member of a group.
use botkit.Prelude.{
  ℕ, ◌≡◌, refl, ap, ◌≢◌, ◌↔◌, ◌⊎◌, inl, inr, Bool, true, false, not, ◌&&◌, ◌||◌, [], ◌∷◌, arith,
  if◌then◌else◌, ◌==◌, nat_eq, Bool-cases, Any, any_iff, Any-map, Text, text_beq_refl, text_beq_iff,
  text_eq, is_blank,
}
use botkit.Jid.{Jid, JidApi, IsEmptyDocumented}
use botkit.Identity.{normalize}
use botkit.Transport.Members.{
  ok, with_rate_retry, Wait, GroupInfo, Result, is_member_of, is_member, matches, Participant,
  LidStore, phone_of, resolve_phone, same_jid,
}

-- One identity: the same user at the same server, on whatever device.
abbrev pub IsOne : Jid → Jid → Type 0
IsOne a b = (a.user ≡ b.user) × (a.server ≡ b.server)

-- A participant is the person if one of its three identities is theirs, user and server, or if both
-- resolve to phone numbers, with a digit, that are one number.
abbrev pub IsPerson : Text → LidStore → Jid → Participant → Type 0
IsPerson country lids member p =
    IsOne p.jid member
    ⊎ (IsOne p.phone_number member
        ⊎ (IsOne p.lid member
            ⊎ ((normalize country (resolve_phone lids member) ≢ [])
                × (phone_of lids p ≢ [])
                × (normalize country (phone_of lids p)
                    ≡ normalize country (resolve_phone lids member)))))

pub is_blank_iff : (t : Text) → (is_blank t ≡ true) ↔ (t ≡ [])
is_blank_iff [] = (λ h. refl, λ h. refl)
is_blank_iff (c ∷ t) = (λ h. cc, λ h. cc)

not_blank : (t : Text) → t ≢ [] → is_blank t ≡ false
not_blank [] there = absurd (there refl)
not_blank (c ∷ t) there = refl

module _ (api : JidApi) (law : IsEmptyDocumented api) where
  is_empty-false : (j : Jid) → j.server ≢ [] → api.is_empty j ≡ false
  is_empty-false j present = elim (Bool-cases (api.is_empty j)) [
    | inl gone ↦ absurd (present ((law.empty_iff j).0 gone))
    | inr there ↦ there
  ]

  -- `sameJID`, for a JID that is not empty.
  same_jid_iff : (a b : Jid) → b.server ≢ [] → (same_jid api a b ≡ true) ↔ IsOne a b
  unfolding same_jid
  same_jid_iff a b present = (
    λ h. elim (Bool-cases (api.is_empty a)) [
      | inl gone ↦ absurd (cc (rw gone at h))
      | inr there ↦ elim (Bool-cases (a.user == b.user)) [
        | inr other_user ↦ absurd (cc (rw (there, is_empty-false b present, other_user) at h))
        | inl users ↦ (
          (text_beq_iff a.user b.user).0 users,
          (text_beq_iff a.server b.server).0 (rw (there, is_empty-false b present, users) at h),
        )
      ]
    ],
    λ (user, server).
        let there : api.is_empty a ≡ false = is_empty-false a (rw server present) in
        rw
          (
            there,
            is_empty-false b present,
            user,
            server,
            text_beq_refl b.user,
            text_beq_refl b.server,
          )
          refl,
  )

  by_phone :
      (want phone found : Text)
      → (if is_blank want then false else not (is_blank phone) && found == want) ≡ true
      → (want ≢ []) × (phone ≢ []) × (found ≡ want)
  by_phone [] phone found h = cc
  by_phone (c ∷ want) [] found h = cc
  by_phone (c ∷ want) (d ∷ phone) found h = (λ e. cc, λ e. cc, (text_beq_iff found (c ∷ want)).0 h)

  by_phone_back :
      (want phone found : Text)
      → want ≢ []
      → phone ≢ []
      → found ≡ want
      → (if is_blank want then false else not (is_blank phone) && found == want) ≡ true
  by_phone_back [] phone found w p e = absurd (w refl)
  by_phone_back (c ∷ want) [] found w p e = absurd (p refl)
  by_phone_back (c ∷ want) (d ∷ phone) found w p e = (text_beq_iff found (c ∷ want)).1 e

  matches-IsPerson :
      (country : Text) (lids : LidStore) (member : Jid) (p : Participant)
      → member.server ≢ []
      → matches api country lids member (normalize country (resolve_phone lids member)) p ≡ true
      → IsPerson country lids member p
  unfolding matches
  matches-IsPerson country lids member p present h = elim (Bool-cases (same_jid api p.jid member)) [
    | inl a ↦ inl ((same_jid_iff p.jid member present).0 a)
    | inr not_a ↦ elim (Bool-cases (same_jid api p.phone_number member)) [
      | inl b ↦ inr (inl ((same_jid_iff p.phone_number member present).0 b))
      | inr not_b ↦ elim (Bool-cases (same_jid api p.lid member)) [
        | inl c ↦ inr (inr (inl ((same_jid_iff p.lid member present).0 c)))
        | inr not_c ↦ inr (
            inr (
              inr (
                by_phone (normalize country (resolve_phone lids member)) (phone_of lids p)
                  (normalize country (phone_of lids p)) (rw (not_a, not_b, not_c) at h))))
      ]
    ]
  ]

  or_true : (a : Bool) → (a || true) ≡ true
  or_true true = refl
  or_true false = refl

  if_true : (a b : Bool) → b ≡ true → (if a then true else b) ≡ true
  if_true true b h = refl
  if_true false b h = h

  IsPerson-matches :
      (country : Text) (lids : LidStore) (member : Jid) (p : Participant)
      → member.server ≢ []
      → IsPerson country lids member p
      → matches api country lids member (normalize country (resolve_phone lids member)) p ≡ true
  unfolding matches
  IsPerson-matches country lids member p present (inl a) =
      rw ((same_jid_iff p.jid member present).1 a) refl
  IsPerson-matches country lids member p present (inr (inl b)) =
      rw ((same_jid_iff p.phone_number member present).1 b, or_true) refl
  IsPerson-matches country lids member p present (inr (inr (inl c))) =
      rw ((same_jid_iff p.lid member present).1 c, or_true, or_true) refl
  IsPerson-matches country lids member p present (inr (inr (inr (w, q, e)))) = if_true _ _ (
      by_phone_back (normalize country (resolve_phone lids member)) (phone_of lids p)
        (normalize country (phone_of lids p)) w q e)

  -- Where the query of the group is answered, after retries perhaps, `IsMember` says yes exactly if
  -- some participant is the person: one of its identities is theirs in user and server, on whatever
  -- device (so a LID with the digits of a phone number is not), or both are known by the same phone number; a person and a participant
  -- whose phones are unknown are never taken for each other.
  pub is_member_iff :
      (country : Text) (lids : LidStore) (query : Jid → ℕ → Result GroupInfo) (wait : ℕ → Wait)
      (group member : Jid) (info : GroupInfo)
      → group.server ≢ []
      → member.server ≢ []
      → member.user ≢ []
      → (with_rate_retry (query group) wait).outcome ≡ ok info
      → (is_member api country lids query wait group member ≡ ok true)
        ↔ Any (IsPerson country lids member) info.participants
  unfolding is_member is_member_of
  is_member_iff country lids query wait group member info has_group has_member named answered =
      rw
        (
          is_empty-false group has_group,
          is_empty-false member has_member,
          not_blank member.user named,
          answered,
        )
        (
          (λ h.
              Any-map _ _ info.participants (λ p. matches-IsPerson country lids member p has_member)
                ((any_iff _ info.participants).0 (ground (arith, h)))),
          (λ h. ap ok (
              (any_iff _ info.participants).1 (
                Any-map _ _ info.participants
                  (λ p. IsPerson-matches country lids member p has_member) h))),
        )
