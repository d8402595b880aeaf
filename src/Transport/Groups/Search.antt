-- ===== src/Transport/Groups/Search.antt =====
-- transport/message.go: when `IsMemberOfAny` says yes.
use botkit.Prelude.{
  ℕ, ◌≡◌, refl, ◌≢◌, ◌↔◌, ◌⊎◌, inl, inr, true, false, List, [], ◌∷◌, arith, nat_eq, Bool-cases, Any,
  All, Text, text_beq_iff, text_eq, is_blank,
}
use botkit.Errors.{Result, ok, Result-cases}
use botkit.Jid.{Jid}
use botkit.Identity.{normalize}
use botkit.Transport.Retry.{Wait}
use botkit.Transport.Members.{Participant, GroupInfo, LidStore, phone_of, members_from}
use botkit.Transport.Groups.{
  is_member_of_any, asked, members_of, members_of_info, has_phone, search_groups,
}

module _ (country : Text) (lids : LidStore) (query : Jid → ℕ → Result GroupInfo)
    (wait : Jid → ℕ → Wait) (want : Text) where
  -- The participant has this phone number.
  abbrev pub IsTheirs : Participant → Type 0
  IsTheirs p = normalize country (phone_of lids p) ≡ want

  -- The group was read, and some participant has the number; or none has.
  abbrev pub HasPhone : Jid → Type 0
  HasPhone g =
      (info : GroupInfo) × (asked (query g) (wait g) ≡ ok info) × Any IsTheirs info.participants

  abbrev pub LacksPhone : Jid → Type 0
  LacksPhone g =
      (info : GroupInfo) × (asked (query g) (wait g) ≡ ok info)
      × All (λ p. ¬ IsTheirs p) info.participants

  -- Some group has it, and all before that one were read.
  abbrev pub IsFound : List Jid → Type 0
  IsFound [] = ⊥
  IsFound (g ∷ groups) = HasPhone g ⊎ (LacksPhone g × IsFound groups)

  has_phone_iff :
      (parts : List Participant)
      → (has_phone country want (members_from lids parts) ≡ true) ↔ Any IsTheirs parts
  unfolding members_from
  has_phone_iff [] = (λ h. absurd (cc), λ h. absurd h)
  has_phone_iff (p ∷ parts) =
      ground (arith, has_phone_iff parts, text_beq_iff (normalize country (phone_of lids p)) want)

  lacks_phone_iff :
      (parts : List Participant)
      → (has_phone country want (members_from lids parts) ≡ false) ↔ All (λ p. ¬ IsTheirs p) parts
  unfolding members_from
  lacks_phone_iff [] = (λ h. tt, λ h. refl)
  lacks_phone_iff (p ∷ parts) =
      ground (arith, lacks_phone_iff parts, text_beq_iff (normalize country (phone_of lids p)) want)

  search_groups_iff :
      (groups : List Jid)
      → (search_groups country lids query wait want groups ≡ ok true) ↔ IsFound groups
  unfolding search_groups members_of members_of_info
  search_groups_iff [] = (λ h. absurd (ground arith), λ h. absurd h)
  search_groups_iff (g ∷ groups) = (
    λ h. elim (Result-cases (asked (query g) (wait g))) [
      | inr (x, failed) ↦ absurd (ground (arith, failed))
      | inl (info, read) ↦
          elim (Bool-cases (has_phone country want (members_from lids info.participants))) [
            | inl found ↦ inl (info, read, (has_phone_iff info.participants).0 found)
            | inr missing ↦ inr (
              (info, read, (lacks_phone_iff info.participants).0 missing),
              (search_groups_iff groups).0 (ground (arith, read, missing)),
            )
          ]
    ],
    λ h. elim h [
      | inl (info, read, found) ↦ ground (arith, read, (has_phone_iff info.participants).1 found)
      | inr ((info, read, missing), later) ↦ ground (
        arith,
        read,
        (lacks_phone_iff info.participants).1 missing,
        (search_groups_iff groups).1 later,
      )
    ],
  )

-- `IsMemberOfAny` says yes exactly of a phone number with a digit that is found in the groups.
pub is_member_of_any_iff :
    (country : Text) (lids : LidStore) (query : Jid → ℕ → Result GroupInfo) (wait : Jid → ℕ → Wait)
    (phone : Text) (groups : List Jid)
    → (is_member_of_any country lids query wait phone groups ≡ ok true) ↔ (
        (normalize country phone ≢ [])
        × IsFound country lids query wait (normalize country phone) groups)
unfolding is_member_of_any
is_member_of_any_iff country lids query wait phone groups =
    let (there, back) =
      search_groups_iff country lids query wait (normalize country phone) groups in
    elim (Bool-cases (is_blank (normalize country phone))) [
      | inl blank ↦ (
        λ h. absurd (ground (arith, blank)),
        λ (digits, found). absurd (ground (arith, blank, digits)),
      )
      | inr digits ↦ (
        λ h. (λ e. ground (arith, digits, e), there (ground (arith, digits))),
        λ (some_digit, found). rw digits (back found),
      )
    ]
