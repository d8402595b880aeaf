-- ===== src/Send/Taxonomy.antt =====
-- send/errors.go: what a caller learns from a classified error.
use botkit.Prelude.Substrings.{contains_iff, Includes}
use botkit.Prelude.{
  ◌≡◌, refl, ◌≢◌, ◌↔◌, ◌⊎◌, inl, inr, Bool, true, false, ◌||◌, some, arith, if◌then◌else◌, nat_eq,
  Bool-cases, Text, codes, text_eq, contains,
}
use botkit.Errors.{
  Sentinel, not_in_group, group_not_found, not_logged_in, peer_unreachable, bot_wide, Error,
  message, is, is_error,
}
use botkit.Send.{bot_wide_markers, has_marker, is_bot_wide, classify}

-- An error that the send path did not classify already.
abbrev pub IsRaw : Error → Type 0
IsRaw e = (is e peer_unreachable ≡ false) × (is e bot_wide ≡ false)

classify_transparent :
    (e : Error) (t : Sentinel)
    → t ≢ peer_unreachable
    → t ≢ bot_wide
    → is_error (classify (some e)) t ≡ is e t
unfolding classify is
classify_transparent e peer_unreachable hp hb = absurd (hp refl)
classify_transparent e bot_wide hp hb = absurd (hb refl)
classify_transparent e _ hp hb = ground arith

-- Whether the error is ErrNotLoggedIn, or its text holds what whatsmeow's other errors about the
-- bot's own connection say.
abbrev pub IsBotWide : Error → Type 0
IsBotWide e =
    (is e not_logged_in ≡ true)
    ⊎ (Includes (message e) (codes "the store doesn't contain a device JID")
        ⊎ (Includes (message e) (codes "device JID missing")
            ⊎ (Includes (message e) (codes "not paired yet")
                ⊎ Includes (message e) (codes "websocket not connected"))))

if-or : (p q : Bool) → (if p then true else q) ≡ (p || q)
if-or true q = refl
if-or false q = refl

or_iff : {p q : Bool} {A B : Type 0} → (p ≡ true) ↔ A → (q ≡ true) ↔ B → ((p || q) ≡ true) ↔ (A ⊎ B)
or_iff {p} {q} f g = elim (Bool-cases p) [
  | inl holds ↦ rw holds ((λ h. inl (f.0 holds)), λ x. refl)
  | inr fails ↦
      rw fails
        ((λ h. inr (g.0 h)), λ x. elim x [ inl a ↦ absurd (cc (f.1 a, fails)) | inr b ↦ g.1 b ])
]

is_itself : {p : Bool} → (p ≡ true) ↔ (p ≡ true)
is_itself = ((λ h. h), λ h. h)

last_marker : (msg marker : Text) → ((contains msg marker || false) ≡ true) ↔ Includes msg marker
last_marker msg marker = (
  λ h. (contains_iff msg marker).0 (ground (arith, h)),
  λ x. rw ((contains_iff msg marker).1 x) refl,
)

is_bot_wide_iff : (e : Error) → (is_bot_wide e ≡ true) ↔ IsBotWide e
unfolding is_bot_wide has_marker
is_bot_wide_iff e = rw (if-or (is e not_logged_in) (has_marker bot_wide_markers (message e))) (
    or_iff is_itself (
      or_iff (contains_iff (message e) _) (
        or_iff (contains_iff (message e) _)
          (or_iff (contains_iff (message e) _) (last_marker (message e) _)))))

module _ (e : Error) (raw : IsRaw e) where
  classify-peer_unreachable :
      (is_error (classify (some e)) peer_unreachable ≡ true)
      ↔ ((is e not_in_group ≡ true) ⊎ (is e group_not_found ≡ true))
  unfolding classify is
  classify-peer_unreachable = elim (Bool-cases (is e not_in_group)) [
    | inl gone ↦ ((λ h. inl gone), λ x. ground (arith, gone))
    | inr there ↦ (
      (λ h. inr (ground (arith, there))),
      λ x. elim x [ inl gone ↦ absurd (cc) | inr gone ↦ ground (arith, gone) ],
    )
  ]

  classify-bot_wide :
      (is_error (classify (some e)) bot_wide ≡ true)
      ↔ ((is e not_in_group ≡ false) × (is e group_not_found ≡ false) × IsBotWide e)
  unfolding classify is
  classify-bot_wide = (
    λ h. (ground arith, ground arith, (is_bot_wide_iff e).0 (ground arith)),
    λ (in_it, found, wide). rw (in_it, found, (is_bot_wide_iff e).1 wide) (ground arith),
  )

-- Classifying sorts an error into at most one of two buckets and hides nothing. Of an error not yet
-- classified, the result is ErrPeerUnreachable exactly if the raw error is ErrNotInGroup or
-- ErrGroupNotFound; it is ErrBotWide exactly if the raw error is neither, and is ErrNotLoggedIn or has
-- one of the four texts on the bot's own connection somewhere in its message; and of any other
-- sentinel it says what the raw error says.
pub classify_exact :
    (e : Error)
    → IsRaw e
    → ((is_error (classify (some e)) peer_unreachable ≡ true)
        ↔ ((is e not_in_group ≡ true) ⊎ (is e group_not_found ≡ true)))
      × ((is_error (classify (some e)) bot_wide ≡ true)
          ↔ ((is e not_in_group ≡ false) × (is e group_not_found ≡ false) × IsBotWide e))
      × ((t : Sentinel)
          → t ≢ peer_unreachable
          → t ≢ bot_wide
          → is_error (classify (some e)) t ≡ is e t)
unfolding classify is
classify_exact e h = (classify-peer_unreachable e h, classify-bot_wide e h, classify_transparent e)
