-- ===== src/Examples/TextRuns.antt =====
-- identity/, gate/, redact/ and send/: runs of the theorems.
use botkit.Prelude.{
  ℕ, ◌%◌, ◌≡◌, refl, ◌≢◌, ◌↔◌, ◌⊎◌, true, false, some, List, [], ◌∷◌, ◌++◌, arith, nat_eq, length,
  Text, codes, text_beq, text_eq, has_prefix, contains, trim_space, split,
}
use botkit.Errors.{
  Sentinel, not_in_group, group_not_found, peer_unreachable, bot_wide, Error, plain, wrap, join,
  message, is, new_error, ok, is_error,
}
use botkit.Jid.{Jid, group_server}
use botkit.Examples.Libraries.{at_api, at_parse}
use botkit.Identity.{normalize, default_country_code}
use botkit.Identity.{digits}
use botkit.Identity.Spellings.{Spells, normalize_iff}
use botkit.Redact.Opaque.{DigestLaws, phone_exact}
use botkit.Redact
use botkit.Redact.{take}
use botkit.Gate.{Groups, parse_groups}
use botkit.Send.{has_marker, classify, err_bot_wide}
use botkit.Send.Taxonomy.{IsBotWide, classify_exact}

normalize_iff_example :
    (normalize default_country_code (codes "(050) 1") ≡ default_country_code ++ codes "501")
    ↔ Spells default_country_code (codes "501") (digits (codes "(050) 1"))
normalize_iff_example =
    normalize_iff default_country_code (codes "501") (codes "(050) 1")
      ((refl, (refl, (refl, tt))), (λ e. omega arith))
      ((refl, (refl, (refl, tt))), (λ e. omega arith))

abbrev national : Text
national = codes "501"

abbrev team : Jid
team = record { user = codes "1"; server = group_server; raw_agent = 0; device = 0; integrator = 0 }

abbrev entries : List Text
entries = codes "" ∷ codes " 1@g.us" ∷ codes "1@g.us" ∷ []

abbrev team_only : Groups
team_only = record { allowed = codes "1@g.us" ∷ []; list = team ∷ []; all = false }

parsed_entries : parse_groups at_api entries ≡ ok team_only
unfolding parse_groups trim_space at_parse split text_beq
parsed_entries = refl

-- Some digest of four bytes.
abbrev digest : Text → List ℕ
digest s = length s % 256 ∷ 1 ∷ 2 ∷ 3 ∷ []

digest-laws : DigestLaws digest
digest-laws = record {
  bytes = λ s. (omega arith, (omega arith, (omega arith, (omega arith, tt))));
  long = λ s. omega arith;
}

phone_exact_example :
    (length (Redact.phone digest (codes "5")) ≡ 11)
    × (length (Redact.jid digest (codes "5")) ≡ 10)
    × ((Redact.phone digest (codes "5") ≡ Redact.phone digest (codes "6"))
        ↔ (take 4 (digest (codes "5")) ≡ take 4 (digest (codes "6"))))
    × ((Redact.jid digest (codes "5") ≡ Redact.jid digest (codes "6"))
        ↔ (take 4 (digest (codes "5")) ≡ take 4 (digest (codes "6"))))
    × (Redact.phone digest (codes "5") ≢ Redact.jid digest (codes "6"))
phone_exact_example = phone_exact digest (codes "5") (codes "6") digest-laws (λ e. cc) (λ e. cc)

abbrev removed : Error
removed = wrap (codes "send") (plain not_in_group (codes "not in group"))

classify_exact_example :
    ((is_error (classify (some removed)) peer_unreachable ≡ true)
      ↔ ((is removed not_in_group ≡ true) ⊎ (is removed group_not_found ≡ true)))
    × ((is_error (classify (some removed)) bot_wide ≡ true) ↔ (
        (is removed not_in_group ≡ false)
        × (is removed group_not_found ≡ false)
        × IsBotWide removed))
    × ((t : Sentinel)
        → t ≢ peer_unreachable
        → t ≢ bot_wide
        → is_error (classify (some removed)) t ≡ is removed t)
classify_exact_example = classify_exact removed (unfold is in (refl, refl))

abbrev unpaired : Error
unpaired = new_error (codes "send: not paired yet")

classify_marker : classify (some unpaired) ≡ some (join err_bot_wide unpaired)
unfolding classify has_marker contains has_prefix is message
classify_marker = refl
