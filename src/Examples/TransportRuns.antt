-- ===== src/Examples/TransportRuns.antt =====
-- transport/ and schedule/: runs of the theorems.
use botkit.Prelude.{
  ℕ, ◌≡◌, refl, ◌↔◌, ◌⊎◌, true, false, none, some, List, [], ◌∷◌, arith, ltb, if◌then◌else◌, nat_eq,
  Any, All, codes, text_eq, contains,
}
use botkit.Errors.{Error, message, new_error, Result, ok, err}
use botkit.Jid.{
  Jid, zero_jid, group_server, default_user_server, hidden_user_server, IsEmptyDocumented,
}
use botkit.Transport.Retry.{
  Wait, elapsed, with_rate_retry, with_rate_retry_answers, with_rate_retry_gives_up, is_final,
  retry_from, is_rate_limited,
}
use botkit.Transport.Members.{Participant, GroupInfo, LidStore, is_member}
use botkit.Transport.Members.Agreement.{is_blank_iff, IsPerson, is_member_iff, is_blank_iff}
use botkit.Transport.Groups.{approve}
use botkit.Transport.Groups.Refusals.{WentThrough, approve_iff}
use botkit.Examples.Libraries.{at_api}

abbrev limit : Error
limit = new_error (codes "info query returned status 429")

abbrev pub always : ℕ → Wait
always i = elapsed

abbrev third_works : ℕ → Result ℕ
third_works i = if ltb i 2 then err limit else ok i

abbrev always_limited : ℕ → Result ℕ
always_limited i = err limit

limited : (i : ℕ) → is_final (always_limited i) ≡ false
unfolding is_rate_limited contains message
limited i = refl

with_rate_retry_answers_example :
    with_rate_retry third_works always ≡ record { outcome = ok 2; calls = 3; slept = 1 ∷ 2 ∷ [] }
with_rate_retry_answers_example =
    with_rate_retry_answers third_works always 2 (omega arith)
      (λ i ge lt. let early : ltb i 2 ≡ true = ground arith in rw early (limited i, refl)) refl

with_rate_retry_gives_up_example :
    (e : Error) × (always_limited 3 ≡ err e)
    × (with_rate_retry always_limited always
        ≡ record { outcome = err e; calls = 4; slept = 1 ∷ 2 ∷ 4 ∷ 8 ∷ [] })
with_rate_retry_gives_up_example =
    with_rate_retry_gives_up always_limited always (λ i ge lt. (limited i, refl))

at_api-IsEmptyDocumented : IsEmptyDocumented at_api
at_api-IsEmptyDocumented = record { empty_iff = λ j. is_blank_iff j.server }

abbrev pub team : Jid
team = record { user = codes "1"; server = group_server; raw_agent = 0; device = 0; integrator = 0 }

abbrev pub ann : Jid
ann = record {
  user = codes "972501";
  server = default_user_server;
  raw_agent = 0;
  device = 0;
  integrator = 0;
}

abbrev pub hidden : Jid
hidden = record {
  user = codes "77";
  server = hidden_user_server;
  raw_agent = 0;
  device = 0;
  integrator = 0;
}

-- A participant that the group knows by a LID.
abbrev by_lid : Participant
by_lid = record {
  jid = hidden;
  phone_number = zero_jid;
  lid = hidden;
  is_admin = false;
  is_super_admin = false;
  error = 0;
}

abbrev pub known : LidStore
known = some (λ j. ok ann)

abbrev info : GroupInfo
info = record {
  jid = team;
  name = codes "T";
  linked_parent_jid = zero_jid;
  is_parent = false;
  participants = by_lid ∷ [];
}

abbrev pub query : Jid → ℕ → Result GroupInfo
query g i = ok info

answered : (with_rate_retry (query team) always).outcome ≡ ok info
unfolding retry_from
answered = refl

is_member_iff_example :
    (is_member at_api (codes "972") known query always team ann ≡ ok true)
    ↔ Any (IsPerson (codes "972") known ann) info.participants
is_member_iff_example =
    is_member_iff at_api at_api-IsEmptyDocumented (codes "972") known query always team ann info
      (λ e. cc) (λ e. cc) (λ e. cc) answered

abbrev update : List Jid → Result (List Participant)
update js = ok (by_lid ∷ [])

approve_iff_example : ((approve at_api (λ n. codes "?") update 700 (hidden ∷ [])).0 ≡ none) ↔ (
    (hidden ∷ [] ≡ [])
    ⊎ ((results : List Participant) × (ok (by_lid ∷ []) ≡ ok results) × All WentThrough results))
approve_iff_example = approve_iff at_api (λ n. codes "?") update 700 (hidden ∷ [])
