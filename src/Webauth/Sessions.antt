-- ===== src/Webauth/Sessions.antt =====
-- webauth/webauth.go: how long a login lasts, through any number of refreshes.
use botkit.Store.Kv.{Kv, Driver}
use botkit.Prelude.{ℕ, ◌+◌, ◌<◌, ◌≡◌, ap, ◌∙◌, inl, inr, true, false, arith, nat_eq, Text, text_eq}
use botkit.Errors.{ok, Result-cases}
use botkit.Prelude.Int.{ℤ, pos, leb_ℤ}
use botkit.Jid.{Jid, JidApi}
use botkit.Webauth.Config.{Config}
use botkit.Webauth.Codec.{Codec, Claims, CodecLaws}
use botkit.Webauth.Token.{parse}
use botkit.Webauth.Authentic.{parse-sign-eq}
use botkit.Webauth.Auth.{redeem, unix, Membership, session_ttl, recheck_interval, refresh, verify}
use botkit.Webauth.Grants.{redeem-IsRedeemed, refresh-IsRefreshed}

-- The tokens that come out of one by refreshes, each at some instant and some answer of WhatsApp.
pub data Chain (api : JidApi) (codec : Codec) (cfg : Config) (first : Text) : Text → Type 0 where
  here : Chain api codec cfg first first
  next :
      {token token' : Text} (now : ℕ) (mem : Membership)
      → Chain api codec cfg first token
      → refresh api codec cfg now mem token ≡ ok token'
      → Chain api codec cfg first token'

module _ (api : JidApi) (codec : Codec) (cfg : Config) (laws : CodecLaws codec) where
  -- A token that comes out of another by refreshes, and is accepted, has the ceiling of that one.
  Chain-absolute :
      {first token : Text} (ceiling : ℤ) (seen : Claims)
      → ((c : Claims) → parse codec cfg.signing_key first ≡ ok c → c.absolute ≡ ceiling)
      → Chain api codec cfg first token
      → parse codec cfg.signing_key token ≡ ok seen
      → seen.absolute ≡ ceiling
  Chain-absolute ceiling seen at_first here parsed = at_first seen parsed
  Chain-absolute ceiling seen at_first (next {token} {token'} now mem chain h) parsed =
      let r = refresh-IsRefreshed api codec cfg now mem token token' h in
      let same = parse-sign-eq codec cfg.signing_key token' _ seen laws r.signed parsed in
      ap (λ (x : Claims). x.absolute) same ∙ Chain-absolute ceiling r.claims at_first chain r.parsed

  verify-eq-ok :
      (t : ℕ) (token : Text) (seen : Claims)
      → verify api codec cfg t token ≡ ok seen
      → (parse codec cfg.signing_key token ≡ ok seen)
        × (leb_ℤ seen.expires (pos (unix t)) ≡ false)
        × (leb_ℤ seen.absolute (pos (unix t)) ≡ false)
  unfolding verify
  verify-eq-ok t token seen h = elim (Result-cases (parse codec cfg.signing_key token)) [
    | inl (c, e) ↦ (ground (arith, e), ground (arith, e), ground (arith, e))
    | inr (x, e) ↦ absurd (ground (arith, e))
  ]

  -- A login has a ceiling that no refresh moves: whatever comes out of the token that a redeem handed
  -- out, by any number of refreshes at whatever instants, is verified only before the redeem's instant
  -- plus the session's length.
  pub session_ceiling :
      (d : Driver) (now t : ℕ) (mem : Membership) (nonce first token : Text) (kv : Kv)
      (seen : Claims)
      → (redeem api codec cfg d now mem nonce kv).1 ≡ ok first
      → Chain api codec cfg first token
      → verify api codec cfg t token ≡ ok seen
      → unix t < unix (now + session_ttl cfg)
  session_ceiling d now t mem nonce first token kv seen redeemed chain h =
      let r = (redeem-IsRedeemed api codec cfg d now mem nonce first kv redeemed).0 in
      let (parsed, lives, below) = verify-eq-ok t token seen h in
      let same =
        Chain-absolute (pos (unix (now + session_ttl cfg))) seen
          (λ c e.
            ap (λ (x : Claims). x.absolute)
              (parse-sign-eq codec cfg.signing_key first _ c laws r.signed e))
          chain parsed in
      ground (arith, below, same)

  -- The revocation lag: a token of a refresh is verified only before the instant of that refresh plus
  -- the recheck interval, and at that instant WhatsApp said that its member was in its group.
  pub revocation_lag :
      (now t : ℕ) (mem : Membership) (old token : Text) (seen : Claims)
      → refresh api codec cfg now mem old ≡ ok token
      → verify api codec cfg t token ≡ ok seen
      → (unix t < unix (now + recheck_interval cfg))
        × (group : Jid) × (member : Jid) × (mem group member ≡ ok true)
        × (seen.group ≡ api.jid_string group)
        × (seen.member ≡ api.jid_string member)
  revocation_lag now t mem old token seen h v =
      let r = refresh-IsRefreshed api codec cfg now mem old token h in
      let (parsed, lives, below) = verify-eq-ok t token seen v in
      let shown = parse-sign-eq codec cfg.signing_key token _ seen laws r.signed parsed in
      (
        ground (arith, lives, shown),
        r.group,
        r.member,
        r.current,
        ap (λ (x : Claims). x.group) shown,
        ap (λ (x : Claims). x.member) shown,
      )
