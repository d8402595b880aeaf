-- ===== src/Webauth/Auth.antt =====
-- webauth/webauth.go: minting and redeeming magic links, refreshing and verifying sessions. Instants
-- are nanoseconds since 1970. What only goes to the log is left out.
use botkit.Prelude.{
  ℕ, ◌+◌, ◌/◌, Bool, true, false, not, ◌||◌, Option, none, some, List, ◌++◌, if◌then◌else◌, nat_eq,
  Text, codes, text_eq, is_blank,
}
use botkit.Errors.{denied, Error, plain, wrap, new_error, Result, ok, err, ◌>>=◌, ◌>>◌, in_context}
use botkit.Prelude.Int.{ℤ, pos, leb_ℤ, ltb_ℤ, pos_part}
use botkit.Jid.{Jid, JidApi}
use botkit.Store.Kv
use botkit.Store.Kv.{Kv, Driver}
use botkit.Webauth.Config.{Url, with_defaults, Config, single_use, second}
use botkit.Webauth.Codec.{Codec, Claims, NonceRecord}
use botkit.Webauth.Token.{sign, parse}

abbrev pub nonce_prefix : Text
nonce_prefix = codes "webauth:nonce:"

abbrev pub err_denied : Error
err_denied = plain denied (codes "webauth: denied")

-- t.Unix()
abbrev pub unix : ℕ → ℕ
unix t = t / second

-- The live membership check: what WhatsApp answers at that moment.
abbrev pub Membership : Type 0
Membership = Jid → Jid → Result Bool

abbrev present : Bool → Text → Result (Unit {0})
present true m = ok tt
present false m = err (new_error m)

-- `New`: the flags say whether a store and a membership check were given.
unfoldable pub new_auth : (Text → Result Url) → Config → Bool → Bool → Result Config
new_auth parse_url cfg has_kv has_mem = do
  full ← with_defaults parse_url cfg
  present has_kv (codes "webauth: nil KV")
  present has_mem (codes "webauth: nil Membership")
  ok full

-- What happens around one mint: the store's answers, the instants of the sweep, of `clock()` and of
-- the write, and the random bytes.
pub record Mint : Type 0 where
  pub sweep : Driver
  pub counted : Bool
  pub store : Driver
  pub sweep_at : ℕ
  pub clock_at : ℕ
  pub store_at : ℕ
  pub random : Result (List ℕ)

-- Every failure as ErrDenied.
abbrev pub or_deny : {A : Type 0} → Result A → Result A
or_deny (ok a) = ok a
or_deny (err e) = err err_denied

abbrev pub allow_if : Bool → Result (Unit {0})
allow_if true = ok tt
allow_if false = err err_denied

abbrev pub or_unknown : Option Text → Result Text
or_unknown none = err err_denied
or_unknown (some raw) = ok raw

abbrev pub link_ttl : Config → ℕ
link_ttl cfg = pos_part cfg.link_ttl

abbrev pub session_ttl : Config → ℕ
session_ttl cfg = pos_part cfg.session_ttl

abbrev pub recheck_interval : Config → ℕ
recheck_interval cfg = pos_part cfg.recheck_interval

abbrev pub link_of : Config → Text → Text
link_of cfg nonce = cfg.dashboard_url ++ (codes "/auth?t=" ++ nonce)

-- The store after the sweep that each mint begins with; its failure is only logged.
abbrev pub swept : Config → Mint → Kv → Kv
swept cfg m kv =
    (Kv.delete_expired m.sweep m.counted (unix m.sweep_at) nonce_prefix (link_ttl cfg) kv).0

-- A failed query denies, and so does the answer "no".
unfoldable pub assert_member : Membership → Jid → Jid → Result (Unit {0})
assert_member mem group member = do found ← or_deny (mem group member); allow_if found

-- The gate: the record is consumed, or only read where links are reusable.
unfoldable pub take_nonce : Config → Driver → Text → Kv → Kv × Result (Option Text)
take_nonce cfg d nonce kv =
    if single_use cfg
    then Kv.consume d (nonce_prefix ++ nonce) kv
    else (kv, Kv.get d (nonce_prefix ++ nonce) kv)

module _ (api : JidApi) (cfg : Config) where
  open api use {jid_string}

  -- What the link of this mint stores.
  abbrev pub nonce_record : Jid → Jid → ℕ → NonceRecord
  nonce_record group member now = record {
    group = jid_string group;
    member = jid_string member;
    expires = pos (unix (now + link_ttl cfg));
  }

  -- `absolute` is in Unix seconds, which is all that `mint` reads of it.
  abbrev pub session_claims : Jid → Jid → ℕ → ℤ → Claims
  session_claims group member now absolute = record {
    group = jid_string group;
    member = jid_string member;
    issued_at = pos (unix now);
    expires = pos (unix (now + recheck_interval cfg));
    absolute = absolute;
  }

module _ (api : JidApi) (codec : Codec) (cfg : Config) where
  open api use {parse_jid, is_empty}
  open codec use {b64_encode, marshal_nonce, unmarshal_nonce}

  store_nonce : Mint → Text → Result Text → Kv → Kv × Result Text
  store_nonce m nonce (err e) kv = (kv, err (wrap (codes "webauth: encode nonce record") e))
  store_nonce m nonce (ok rec) kv =
      let (kv', stored) = Kv.set m.store (unix m.store_at) (nonce_prefix ++ nonce) rec kv in
      (kv', in_context (codes "webauth: store nonce") stored >> ok (link_of cfg nonce))

  with_nonce : Mint → Jid → Jid → Result (List ℕ) → Kv → Kv × Result Text
  unfolding store_nonce
  with_nonce m group member (err e) kv = (kv, err (wrap (codes "webauth: generate nonce") e))
  with_nonce m group member (ok raw) kv =
      store_nonce m (b64_encode raw) (marshal_nonce (nonce_record api cfg group member m.clock_at))
        kv

  unfoldable pub mint_link : Mint → Jid → Jid → Kv → Kv × Result Text
  unfolding with_nonce
  mint_link m group member kv =
      if is_empty group || is_empty member || is_blank member.user
      then (kv, err (new_error (codes "webauth: MintLink needs both a group and a member JID")))
      else with_nonce m group member m.random (swept cfg m kv)

  unfoldable pub mint : Jid → Jid → ℕ → ℤ → Result Text
  mint group member now absolute =
      sign codec cfg.signing_key (session_claims api cfg group member now absolute)

  -- `Redeem` from the record that was found on.
  unfoldable pub redeem_record : ℕ → Membership → Text → Result Text
  unfolding assert_member mint
  redeem_record now mem raw = do
    rec ← or_deny (unmarshal_nonce raw)
    allow_if (leb_ℤ (pos (unix now)) rec.expires)
    group ← or_deny (parse_jid rec.group)
    member ← or_deny (parse_jid rec.member)
    assert_member mem group member
    mint group member now (pos (unix (now + session_ttl cfg)))

  unfoldable pub redeem_found : ℕ → Membership → Result (Option Text) → Result Text
  unfolding redeem_record
  redeem_found now mem found = do
    hit ← or_deny found
    raw ← or_unknown hit
    redeem_record now mem raw

  unfoldable pub redeem : Driver → ℕ → Membership → Text → Kv → Kv × Result Text
  unfolding take_nonce redeem_found
  redeem d now mem nonce kv =
      if is_blank nonce
      then (kv, err err_denied)
      else let (kv', found) = take_nonce cfg d nonce kv in (kv', redeem_found now mem found)

  unfoldable pub refresh : ℕ → Membership → Text → Result Text
  unfolding assert_member mint
  refresh now mem token = do
    claims ← or_deny (parse codec cfg.signing_key token)
    allow_if (ltb_ℤ (pos (unix now)) claims.absolute)
    group ← or_deny (parse_jid claims.group)
    member ← or_deny (parse_jid claims.member)
    assert_member mem group member
    mint group member now claims.absolute

  unfoldable pub verify : ℕ → Text → Result Claims
  verify now token = do
    claims ← or_deny (parse codec cfg.signing_key token)
    allow_if (not (leb_ℤ claims.expires (pos (unix now)) || leb_ℤ claims.absolute (pos (unix now))))
    ok claims
