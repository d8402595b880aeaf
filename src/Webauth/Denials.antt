-- ===== src/Webauth/Denials.antt =====
-- webauth/webauth.go: refusals are opaque, and a redeemed link is dead.
use botkit.Prelude.{
  ℕ, ◌≡◌, refl, ◌⊎◌, inl, inr, Bool, true, false, Option, none, some, [], ◌∷◌, ◌++◌, arith, nat_eq,
  Text, text_beq_refl, text_eq,
}
use botkit.Errors.{Error, Result, ok, err, ◌>>=◌}
use botkit.Jid.{JidApi}
use botkit.Store.Kv
use botkit.Store.Kv.{Kv, Driver}
use botkit.Store.Table.{select_value}
use botkit.Store.Lookup.{select_value-delete_key, TookEffect}
use botkit.Webauth.Config.{Config, single_use}
use botkit.Webauth.Codec.{Codec, Claims, CodecLaws}
use botkit.Webauth.Token.{sign}
use botkit.Webauth.Auth.{
  nonce_prefix, err_denied, Membership, or_deny, allow_if, or_unknown, redeem_record, take_nonce,
  redeem, refresh, verify,
}

-- Every failure is ErrDenied, the value itself.
pub record IsOpaque {A : Type 0} (r : Result A) : Type 0 where
  pub same : (e : Error) → r ≡ err e → e ≡ err_denied

IsOpaque-ok : {A : Type 0} (a : A) → IsOpaque (ok a)
IsOpaque-ok a = record { same = λ e h. cc }

IsOpaque-denied : {A : Type 0} → IsOpaque {A = A} (err err_denied)
IsOpaque-denied = record { same = λ e h. ground arith }

IsOpaque-or_deny : {A : Type 0} (r : Result A) → IsOpaque (or_deny r)
IsOpaque-or_deny (ok a) = IsOpaque-ok a
IsOpaque-or_deny (err e) = IsOpaque-denied

IsOpaque-allow_if : (b : Bool) → IsOpaque (allow_if b)
IsOpaque-allow_if true = IsOpaque-ok tt
IsOpaque-allow_if false = IsOpaque-denied

IsOpaque-or_unknown : (o : Option Text) → IsOpaque (or_unknown o)
IsOpaque-or_unknown none = IsOpaque-denied
IsOpaque-or_unknown (some raw) = IsOpaque-ok raw

IsOpaque-bind :
    {A B : Type 0} (m : Result A) (f : A → Result B)
    → IsOpaque m
    → ((a : A) → IsOpaque (f a))
    → IsOpaque (m >>= f)
IsOpaque-bind (ok a) f hm hf = hf a
IsOpaque-bind (err e) f hm hf = record { same = λ x h. hm.same x (ground arith) }

ruleset opaque_rules = (
  IsOpaque-ok, IsOpaque-denied, IsOpaque-or_deny, IsOpaque-allow_if, IsOpaque-or_unknown,
  IsOpaque-bind,
)

module _ (api : JidApi) (codec : Codec) (cfg : Config) (laws : CodecLaws codec) where
  IsOpaque-sign : (c : Claims) → IsOpaque (sign codec cfg.signing_key c)
  unfolding sign
  IsOpaque-sign c =
      let (bytes, e) = laws.claims_total c in record { same = λ x h. absurd (ground (arith, e)) }

  IsOpaque-redeem_record :
      (now : ℕ) (mem : Membership) (raw : Text) → IsOpaque (redeem_record api codec cfg now mem raw)
  unfolding redeem_record
  IsOpaque-redeem_record now mem raw = search (opaque_rules, IsOpaque-sign) depth 20

  IsOpaque-redeem :
      (d : Driver) (now : ℕ) (mem : Membership) (nonce : Text) (kv : Kv)
      → IsOpaque (redeem api codec cfg d now mem nonce kv).1
  unfolding redeem
  IsOpaque-redeem d now mem [] kv = IsOpaque-denied
  IsOpaque-redeem d now mem (c ∷ nonce) kv = search (opaque_rules, IsOpaque-sign) depth 25

  IsOpaque-refresh :
      (now : ℕ) (mem : Membership) (token : Text) → IsOpaque (refresh api codec cfg now mem token)
  unfolding refresh
  IsOpaque-refresh now mem token = search (opaque_rules, IsOpaque-sign) depth 20

  IsOpaque-verify : (now : ℕ) (token : Text) → IsOpaque (verify api codec cfg now token)
  unfolding verify
  IsOpaque-verify now token = search opaque_rules depth 10

  -- Whatever goes wrong at a redeem, a refresh or a check (an empty, unknown, used, corrupt or expired
  -- nonce, a forged token, a store or a WhatsApp that fails, no membership), the error is ErrDenied
  -- itself, which wraps and tells nothing.
  failures_alike :
      (d : Driver) (now : ℕ) (mem : Membership) (text : Text) (kv : Kv) (e : Error)
      → ((redeem api codec cfg d now mem text kv).1 ≡ err e)
        ⊎ (refresh api codec cfg now mem text ≡ err e)
        ⊎ (verify api codec cfg now text ≡ err e)
      → e ≡ err_denied
  failures_alike d now mem text kv e (inl h) = (IsOpaque-redeem d now mem text kv).same e h
  failures_alike d now mem text kv e (inr (inl h)) = (IsOpaque-refresh now mem text).same e h
  failures_alike d now mem text kv e (inr (inr h)) = (IsOpaque-verify now text).same e h

gone :
    (cfg : Config) (d : Driver) (nonce : Text) (kv : Kv)
    → TookEffect d
    → single_use cfg ≡ true
    → select_value (nonce_prefix ++ nonce) (take_nonce cfg d nonce kv).0.rows ≡ none
unfolding take_nonce Kv.consume
gone cfg Kv.works nonce kv h once = rw once (
    rw (
      select_value-delete_key (nonce_prefix ++ nonce) (nonce_prefix ++ nonce) kv.rows,
      text_beq_refl (nonce_prefix ++ nonce),
    ))
gone cfg (Kv.lost e) nonce kv h once = rw once (
    rw (
      select_value-delete_key (nonce_prefix ++ nonce) (nonce_prefix ++ nonce) kv.rows,
      text_beq_refl (nonce_prefix ++ nonce),
    ))
gone cfg (Kv.fails e) nonce kv h once = absurd h

module _ (api : JidApi) (codec : Codec) (cfg : Config) where
  pub redeem-missing :
      (d : Driver) (now : ℕ) (mem : Membership) (nonce : Text) (kv : Kv)
      → select_value (nonce_prefix ++ nonce) kv.rows ≡ none
      → (redeem api codec cfg d now mem nonce kv).1 ≡ err err_denied
  unfolding redeem take_nonce Kv.get Kv.consume
  redeem-missing d now mem [] kv h = refl
  redeem-missing Kv.works now mem (c ∷ nonce) kv h = ground arith
  redeem-missing (Kv.fails e) now mem (c ∷ nonce) kv h = ground arith
  redeem-missing (Kv.lost e) now mem (c ∷ nonce) kv h = ground arith

  -- Where links are single-use, once a redeem's statement took effect, granted or denied, its answer
  -- heard or lost, a later redeem of the same link is denied, whatever the member, the instant and the
  -- store's answer.
  redeem_once :
      (d d' : Driver) (now now' : ℕ) (mem mem' : Membership) (nonce : Text) (kv : Kv)
      → single_use cfg ≡ true
      → TookEffect d
      → (redeem api codec cfg d' now' mem' nonce (redeem api codec cfg d now mem nonce kv).0).1
        ≡ err err_denied
  unfolding redeem
  redeem_once d d' now now' mem mem' [] kv once h = refl
  redeem_once d d' now now' mem mem' (c ∷ nonce) kv once h =
      redeem-missing d' now' mem' (c ∷ nonce) (take_nonce cfg d (c ∷ nonce) kv).0
        (gone cfg d (c ∷ nonce) kv h once)
