-- ===== src/Webauth/Config.antt =====
-- webauth/config.go. An error's text is kept to its first clause where nothing reads it.
use botkit.Prelude.{
  ℕ, ◌*◌, ◌≡◌, refl, sym, ap, ◌∙◌, ◌≢◌, ◌⊎◌, inl, inr, Bool, true, false, not, ◌||◌, Option, none,
  some, [], ◌∷◌, ◌++◌, arith, if◌then◌else◌, ◌==◌, nat_eq, Bool-cases, Text, codes, text_eq,
  is_blank, trim_space, reverse, reverse-append, reverse-reverse, nat_beq_iff,
}
use botkit.Errors.{Error, new_error, Result, ok, err}
use botkit.Prelude.Int.{ℤ, pos, leb_ℤ, ltb_ℤ}

pub record Config : Type 0 where
  pub dashboard_url : Text
  pub api_token : Text
  pub signing_key : Text
  pub link_ttl : ℤ  -- a time.Duration, in nanoseconds
  pub link_single_use : Option Bool
  pub session_ttl : ℤ
  pub recheck_interval : ℤ

-- What url.Parse finds.
pub record Url : Type 0 where
  pub scheme : Text
  pub host : Text

abbrev pub second : ℕ
second = 1_000_000_000

abbrev pub default_link_ttl : ℤ
default_link_ttl = pos (15 * 60 * second)

abbrev pub default_session_ttl : ℤ
default_session_ttl = pos (48 * 3600 * second)

abbrev pub default_recheck_interval : ℤ
default_recheck_interval = pos (3600 * second)

trim_slash_reversed : Text → Text
trim_slash_reversed [] = []
trim_slash_reversed (c ∷ s) = if c == b'/' then s else c ∷ s

-- strings.TrimSuffix(s, "/")
unfoldable pub trim_slash : Text → Text
unfolding trim_slash_reversed
trim_slash s = reverse (trim_slash_reversed (reverse s))

pub trim_slash-slash : (u : Text) → trim_slash (u ++ b'/' ∷ []) ≡ u
unfolding trim_slash trim_slash_reversed
trim_slash-slash u = rw (reverse-append u (b'/' ∷ [])) (reverse-reverse u)

slash_first :
    (r : Text)
    → (r ≡ b'/' ∷ trim_slash_reversed r)
      ⊎ ((trim_slash_reversed r ≡ r) × ((u : Text) → r ≢ b'/' ∷ u))
unfolding trim_slash_reversed
slash_first [] = inr (refl, λ u e. cc)
slash_first (c ∷ r) = elim (Bool-cases (c == b'/')) [
  | inl slash ↦ inl (rw slash (ap (λ (a : ℕ). a ∷ r) ((nat_beq_iff c b'/').0 slash)))
  | inr bare ↦ inr (rw bare refl, λ u e. ground (arith, bare, e))
]

-- What is trimmed is one slash at the end, or nothing where there is none.
pub trim_slash-cases :
    (s : Text)
    → (s ≡ trim_slash s ++ b'/' ∷ []) ⊎ ((trim_slash s ≡ s) × ((u : Text) → s ≢ u ++ b'/' ∷ []))
unfolding trim_slash
trim_slash-cases s = elim (slash_first (reverse s)) [
  | inl e ↦ inl (
      sym (reverse-reverse s)
      ∙ (ap reverse e ∙ reverse-append (b'/' ∷ []) (trim_slash_reversed (reverse s))))
  | inr (same, bare) ↦ inr (
    ap reverse same ∙ reverse-reverse s,
    λ u e. bare (reverse u) (ap reverse e ∙ reverse-append u (b'/' ∷ [])),
  )
]

-- if d <= 0 { d = fallback }
abbrev pub or_default : ℤ → ℤ → ℤ
or_default d fallback = if leb_ℤ d (pos 0) then fallback else d

-- if b == nil { b = &true }
abbrev pub or_true : Option Bool → Option Bool
or_true none = some true
or_true (some b) = some b

-- err != nil || u.Scheme == "" || u.Host == ""
abbrev pub is_absolute : Result Url → Bool
is_absolute (ok u) = not (is_blank u.scheme || is_blank u.host)
is_absolute (err e) = false

abbrev pub refuse : Text → Result Config
refuse m = err (new_error m)

-- The second half of `withDefaults`, which fills the timing fields.
unfoldable pub fill : Config → Config
unfolding trim_slash
fill c = record c {
  dashboard_url = trim_slash c.dashboard_url;
  link_ttl = or_default c.link_ttl default_link_ttl;
  session_ttl = or_default c.session_ttl default_session_ttl;
  recheck_interval = or_default c.recheck_interval default_recheck_interval;
  link_single_use = or_true c.link_single_use;
}

unfoldable pub check_times : Config → Result Config
check_times c =
    if ltb_ℤ c.session_ttl c.recheck_interval
    then refuse (codes "webauth: RecheckInterval exceeds SessionTTL")
    else ok c

module _ (parse_url : Text → Result Url) where
  unfoldable pub with_defaults : Config → Result Config
  unfolding check_times
  with_defaults c =
      if is_blank (trim_space c.dashboard_url)
      then refuse (codes "webauth: DashboardURL is required")
      else if not (is_absolute (parse_url c.dashboard_url))
      then refuse (codes "webauth: DashboardURL must be an absolute URL")
      else if is_blank c.api_token
      then refuse (codes "webauth: APIToken is required")
      else if is_blank c.signing_key
      then refuse (codes "webauth: SigningKey is required")
      else if c.api_token == c.signing_key
      then refuse (codes "webauth: APIToken and SigningKey must differ")
      else check_times (fill c)

  drop_config : Result Config → Option Error
  drop_config (ok c) = none
  drop_config (err e) = some e

  unfoldable pub validate : Config → Option Error
  unfolding with_defaults drop_config
  validate c = drop_config (with_defaults c)

-- c.LinkSingleUse == nil || *c.LinkSingleUse
unfoldable pub single_use : Config → Bool
single_use c = elim c.link_single_use [ none ↦ true | some b ↦ b ]

trim_slash_test : trim_slash (codes "https://d/") ≡ codes "https://d"
unfolding trim_slash
trim_slash_test = refl
