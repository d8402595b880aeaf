-- ===== src/Webauth/Defaults.antt =====
-- webauth/config.go: what a configuration that is accepted is worth.
use botkit.Prelude.{
  ℕ, ◌≤◌, ◌<◌, ◌≡◌, refl, sym, ap, ◌∙◌, ◌≢◌, ◌↔◌, ◌⊎◌, inl, inr, Bool, true, false, not, ◌&&◌, none,
  some, [], ◌∷◌, ◌++◌, arith, ◌==◌, nat_eq, Bool-cases, Option-cases, Text, codes, text_beq_iff,
  text_eq, is_blank, trim_space,
}
use botkit.Errors.{Result, ok, is_ok, Result-cases}
use botkit.Prelude.Int.{pos, ℤ, pos_part, leb_ℤ}
use botkit.Webauth.Config.{
  trim_slash-slash, trim_slash-cases, trim_slash, or_true, Config, Url, or_default, is_absolute,
  fill, with_defaults, single_use, default_session_ttl, default_recheck_interval,
}

-- A configuration as the rest of the package relies on it.
pub record IsUsable (c : Config) : Type 0 where
  pub has_token : c.api_token ≢ []
  pub has_key : c.signing_key ≢ []
  pub distinct : c.api_token ≢ c.signing_key
  pub link_lives : 0 < pos_part c.link_ttl
  pub session_lives : 0 < pos_part c.session_ttl
  pub recheck_lives : 0 < pos_part c.recheck_interval
  pub rechecked : pos_part c.recheck_interval ≤ pos_part c.session_ttl

module _ (parse_url : Text → Result Url) where
  -- The tests of `withDefaults`, on the configuration as it was given.
  abbrev pub is_acceptable : Config → Bool
  is_acceptable c =
      not (is_blank (trim_space c.dashboard_url))
      && is_absolute (parse_url c.dashboard_url)
      && not (is_blank c.api_token)
      && not (is_blank c.signing_key)
      && not (c.api_token == c.signing_key)
      && leb_ℤ (or_default c.recheck_interval default_recheck_interval)
          (or_default c.session_ttl default_session_ttl)

  with_defaults-fill :
      (c : Config)
      → (is_ok (with_defaults parse_url c) ≡ is_acceptable c)
        × ((c' : Config) → with_defaults parse_url c ≡ ok c' → c' ≡ fill c)
  unfolding with_defaults fill
  with_defaults-fill c = (ground arith, λ c' h. ground arith)

  fill-IsUsable : (c : Config) → is_acceptable c ≡ true → IsUsable (fill c)
  unfolding fill
  fill-IsUsable c h = record {
    has_token = ground arith;
    has_key = ground arith;
    distinct = ground (arith, text_beq_iff c.api_token c.signing_key);
    link_lives = ground arith;
    session_lives = ground arith;
    recheck_lives = ground arith;
    rechecked = ground arith;
  }

  -- An accepted configuration has secrets that are not empty and differ, positive durations, and a
  -- membership check within every session; the secrets are those given, each positive duration too,
  -- and links are single-use unless it says otherwise.
  with_defaults-IsUsable :
      (c c' : Config)
      → with_defaults parse_url c ≡ ok c'
      → IsUsable c'
        × (c'.api_token ≡ c.api_token)
        × (c'.signing_key ≡ c.signing_key)
        × (0 < pos_part c.link_ttl → c'.link_ttl ≡ c.link_ttl)
        × (0 < pos_part c.session_ttl → c'.session_ttl ≡ c.session_ttl)
        × (0 < pos_part c.recheck_interval → c'.recheck_interval ≡ c.recheck_interval)
        × (single_use c' ≡ single_use c)
  unfolding fill single_use
  with_defaults-IsUsable c c' h =
      let (accepted, filled) = with_defaults-fill c in
      rw (filled c' h) (
        fill-IsUsable c (sym accepted ∙ ap is_ok h),
        refl,
        refl,
        λ live. ground arith,
        λ live. ground arith,
        λ live. ground arith,
        ground arith,
      )

  -- A URL and two secrets that are accepted.
  pub record IsAccepted (c : Config) : Type 0 where
    pub url : Url
    pub has_url : trim_space c.dashboard_url ≢ []
    pub parses : parse_url c.dashboard_url ≡ ok url
    pub has_scheme : url.scheme ≢ []
    pub has_host : url.host ≢ []
    pub has_token : c.api_token ≢ []
    pub has_key : c.signing_key ≢ []
    pub distinct : c.api_token ≢ c.signing_key

  is_acceptable-IsAccepted : (c : Config) → is_acceptable c ≡ true → IsAccepted c
  is_acceptable-IsAccepted c h = elim (Result-cases (parse_url c.dashboard_url)) [
    | inr (x, refused) ↦ absurd (ground (arith, refused))
    | inl (url, e) ↦ record {
      url = url;
      has_url = ground arith;
      parses = e;
      has_scheme = ground (arith, e);
      has_host = ground (arith, e);
      has_token = ground arith;
      has_key = ground arith;
      distinct = ground (arith, text_beq_iff c.api_token c.signing_key);
    }
  ]

  is_blank-ne : (s : Text) → s ≢ [] → is_blank s ≡ false
  is_blank-ne [] h = absurd (h refl)
  is_blank-ne (c ∷ s) h = refl

  is_absolute-of : (c : Config) → IsAccepted c → is_absolute (parse_url c.dashboard_url) ≡ true
  is_absolute-of c a =
      rw (a.parses, is_blank-ne a.url.scheme a.has_scheme, is_blank-ne a.url.host a.has_host) refl

  IsAccepted-is_acceptable :
      (c : Config)
      → IsAccepted c
      → pos_part (fill c).recheck_interval ≤ pos_part (fill c).session_ttl
      → is_acceptable c ≡ true
  unfolding fill
  IsAccepted-is_acceptable c a within =
      let apart : (c.api_token == c.signing_key) ≡ false =
        elim (Bool-cases (c.api_token == c.signing_key)) [
          | inl same ↦ absurd (a.distinct ((text_beq_iff c.api_token c.signing_key).0 same))
          | inr apart ↦ apart
        ] in
      rw
        (
          is_blank-ne (trim_space c.dashboard_url) a.has_url,
          is_absolute-of c a,
          is_blank-ne c.api_token a.has_token,
          is_blank-ne c.signing_key a.has_key,
          apart,
        )
        (ground arith)

-- A duration that is positive is kept; another is this many nanoseconds.
abbrev pub Lasts : ℤ → ℕ → ℤ → Type 0
Lasts given n used = (0 < pos_part given → used ≡ given) × (pos_part given ≡ 0 → used ≡ pos n)

-- One slash at the end is taken off, if there is one.
abbrev pub Trimmed : Text → Text → Type 0
Trimmed given used =
    (given ≡ used ++ codes "/") ⊎ ((used ≡ given) × ((u : Text) → given ≢ u ++ codes "/"))

-- A configuration with its defaults: 15 minutes for a link, 48 hours for a session, and 1 hour between
-- the membership checks.
pub record IsFilled (c used : Config) : Type 0 where
  pub url : Trimmed c.dashboard_url used.dashboard_url
  pub token : used.api_token ≡ c.api_token
  pub key : used.signing_key ≡ c.signing_key
  pub link : Lasts c.link_ttl 900_000_000_000 used.link_ttl
  pub once : c.link_single_use ≡ none → used.link_single_use ≡ some true
  pub as_told : (b : Bool) → c.link_single_use ≡ some b → used.link_single_use ≡ some b
  pub session : Lasts c.session_ttl 172_800_000_000_000 used.session_ttl
  pub recheck : Lasts c.recheck_interval 3_600_000_000_000 used.recheck_interval

or_default-Lasts : (given : ℤ) (n : ℕ) → Lasts given n (or_default given (pos n))
or_default-Lasts given n = ((λ h. ground arith), λ h. ground arith)

Lasts-or_default : (given used : ℤ) (n : ℕ) → Lasts given n used → used ≡ or_default given (pos n)
Lasts-or_default given used n (kept, replaced) = elim (Bool-cases (leb_ℤ given (pos 0))) [
  | inl low ↦ rw low (replaced (ground arith))
  | inr high ↦ rw high (kept (ground arith))
]

fill-IsFilled : (c : Config) → IsFilled c (fill c)
unfolding fill
fill-IsFilled c = record {
  url = trim_slash-cases c.dashboard_url;
  token = refl;
  key = refl;
  link = or_default-Lasts c.link_ttl _;
  once = λ e. rw e refl;
  as_told = λ b e. rw e refl;
  session = or_default-Lasts c.session_ttl _;
  recheck = or_default-Lasts c.recheck_interval _;
}

Trimmed-trim_slash : (given used : Text) → Trimmed given used → used ≡ trim_slash given
Trimmed-trim_slash given used (inl e) = sym (ap trim_slash e ∙ trim_slash-slash used)
Trimmed-trim_slash given used (inr (same, bare)) = elim (trim_slash-cases given) [
  | inl e ↦ absurd (bare _ e)
  | inr (kept, _) ↦ same ∙ sym kept
]

IsFilled-fill : (c used : Config) → IsFilled c used → used ≡ fill c
unfolding fill
IsFilled-fill c used f =
    let told : used.link_single_use ≡ or_true c.link_single_use =
      elim (Option-cases c.link_single_use) [
        | inl e ↦ rw e (f.once e)
        | inr (b, e) ↦ rw e (f.as_told b e)
      ] in
    let url = Trimmed-trim_slash c.dashboard_url used.dashboard_url f.url in
    let link = Lasts-or_default c.link_ttl used.link_ttl _ f.link in
    let session = Lasts-or_default c.session_ttl used.session_ttl _ f.session in
    let recheck = Lasts-or_default c.recheck_interval used.recheck_interval _ f.recheck in
    cc (told, url, link, session, recheck, f.token, f.key)

-- A configuration is accepted, and is used in the following form, exactly if its dashboard URL is not
-- blank and parses with a scheme and a host, its two secrets are not empty and differ, and, with the
-- defaults in place, the recheck interval is within the session: the URL loses one slash at its end,
-- the secrets stay, a duration that is not positive becomes 15 minutes (link), 48 hours (session) or
-- 1 hour (recheck), any other stays, and links are single-use unless it says otherwise.
pub with_defaults_exact :
    (parse_url : Text → Result Url) (c used : Config)
    → (with_defaults parse_url c ≡ ok used) ↔ (
        IsAccepted parse_url c
        × IsFilled c used
        × (pos_part used.recheck_interval ≤ pos_part used.session_ttl))
with_defaults_exact parse_url c used = (
  λ h.
      let (accepted, filled) = with_defaults-fill parse_url c in
      let accepts : is_acceptable parse_url c ≡ true = sym accepted ∙ ap is_ok h in
      (
        is_acceptable-IsAccepted parse_url c accepts,
        rw (filled used h) (fill-IsFilled c),
        rw (filled used h) (fill-IsUsable parse_url c accepts).rechecked,
      ),
  λ (a, f, within).
      let same = IsFilled-fill c used f in
      let (accepted, filled) = with_defaults-fill parse_url c in
      elim (Result-cases (with_defaults parse_url c)) [
        | inl (c', e) ↦ e ∙ ap ok (filled c' e ∙ sym same)
        | inr (x, e) ↦
            absurd (
              cc (accepted, IsAccepted-is_acceptable parse_url c a (rw same at within), ap is_ok e))
      ],
)
