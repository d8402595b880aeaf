-- ===== src/Bot/Run/Built.antt =====
-- bot/bot.go: that a dashboard which `New` accepted can be built in `Run`.

use botkit.Prelude.{
  ◌≡◌, sym, ap, ◌∙◌, inl, inr, true, none, some, arith, nat_eq, Option-cases, Text, text_eq,
}
use botkit.Errors.{Result, ok, Result-cases}
use botkit.Jid.{JidApi}
use botkit.Webauth.Config.{Url, with_defaults, validate, Config as WebauthConfig}
use botkit.Webauth.Auth.{new_auth}
use botkit.Bot.{Bot, Config, new, web_checked, groups_of}
use botkit.Bot.Gating.{new-groups}

-- `Validate` runs the checks of `webauth.New` on the configuration.
new_auth-validate :
    (parse_url : Text → Result Url) (w : WebauthConfig)
    → validate parse_url w ≡ none
    → (full : WebauthConfig) × (new_auth parse_url w true true ≡ ok full)
unfolding validate new_auth
new_auth-validate parse_url w h = elim (Result-cases (with_defaults parse_url w)) [
  | inl (full, e) ↦ (full, ground (arith, e))
  | inr (x, e) ↦ absurd (ground (arith, e))
]

web_checked-validate :
    (parse_url : Text → Result Url) (cfg : Config) (w : WebauthConfig)
    → web_checked parse_url cfg (some w) ≡ none
    → validate parse_url w ≡ none
unfolding web_checked
web_checked-validate parse_url cfg w h = elim (Option-cases (validate parse_url w)) [
  | inl e ↦ e
  | inr (x, e) ↦ absurd (ground (arith, e))
]

new-checked :
    (api : JidApi) (parse_url : Text → Result Url) (cfg : Config) (b : Bot)
    → new api parse_url cfg ≡ ok b
    → web_checked parse_url cfg cfg.web_auth ≡ none
unfolding new
new-checked api parse_url cfg b h = elim (Option-cases (web_checked parse_url cfg cfg.web_auth)) [
  | inl fine ↦ fine
  | inr (x, bad) ↦ elim (Result-cases (groups_of api cfg)) [
    | inl (g, e) ↦ absurd (ground (arith, e, bad))
    | inr (y, e) ↦ absurd (ground (arith, e))
  ]
]

-- A bot that `New` built, with whatever handlers were registered on it since.
abbrev pub IsBuilt : JidApi → (Text → Result Url) → Config → Bot → Type 0
IsBuilt api parse_url cfg b =
    (fresh : Bot) × (new api parse_url cfg ≡ ok fresh)
    × (b ≡ record fresh { on_group = b.on_group; on_dm = b.on_dm; dm_policy = b.dm_policy })

-- The dashboard of such a bot cannot fail to be built in `Run`.
pub new-new_auth :
    (api : JidApi) (parse_url : Text → Result Url) (cfg : Config) (b : Bot) (w : WebauthConfig)
    → IsBuilt api parse_url cfg b
    → b.cfg.web_auth ≡ some w
    → (full : WebauthConfig) × (new_auth parse_url w true true ≡ ok full)
new-new_auth api parse_url cfg b w (fresh, built, registered) given =
    let (groups, same) = new-groups api parse_url cfg fresh built in
    let configured : cfg.web_auth ≡ some w =
      ap (λ (k : Config). k.web_auth) (sym same)
      ∙ (ap (λ (x : Bot). x.cfg.web_auth) (sym registered) ∙ given) in
    let checked : web_checked parse_url cfg (some w) ≡ none =
      ap (web_checked parse_url cfg) (sym configured) ∙ new-checked api parse_url cfg fresh built in
    new_auth-validate parse_url w (web_checked-validate parse_url cfg w checked)
