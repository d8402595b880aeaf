-- ===== src/Devserver/Process.antt =====
-- examples/webauth-dev/devserver/main.go: `main` from the flags to the exit. `fatal` exits at once, with
-- no deferred call, and http.ListenAndServe returns only with an error.
use botkit.Prelude.{
  tally, ℕ, ◌≡◌, refl, ap, ◌∙◌, inl, inr, Bool, true, ◌&&◌, Option, none, some, List, [], ◌∷◌,
  nat_eq, Option-cases, is_none, Text, codes, text_eq,
}
use botkit.Errors.{Error, message, Result, ok, err}
use botkit.Prelude.Int.{ℤ}
use botkit.Store.Kv.{Kv}
use botkit.Store.Open.{new_kv-cases, new_kv}
use botkit.Webauth.Config.{Url, Config}
use botkit.Webauth.Auth.{new_auth}
use botkit.Jid.{JidApi}
use botkit.Webauth.Codec.{Codec}
use botkit.Devserver.{Dev, DevRequest, DevResponse, FakeGroup, dev_handler}

abbrev dev_api_token : Text
dev_api_token = codes "dev-api-token-not-a-secret"

abbrev dev_signing_key : Text
dev_signing_key = codes "dev-signing-key-not-a-secret"

-- The flags.
pub record Flags : Type 0 where
  pub dashboard : Text
  pub link_ttl : ℤ
  pub recheck : ℤ
  pub session_ttl : ℤ

abbrev pub dev_config : Flags → Config
dev_config f = record {
  dashboard_url = f.dashboard;
  api_token = dev_api_token;
  signing_key = dev_signing_key;
  link_ttl = f.link_ttl;
  link_single_use = none;
  session_ttl = f.session_ttl;
  recheck_interval = f.recheck;
}

abbrev pub first_members : FakeGroup
first_members =
    (codes "972500000001@s.whatsapp.net", codes "Member A")
    ∷ (codes "11223344@lid", codes "Member B (LID-only)")
    ∷ []

-- What the calls of `main` answer, and the requests until the server stops listening.
pub record Outside : Type 0 where
  pub made_dir : Option Error
  pub kv_opened : Option Error
  pub kv_pinged : Option Error
  pub kv_created : Option Error
  pub requests : List DevRequest
  pub stopped : Error

-- What is left when the process exits: its status, the error in its last log line, the handles that
-- are open on the store, and the responses that were written.
pub record Exit : Type 0 where
  pub status : ℕ
  pub logged : Text
  pub handles : ℕ
  pub responses : List DevResponse

-- `fatal`
abbrev pub fatal : Error → ℕ → List DevResponse → Exit
fatal e handles responses = record {
  status = 1;
  logged = message e;
  handles = handles;
  responses = responses;
}

module _ (api : JidApi) (codec : Codec) (parse_url : Text → Result Url) (flags : Flags)
    (o : Outside) where
  unfoldable pub answers : Config → List DevRequest → Dev → List DevResponse
  unfolding dev_handler
  answers cfg [] s = []
  answers cfg (r ∷ rest) s =
      let (s', response) = dev_handler api codec cfg r s in response ∷ answers cfg rest s'

  with_auth : ℕ → Kv → Result Config → Exit
  unfolding answers
  with_auth handles kv (err e) = fatal e handles []
  with_auth handles kv (ok cfg) =
      fatal o.stopped handles (answers cfg o.requests (record { group = first_members; kv = kv }))

  with_kv : ℕ × Result Kv → Exit
  unfolding with_auth
  with_kv (handles, err e) = fatal e handles []
  with_kv (handles, ok kv) = with_auth handles kv (new_auth parse_url (dev_config flags) true true)

  abbrev store_opened : ℕ × Result Kv
  store_opened = new_kv o.kv_opened o.kv_pinged o.kv_created (record { rows = [] }) 0

  -- `main`, in a process that holds no handle; the temporary directory is empty.
  unfoldable pub main : Exit
  unfolding with_kv new_kv
  main = elim o.made_dir [ some e ↦ fatal e 0 [] | none ↦ with_kv store_opened ]

  -- Whether the store could be opened.
  abbrev pub opened : Bool
  opened =
      is_none o.made_dir && (is_none o.kv_opened && (is_none o.kv_pinged && is_none o.kv_created))

  with_auth-exits :
      (handles : ℕ) (kv : Kv) (r : Result Config)
      → ((with_auth handles kv r).status ≡ 1) × ((with_auth handles kv r).handles ≡ handles)
  unfolding with_auth
  with_auth-exits handles kv (err e) = (refl, refl)
  with_auth-exits handles kv (ok cfg) = (refl, refl)

  with_kv-exits : (x : ℕ × Result Kv) → ((with_kv x).status ≡ 1) × ((with_kv x).handles ≡ x.0)
  unfolding with_kv
  with_kv-exits (handles, err e) = (refl, refl)
  with_kv-exits (handles, ok kv) =
      with_auth-exits handles kv (new_auth parse_url (dev_config flags) true true)

  -- However the devserver ends, by a step that fails or with the server, its status is 1, and the store
  -- that it could open is still open: the deferred Close never runs.
  main_never_closes : (main.status ≡ 1) × (main.handles ≡ tally opened 0)
  unfolding main new_kv
  main_never_closes = elim (Option-cases o.made_dir) [
    | inr (e, failed) ↦ rw failed (refl, refl)
    | inl made ↦ elim (new_kv-cases o.kv_opened o.kv_pinged o.kv_created (record { rows = [] }) 0) [
      | inl (opens, e) ↦ rw (made, opens) (exits.0, exits.1 ∙ ap (λ (x : ℕ × Result Kv). x.0) e)
      | inr (shut, x, e) ↦ rw (made, shut) (exits.0, exits.1 ∙ ap (λ (x : ℕ × Result Kv). x.0) e)
    ]
  ]
    where
      exits :
          ((with_kv store_opened).status ≡ 1) × ((with_kv store_opened).handles ≡ store_opened.0)
      exits = with_kv-exits store_opened
