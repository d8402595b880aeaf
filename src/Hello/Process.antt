-- ===== src/Hello/Process.antt =====
-- cmd/hello/main.go: `main` from start to exit. log.Fatalf exits at once, with no deferred call.
use botkit.Prelude.{
  tally, ℕ, ◌≡◌, refl, ap, ◌∙◌, inl, inr, Bool, true, false, ◌&&◌, ◌||◌, Option, none, some, ◌++◌,
  arith, if◌then◌else◌, nat_eq, is_none, Text, codes, text_eq, is_blank,
}
use botkit.Errors.{Error, message, Result, ok, err, is_ok}
use mathlib.Core.Path.{subst}
use botkit.Jid.{JidApi}
use botkit.Webauth.Config.{Url}
use botkit.Bot.{Bot, Client}
use botkit.Bot.Run.{World, Answered, run}
use botkit.Telemetry.{Telemetry, Shutdown, init, shut_down, opens, init-cases}
use botkit.Hello.{Environment, hello_bot}

-- What is left when the process ends: its status, what log.Fatalf wrote, and what is still set up.
pub record Exit : Type 0 where
  pub status : ℕ
  pub fatal : Option Text
  pub telemetry : Telemetry
  pub world : World

-- log.Fatalf
abbrev pub fatalf : Text → Error → Telemetry → World → Exit
fatalf place e t w = record {
  status = 1;
  fatal = some (place ++ (codes ": " ++ message e));
  telemetry = t;
  world = w;
}

-- What the SDK, the client and the store answer.
pub record Outside : Type 0 where
  pub exporter : Result (Unit {0})
  pub resource_found : Result (Unit {0})
  pub client : Client
  pub answered : Answered

either_exporters :
    (b : Bool) (t u : Telemetry) (m n : ℕ)
    → t.exporters ≡ m
    → u.exporters ≡ n
    → (if b then t else u).exporters ≡ (if b then m else n)
either_exporters true t u m n h k = h
either_exporters false t u m n h k = k

module _ (api : JidApi) (parse_url : Text → Result Url) (env : Environment) (o : Outside) where
  -- The end of `main`, with its deferred calls.
  after_run : Shutdown → Telemetry → World × Result (Unit {0}) → Exit
  unfolding shut_down
  after_run how t (w, err e) = fatalf (codes "run") e t w
  after_run how t (w, ok _) = record {
    status = 0;
    fatal = none;
    telemetry = shut_down how t;
    world = w;
  }

  after_new : Shutdown → Telemetry → World → Result Bot → Exit
  unfolding after_run run
  after_new how t w (err e) = fatalf (codes "bot") e t w
  after_new how t w (ok b) = after_run how t (run api parse_url o.client b 0 false o.answered w)

  after_init : World → Telemetry × Result Shutdown → Exit
  unfolding after_new
  after_init w (t, err e) = fatalf (codes "telemetry") e t w
  after_init w (t, ok how) = after_new how t w (hello_bot api parse_url env)

  -- `main`
  unfoldable pub main : Telemetry → World → Exit
  unfolding after_init init
  main t w =
      after_init w (init (env (codes "OTEL_EXPORTER_OTLP_ENDPOINT")) o.exporter o.resource_found t)

  -- Whether a bot could be built and its run ends without an error.
  abbrev pub ran_well : World → Result Bot → Bool
  ran_well w (err e) = false
  ran_well w (ok b) = is_ok (run api parse_url o.client b 0 false o.answered w).1

  abbrev pub endpoint : Text
  endpoint = env (codes "OTEL_EXPORTER_OTLP_ENDPOINT")

  -- Whether each step of `main` works.
  abbrev pub all_well : World → Bool
  all_well w =
      (is_blank endpoint || (is_ok o.exporter && is_ok o.resource_found))
      && ran_well w (hello_bot api parse_url env)

  abbrev Ends : Bool → Telemetry → Telemetry → Exit → Type 0
  Ends well closed left x =
      (x.status ≡ (if well then 0 else 1))
      × (x.telemetry ≡ (if well then closed else left))
      × (is_none x.fatal ≡ well)

  after_run-Ends :
      (how : Shutdown) (t : Telemetry) (r : World × Result (Unit {0}))
      → Ends (is_ok r.1) (shut_down how t) t (after_run how t r)
  unfolding after_run
  after_run-Ends how t (w, err e) = (refl, refl, refl)
  after_run-Ends how t (w, ok u) = (refl, refl, refl)

  after_new-Ends :
      (how : Shutdown) (t : Telemetry) (w : World) (r : Result Bot)
      → Ends (ran_well w r) (shut_down how t) t (after_new how t w r)
  unfolding after_new
  after_new-Ends how t w (err e) = (refl, refl, refl)
  after_new-Ends how t w (ok b) =
      after_run-Ends how t (run api parse_url o.client b 0 false o.answered w)

  after_init-fails :
      (w : World) (x : Telemetry × Result Shutdown) (e : Error)
      → x.1 ≡ err e
      → Ends false x.0 x.0 (after_init w x)
  unfolding after_init
  after_init-fails w (t, err e') e h = (refl, refl, refl)
  after_init-fails w (t, ok how) e h = absurd (ground (arith, h))

  after_init-Ends :
      (w : World) (x : Telemetry × Result Shutdown) (how : Shutdown)
      → x.1 ≡ ok how
      → Ends (ran_well w (hello_bot api parse_url env)) (shut_down how x.0) x.0 (after_init w x)
  unfolding after_init
  after_init-Ends w (t, err e) how h = absurd (ground (arith, h))
  after_init-Ends w (t, ok how') how h =
      subst
        (λ (k : Shutdown).
          Ends (ran_well w (hello_bot api parse_url env)) (shut_down k t) t
            (after_new how' t w (hello_bot api parse_url env)))
        (ground (arith, h)) (after_new-Ends how' t w (hello_bot api parse_url env))

  -- The process ends with status 0, and says nothing of an error, exactly if telemetry, the bot and its
  -- run all come out without an error, and then every exporter that was opened is shut down. If one of
  -- them fails the status is 1, and the exporter that was opened stays open: nothing flushes it.
  pub main_exits :
      (t : Telemetry) (w : World)
      → ((main t w).status ≡ (if all_well w then 0 else 1))
        × (is_none (main t w).fatal ≡ all_well w)
        × ((main t w).telemetry.exporters
            ≡ (if all_well w then t.exporters else tally (opens endpoint o.exporter) t.exporters))
  unfolding main after_init
  main_exits t w = elim (init-cases endpoint o.exporter o.resource_found t) [
    | inr (e, failed, bad, left) ↦
        let (status, kept, quiet) =
          after_init-fails w (init endpoint o.exporter o.resource_found t) e failed in
        rw bad (status, quiet, ap (λ (x : Telemetry). x.exporters) kept ∙ left)
    | inl (how, set, good, left, closed) ↦
        let (status, kept, quiet) =
          after_init-Ends w (init endpoint o.exporter o.resource_found t) how set in
        rw good (
          status,
          quiet,
          ap (λ (x : Telemetry). x.exporters) kept
              ∙ either_exporters (ran_well w (hello_bot api parse_url env)) _ _ _ _ closed left,
        )
  ]
