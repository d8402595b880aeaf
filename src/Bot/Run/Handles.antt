-- ===== src/Bot/Run/Handles.antt =====
-- bot/bot.go: which handles a run of the bot leaves open.
use botkit.Store.Open.{new_kv-cases}
use botkit.Transport.Opening.{new-cases, all_work}
use botkit.Prelude.{
  ℕ, ◌+◌, ◌≡◌, refl, ap, ◌∙◌, inl, inr, Bool, true, false, not, ◌&&◌, ◌||◌, Option, none, some, [],
  arith, ltb, if◌then◌else◌, nat_eq, Bool-cases, is_none, Text, codes, text_eq, is_blank,
}
use botkit.Errors.{not_paired, is, Result, ok, err}
use botkit.Jid.{JidApi}
use botkit.Transport.Presence.{connect}
use botkit.Webauth.Config.{Url, Config as WebauthConfig}
use botkit.Webauth.Auth.{new_auth}
use botkit.Bot.{Bot, Client}
use botkit.Bot.Run.{
  tell, Running, dashboard_or, with_kv, opened_client, go_on, serve_ops, served, run, World,
  Answered, wait, connected_or,
}
use botkit.Bot.Run.Lifetime.{run_events-Ran}

module _ (api : JidApi) (parse_url : Text → Result Url) (c : Client) (b : Bot) (jobs : ℕ)
    (alerts : Bool) where
  -- What the client's Connect answers.
  abbrev pub answer_of : Answered → Result (Unit {0})
  answer_of a = (connect a.session a.online).outcome

  wait-databases :
      (a : Answered) (w : World)
      → (wait api parse_url c b jobs alerts a w).0.databases ≡ w.databases
  unfolding wait
  wait-databases a w =
      let x =
        run_events-Ran api parse_url c b jobs alerts a.happenings
          (record { world = w; once = false; pending = [] }) in
      ap (λ (r : Running). r.world.databases) x.state

  connected_or-databases :
      (a : Answered) (w : World) (r : Result (Unit {0}))
      → (connected_or api parse_url c b jobs alerts a w r).0.databases ≡ w.databases
  unfolding connected_or
  connected_or-databases a w (ok _) = wait-databases a (record w { online = true })
  connected_or-databases a w (err e) = elim (Bool-cases (is e not_paired)) [
    | inr failed ↦ rw failed refl
    | inl unpaired ↦ rw unpaired (
        wait-databases a (tell api parse_url c b jobs alerts (codes "not paired") w)
        ∙ elim (Bool-cases alerts) [ inl on ↦ rw on refl | inr off ↦ rw off refl ])
  ]

  served-databases :
      (a : Answered) (w : World) (r : Result WebauthConfig)
      → (served api parse_url c b jobs alerts a w r).0.databases ≡ w.databases
  unfolding served go_on
  served-databases a w (err e) = refl
  served-databases a w (ok full) =
      connected_or-databases a (record w { serving = w.serving + 1 }) (answer_of a)

  dashboard_or-databases :
      (a : Answered) (k : Bool) (w : World) (d : Option WebauthConfig)
      → (dashboard_or api parse_url c b jobs alerts a k w d).0.databases ≡ w.databases
  unfolding dashboard_or go_on
  dashboard_or-databases a k w none =
      connected_or-databases a (record w { serving = w.serving + 1 }) (answer_of a)
  dashboard_or-databases a k w (some cfg) = served-databases a w (new_auth parse_url cfg k true)

  serve_ops-databases :
      (a : Answered) (k : Bool) (w : World)
      → (serve_ops api parse_url c b jobs alerts a k w).0.databases ≡ w.databases
  unfolding serve_ops go_on
  serve_ops-databases a k w = elim (Bool-cases (is_blank b.cfg.ops_addr)) [
    | inl off ↦ rw off (connected_or-databases a w (answer_of a))
    | inr on ↦ rw on (dashboard_or-databases a k w b.cfg.web_auth)
  ]

  -- The state store is closed however `Run` returns, and the session's database is left open exactly if
  -- it was opened: `Run` has no call that closes it.
  pub run-databases :
      (a : Answered) (w : World)
      → (run api parse_url c b jobs alerts a w).0.databases
        ≡ w.databases + (if all_work a.client then 1 else 0)
  unfolding run opened_client with_kv
  run-databases a w = elim (new-cases a.client w.databases) [
    | inr (fails, e, h) ↦ rw (h, fails) (omega arith)
    | inl (works, h) ↦
        rw (h, works)
          (elim (Bool-cases (ltb 0 jobs || not (is_none b.cfg.web_auth))) [
            | inr bare ↦
                rw bare (serve_ops-databases a false (record w { databases = w.databases + 1 }))
            | inl needed ↦
                rw needed
                  (elim (new_kv-cases a.kv_opened a.kv_pinged a.kv_created a.file
                    (w.databases + 1)) [
                      | inr (fails, e, k) ↦ rw k refl
                      | inl (opens, k) ↦ rw k (
                          omega (
                            arith,
                            serve_ops-databases a true
                                (record w { databases = w.databases + 1 + 1 }),
                          ))
                    ])
          ])
  ]

  -- Whether everything that `Run` opens can be opened.
  abbrev pub needs_kv : Bool
  needs_kv = ltb 0 jobs || not (is_none b.cfg.web_auth)

  abbrev pub all_open : Answered → Bool
  all_open a =
      all_work a.client
      && (not needs_kv || (is_none a.kv_opened && (is_none a.kv_pinged && is_none a.kv_created)))

  abbrev pub kept : ℕ → World × Result (Unit {0}) → World × Result (Unit {0})
  kept n (w, r) = (record w { databases = n }, r)

  kept-same : (n : ℕ) (x : World × Result (Unit {0})) → x.0.databases ≡ n → x ≡ kept n x
  kept-same n (w, r) h = ap (λ (m : ℕ). (record w { databases = m }, r)) h

  -- Where all can be opened, the run comes to the ops port, with the store if it is needed.
  pub run-serve_ops :
      (a : Answered) (w : World)
      → all_open a ≡ true
      → (k : Bool) × (d : ℕ) × (needs_kv ≡ true → k ≡ true)
        × (run api parse_url c b jobs alerts a w
            ≡ kept
                (w.databases + 1)
                (serve_ops api parse_url c b jobs alerts a k (record w { databases = d })))
  unfolding run opened_client with_kv
  run-serve_ops a w opens = elim (new-cases a.client w.databases) [
    | inr (fails, e, h) ↦ absurd (ground (arith, fails))
    | inl (works, h) ↦ elim (Bool-cases needs_kv) [
      | inr bare ↦ (
        false,
        w.databases + 1,
        λ n. cc,
        rw (h, bare)
            (kept-same (w.databases + 1)
              (serve_ops api parse_url c b jobs alerts a false
                (record w { databases = w.databases + 1 }))
              (serve_ops-databases a false (record w { databases = w.databases + 1 }))),
      )
      | inl needed ↦
          elim (new_kv-cases a.kv_opened a.kv_pinged a.kv_created a.file (w.databases + 1)) [
            | inr (fails, e, k) ↦ absurd (ground (arith, fails, works, needed))
            | inl (fine, k) ↦ (
              true,
              w.databases + 1 + 1,
              λ n. refl,
              rw (h, needed, k)
                  (ap
                    (λ (m : ℕ). (
                      record (serve_ops api parse_url c b jobs alerts a true
                          (record w { databases = w.databases + 1 + 1 })).0 { databases = m },
                      (serve_ops api parse_url c b jobs alerts a true
                          (record w { databases = w.databases + 1 + 1 })).1,
                    ))
                    (omega (
                      arith,
                      serve_ops-databases a true (record w { databases = w.databases + 1 + 1 }),
                    ))),
            )
          ]
    ]
  ]
