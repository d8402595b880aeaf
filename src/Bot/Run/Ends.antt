-- ===== src/Bot/Run/Ends.antt =====
-- bot/bot.go: how a run of a bot that `New` built ends.

use botkit.Prelude.{
  ℕ, ◌+◌, ◌≡◌, refl, ap, ◌∙◌, inl, inr, Bool, true, false, Option, none, some, arith, if◌then◌else◌,
  nat_eq, Bool-cases, Text, codes, text_eq, is_blank,
}
use botkit.Errors.{not_paired, Error, wrap, is, Result, err}
use botkit.Jid.{JidApi}
use botkit.Webauth.Config.{Url, Config as WebauthConfig}
use botkit.Bot.{Bot, Client, Config}
use botkit.Bot.Run.{dashboard_or, go_on, serve_ops, served, run, World, Answered, connected_or}
use botkit.Bot.Run.Built.{new-new_auth, IsBuilt}
use botkit.Bot.Run.Handles.{answer_of, needs_kv, all_open, kept, run-serve_ops}
use botkit.Bot.Run.Shutdown.{
  goes_on, is_unpaired, Ended, shut, connected_or-Ended, kept-Ended, Ended-from,
}

module _ (api : JidApi) (parse_url : Text → Result Url) (c : Client) (b : Bot) (jobs : ℕ)
    (alerts : Bool) where
  module _ (cfg : Config) (built : IsBuilt api parse_url cfg b) where
    abbrev outcome : Answered → Bool
    outcome a = is_unpaired (answer_of api parse_url c b jobs alerts a)

    serving-Ended :
        (a : Answered) (w : World)
        → is_blank b.cfg.ops_addr ≡ false
        → goes_on (answer_of api parse_url c b jobs alerts a) ≡ true
        → Ended api parse_url c b jobs alerts a
            (outcome a)
            w
            w.databases
            w.serving
            (go_on api parse_url c b jobs alerts a (record w { serving = w.serving + 1 }))
    unfolding go_on
    serving-Ended a w addressed up =
        let down : shut api parse_url c b jobs alerts (w.serving + 1) ≡ w.serving =
          ground (arith, addressed) in
        Ended-from api parse_url c b jobs alerts w.databases (w.serving + 1) w.online down (
          connected_or-Ended api parse_url c b jobs alerts a (record w { serving = w.serving + 1 })
            (answer_of api parse_url c b jobs alerts a) up)

    dashboard_or-Ended :
        (a : Answered) (k : Bool) (w : World) (d : Option WebauthConfig)
        → b.cfg.web_auth ≡ d
        → (needs_kv api parse_url c b jobs alerts ≡ true → k ≡ true)
        → is_blank b.cfg.ops_addr ≡ false
        → goes_on (answer_of api parse_url c b jobs alerts a) ≡ true
        → Ended api parse_url c b jobs alerts a
            (outcome a)
            w
            w.databases
            w.serving
            (dashboard_or api parse_url c b jobs alerts a k w d)
    unfolding dashboard_or served
    dashboard_or-Ended a k w none configured has_kv addressed up = serving-Ended a w addressed up
    dashboard_or-Ended a k w (some web) configured has_kv addressed up =
        let opened : k ≡ true = has_kv (ground (arith, configured)) in
        let (full, authed) = new-new_auth api parse_url cfg b web built configured in
        rw (opened, authed) (serving-Ended a w addressed up)

    serve_ops-Ended :
        (a : Answered) (k : Bool) (w : World)
        → (needs_kv api parse_url c b jobs alerts ≡ true → k ≡ true)
        → goes_on (answer_of api parse_url c b jobs alerts a) ≡ true
        → Ended api parse_url c b jobs alerts a
            (outcome a)
            w
            w.databases
            w.serving
            (serve_ops api parse_url c b jobs alerts a k w)
    unfolding serve_ops go_on
    serve_ops-Ended a k w has_kv up = elim (Bool-cases (is_blank b.cfg.ops_addr)) [
      | inl off ↦
          let same : shut api parse_url c b jobs alerts w.serving ≡ w.serving =
            ground (arith, off) in
          rw off (
            Ended-from api parse_url c b jobs alerts w.databases w.serving w.online same (
              connected_or-Ended api parse_url c b jobs alerts a w
                (answer_of api parse_url c b jobs alerts a) up))
      | inr on ↦ rw on (dashboard_or-Ended a k w b.cfg.web_auth refl has_kv on up)
    ]

    -- Where all can be opened and the client connects, or has no session yet, a run of a bot that
    -- `New` built, whatever handlers were registered since, goes on until its context ends and
    -- returns no error. Each event that arrived meanwhile has started its goroutine, and each of
    -- these has run once, in whatever order, or is one of those that are pending in the end. The
    -- jobs were started once in this run if there are any and the goroutine of a connection ran,
    -- and not otherwise; OnPairingLost, if registered, was told of the missing session and of each
    -- logout whose goroutine ran; the handlers ran for the messages that the gates let through;
    -- and at the end the server of this run is shut down, the client disconnected, and the state
    -- store closed.
    pub run-Ended :
        (a : Answered) (w : World)
        → all_open api parse_url c b jobs alerts a ≡ true
        → goes_on (answer_of api parse_url c b jobs alerts a) ≡ true
        → Ended api parse_url c b jobs alerts a
            (is_unpaired (answer_of api parse_url c b jobs alerts a))
            w
            (w.databases + 1)
            w.serving
            (run api parse_url c b jobs alerts a w)
    run-Ended a w opens up =
        let (k, d, has_kv, e) = run-serve_ops api parse_url c b jobs alerts a w opens in
        rw e (
          kept-Ended api parse_url c b jobs alerts a (outcome a) w d w.serving (w.databases + 1)
            (serve_ops api parse_url c b jobs alerts a k (record w { databases = d }))
            (Ended-from api parse_url c b jobs alerts d w.serving w.online refl
              (serve_ops-Ended a k (record w { databases = d }) has_kv up)))

    served-fails :
        (a : Answered) (k : Bool) (w : World) (d : Option WebauthConfig) (e : Error)
        → b.cfg.web_auth ≡ d
        → (needs_kv api parse_url c b jobs alerts ≡ true → k ≡ true)
        → answer_of api parse_url c b jobs alerts a ≡ err e
        → is e not_paired ≡ false
        → dashboard_or api parse_url c b jobs alerts a k w d
          ≡ (record w { serving = w.serving + 1 }, err (wrap (codes "connect") e))
    unfolding dashboard_or served go_on connected_or
    served-fails a k w none e configured has_kv failed other_error = rw (failed, other_error) refl
    served-fails a k w (some web) e configured has_kv failed other_error =
        let opened : k ≡ true = has_kv (ground (arith, configured)) in
        let (full, authed) = new-new_auth api parse_url cfg b web built configured in
        rw (opened, authed, failed, other_error) refl

    -- Where all can be opened, and a bot that `New` built has a session but cannot connect, `Run`
    -- returns the error and leaves the server running, if there is an ops address, with the state
    -- store closed under it.
    pub run-connect_fails :
        (a : Answered) (w : World) (e : Error)
        → all_open api parse_url c b jobs alerts a ≡ true
        → answer_of api parse_url c b jobs alerts a ≡ err e
        → is e not_paired ≡ false
        → run api parse_url c b jobs alerts a w ≡ (
          record w {
            databases = w.databases + 1;
            serving = w.serving + (if is_blank b.cfg.ops_addr then 0 else 1);
          },
          err (wrap (codes "connect") e),
        )
    unfolding serve_ops go_on connected_or
    run-connect_fails a w e opens failed other_error =
        let (k, d, has_kv, same) = run-serve_ops api parse_url c b jobs alerts a w opens in
        same ∙ elim (Bool-cases (is_blank b.cfg.ops_addr)) [
          | inl off ↦ rw (off, failed, other_error) (ground arith)
          | inr on ↦ rw on (
              ap (kept api parse_url c b jobs alerts (w.databases + 1)) (
                served-fails a k (record w { databases = d }) b.cfg.web_auth e refl has_kv failed
                  other_error)
              ∙ ground arith)
        ]
