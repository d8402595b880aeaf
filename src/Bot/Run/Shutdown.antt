-- ===== src/Bot/Run/Shutdown.antt =====
-- bot/bot.go: what a run leaves that went on until its context ended.
use botkit.Prelude.{
  ℕ, ◌+◌, ◌-◌, ◌≡◌, refl, ap, ◌∙◌, inl, inr, Bool, true, false, ◌&&◌, List, [], ◌∷◌, ◌++◌,
  append_assoc, ltb, if◌then◌else◌, nat_eq, Bool-cases, length, any, Text, codes, text_eq, is_blank,
}
use botkit.Errors.{not_paired, is, Result, ok, err}
use botkit.Jid.{JidApi}
use botkit.Webauth.Config.{Url}
use botkit.Bot.{Bot, Client}
use botkit.Bot.Run.{Running, World, Answered, tell, wait, connected_or}
use mathlib.Core.List.{Perm}
use botkit.Transport.Opening.{HookCall}
use botkit.Bot.Run.Lifetime.{
  run_events-Ran, calls, waiting, is_connected, reasons, one_if, only_if, deliveries,
}
use botkit.Bot.Run.Handles.{kept}

-- How the connection came out: whether `Run` goes on to wait, and whether for want of a session.
abbrev pub goes_on : Result (Unit {0}) → Bool
goes_on (ok _) = true
goes_on (err e) = is e not_paired

abbrev pub is_unpaired : Result (Unit {0}) → Bool
is_unpaired (ok _) = false
is_unpaired (err e) = is e not_paired

module _ (api : JidApi) (parse_url : Text → Result Url) (c : Client) (b : Bot) (jobs : ℕ)
    (alerts : Bool) where
  -- A run that returned no error, with so many open databases and servers, the client disconnected, and
  -- some of the goroutines of its events run, in some order, where the others have not run yet. The
  -- jobs were started once if the goroutine of a connection ran and there are jobs; OnPairingLost was
  -- told of the missing session, and then of the logouts whose goroutines ran; the handlers ran for
  -- the messages whose goroutines ran and that the gates let through.
  pub record Ended (a : Answered) (unpaired : Bool) (w : World) (databases serving : ℕ)
      (x : World × Result (Unit {0})) : Type 0 where
    pub ran : List HookCall
    pub left : List HookCall
    pub each_once : Perm (ran ++ left) (calls a.happenings)
    pub waits : length left ≡ waiting a.happenings 0
    pub state : x ≡ (
      record {
        databases = databases;
        serving = serving;
        online = false;
        starts = w.starts + one_if (ltb 0 jobs && any is_connected ran);
        told = w.told ++ only_if alerts (only_if unpaired (codes "not paired" ∷ []) ++ reasons ran);
        handled = w.handled ++ deliveries api parse_url c b jobs alerts ran;
      },
      ok tt,
    )

  -- The servers that stay up where so many were up before the shutdown.
  abbrev pub shut : ℕ → ℕ
  shut n = if is_blank b.cfg.ops_addr then n else n - 1

  wait-Ended :
      (a : Answered) (w : World)
      → Ended a false w w.databases (shut w.serving) (wait api parse_url c b jobs alerts a w)
  unfolding wait
  wait-Ended a w =
      let x =
        run_events-Ran api parse_url c b jobs alerts a.happenings
          (record { world = w; once = false; pending = [] }) in
      record {
        ran = x.ran;
        left = x.left;
        each_once = x.each_once;
        waits = x.waits;
        state =
            ap
              (λ (r : Running).
                (record r.world { serving = shut r.world.serving; online = false }, ok tt))
              x.state;
      }

  -- The same from before the callback of a missing session.
  Ended-tell :
      (a : Answered) (w : World) (d s d' s' : ℕ) (x : World × Result (Unit {0}))
      → d ≡ d'
      → s ≡ s'
      → Ended a false (tell api parse_url c b jobs alerts (codes "not paired") w) d s x
      → Ended a true w d' s' x
  Ended-tell a w d s d' s' x open_same up_same e = record {
    ran = e.ran;
    left = e.left;
    each_once = e.each_once;
    waits = e.waits;
    state = (rw (open_same, up_same) at e.state) ∙ elim (Bool-cases alerts) [
      | inl on ↦ rw (on, append_assoc w.told (codes "not paired" ∷ []) (reasons e.ran)) refl
      | inr off ↦ rw off refl
    ];
  }

  tell-rest :
      (w : World)
      → ((tell api parse_url c b jobs alerts (codes "not paired") w).databases ≡ w.databases)
        × ((tell api parse_url c b jobs alerts (codes "not paired") w).serving ≡ w.serving)
  tell-rest w = elim (Bool-cases alerts) [
    | inl on ↦ rw on (refl, refl)
    | inr off ↦ rw off (refl, refl)
  ]

  -- What was open, up and online before does not matter.
  pub Ended-from :
      {a : Answered} {u : Bool} {w : World} {x : World × Result (Unit {0})} {d s t : ℕ} (d' s' : ℕ)
      (o : Bool)
      → s ≡ t
      → Ended a u (record w { databases = d'; serving = s'; online = o }) d s x
      → Ended a u w d t x
  Ended-from d' s' o same e = record {
    ran = e.ran;
    left = e.left;
    each_once = e.each_once;
    waits = e.waits;
    state = rw same at e.state;
  }

  pub connected_or-Ended :
      (a : Answered) (w : World) (r : Result (Unit {0}))
      → goes_on r ≡ true
      → Ended a
          (is_unpaired r)
          w
          w.databases
          (shut w.serving)
          (connected_or api parse_url c b jobs alerts a w r)
  unfolding connected_or
  connected_or-Ended a w (ok _) h =
      Ended-from w.databases w.serving true refl (wait-Ended a (record w { online = true }))
  connected_or-Ended a w (err e) h =
      let (d, s) = tell-rest w in
      rw h (
        Ended-tell a w _ _ w.databases (shut w.serving) _ d (ap shut s)
          (wait-Ended a (tell api parse_url c b jobs alerts (codes "not paired") w)))

  pub kept-Ended :
      (a : Answered) (u : Bool) (w : World) (d s n : ℕ) (x : World × Result (Unit {0}))
      → Ended a u w d s x
      → Ended a u w n s (kept api parse_url c b jobs alerts n x)
  kept-Ended a u w d s n x e = record {
    ran = e.ran;
    left = e.left;
    each_once = e.each_once;
    waits = e.waits;
    state = ap (kept api parse_url c b jobs alerts n) e.state;
  }
