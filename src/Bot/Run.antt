-- ===== src/Bot/Run.antt =====
-- bot/bot.go: `Run`, from opening the session to the shutdown. The hooks and handlers that events start
-- run as goroutines, each at a moment of its own after its event, or not before `Run` returns.
pub mod Lifetime
pub mod Built
pub mod Handles
pub mod Shutdown
pub mod Ends
use botkit.Prelude.{
  ℕ, zero, suc, ◌+◌, ◌-◌, ◌*◌, ◌/◌, ◌%◌, ◌^◌, ◌≤◌, ◌<◌, String, ◌≡◌, refl, sym, ap, ap₂, ◌∙◌, ◌≢◌,
  ◌↔◌, ◌⊎◌, inl, inr, Bool, true, false, not, ◌&&◌, ◌||◌, Option, none, some, List, [], ◌∷◌, ◌++◌,
  map, append_assoc, append-nil, arith, ltb, leb, if◌then◌else◌, Eq, ◌==◌, nat_eq, Bool-cases,
  Option-cases, is_none, length, length-append, any, Any, any_iff, Any-map, All, All-append,
  length-map, Text, codes, text_beq, text_beq_refl, text_beq_iff, text_eq, is_blank, has_prefix,
  contains, is_space, trim_left, trim_space, push_head, split, intercalate, Lacks, split_lacking,
  split_first, intercalate-split, split-Lacks, split-intercalate, has_prefix-append, Solid,
  Solid-append, trim_space-Solid, trim_space-return, map-append, reverse, reverse-append,
  reverse-reverse, nat_beq, nat_beq_iff,
}
use botkit.Errors.{
  Sentinel, not_in_group, group_not_found, not_logged_in, peer_unreachable, bot_wide, not_paired,
  denied, other, same_sentinel, Error, plain, wrap, join, message, is, new_error, Result, ok, err,
  ◌>>=◌, ◌>>◌, in_context, is_error, is_ok, Result-cases, >>=-eq-ok,
}
use botkit.Jid.{JidApi}
use botkit.Store.Kv.{Kv}
use botkit.Store.Open.{new_kv}
use botkit.Transport.Presence.{Session, connect}
use botkit.Transport.Opening
use botkit.Transport.Opening.{
  Answers, ClientEvent, Hooks, HookCall, no_call, call_connected, call_logged_out, call_message,
  handle_event,
}
use botkit.Webauth.Config.{Url, Config as WebauthConfig}
use botkit.Webauth.Auth.{new_auth}
use botkit.Bot.Message.{InboundMessage}
use botkit.Bot.{Bot, Client, Reaches, deliver}

-- What the process holds and has done. `serving` counts the ops servers that were started and not shut
-- down (whether one can listen only goes to the log), `starts` the calls of `startJobs`; `told` are the
-- reasons that OnPairingLost was called with, and `handled` the handlers that ran.
pub record World : Type 0 where
  pub databases : ℕ
  pub serving : ℕ
  pub online : Bool
  pub starts : ℕ
  pub told : List Text
  pub handled : List (Reaches × InboundMessage)

-- What is local to one call of `Run`: the flag of its `startOnce`, and the goroutines that its events
-- started and that have not run yet, in the order in which they were started.
pub record Running : Type 0 where
  pub world : World
  pub once : Bool
  pub pending : List HookCall

-- While `Run` waits: an event arrives, or the goroutine at some place among the pending ones runs.
pub data Happening : Type 0 where
  arrives : ClientEvent → Happening
  runs : ℕ → Happening

-- What the calls of `Run` answer, and what happens until the context ends.
pub record Answered : Type 0 where
  pub client : Answers
  pub kv_opened : Option Error
  pub kv_pinged : Option Error
  pub kv_created : Option Error
  pub file : Kv
  pub session : Session
  pub online : Result (Unit {0})
  pub happenings : List Happening

abbrev pub all_hooks : Hooks
all_hooks = record { on_connected = true; on_logged_out = true; on_message = true }

-- The goroutine that a call of a hook starts: `dispatch` starts none for the bot's own messages.
abbrev pub started : HookCall → List HookCall
started no_call = []
started (call_message evt) = if evt.is_from_me then [] else call_message evt ∷ []
started call = call ∷ []

-- The element at a place, and the others.
unfoldable pub pick : ℕ → List HookCall → Option (HookCall × List HookCall)
pick i [] = none
pick zero (call ∷ calls) = some (call, calls)
pick (suc i) (call ∷ calls) = elim (pick i calls) [
  | none ↦ none
  | some (found, rest) ↦ some (found, call ∷ rest)
]

module _ (api : JidApi) (parse_url : Text → Result Url) (c : Client) (b : Bot) (jobs : ℕ)
    (alerts : Bool) where
  -- The callback, if one is registered.
  abbrev pub tell : Text → World → World
  tell reason w = if alerts then record w { told = w.told ++ reason ∷ [] } else w

  -- `startOnce.Do`, where there are jobs.
  abbrev pub start_once : Running → Running
  start_once r =
      if ltb 0 jobs && not r.once
      then record r { once = true; world = record r.world { starts = r.world.starts + 1 } }
      else r

  add_handled : Option (Reaches × InboundMessage) → World → World
  add_handled none w = w
  add_handled (some d) w = record w { handled = w.handled ++ d ∷ [] }

  called : HookCall → Running → Running
  unfolding add_handled
  called no_call r = r
  called call_connected r = start_once r
  called (call_logged_out reason) r = record r { world = tell reason r.world }
  called (call_message evt) r = record r { world = add_handled (deliver api c b evt) r.world }

  called_at : Option (HookCall × List HookCall) → Running → Running
  unfolding called
  called_at none r = r
  called_at (some (call, rest)) r = called call (record r { pending = rest })

  unfoldable pub run_events : List Happening → Running → Running
  unfolding called_at handle_event pick
  run_events [] r = r
  run_events (arrives e ∷ hs) r =
      run_events hs (record r { pending = r.pending ++ started (handle_event all_hooks e) })
  run_events (runs i ∷ hs) r = run_events hs (called_at (pick i r.pending) r)

  -- From the wait on: what happens until the context ends, then the shutdown of this run's server, if it
  -- has one, and the disconnect.
  wait : Answered → World → World × Result (Unit {0})
  unfolding run_events
  wait a w =
      let last =
        (run_events a.happenings (record { world = w; once = false; pending = [] })).world in
      let servers = if is_blank b.cfg.ops_addr then last.serving else last.serving - 1 in
      (record last { serving = servers; online = false }, ok tt)

  pub connected_or : Answered → World → Result (Unit {0}) → World × Result (Unit {0})
  unfolding wait
  connected_or a w (ok _) = wait a (record w { online = true })
  connected_or a w (err e) =
      if is e not_paired
      then wait a (tell (codes "not paired") w)
      else (w, err (wrap (codes "connect") e))

  pub go_on : Answered → World → World × Result (Unit {0})
  unfolding connected_or connect
  go_on a w = connected_or a w (connect a.session a.online).outcome

  pub served : Answered → World → Result WebauthConfig → World × Result (Unit {0})
  unfolding go_on
  served a w (err e) = (w, err e)
  served a w (ok cfg) = go_on a (record w { serving = w.serving + 1 })

  pub dashboard_or :
      Answered → (has_kv : Bool) → World → Option WebauthConfig → World × Result (Unit {0})
  unfolding served
  dashboard_or a has_kv w none = go_on a (record w { serving = w.serving + 1 })
  dashboard_or a has_kv w (some cfg) = served a w (new_auth parse_url cfg has_kv true)

  pub serve_ops : Answered → (has_kv : Bool) → World → World × Result (Unit {0})
  unfolding dashboard_or
  serve_ops a has_kv w =
      if is_blank b.cfg.ops_addr then go_on a w else dashboard_or a has_kv w b.cfg.web_auth

  -- The deferred close of the state store.
  abbrev closing : World × Result (Unit {0}) → World × Result (Unit {0})
  closing (w, r) = (record w { databases = w.databases - 1 }, r)

  with_kv : Answered → World → ℕ × Result Kv → World × Result (Unit {0})
  unfolding serve_ops
  with_kv a w (handles, err e) =
      (record w { databases = handles }, err (wrap (codes "open state kv") e))
  with_kv a w (handles, ok kv) = closing (serve_ops a true (record w { databases = handles }))

  opened_client : Answered → World → ℕ × Result (Unit {0}) → World × Result (Unit {0})
  unfolding with_kv new_kv
  opened_client a w (handles, err e) = (record w { databases = handles }, err e)
  opened_client a w (handles, ok _) =
      if ltb 0 jobs || not (is_none b.cfg.web_auth)
      then with_kv a w (new_kv a.kv_opened a.kv_pinged a.kv_created a.file handles)
      else serve_ops a false (record w { databases = handles })

  -- `Run`
  unfoldable pub run : Answered → World → World × Result (Unit {0})
  unfolding opened_client Opening.new
  run a w = opened_client a w (Opening.new a.client w.databases)
