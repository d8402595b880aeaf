-- ===== src/Examples/LifetimeRuns.antt =====
-- `Run` of bot/bot.go: runs of the theorems.
use botkit.Bot.Adapter.Manual.{calls_made-pairs}
use botkit.Transport.Presence.Manual.{asks_pairing, pairing_calls}
use botkit.Pairing.Cooldown.{is_pair_route}
use botkit.Identity.{normalize}
use botkit.Bot.Run.Handles.{run-databases}
use botkit.Bot.Run.Shutdown.{Ended}
use botkit.Bot.Run.Ends.{run-Ended, run-connect_fails}
use botkit.Bot.Run.Built.{IsBuilt}
use botkit.Examples.BotRuns.{utc, client, from, parse_url, bot, cfg}
use botkit.Examples.Libraries.{at_parse, at_api}
use botkit.Transport.Opening.{logged_out, received, connected, Answers}
use botkit.Jid.{Jid}
use botkit.Bot.{deliver, handed, dispatch, dms_from_anyone, Bot, new, Config}
use botkit.Transport.Presence.{connect}
use botkit.Bot.Run.{Happening, arrives, runs, Answered, World, run}
use botkit.Pairing.{Server, endpoints, too_soon, handler}
use botkit.Http.{Request, route, method_post, bearer}
use botkit.Bot.Jobs.Loop.{cancelled, rounds, Round}
use botkit.Bot.Jobs.Loop.Spacing.{IsSpaced, Draws, jittered_job, rounds-IsSpaced}
use botkit.Bot.Adapter.{Link, calls_made}
use botkit.Store.Kv.{works}
use botkit.Transport.Presence.{ready, Call}
use botkit.Bot.Jobs.Loop.Days.{daily_job, IsDaily, rounds-IsDaily}
use botkit.Schedule.Calendar.{CalendarLaws}
use botkit.Schedule.{Location}
use botkit.Prelude.Int.{pos}
use botkit.Prelude.{
  ℕ, suc, ◌+◌, ◌-◌, ◌*◌, ◌/◌, ◌≡◌, refl, ◌≢◌, true, false, Option, none, some, List, [], ◌∷◌, arith,
  nat_eq, any, codes, text_beq, text_eq, trim_space, split,
}
use botkit.Errors.{Error, wrap, is, new_error, Result, ok, err}
use botkit.Examples.TransportRuns.{team, ann}

-- A bot with an ops port, both handlers, and one job.
abbrev ops_cfg : Config
ops_cfg = record cfg { ops_addr = codes ":8080" }

abbrev ops_bot : Bot
ops_bot = record bot { cfg = ops_cfg; on_group = true; on_dm = true; dm_policy = dms_from_anyone }

ops_bot-IsBuilt : IsBuilt at_api parse_url ops_cfg ops_bot
unfolding new text_beq trim_space at_parse split
ops_bot-IsBuilt = (record bot { cfg = ops_cfg }, refl, refl)

abbrev all_fine : Answers
all_fine = record { opened = none; pinged = none; upgraded = none; device = none }

-- A run with these events and this answer of whatsmeow.
abbrev run_of : Option Jid → Result (Unit {0}) → List Happening → Answered
run_of id online happenings = record {
  client = all_fine;
  kv_opened = none;
  kv_pinged = none;
  kv_created = none;
  file = record { rows = [] };
  session = record { id = id; is_connected = false; is_logged_in = false };
  online = online;
  happenings = happenings;
}

abbrev pub idle : World
idle = record { databases = 0; serving = 0; online = false; starts = 0; told = []; handled = [] }

-- Two connections, a message in between, and a logout; the goroutine of the second connection runs
-- first, then those of the logout and of the message, and the other has not run in the end.
abbrev pub busy : Answered
busy = run_of (some ann) (ok tt) (
    arrives connected
    ∷ arrives (received (from team))
    ∷ arrives connected
    ∷ runs 2
    ∷ arrives (logged_out (codes "401"))
    ∷ runs 2
    ∷ runs 1
    ∷ [])

run-Ended_example :
    Ended at_api parse_url client ops_bot 1 true busy false idle 1 0
      (run at_api parse_url client ops_bot 1 true busy idle)
unfolding connect
run-Ended_example =
    run-Ended at_api parse_url client ops_bot 1 true ops_cfg ops_bot-IsBuilt busy idle refl refl

started_once :
    ((run at_api parse_url client ops_bot 1 true busy idle).0.starts ≡ 1)
    × ((run at_api parse_url client ops_bot 1 true busy idle).0.told ≡ codes "401" ∷ [])
unfolding run connect deliver handed dispatch text_beq
started_once = (refl, refl)

abbrev refusal : Error
refusal = new_error (codes "dial")

run-connect_fails_example :
    run at_api parse_url client ops_bot 1 true (run_of (some ann) (err refusal) []) idle
    ≡ (record idle { databases = 1; serving = 1 }, err (wrap (codes "connect") refusal))
unfolding connect is
run-connect_fails_example =
    run-connect_fails at_api parse_url client ops_bot 1 true ops_cfg ops_bot-IsBuilt
      (run_of (some ann) (err refusal) []) idle refusal refl refl refl

run-databases_example : (run at_api parse_url client ops_bot 1 true busy idle).0.databases ≡ 1
run-databases_example = run-databases at_api parse_url client ops_bot 1 true busy idle

-- Two rounds of a job every 100 ns, give or take 10, of which the first takes long.
abbrev round : ℕ → Round
round took = record {
  rand = λ n. n - 1;
  late = 1;
  reading = works;
  writing = works;
  took = took;
  set_at = 0;
  failure = none;
}

drawn-Draws : (took : ℕ) → Draws (round took)
drawn-Draws took n positive = omega arith

rounds-IsSpaced_example :
    ((rounds utc true
        (jittered_job utc true (codes "tick") 100 10)
        (round 500 ∷ round 2 ∷ [])
        0
        (record { rows = [] })).1
      ≡ cancelled)
    × IsSpaced 90 110 0
        (round 500 ∷ round 2 ∷ [])
        (rounds utc true
          (jittered_job utc true (codes "tick") 100 10)
          (round 500 ∷ round 2 ∷ [])
          0
          (record { rows = [] })).0.0
rounds-IsSpaced_example =
    rounds-IsSpaced utc true (codes "tick") 100 10 (round 500 ∷ round 2 ∷ []) 0
      (record { rows = [] }) (drawn-Draws 500, (drawn-Draws 2, tt)) (omega arith) (omega arith)

-- A zone without clock changes, in nanoseconds.
abbrev day_length : ℕ
day_length = 86_400_000_000_000

abbrev hour_length : ℕ
hour_length = 3_600_000_000_000

abbrev zone : Location
zone = record {
  today_at = λ now hour. now / day_length * day_length + hour * hour_length;
  tomorrow_at = λ now hour. suc (now / day_length) * day_length + hour * hour_length;
  date = λ now. codes "2026-01-01";
}

zone-laws : CalendarLaws zone 9
zone-laws = record {
  day = λ now. now / day_length;
  at = λ d. d * day_length + 9 * hour_length;
  today = λ now. refl;
  tomorrow = λ now. refl;
  on_its_day = λ d. omega arith;
  in_order = λ a b le. omega (arith, le);
}

abbrev two_days : List Round
two_days = round 500 ∷ round 2 ∷ []

rounds-IsDaily_example :
    ((rounds zone true
        (daily_job zone (λ tz. none) true (codes "audit") [] (pos 9))
        two_days
        0
        (record { rows = [] })).1
      ≡ cancelled)
    × IsDaily zone-laws 0 two_days
        (rounds zone true
          (daily_job zone (λ tz. none) true (codes "audit") [] (pos 9))
          two_days
          0
          (record { rows = [] })).0.0
rounds-IsDaily_example =
    rounds-IsDaily zone (λ tz. none) true (codes "audit") [] (pos 9) zone-laws two_days 0
      (record { rows = [] })

abbrev new_link : Link
new_link = record {
  session = record { id = none; is_connected = false; is_logged_in = false };
  answers = record {
    qr = ok tt;
    online = ok tt;
    event = ready;
    code = λ digits. ok (codes "ABCD");
  };
  all_groups = ok [];
}

abbrev pair_request : Request
pair_request = record {
  method = method_post;
  path = codes "/pair";
  authorization = bearer (codes "T");
}

abbrev ops_server : Server
ops_server = record { token = codes "T"; last_pair = none }

abbrev made : List Call
made =
    calls_made at_api (codes "972") (codes "0500000001") new_link (record { check = 5; stamp = 6 })
      pair_request ops_server

asked : any asks_pairing made ≡ true
unfolding calls_made handler text_beq normalize
asked = refl

calls_made-pairs_example :
    (is_pair_route (route endpoints (codes "/pair")) ≡ true)
    × (method_post ≡ method_post)
    × (bearer (codes "T") ≡ bearer (codes "T"))
    × (too_soon none 5 ≡ false)
    × (new_link.session.id ≡ none)
    × (codes "0500000001" ≢ [])
    × (made ≡ pairing_calls (normalize (codes "972") (codes "0500000001")))
calls_made-pairs_example =
    calls_made-pairs at_api (codes "972") (codes "0500000001") new_link
      (record { check = 5; stamp = 6 }) pair_request ops_server asked
