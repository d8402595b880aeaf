-- ===== src/Examples/ThreadRuns.antt =====
-- Runs of the goroutines of two daily jobs over one store.
use botkit.Prelude.{
  ℕ, zero, suc, ◌+◌, ◌/◌, ◌%◌, ◌≤◌, ◌<◌, ◌≡◌, refl, ap, ◌↔◌, true, none, some, [], ◌∷◌, ◌++◌, arith,
  nat_eq, length, Text, codes, text_beq, text_eq,
}
use botkit.Prelude.Int.{pos}
use botkit.Store.Kv
use botkit.Store.Kv.{Kv}
use botkit.Schedule.{Location, daily_at, date_key, is_daily}
use botkit.Bot.Jobs.{Job, Firing, day_key}
use botkit.Bot.Jobs.Threads.{
  Works, begins, succeeds, count, Pc, asleep, checking, running, marking, quiet, began, succeeded,
  Move, System, Step, Reach, here, later, update, all_asleep,
}
use botkit.Bot.Jobs.Threads.Markers.{marked}
use botkit.Store.Table.{select_value}
use botkit.Store.Uniqueness.{expire_op, apply}
use botkit.Webauth.Auth.{nonce_prefix}
use botkit.Bot.Jobs.Threads.Kept.{marked_for_good}
use botkit.Bot.Jobs.Threads.Once.{successes_bound, lapses, lapsed}
use botkit.Bot.Jobs.Threads.Turns.{slips}
use botkit.Bot.Jobs.Threads.Progress.{Completes, can_complete}
use botkit.Bot.Jobs.Threads.Alone.{Round, Fires, interleaved-fire_job}

abbrev utc : Location
utc = record {
  today_at = λ now hour. now;
  tomorrow_at = λ now hour. now;
  date = λ now. codes "2026-01-0" ++ ((49 + now / 100 % 9) ∷ []);
}

abbrev jobs : ℕ → Job
jobs zero = record { name = codes "audit"; spec = daily_at utc (λ tz. none) (pos 9) [] }
jobs (suc n) = record { name = codes "digest"; spec = daily_at utc (λ tz. none) (pos 9) [] }

abbrev start : System
start = record { kv = record { rows = [] }; pc = all_asleep; log = [] }

abbrev key : Text
key = day_key utc (jobs 0) 109

-- The first job has run and is marked.
abbrev ran : System
ran = record {
  kv = (Kv.set Kv.works 110 key (codes "1") start.kv).0;
  pc =
      update
        (update (update (update all_asleep 0 (checking key)) 0 (running (some key))) 0
          (marking key))
        0 asleep;
  log = quiet ∷ succeeded key ∷ began key ∷ quiet ∷ [];
}

one_run : Reach utc true Works (λ (p : Pc). Unit) 2 jobs start ran
unfolding daily_at date_key is_daily Kv.get Kv.set text_beq
one_run =
    later
      (later
        (later (later here (Step.pick 0 (omega arith) (Move.wake_keyed 109 refl)))
          (Step.pick 0 (omega arith) (Move.clear Kv.works refl refl)))
        (Step.pick 0 (omega arith) Move.succeed_keyed))
      (Step.pick 0 (omega arith) (Move.mark Kv.works 110 refl))

names : (i j : ℕ) → i < 2 → j < 2 → (jobs i).name ≡ (jobs j).name → i ≡ j
names zero zero li lj e = refl
names zero (suc j) li lj e = absurd (omega (arith, ap length e))
names (suc i) zero li lj e = absurd (omega (arith, ap length e))
names (suc i) (suc j) li lj e = omega arith

dates : (i now : ℕ) → i < 2 → length (date_key utc (jobs i).spec now) ≡ 10
unfolding date_key daily_at
dates zero now lt = refl
dates (suc i) now lt = refl

-- The process stops at the check of the first job, in the run of the second, and the dashboard sweeps.
abbrev resumed : System
resumed = record {
  kv = apply (expire_op Kv.works true 900 nonce_prefix 0) ran.kv;
  pc = all_asleep;
  log = quiet ∷ quiet ∷ ran.log;
}

stopped : Reach utc true Works (λ (p : Pc). Unit) 2 jobs ran resumed
unfolding daily_at date_key is_daily Kv.get Kv.set text_beq
stopped =
    later
      (later
        (later (later here (Step.pick 0 (omega arith) (Move.wake_keyed 150 refl)))
          (Step.pick 1 (omega arith) (Move.wake_keyed 151 refl)))
        (Step.dashboard (expire_op Kv.works true 900 nonce_prefix 0) refl))
      (Step.restart (λ i. tt))

marked_for_good_example :
    (marked (day_key utc (jobs 0) 109) resumed.kv ≡ true)
    × (count (begins (day_key utc (jobs 0) 109)) resumed.log
        ≡ count (begins (day_key utc (jobs 0) 109)) ran.log)
unfolding Kv.set text_beq select_value date_key daily_at
marked_for_good_example = marked_for_good utc true 2 jobs (jobs 0) 109 stopped refl

interleaved-fire_job_example :
    Round utc true (jobs 0) start.kv asleep start.kv (quiet ∷ began key ∷ quiet ∷ [])
    ↔ ((f : Firing) × Fires utc true (jobs 0) start.kv start.kv (quiet ∷ began key ∷ quiet ∷ []) f)
interleaved-fire_job_example =
    interleaved-fire_job utc true (jobs 0) start.kv start.kv (quiet ∷ began key ∷ quiet ∷ [])

-- The process is killed between the success and the Set, twice over: the job succeeds twice on the day.
abbrev killed_twice : System
killed_twice = record {
  kv = start.kv;
  pc = all_asleep;
  log = succeeded key ∷ began key ∷ quiet ∷ succeeded key ∷ began key ∷ quiet ∷ [];
}

abbrev killed_run : Reach utc true Works (λ (p : Pc). Unit) 2 jobs start killed_twice
unfolding daily_at date_key is_daily Kv.get Kv.set text_beq
killed_run =
    later
      (later
        (later
          (later
            (later
              (later
                (later (later here (Step.pick 0 (omega arith) (Move.wake_keyed 109 refl)))
                  (Step.pick 0 (omega arith) (Move.clear Kv.works refl refl)))
                (Step.pick 0 (omega arith) Move.succeed_keyed))
              (Step.restart (λ i. tt)))
            (Step.pick 0 (omega arith) (Move.wake_keyed 120 refl)))
          (Step.pick 0 (omega arith) (Move.clear Kv.works refl refl)))
        (Step.pick 0 (omega arith) Move.succeed_keyed))
      (Step.restart (λ i. tt))

successes_bound_example :
    count (succeeds (day_key utc (jobs 0) 109)) killed_twice.log
    ≤ suc (lapses (day_key utc (jobs 0) 109) 0 killed_run)
successes_bound_example =
    successes_bound utc true Works (λ (p : Pc). Unit) 2 jobs names dates 109 0 (omega arith)
      killed_run

two_lapses : lapses (day_key utc (jobs 0) 109) 0 killed_run ≡ 2
unfolding lapses lapsed slips text_beq date_key daily_at killed_run
two_lapses = refl

twice_on_a_day : count (succeeds (day_key utc (jobs 0) 109)) killed_twice.log ≡ 2
unfolding text_beq date_key daily_at
twice_on_a_day = refl

can_complete_example : Completes utc true (λ (p : Pc). Unit) 2 jobs 1 (omega arith) resumed 160 161
unfolding Kv.set Kv.delete_expired text_beq select_value date_key daily_at is_daily
can_complete_example =
    can_complete utc true (λ (p : Pc). Unit) 2 jobs 1 (omega arith) resumed 160 161 refl refl refl
