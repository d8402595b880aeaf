-- ===== src/Bot/Jobs.antt =====
-- bot/schedule.go: firing scheduled jobs, and the marker that keeps a daily job to once a day.
pub mod Daily
pub mod Loop
pub mod Threads
mod Starts
use botkit.Prelude.{
  ℕ, ◌+◌, ◌*◌, Bool, true, false, ◌&&◌, Option, none, some, ◌++◌, if◌then◌else◌, nat_eq, Text,
  codes, text_eq,
}
use botkit.Errors.{Error, Result, ok, err}
use botkit.Store.Kv
use botkit.Store.Kv.{Kv, Driver}
use botkit.Schedule.{Spec, Location, is_daily, date_key}

pub record Job : Type 0 where
  pub name : Text
  pub spec : Spec

-- One firing: the job, the instant, what the store answers, and the error that the job returns. The
-- marker is set at `set_at`, in seconds.
pub record Firing : Type 0 where
  pub job : Job
  pub now : ℕ
  pub reading : Driver
  pub writing : Driver
  pub set_at : ℕ
  pub failure : Option Error

abbrev pub day_key : Location → Job → ℕ → Text
day_key utc job now = codes "sched:" ++ (job.name ++ (codes ":" ++ date_key utc job.spec now))

-- What became of a firing.
pub data Fired : Type 0 where
  skipped failed done : Fired

-- `_, done, _ := Get`: an error counts as absent.
abbrev pub is_marked : Result (Option Text) → Bool
is_marked (ok (some v)) = true
is_marked (ok none) = false
is_marked (err e) = false

marked_done : Location → Firing → Kv → Kv
unfolding Kv.set
marked_done utc f kv = (Kv.set f.writing f.set_at (day_key utc f.job f.now) (codes "1") kv).0

-- The run itself; the marker is set after a success of a daily job.
run_job : Location → Firing → Bool → Kv → Kv × Fired
unfolding marked_done
run_job utc f keyed kv = elim f.failure [
  | some e ↦ (kv, failed)
  | none ↦ (if keyed then marked_done utc f kv else kv, done)
]

-- `fireJob`; `has_kv` is whether the bot opened its store.
unfoldable pub fire_job : Location → Bool → Firing → Kv → Kv × Fired
unfolding run_job is_daily Kv.get
fire_job utc has_kv f kv =
    let keyed = is_daily f.job.spec && has_kv in
    if keyed && is_marked (Kv.get f.reading (day_key utc f.job f.now) kv)
    then (kv, skipped)
    else run_job utc f keyed kv

-- A job's `UntilNext`-th start is delayed by its place: 5 seconds each and a drawn part of 5 seconds, in
-- nanoseconds (`drawn` is in milliseconds).
abbrev pub stagger : (place drawn : ℕ) → ℕ
stagger place drawn = place * 5_000_000_000 + drawn * 1_000_000
