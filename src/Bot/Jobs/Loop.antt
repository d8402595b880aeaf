-- ===== src/Bot/Jobs/Loop.antt =====
-- bot/schedule.go: the loop around a job. A timer that is set for d rings no earlier than d, and at
-- once where d is not positive.
pub mod Spacing
pub mod Days
use botkit.Schedule.{until_next, Location}
use botkit.Prelude.{ℕ, ◌+◌, Bool, Option, none, some, List, [], ◌∷◌, nat_eq, text_eq}
use botkit.Errors.{Error}
use botkit.Prelude.Int.{ℤ, pos, pos_part}
use botkit.Bot.Jobs.{Job, Firing, Fired, fire_job, stagger}
use botkit.Store.Kv.{Kv, Driver}

-- One round: the generator's numbers, how late the timer rings, what the store answers, how long the
-- firing takes, when in it the marker is set, and the error that the job returns.
pub record Round : Type 0 where
  pub rand : ℕ → ℕ
  pub late : ℕ
  pub reading : Driver
  pub writing : Driver
  pub took : ℕ
  pub set_at : ℕ
  pub failure : Option Error

-- When a firing began and ended, and what became of it.
pub record Ran : Type 0 where
  pub started : ℕ
  pub ended : ℕ
  pub fired : Fired

-- How the loop ends: its context is cancelled in a sleep, or a generator's call panics.
pub data Ending : Type 0 where
  cancelled panicked : Ending

-- When `sleepCtx` returns, if it is not cancelled.
unfoldable pub wake : (now : ℕ) → ℤ → (late : ℕ) → ℕ
wake now d late = now + pos_part d + late

abbrev pub firing_of : Job → ℕ → Round → Firing
firing_of job start r = record {
  job = job;
  now = start;
  reading = r.reading;
  writing = r.writing;
  set_at = r.set_at;
  failure = r.failure;
}

module _ (utc : Location) (has_kv : Bool) (job : Job) where
  -- A firing, where the sleep before it did not panic.
  one_round : Round → ℕ → Option ℤ → Kv → Option (Ran × Kv)
  unfolding wake fire_job
  one_round r now none kv = none
  one_round r now (some d) kv =
      let start = wake now d r.late in
      let (kv', fired) = fire_job utc has_kv (firing_of job start r) kv in
      some (record { started = start; ended = start + r.took; fired = fired }, kv')

  abbrev pub and_on : Ran → (List Ran × Kv) × Ending → (List Ran × Kv) × Ending
  and_on x ((ran, last), ending) = ((x ∷ ran, last), ending)

  go_round : Kv → Option (Ran × Kv) → (ℕ → Kv → (List Ran × Kv) × Ending) → (List Ran × Kv) × Ending
  go_round kv none on = (([], kv), panicked)
  go_round kv (some (x, kv')) on = and_on x (on x.ended kv')

  -- The rounds of the loop from an instant on, until its context is cancelled in the sleep after them.
  unfoldable pub rounds : List Round → ℕ → Kv → (List Ran × Kv) × Ending
  unfolding one_round go_round
  rounds [] now kv = (([], kv), cancelled)
  rounds (r ∷ rs) now kv =
      go_round kv (one_round r now (until_next utc r.rand job.spec now) kv) (rounds rs)

  -- `runJob` of the job at this place: the staggered start, and the loop.
  unfoldable pub run_from : (place drawn late : ℕ) → List Round → ℕ → Kv → (List Ran × Kv) × Ending
  unfolding rounds wake
  run_from place drawn late rs now kv = rounds rs (wake now (pos (stagger place drawn)) late) kv
