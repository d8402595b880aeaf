-- ===== src/Bot/Jobs/Loop/Days.antt =====
-- bot/schedule.go: that a daily job fires at its hour, day after day.
use botkit.Prelude.{
  ℕ, suc, ◌+◌, ◌-◌, ◌≤◌, ◌<◌, ◌≡◌, refl, ap, Bool, Option, some, List, [], ◌∷◌, arith, nat_eq, Text,
  text_eq,
}
use botkit.Schedule.{Location, clamp_hour, daily_at, loaded, until_next}
use botkit.Schedule.Calendar.{CalendarLaws, IsFirstAfter, until_hour-first, next_day}
use botkit.Bot.Jobs.{fire_job, Job}
use botkit.Store.Kv.{Kv}
use botkit.Prelude.Int.{ℤ, pos}
use botkit.Bot.Jobs.Loop.{firing_of, cancelled, rounds, Ran, Round}
use botkit.Bot.Jobs.Loop.Spacing.{rounds-next}

-- There is one firing for each round, at the first hour after the one before it has ended, but for the
-- timer's delay; and the next day's hour is the next one, if the firing has ended by then.
abbrev pub IsDaily :
    {loc : Location} {hour : ℕ} → CalendarLaws loc hour → ℕ → List Round → List Ran → Type 0
IsDaily laws now [] [] = Unit
IsDaily laws now (r ∷ rs) (x ∷ xs) =
    (d : ℕ) × IsFirstAfter laws now d
    × (x.started ≡ laws.at d + r.late)
    × (x.started ≤ x.ended)
    × (x.ended < laws.at (suc d) → IsFirstAfter laws x.ended (suc d))
    × IsDaily laws x.ended rs xs
IsDaily laws now _ _ = ⊥

module _ (utc : Location) (load : Text → Option Location) (has_kv : Bool) (name tz : Text)
    (hour : ℤ) where
  abbrev pub daily_job : Job
  daily_job = record { name = name; spec = daily_at utc load hour tz }

  until_next-daily :
      (laws : CalendarLaws (loaded utc (load tz)) (clamp_hour hour)) (r : Round) (now : ℕ)
      → (d : ℕ) × (until_next utc r.rand (daily_at utc load hour tz) now
          ≡ some (pos (laws.at d - now)))
        × IsFirstAfter laws now d
  unfolding until_next daily_at
  until_next-daily laws r now =
      let (d, same, first) = until_hour-first laws now in (d, ap some same, first)

  -- The loop of a daily job goes through all its rounds until its context is cancelled. Each firing
  -- begins when the clock of its time zone next shows its hour (kept between 0 and 23) after the one
  -- before it has ended, or after the loop began, but for the timer's delay; and if it ends before the
  -- hour of the next day, the next firing is on that day: none is skipped. The calendar of the zone has
  -- the hour once on every day, in order.
  pub rounds-IsDaily :
      (laws : CalendarLaws (loaded utc (load tz)) (clamp_hour hour)) (rs : List Round) (now : ℕ)
      (kv : Kv)
      → ((rounds utc has_kv daily_job rs now kv).1 ≡ cancelled)
        × IsDaily laws now rs (rounds utc has_kv daily_job rs now kv).0.0
  unfolding rounds
  rounds-IsDaily laws [] now kv = (refl, tt)
  rounds-IsDaily laws (r ∷ rs) now kv =
      let (d, same, first) = until_next-daily laws r now in
      let start = now + (laws.at d - now) + r.late in
      let (over, daily) =
        rounds-IsDaily laws rs (start + r.took)
          (fire_job utc has_kv (firing_of daily_job start r) kv).0 in
      rw (rounds-next utc has_kv daily_job r rs now (laws.at d - now) kv same) (
        over,
        (
          d,
          first,
          omega (arith, first.to_come),
          omega arith,
          λ before. next_day laws (start + r.took) d (omega (arith, first.to_come)) before,
          daily,
        ),
      )
