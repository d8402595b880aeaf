-- ===== src/Bot/Jobs/Loop/Spacing.antt =====
-- bot/schedule.go: that the firings of an interval's job follow each other at its distance.
use botkit.Schedule.Bounds.{until_interval_bounds}
use botkit.Schedule.{until_next, every_jittered, Location}
use botkit.Prelude.{
  ℕ, ◌+◌, ◌-◌, ◌^◌, ◌≤◌, ◌<◌, ◌≡◌, refl, Bool, some, List, [], ◌∷◌, arith, nat_eq, All, Text,
  text_eq,
}
use botkit.Bot.Jobs.{fire_job, Job}
use botkit.Store.Kv.{Kv}
use botkit.Prelude.Int.{pos}
use botkit.Bot.Jobs.Loop.{go_round, one_round, firing_of, cancelled, wake, rounds, Ran, Round}

-- There is one firing for each round, and each begins at least `least` after the one before it has
-- ended, and at most `most`, but for the timer's delay.
abbrev pub IsSpaced : (least most now : ℕ) → List Round → List Ran → Type 0
IsSpaced least most now [] [] = Unit
IsSpaced least most now (r ∷ rs) (x ∷ xs) =
    (now + least ≤ x.started)
    × (x.started ≤ now + most + r.late)
    × (x.started ≤ x.ended)
    × IsSpaced least most x.ended rs xs
IsSpaced least most now _ _ = ⊥

-- rand.Int64N draws below its bound.
abbrev pub Draws : Round → Type 0
Draws r = (n : ℕ) → 0 < n → r.rand n < n

-- One round that is not cut short.
pub rounds-next :
    (utc : Location) (has_kv : Bool) (job : Job) (r : Round) (rs : List Round) (now d : ℕ) (kv : Kv)
    → until_next utc r.rand job.spec now ≡ some (pos d)
    → rounds utc has_kv job (r ∷ rs) now kv ≡ (
        let start = now + d + r.late in
        let (kv', fired) = fire_job utc has_kv (firing_of job start r) kv in
        let ((ran, last), ending) = rounds utc has_kv job rs (start + r.took) kv' in
        ((record { started = start; ended = start + r.took; fired = fired } ∷ ran, last), ending))
unfolding rounds one_round go_round wake
rounds-next utc has_kv job r rs now d kv h = rw h refl

module _ (utc : Location) (has_kv : Bool) (name : Text) (e j : ℕ) where
  abbrev pub jittered_job : Job
  jittered_job = record { name = name; spec = every_jittered (pos e) (pos j) }

  until_next-interval :
      (r : Round) (now : ℕ)
      → Draws r
      → e + j < 2 ^ 63
      → j < 2 ^ 62
      → (d : ℕ) × (until_next utc r.rand (every_jittered (pos e) (pos j)) now ≡ some (pos d))
        × (e - j ≤ d)
        × (d ≤ e + j)
  unfolding until_next every_jittered
  until_next-interval r now draws small low = until_interval_bounds r.rand e j draws small low

  -- The loop of an interval's job goes through all its rounds until its context is cancelled. Each
  -- firing begins at least the interval less its jitter after the one before it has ended (or after
  -- the loop began), and at most the two together, but for the timer's delay: however long a firing
  -- takes, none overlaps the next. (The jitter is below 2^62 ns and the two together below 2^63 ns.)
  pub rounds-IsSpaced :
      (rs : List Round) (now : ℕ) (kv : Kv)
      → All Draws rs
      → e + j < 2 ^ 63
      → j < 2 ^ 62
      → ((rounds utc has_kv jittered_job rs now kv).1 ≡ cancelled)
        × IsSpaced (e - j) (e + j) now rs (rounds utc has_kv jittered_job rs now kv).0.0
  unfolding rounds
  rounds-IsSpaced [] now kv draws small low = (refl, tt)
  rounds-IsSpaced (r ∷ rs) now kv (drawn, draws) small low =
      let (d, same, least, most) = until_next-interval r now drawn small low in
      let start = now + d + r.late in
      let (over, spaced) =
        rounds-IsSpaced rs (start + r.took)
          (fire_job utc has_kv (firing_of jittered_job start r) kv).0 draws small low in
      rw (rounds-next utc has_kv jittered_job r rs now d kv same)
        (over, (omega arith, omega arith, omega arith, spaced))
