-- ===== src/Schedule.antt =====
-- schedule/schedule.go: when a bot's timed jobs fire. Durations are in nanoseconds.
pub mod Bounds
pub mod Calendar
use botkit.Prelude.{
  ℕ, suc, ◌+◌, ◌-◌, ◌%◌, ◌^◌, Bool, true, false, not, Option, none, some, ltb, if◌then◌else◌,
  nat_eq, Text, text_eq,
}
use botkit.Prelude.Int.{ℤ, pos, negsuc, sub_ℕ, pos_part, ◌+ℤ◌, ◌-ℤ◌, ltb_ℤ, leb_ℤ}

-- Wrap-around of int64.
unfoldable pub wrap_64 : ℤ → ℤ
wrap_64 (pos n) = sub_ℕ ((n + 2 ^ 63) % 2 ^ 64) (2 ^ 63)
wrap_64 (negsuc n) = sub_ℕ ((2 ^ 64 + 2 ^ 63 - suc n % 2 ^ 64) % 2 ^ 64) (2 ^ 63)

-- A *time.Location: the instants of an hour on the day of an instant, and on the day after that one,
-- and the day of an instant as "YYYY-MM-DD".
pub record Location : Type 0 where
  pub today_at : (now hour : ℕ) → ℕ
  pub tomorrow_at : (now hour : ℕ) → ℕ
  pub date : ℕ → Text

pub data Kind : Type 0 where
  interval daily : Kind

pub record Spec : Type 0 where
  pub kind : Kind
  pub every : ℤ
  pub jitter : ℤ
  pub hour : ℕ
  pub loc : Option Location

unfoldable pub every_jittered : ℤ → ℤ → Spec
every_jittered d jitter = record {
  kind = interval;
  every = d;
  jitter = jitter;
  hour = 0;
  loc = none;
}

unfoldable pub every : ℤ → Spec
every d = record { kind = interval; every = d; jitter = pos 0; hour = 0; loc = none }

-- The bounds 0 and 23.
abbrev pub clamp_hour : ℤ → ℕ
clamp_hour (pos n) = if ltb 23 n then 23 else n
clamp_hour (negsuc n) = 0

abbrev pub loaded : Location → Option Location → Location
loaded utc none = utc
loaded utc (some l) = l

-- `DailyAt`; `load` is time.LoadLocation.
unfoldable pub daily_at : (utc : Location) → (load : Text → Option Location) → ℤ → Text → Spec
daily_at utc load hour tz = record {
  kind = daily;
  every = pos 0;
  jitter = pos 0;
  hour = clamp_hour hour;
  loc = some (loaded utc (load tz));
}

-- At least 0.
abbrev floor_zero : ℤ → ℤ
floor_zero d = if ltb_ℤ d (pos 0) then pos 0 else d

-- rand.Int64N(n), which panics where n is not positive, and shifts the interval.
jittered : (rand : ℕ → ℕ) → (d jitter n : ℤ) → Option ℤ
unfolding wrap_64 ◌+ℤ◌ ◌-ℤ◌
jittered rand d jitter n =
    if leb_ℤ n (pos 0)
    then none
    else some (floor_zero (wrap_64 (d +ℤ wrap_64 (pos (rand (pos_part n)) -ℤ jitter))))

-- `UntilNext` of an interval.
unfoldable pub until_interval : (rand : ℕ → ℕ) → Spec → Option ℤ
unfolding jittered
until_interval rand s =
    if ltb_ℤ (pos 0) s.jitter
    then jittered rand s.every s.jitter (wrap_64 (wrap_64 (s.jitter +ℤ s.jitter) +ℤ pos 1))
    else some (floor_zero s.every)

-- `UntilNext` of a day's hour.
unfoldable pub until_hour : Location → (hour now : ℕ) → ℤ
until_hour loc hour now =
    let next = loc.today_at now hour in
    if not (ltb now next) then pos (loc.tomorrow_at now hour) -ℤ pos now else pos next -ℤ pos now

unfoldable pub until_next : (utc : Location) → (rand : ℕ → ℕ) → Spec → ℕ → Option ℤ
unfolding until_interval until_hour
until_next utc rand s now = elim s.kind [
  | interval ↦ until_interval rand s
  | daily ↦ some (until_hour (loaded utc s.loc) s.hour now)
]

unfoldable pub is_daily : Spec → Bool
is_daily s = elim s.kind [ interval ↦ false | daily ↦ true ]

-- `DateKey`
unfoldable pub date_key : (utc : Location) → Spec → ℕ → Text
date_key utc s now = (loaded utc s.loc).date now
