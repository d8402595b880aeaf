-- ===== src/Schedule/Calendar.antt =====
-- schedule/schedule.go: that `UntilNext` of a daily job leads to the next time that the clock shows its
-- hour.
use botkit.Prelude.{
  ℕ, suc, ◌-◌, ◌≤◌, ◌<◌, ◌≡◌, ap, inl, inr, arith, ltb, leb, ◌==◌, nat_eq, Bool-cases, text_eq,
  nat_beq_iff,
}
use botkit.Prelude.Int.{pos, ◌-ℤ◌}
use botkit.Schedule.{Location, until_hour}

-- What is used of a time zone's calendar, for one hour of the day: days follow each other with the
-- instants, the hour comes once on each day, and time.Date and AddDate find it.
pub record CalendarLaws (loc : Location) (hour : ℕ) : Type 0 where
  pub day : ℕ → ℕ
  pub at : ℕ → ℕ
  pub today : (now : ℕ) → loc.today_at now hour ≡ at (day now)
  pub tomorrow : (now : ℕ) → loc.tomorrow_at now hour ≡ at (suc (day now))
  pub on_its_day : (d : ℕ) → day (at d) ≡ d
  pub in_order : (a b : ℕ) → a ≤ b → day a ≤ day b

difference : (a b : ℕ) → b ≤ a → pos a -ℤ pos b ≡ pos (a - b)
unfolding ◌-ℤ◌
difference a b h = ground arith

module _ {loc : Location} {hour : ℕ} (laws : CalendarLaws loc hour) where
  open laws use {day, at, today, tomorrow, on_its_day, in_order}

  -- The first day whose hour is still to come.
  pub record IsFirstAfter (now d : ℕ) : Type 0 where
    pub to_come : now < at d
    pub first : (e : ℕ) → now < at e → d ≤ e

  pub at_later : (d e : ℕ) → d < e → at d < at e
  at_later d e lt = elim (Bool-cases (ltb (at d) (at e))) [
    | inl fine ↦ ground (arith, fine)
    | inr not_less ↦ absurd (
        omega (
          arith,
          lt,
          in_order (at e) (at d) (ground (arith, not_less)),
          on_its_day d,
          on_its_day e,
        ))
  ]

  at_in_order : (d e : ℕ) → d ≤ e → at d ≤ at e
  at_in_order d e le = elim (Bool-cases (d == e)) [
    | inl same ↦ omega (arith, ap at ((nat_beq_iff d e).0 same))
    | inr differs ↦
        let lt : d < e = ground (arith, le, differs, nat_beq_iff d e) in
        omega (arith, at_later d e lt)
  ]

  today_first : (now : ℕ) → now < at (day now) → IsFirstAfter now (day now)
  today_first now lt = record {
    to_come = lt;
    first = λ e later. omega (arith, in_order now (at e) (omega (arith, later)), on_its_day e);
  }

  tomorrow_later : (now : ℕ) → now < at (suc (day now))
  tomorrow_later now = elim (Bool-cases (ltb now (at (suc (day now))))) [
    | inl fine ↦ ground (arith, fine)
    | inr not_less ↦ absurd (
        omega (
          arith,
          in_order (at (suc (day now))) now (ground (arith, not_less)),
          on_its_day (suc (day now)),
        ))
  ]

  tomorrow_first : (now : ℕ) → at (day now) ≤ now → IsFirstAfter now (suc (day now))
  tomorrow_first now past = record {
    to_come = tomorrow_later now;
    first = λ e later. elim (Bool-cases (e == day now)) [
      | inl same ↦ absurd (omega (arith, later, past, ap at ((nat_beq_iff e (day now)).0 same)))
      | inr differs ↦
          ground (arith, differs, in_order now (at e) (omega (arith, later)), on_its_day e)
    ];
  }

  -- Between the hours of two days it is the second day's that is to come.
  pub next_day : (now d : ℕ) → at d ≤ now → now < at (suc d) → IsFirstAfter now (suc d)
  next_day now d past lt = record {
    to_come = lt;
    first = λ e later. elim (Bool-cases (leb (suc d) e)) [
      | inl fine ↦ ground (arith, fine)
      | inr less ↦
          let le : at e ≤ at d = at_in_order e d (ground (arith, less)) in
          absurd (omega (arith, le, past, later))
    ];
  }

  -- `UntilNext` is positive, and its end is the hour of the first day on which it is still to come.
  pub until_hour-first :
      (now : ℕ) → (d : ℕ) × (until_hour loc hour now ≡ pos (at d - now)) × IsFirstAfter now d
  unfolding until_hour
  until_hour-first now = elim (Bool-cases (ltb now (at (day now)))) [
    | inl later ↦ (
      day now,
      rw (today now, later) (difference (at (day now)) now (ground (arith, later))),
      today_first now (ground (arith, later)),
    )
    | inr passed ↦ (
      suc (day now),
      rw (today now, passed, tomorrow now)
          (difference (at (suc (day now))) now (omega (arith, tomorrow_later now))),
      tomorrow_first now (ground (arith, passed)),
    )
  ]
