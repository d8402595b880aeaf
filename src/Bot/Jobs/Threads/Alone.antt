-- ===== src/Bot/Jobs/Threads/Alone.antt =====
-- bot/schedule.go: a goroutine that nothing interrupts does what `fireJob` does.
use botkit.Prelude.{
  ℕ, ◌≡◌, refl, sym, ap, ◌↔◌, inl, inr, Bool, true, false, ◌&&◌, Option, none, some, List, [], ◌∷◌,
  nat_eq, Bool-cases, Text, codes, text_eq,
}
use mathlib.Core.Path.{subst}
use botkit.Store.Kv
use botkit.Store.Kv.{Kv, Driver}
use botkit.Bot.Jobs.{
  run_job, is_marked, Job, Firing, day_key, Fired, skipped, failed, done, fire_job,
}
use botkit.Errors.{Error, new_error}
use botkit.Schedule.{Location, is_daily}
use botkit.Bot.Jobs.Threads.{
  Pc, asleep, checking, running, marking, Note, quiet, began, succeeded, Move,
}

abbrev pub is_awake : Pc → Bool
is_awake asleep = false
is_awake (checking k) = true
is_awake (running held) = true
is_awake (marking k) = true

-- The store may answer a call with an error, and with an error after the write.
abbrev pub AnyAnswer : Driver → Type 0
AnyAnswer d = Unit

-- What a firing records.
abbrev pub notes_of : (keyed : Bool) → Text → Fired → List Note
notes_of false k fired = quiet ∷ quiet ∷ []
notes_of true k skipped = quiet ∷ quiet ∷ []
notes_of true k failed = quiet ∷ began k ∷ quiet ∷ []
notes_of true k done = quiet ∷ began k ∷ succeeded k ∷ quiet ∷ []

module _ (utc : Location) (has_kv : Bool) (job : Job) where
  -- The moves of one goroutine until it sleeps again.
  pub data Round : Kv → Pc → Kv → List Note → Type 0 where
    last :
        {kv kv' : Kv} {p : Pc} {note : Note}
        → Move utc has_kv AnyAnswer job kv p kv' asleep note
        → Round kv p kv' (note ∷ [])
    next :
        {kv kv₁ kv' : Kv} {p p₁ : Pc} {note : Note} {notes : List Note}
        → Move utc has_kv AnyAnswer job kv p kv₁ p₁ note
        → is_awake p₁ ≡ true
        → Round kv₁ p₁ kv' notes
        → Round kv p kv' (note ∷ notes)

  abbrev pub keyed : Bool
  keyed = is_daily job.spec && has_kv

  -- What a firing leaves in the store and records.
  abbrev pub Fires : Kv → Kv → List Note → Firing → Type 0
  Fires kv kv' notes f =
      (f.job ≡ job)
      × ((fire_job utc has_kv f kv).0 ≡ kv')
      × (notes ≡ notes_of keyed (day_key utc job f.now) (fire_job utc has_kv f kv).1)

  from_running_free :
      {kv kv' : Kv} {notes : List Note}
      → Round kv (running none) kv' notes
      → (kv ≡ kv') × (notes ≡ quiet ∷ [])
  from_running_free (last Move.fail) = (refl, refl)
  from_running_free (last Move.succeed_free) = (refl, refl)
  from_running_free (next Move.fail a r) = absurd (cc)
  from_running_free (next Move.succeed_free a r) = absurd (cc)

  abbrev firing : ℕ → Driver → Driver → ℕ → Option Error → Firing
  firing now d w at e = record {
    job = job;
    now = now;
    reading = d;
    writing = w;
    set_at = at;
    failure = e;
  }

  Fires-free :
      (kv : Kv) (now at : ℕ) (d w : Driver) (e : Option Error)
      → keyed ≡ false
      → Fires kv kv (quiet ∷ quiet ∷ []) (firing now d w at e)
  unfolding fire_job run_job
  Fires-free kv now at d w (some e) h = (refl, rw h refl, rw h refl)
  Fires-free kv now at d w none h = (refl, rw h refl, rw h refl)

  Fires-seen :
      (kv : Kv) (now at : ℕ) (d w : Driver) (e : Option Error)
      → keyed ≡ true
      → is_marked (Kv.get d (day_key utc job now) kv) ≡ true
      → Fires kv kv (quiet ∷ quiet ∷ []) (firing now d w at e)
  unfolding fire_job
  Fires-seen kv now at d w e h m = (refl, rw (h, m) refl, rw (h, m) refl)

  Fires-failed :
      (kv : Kv) (now at : ℕ) (d w : Driver) (e : Error)
      → keyed ≡ true
      → is_marked (Kv.get d (day_key utc job now) kv) ≡ false
      → Fires kv kv (quiet ∷ began (day_key utc job now) ∷ quiet ∷ []) (firing now d w at (some e))
  unfolding fire_job
  Fires-failed kv now at d w e h m = (refl, rw (h, m) refl, rw (h, m) refl)

  Fires-done :
      (kv : Kv) (now at : ℕ) (d w : Driver)
      → keyed ≡ true
      → is_marked (Kv.get d (day_key utc job now) kv) ≡ false
      → Fires kv
          (Kv.set w at (day_key utc job now) (codes "1") kv).0
          (quiet ∷ began (day_key utc job now) ∷ succeeded (day_key utc job now) ∷ quiet ∷ [])
          (firing now d w at none)
  unfolding fire_job
  Fires-done kv now at d w h m = (refl, rw (h, m) refl, rw (h, m) refl)

  from_checking :
      (now : ℕ) (k : Text) {kv kv' : Kv} {notes : List Note}
      → keyed ≡ true
      → k ≡ day_key utc job now
      → Round kv (checking k) kv' notes
      → (f : Firing) × Fires kv kv' (quiet ∷ notes) f
  from_checking now k {kv} h same (last (Move.seen d u m)) =
      (firing now d d 0 none, Fires-seen kv now 0 d d none h (rw same at m))
  from_checking now k {kv} h same (next (Move.clear d u m) b (last Move.fail)) = (
    firing now d d 0 (some (new_error [])),
    rw same (Fires-failed kv now 0 d d (new_error []) h (rw same at m)),
  )
  from_checking now k {kv} h same
        (next (Move.clear d u m) b (next Move.succeed_keyed c (last (Move.mark w at v)))) =
      (firing now d w at none, rw same (Fires-done kv now at d w h (rw same at m)))
  from_checking now k h same (next (Move.seen d u m) b r) = absurd (cc)
  from_checking now k h same (next (Move.clear d u m) b (next Move.fail c r)) = absurd (cc)
  from_checking now k h same
        (next (Move.clear d u m) b (next Move.succeed_keyed c (next (Move.mark w at v) x r))) =
      absurd (cc)

  Round-fire_job :
      {kv kv' : Kv} {notes : List Note}
      → Round kv asleep kv' notes
      → (f : Firing) × Fires kv kv' notes f
  Round-fire_job {kv} (next (Move.wake_free e) a (last Move.fail)) =
      (firing 0 Kv.works Kv.works 0 none, Fires-free kv 0 0 Kv.works Kv.works none e)
  Round-fire_job {kv} (next (Move.wake_free e) a (last Move.succeed_free)) =
      (firing 0 Kv.works Kv.works 0 none, Fires-free kv 0 0 Kv.works Kv.works none e)
  Round-fire_job (next (Move.wake_keyed now e) a r) = from_checking now _ e refl r
  Round-fire_job (next (Move.wake_free e) a (next Move.fail b r)) = absurd (cc)
  Round-fire_job (next (Move.wake_free e) a (next Move.succeed_free b r)) = absurd (cc)
  Round-fire_job (last x) = elim x [ ]

  as_fired :
      (kv kv' : Kv) (notes : List Note) (f : Firing)
      → Fires kv kv' notes f
      → Round kv asleep kv' notes
      → Round kv asleep
          (fire_job utc has_kv f kv).0
          (notes_of keyed (day_key utc job f.now) (fire_job utc has_kv f kv).1)
  as_fired kv kv' notes f (same, left, told) r = rw left (subst (Round kv asleep kv') told r)

  clear-Round :
      (kv : Kv) (now at : ℕ) (d w : Driver) (e : Option Error)
      → keyed ≡ true
      → is_marked (Kv.get d (day_key utc job now) kv) ≡ false
      → Round kv asleep
          (fire_job utc has_kv (firing now d w at e) kv).0
          (notes_of keyed (day_key utc job now) (fire_job utc has_kv (firing now d w at e) kv).1)
  clear-Round kv now at d w (some x) h m =
      as_fired kv kv _ (firing now d w at (some x)) (Fires-failed kv now at d w x h m)
        (next (Move.wake_keyed now h) refl (next (Move.clear d tt m) refl (last Move.fail)))
  clear-Round kv now at d w none h m =
      as_fired kv _ _ (firing now d w at none) (Fires-done kv now at d w h m) (
        next (Move.wake_keyed now h) refl
          (next (Move.clear d tt m) refl (next Move.succeed_keyed refl (last (Move.mark w at tt)))))

  fire_job-Round :
      (kv : Kv) (now at : ℕ) (d w : Driver) (e : Option Error)
      → Round kv asleep
          (fire_job utc has_kv (firing now d w at e) kv).0
          (notes_of keyed (day_key utc job now) (fire_job utc has_kv (firing now d w at e) kv).1)
  fire_job-Round kv now at d w e = elim (Bool-cases keyed) [
    | inr h ↦
        as_fired kv kv _ (firing now d w at e) (Fires-free kv now at d w e h)
          (next (Move.wake_free h) refl (last Move.fail))
    | inl h ↦ elim (Bool-cases (is_marked (Kv.get d (day_key utc job now) kv))) [
      | inl m ↦
          as_fired kv kv _ (firing now d w at e) (Fires-seen kv now at d w e h m)
            (next (Move.wake_keyed now h) refl (last (Move.seen d tt m)))
      | inr m ↦ clear-Round kv now at d w e h m
    ]
  ]

  filled : (f : Firing) → f.job ≡ job → firing f.now f.reading f.writing f.set_at f.failure ≡ f
  filled f same = ap (λ (j : Job). record f { job = j }) (sym same)

  fire_job-Round-any :
      (kv kv' : Kv) (notes : List Note) (f : Firing)
      → Fires kv kv' notes f
      → Round kv asleep kv' notes
  fire_job-Round-any kv kv' notes f (same, left, told) = subst (Round kv asleep kv') (sym told) (
      subst (λ (x : Kv). Round kv asleep x (recorded f)) left
        (subst (λ (g : Firing). Round kv asleep (fire_job utc has_kv g kv).0 (recorded g))
          (filled f same) (fire_job-Round kv f.now f.set_at f.reading f.writing f.failure)))
    where
      recorded : Firing → List Note
      recorded g = notes_of keyed (day_key utc job g.now) (fire_job utc has_kv g kv).1

  -- From one sleep to the next, where nothing else uses the store meanwhile, the goroutine of a job takes
  -- the store from `kv` to `kv'` and records `notes` if and only if some firing of the job by `fireJob`
  -- does: the moves are the source's accesses of the store, one by one, errors of the store included.
  pub interleaved-fire_job :
      (kv kv' : Kv) (notes : List Note)
      → Round kv asleep kv' notes ↔ ((f : Firing) × Fires kv kv' notes f)
  interleaved-fire_job kv kv' notes = (Round-fire_job, λ h. fire_job-Round-any kv kv' notes h.0 h.1)
