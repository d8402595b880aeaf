-- ===== src/Bot/Jobs/Daily.antt =====
-- bot/schedule.go: how often a daily job runs.
use botkit.Store.Table.{select_value}
use botkit.Prelude.{
  ℕ, ◌≡◌, refl, sym, ◌≢◌, ◌⊎◌, inl, inr, Bool, true, ◌&&◌, none, some, List, [], ◌∷◌, arith, ◌==◌,
  nat_eq, Bool-cases, Option-cases, All, Text, codes, text_beq_iff, text_eq,
}
use botkit.Errors.{ok}
use botkit.Store.Kv
use botkit.Store.Kv.{Kv, Driver}
use botkit.Store.Lookup.{get-set}
use botkit.Schedule.{Location, is_daily}
use botkit.Bot.Jobs.{is_marked, Firing, day_key, Fired, done, marked_done, run_job, fire_job}

-- The markers of the successful runs of daily jobs in a sequence of firings, in order.
abbrev key_if : Fired → Bool → Text → List Text → List Text
key_if done true key rest = key ∷ rest
key_if _ _ key rest = rest

unfoldable pub completed : Location → List Firing → Kv → List Text
unfolding fire_job
completed utc [] kv = []
completed utc (f ∷ firings) kv =
    let (kv', fired) = fire_job utc true f kv in
    key_if fired (is_daily f.job.spec) (day_key utc f.job f.now) (completed utc firings kv')

-- The store answers each of its calls.
abbrev pub Answered : Firing → Type 0
Answered f = (f.reading ≡ Kv.works) × (f.writing ≡ Kv.works)

-- No element stands twice.
abbrev Distinct : List Text → Type 0
Distinct [] = Unit
Distinct (k ∷ ks) = All (λ j. j ≢ k) ks × Distinct ks

-- A key without a marker.
abbrev Unmarked : Kv → Text → Type 0
Unmarked kv key = Kv.get Kv.works key kv ≡ ok none

get_works :
    (key : Text) (kv : Kv)
    → (Kv.get Kv.works key kv ≡ ok none) ⊎ ((v : Text) × (Kv.get Kv.works key kv ≡ ok (some v)))
unfolding Kv.get
get_works key kv = elim (Option-cases (select_value key kv.rows)) [
  | inl e ↦ inl (rw e refl)
  | inr (v, e) ↦ inr (v, rw e refl)
]

-- All that a firing can do to the store is to set its marker.
pub fire_job-store :
    (utc : Location) (has_kv : Bool) (f : Firing) (kv : Kv)
    → ((fire_job utc has_kv f kv).0 ≡ kv)
      ⊎ ((fire_job utc has_kv f kv).0
          ≡ (Kv.set f.writing f.set_at (day_key utc f.job f.now) (codes "1") kv).0)
unfolding fire_job run_job marked_done
fire_job-store utc has_kv f kv = elim (Bool-cases (is_daily f.job.spec && has_kv)) [
  | inr loose ↦ elim (Option-cases f.failure) [
    | inl fine ↦ inl (rw (loose, fine) refl)
    | inr (e, bad) ↦ inl (rw (loose, bad) refl)
  ]
  | inl keyed ↦ elim (Bool-cases (is_marked (Kv.get f.reading (day_key utc f.job f.now) kv))) [
    | inl there ↦ inl (rw (keyed, there) refl)
    | inr absent ↦ elim (Option-cases f.failure) [
      | inl fine ↦ inr (rw (keyed, absent, fine) refl)
      | inr (e, bad) ↦ inl (rw (keyed, absent, bad) refl)
    ]
  ]
]

-- What one firing does where the store answers.
fire_job-cases :
    (utc : Location) (f : Firing) (kv : Kv)
    → Answered f
    → ((fire_job utc true f kv).0 ≡ kv)
        × ((rest : List Text)
            → key_if (fire_job utc true f kv).1 (is_daily f.job.spec) (day_key utc f.job f.now) rest
              ≡ rest)
      ⊎ (Unmarked kv (day_key utc f.job f.now)
          × ((fire_job utc true f kv).0
              ≡ (Kv.set Kv.works f.set_at (day_key utc f.job f.now) (codes "1") kv).0)
          × ((rest : List Text)
              → key_if
                  (fire_job utc true f kv).1
                  (is_daily f.job.spec)
                  (day_key utc f.job f.now)
                  rest
                ≡ day_key utc f.job f.now ∷ rest))
unfolding fire_job run_job marked_done
fire_job-cases utc f kv (reads, writes) = elim (Bool-cases (is_daily f.job.spec)) [
  | inr loose ↦ elim (Option-cases f.failure) [
    | inl fine ↦ inl (rw (loose, fine) (refl, λ rest. refl))
    | inr (e, bad) ↦ inl (rw (loose, bad) (refl, λ rest. refl))
  ]
  | inl daily ↦ elim (get_works (day_key utc f.job f.now) kv) [
    | inr (v, there) ↦ inl (rw (daily, reads, there) (refl, λ rest. refl))
    | inl absent ↦ elim (Option-cases f.failure) [
      | inr (e, bad) ↦ inl (rw (daily, reads, absent, bad) (refl, λ rest. refl))
      | inl fine ↦ inr (
        absent,
        rw (daily, reads, absent, fine, writes) refl,
        λ rest. rw (daily, reads, absent, fine) refl,
      )
    ]
  ]
]

-- A marker that is absent after another one was set was absent before, and is another.
before_set :
    (now : ℕ) (key other_key : Text) (kv : Kv)
    → Unmarked (Kv.set Kv.works now key (codes "1") kv).0 other_key
    → (other_key ≢ key) × Unmarked kv other_key
before_set now key other_key kv h =
    let seen = get-set Kv.works now key other_key (codes "1") kv tt in
    elim (Bool-cases (key == other_key)) [
      | inl same ↦ absurd (ground (arith, seen, same))
      | inr differs ↦ (
        λ e. ground (arith, differs, (text_beq_iff key other_key).1 (sym e)),
        ground (arith, seen, differs),
      )
    ]

All-map :
    {P Q : Text → Type 0} (keys : List Text) → ((k : Text) → P k → Q k) → All P keys → All Q keys
All-map [] f h = tt
All-map (k ∷ keys) f (p, h) = (f k p, All-map keys f h)

completed-Unmarked :
    (utc : Location) (firings : List Firing) (kv : Kv)
    → All Answered firings
    → All (Unmarked kv) (completed utc firings kv) × Distinct (completed utc firings kv)
unfolding completed
completed-Unmarked utc [] kv h = (tt, tt)
completed-Unmarked utc (f ∷ firings) kv (now, later) = elim (fire_job-cases utc f kv now) [
  | inl (same, none_added) ↦ rw (none_added, same) (completed-Unmarked utc firings kv later)
  | inr (absent, set, added) ↦
      let (fresh, apart) = completed-Unmarked utc firings (fire_job utc true f kv).0 later in
      let was : (k : Text)
          → Unmarked (fire_job utc true f kv).0 k
          → (k ≢ day_key utc f.job f.now) × Unmarked kv k =
        λ k u. before_set f.set_at (day_key utc f.job f.now) k kv (rw set at u) in
      rw (added (completed utc firings (fire_job utc true f kv).0)) (
        (absent, All-map _ (λ k u. (was k u).1) fresh),
        (All-map _ (λ k u. (was k u).0) fresh, apart),
      )
]

-- While the store answers its calls, no two successful runs of daily jobs have the same marker (the
-- job's name and the day), whatever jobs fire, at whatever instants, in whatever order, and whichever
-- fail; nor does a job run whose marker was in the store before, from an earlier process.
completed-Distinct :
    (utc : Location) (firings : List Firing) (kv : Kv)
    → All Answered firings
    → Distinct (completed utc firings kv) × All (Unmarked kv) (completed utc firings kv)
completed-Distinct utc firings kv h =
    let (unmarked, apart) = completed-Unmarked utc firings kv h in (apart, unmarked)
