-- ===== src/Bot/Jobs/Starts.antt =====
-- bot/schedule.go: registering jobs, and their staggered starts.
use botkit.Prelude.{
  ℕ, suc, ◌+◌, ◌*◌, ◌≤◌, ◌<◌, ◌≡◌, refl, ap, List, [], ◌∷◌, ◌++◌, map, arith, nat_eq, text_eq,
}
use botkit.Bot.Jobs.{Job, stagger}

-- `OnSchedule`
abbrev on_schedule : Job → List Job → List Job
on_schedule j jobs = jobs ++ j ∷ []

-- `startJobs` from this place on: each job with the delay of its goroutine; `draw` is rand.Int64N(5000)
-- in each round.
start_jobs : (draw : ℕ → ℕ) → (place : ℕ) → List Job → List (Job × ℕ)
start_jobs draw place [] = []
start_jobs draw place (j ∷ jobs) =
    (j, stagger place (draw place)) ∷ start_jobs draw (suc place) jobs

abbrev AllFrom : ℕ → List (Job × ℕ) → Type 0
AllFrom least [] = Unit
AllFrom least ((j, delay) ∷ rest) = (least ≤ delay) × AllFrom least rest

abbrev IsAscending : List (Job × ℕ) → Type 0
IsAscending [] = Unit
IsAscending ((j, delay) ∷ rest) = AllFrom (delay + 1) rest × IsAscending rest

start_jobs-AllFrom :
    (draw : ℕ → ℕ) (place least : ℕ) (jobs : List Job)
    → least ≤ place * 5_000_000_000
    → AllFrom least (start_jobs draw place jobs)
unfolding start_jobs
start_jobs-AllFrom draw place least [] h = tt
start_jobs-AllFrom draw place least (j ∷ jobs) h =
    (omega (arith, h), start_jobs-AllFrom draw (suc place) least jobs (omega (arith, h)))

start_jobs-IsAscending :
    (draw : ℕ → ℕ) (place : ℕ) (jobs : List Job)
    → ((i : ℕ) → draw i < 5000)
    → IsAscending (start_jobs draw place jobs)
unfolding start_jobs
start_jobs-IsAscending draw place [] drawn = tt
start_jobs-IsAscending draw place (j ∷ jobs) drawn = (
  start_jobs-AllFrom draw (suc place) (stagger place (draw place) + 1) jobs
      (omega (arith, drawn place)),
  start_jobs-IsAscending draw (suc place) jobs drawn,
)

start_jobs-map :
    (draw : ℕ → ℕ) (place : ℕ) (jobs : List Job)
    → map (λ (s : Job × ℕ). s.0) (start_jobs draw place jobs) ≡ jobs
unfolding start_jobs
start_jobs-map draw place [] = refl
start_jobs-map draw place (j ∷ jobs) =
    ap (λ (l : List Job). j ∷ l) (start_jobs-map draw (suc place) jobs)

-- Jobs that are registered one after the other start in that order, each once and no two at one
-- moment, and a job that is registered last starts after all the others.
jobs_started :
    (draw : ℕ → ℕ) (jobs : List Job) (j : Job)
    → ((i : ℕ) → draw i < 5000)
    → (map (λ (s : Job × ℕ). s.0) (start_jobs draw 0 (on_schedule j jobs)) ≡ jobs ++ j ∷ [])
      × IsAscending (start_jobs draw 0 (on_schedule j jobs))
jobs_started draw jobs j drawn = (
  start_jobs-map draw 0 (on_schedule j jobs),
  start_jobs-IsAscending draw 0 (on_schedule j jobs) drawn,
)
