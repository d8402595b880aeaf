-- ===== src/Bot/Jobs/Threads/Progress.antt =====
-- bot/schedule.go: a daily job that is not marked can always run.
use botkit.Prelude.{
  ℕ, suc, ◌<◌, ◌≡◌, refl, sym, ◌∙◌, Bool, true, false, ◌&&◌, some, ◌∷◌, arith, ◌==◌, nat_eq, Text,
  codes, text_beq_refl, text_eq,
}
use mathlib.Core.Path.{subst}
use botkit.Store.Kv
use botkit.Store.Kv.{Kv}
use botkit.Schedule.{Location, is_daily}
use botkit.Bot.Jobs.{Job, day_key}
use botkit.Bot.Jobs.Threads.{
  Works, succeeds, count, Pc, asleep, checking, running, marking, Note, quiet, began, succeeded,
  Move, System, Step, Reach, here, later, update,
}
use botkit.Bot.Jobs.Threads.Markers.{marked, is_marked-works}
use botkit.Bot.Jobs.Threads.Turns.{set_marks}

update-same : (f : ℕ → Pc) (i : ℕ) (p : Pc) → update f i p i ≡ p
update-same f i p = ground (arith)

module _ (utc : Location) (has_kv : Bool) (stops : Pc → Type 0) (n : ℕ) (jobs : ℕ → Job) (i : ℕ)
    (lt : i < n) where
  -- So many moves of this goroutine, and of no other.
  pub data Picks (s : System) : ℕ → System → Type 0 where
    unmoved : Picks s 0 s
    moved :
        {k : ℕ} {t : System} {kv' : Kv} {p' : Pc} {note : Note}
        → Picks s k t
        → Move utc has_kv Works (jobs i) t.kv (t.pc i) kv' p' note
        → Picks s (suc k) (record { kv = kv'; pc = update t.pc i p'; log = note ∷ t.log })

  Picks-Reach :
      {s : System} {k : ℕ} {t : System} → Picks s k t → Reach utc has_kv Works stops n jobs s t
  Picks-Reach unmoved = here
  Picks-Reach (moved before move) = later (Picks-Reach before) (Step.pick i lt move)

  -- The system after so many moves, with the goroutine at this place.
  abbrev Stands : ℕ → System → System → Pc → Type 0
  Stands k s t p = Picks s k t × (t.pc i ≡ p)

  go :
      (k : ℕ) (s t : System) (p p' : Pc) (kv' : Kv) (note : Note)
      → Stands k s t p
      → Move utc has_kv Works (jobs i) t.kv p kv' p' note
      → Stands (suc k) s (record { kv = kv'; pc = update t.pc i p'; log = note ∷ t.log }) p'
  go k s t p p' kv' note (r, at) m = (
    moved r (subst (λ (q : Pc). Move utc has_kv Works (jobs i) t.kv q kv' p' note) (sym at) m),
    update-same t.pc i p',
  )

  module _ (s : System) (now at : ℕ) where
    abbrev key : Text
    key = day_key utc (jobs i) now

    -- The system after each of the four moves of a run.
    abbrev woken : System
    woken = record s { pc = update s.pc i (checking key); log = quiet ∷ s.log }

    abbrev begun : System
    begun = record s { pc = update woken.pc i (running (some key)); log = began key ∷ woken.log }

    abbrev done_well : System
    done_well = record s { pc = update begun.pc i (marking key); log = succeeded key ∷ begun.log }

    abbrev pub completed : System
    completed = record {
      kv = (Kv.set Kv.works at key (codes "1") s.kv).0;
      pc = update done_well.pc i asleep;
      log = quiet ∷ done_well.log;
    }

    completed-Stands :
        (is_daily (jobs i).spec && has_kv) ≡ true
        → s.pc i ≡ asleep
        → marked key s.kv ≡ false
        → Stands 4 s completed asleep
    completed-Stands keyed sleeps fresh =
        go 3 s done_well (marking key) asleep completed.kv quiet
          (go 2 s begun (running (some key)) (marking key) s.kv (succeeded key)
            (go 1 s woken (checking key) (running (some key)) s.kv (began key)
              (go 0 s s asleep (checking key) s.kv quiet (unmoved, sleeps)
                (Move.wake_keyed now keyed))
              (Move.clear Kv.works refl (is_marked-works key s.kv ∙ fresh)))
            Move.succeed_keyed)
          (Move.mark Kv.works at refl)

    others_stay : (j : ℕ) → (i == j) ≡ false → completed.pc j ≡ s.pc j
    others_stay j other = rw other refl

    -- A system after four moves of this goroutine alone, which is one that the whole can reach, in which
    -- the job has succeeded once more, is marked and sleeps, and the others stand where they stood.
    abbrev pub Completes : Type 0
    Completes =
        (t : System) × (Picks s 4 t
          × (Reach utc has_kv Works stops n jobs s t
              × ((t.pc i ≡ asleep)
                  × ((marked key t.kv ≡ true)
                      × ((count (succeeds key) t.log ≡ suc (count (succeeds key) s.log))
                          × ((j : ℕ) → (i == j) ≡ false → t.pc j ≡ s.pc j))))))

    -- Wherever the other goroutines stand, a daily job that sleeps, and whose day is not marked, can run
    -- to its end by four moves of its own goroutine, if the store answers: it succeeds once more under
    -- its marker, which is set then, and it sleeps again. The others have not moved.
    pub can_complete :
        (is_daily (jobs i).spec && has_kv) ≡ true
        → s.pc i ≡ asleep
        → marked key s.kv ≡ false
        → Completes
    can_complete keyed sleeps fresh =
        let (reached, asleep_again) = completed-Stands keyed sleeps fresh in
        (
          completed,
          (
            reached,
            (
              Picks-Reach reached,
              (
                asleep_again,
                (
                  set_marks Kv.works at key key (codes "1") s.kv refl (text_beq_refl key),
                  (rw (text_beq_refl key) refl, others_stay),
                ),
              ),
            ),
          ),
        )
