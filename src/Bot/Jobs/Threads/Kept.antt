-- ===== src/Bot/Jobs/Threads/Kept.antt =====
-- bot/schedule.go: a day that has been marked never begins again, through restarts and sweeps.
use botkit.Prelude.{
  ℕ, ◌≡◌, refl, ap, ◌∙◌, Bool, true, false, not, Option, arith, nat_eq, is_none, Text, codes,
  text_beq_iff, text_eq,
}
use botkit.Store.Kv
use botkit.Store.Kv.{Kv}
use botkit.Store.Lookup.{select_value-upsert}
use botkit.Bot.Jobs.Threads.Markers.{marked, is_marked-works, dashboard_keeps}
use botkit.Bot.Jobs.{Job, day_key, is_marked}
use botkit.Bot.Jobs.{Location}
use botkit.Bot.Jobs.Threads.{count, begins, Pc, Note, Move, System, Step, Reach}
use botkit.Bot.Jobs.Threads.{Works}

pub get-Works :
    (d : Kv.Driver) (k : Text) (kv : Kv) → Works d → is_marked (Kv.get d k kv) ≡ marked k kv
get-Works d k kv w = ap (λ (d : Kv.Driver). is_marked (Kv.get d k kv)) w ∙ is_marked-works k kv

upsert_keeps :
    (now : ℕ) (k c v : Text) (kv : Kv)
    → marked k kv ≡ true
    → marked k (Kv.set Kv.works now c v kv).0 ≡ true
unfolding Kv.set
upsert_keeps now k c v kv h =
    ap (λ (o : Option Text). not (is_none o))
      (select_value-upsert k (record { key = c; value = v; updated_at = now }) kv.rows)
    ∙ ground (arith, h)

pub set_keeps :
    (d : Kv.Driver) (now : ℕ) (k c v : Text) (kv : Kv)
    → marked k kv ≡ true
    → marked k (Kv.set d now c v kv).0 ≡ true
unfolding Kv.set
set_keeps Kv.works now k c v kv h = upsert_keeps now k c v kv h
set_keeps (Kv.fails e) now k c v kv h = h
set_keeps (Kv.lost e) now k c v kv h = upsert_keeps now k c v kv h

Move-begins :
    {utc : Location} {has_kv : Bool} {job : Job} {kv kv' : Kv} {p p' : Pc} {note : Note} (k : Text)
    → Move utc has_kv Works job kv p kv' p' note
    → marked k kv ≡ true
    → (marked k kv' ≡ true) × (begins k note ≡ false)
Move-begins k (Move.wake_keyed now e) h = (h, refl)
Move-begins k (Move.wake_free e) h = (h, refl)
Move-begins k (Move.seen d w e) h = (h, refl)
Move-begins {kv = kv} k (Move.clear {k = c} d w e) h =
    (h, grind (arith, h, e, get-Works d c kv w, text_beq_iff c k))
Move-begins k Move.fail h = (h, refl)
Move-begins k Move.succeed_free h = (h, refl)
Move-begins k Move.succeed_keyed h = (h, refl)
Move-begins {kv = kv} k (Move.mark {k = c} d now w) h = (set_keeps d now k c (codes "1") kv h, refl)

module _ (utc : Location) (has_kv : Bool) (n : ℕ) (jobs : ℕ → Job) (job : Job) (now : ℕ) where
  Step-kept :
      {s t : System}
      → Step utc has_kv Works (λ (p : Pc). Unit {0}) n jobs s t
      → marked (day_key utc job now) s.kv ≡ true
      → (marked (day_key utc job now) t.kv ≡ true)
        × (count (begins (day_key utc job now)) t.log ≡ count (begins (day_key utc job now)) s.log)
  Step-kept (Step.pick i lt m) h =
      let r = Move-begins (day_key utc job now) m h in (r.0, rw r.1 refl)
  Step-kept {s} (Step.dashboard w d) h =
      (ap (λ (o : Option Text). not (is_none o)) (dashboard_keeps w s.kv utc job now d) ∙ h, refl)
  Step-kept (Step.restart stops) h = (h, refl)

  -- A daily job whose day is marked never begins that day's run again: the marker stays and the runs
  -- begun under it stay the same number, whatever the goroutines of the jobs, the dashboard's nonces
  -- and sweeps, and restarts of the process at any moment do. The store answers every call.
  pub marked_for_good :
      {s t : System}
      → Reach utc has_kv Works (λ (p : Pc). Unit {0}) n jobs s t
      → marked (day_key utc job now) s.kv ≡ true
      → (marked (day_key utc job now) t.kv ≡ true)
        × (count (begins (day_key utc job now)) t.log ≡ count (begins (day_key utc job now)) s.log)
  marked_for_good Reach.here h = (h, refl)
  marked_for_good (Reach.later r step) h =
      let before = marked_for_good r h in
      let after = Step-kept step before.0 in (after.0, after.1 ∙ before.1)
