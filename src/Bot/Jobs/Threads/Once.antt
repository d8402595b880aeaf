-- ===== src/Bot/Jobs/Threads/Once.antt =====
-- bot/schedule.go: a daily job succeeds at most once on a day.
use botkit.Prelude.{
  ℕ, suc, ◌≤◌, ◌<◌, ◌≡◌, refl, sym, ap, ◌∙◌, inl, inr, Bool, false, not, Option, [], ◌∷◌, arith,
  if◌then◌else◌, ◌==◌, nat_eq, Bool-cases, is_none, length, Text, text_beq, text_beq_iff, text_eq,
}
use botkit.Bot.Jobs.Threads.Turns.{
  slips, in_mark, restart-Fits, Fits, about, own-Move, other-Move, kept-Fits, is_marking-in_mark,
}
use mathlib.Core.Path.{subst}
use botkit.Schedule.{date_key}
use botkit.Store.Kv
use botkit.Store.Kv.{Kv}
use botkit.Bot.Jobs.{day_key, Job}
use botkit.Bot.Jobs.{Location}
use botkit.Bot.Jobs.Threads.{
  tally, quiet, all_asleep, Step, Reach, is_marking, update, count, System, Works, succeeds, Pc,
  Note, Move,
}
use botkit.Bot.Jobs.Threads.Markers.{dashboard_keeps, day_key-name}

-- The lapses of a run under the marker `k` of the job `i`: a move of a goroutine that slips, and a
-- restart between the success of the job and the Set of its marker.
module _ {utc : Location} {has_kv : Bool} {answers : Kv.Driver → Type 0} {stops : Pc → Type 0}
    {n : ℕ} {jobs : ℕ → Job} (k : Text) (i : ℕ) where
  unfoldable pub lapsed : {s t : System} → Step utc has_kv answers stops n jobs s t → Bool
  unfolding slips
  lapsed (Step.pick j lj m) = slips k m
  lapsed (Step.dashboard w d) = false
  lapsed {s} (Step.restart stop) = in_mark k (s.pc i)

  unfoldable pub lapses : {s t : System} → Reach utc has_kv answers stops n jobs s t → ℕ
  lapses Reach.here = 0
  lapses (Reach.later r step) = tally (lapsed step) (lapses r)

module _ (utc : Location) (has_kv : Bool) (answers : Kv.Driver → Type 0) (stops : Pc → Type 0)
    (n : ℕ) (jobs : ℕ → Job)
    (names : (i j : ℕ) → i < n → j < n → (jobs i).name ≡ (jobs j).name → i ≡ j)
    (dates : (i now : ℕ) → i < n → length (date_key utc (jobs i).spec now) ≡ 10) (day : ℕ) (i : ℕ)
    (lt : i < n) where
  abbrev key : Text
  key = day_key utc (jobs i) day

  apart :
      (j : ℕ)
      → j < n
      → (j == i) ≡ false
      → (now : ℕ) → text_beq (day_key utc (jobs j) now) key ≡ false
  apart j lj ne now = elim (Bool-cases (text_beq (day_key utc (jobs j) now) key)) [
    | inl same ↦ ground (
      arith,
      ne,
      names j i lj lt (
          day_key-name utc (jobs j) (jobs i) now day (dates j now lj ∙ sym (dates i day lt))
            ((text_beq_iff (day_key utc (jobs j) now) key).0 same)),
    )
    | inr other ↦ other
  ]

  record Inv (l : ℕ) (s : System) : Type 0 where
    own : Fits key s.kv (s.pc i) (count (succeeds key) s.log) l
    others : (j : ℕ) → j < n → (j == i) ≡ false → about key (s.pc j) ≡ false

  Pick-own :
      (s : System) (l j : ℕ) {kv' : Kv} {p' : Pc} {note : Note}
      → j < n
      → (m : Move utc has_kv answers (jobs j) s.kv (s.pc j) kv' p' note) → Inv l s
      → Fits key kv'
          (update s.pc j p' i)
          (count (succeeds key) (note ∷ s.log))
          (tally (slips key m) l)
  Pick-own s l j {kv'} {p'} {note} lj m inv = elim (Bool-cases (j == i)) [
    | inl same ↦
        subst (λ (b : Bool). Fits key kv' (if b then p' else s.pc i) c' l') (sym same)
          (own-Move key c l m
            (subst (λ (x : ℕ). Fits key s.kv (s.pc x) c l) (sym (ground (arith, same))) inv.own))
    | inr other ↦
        subst (λ (b : Bool). Fits key kv' (if b then p' else s.pc i) c' l') (sym other)
          (let (away, still, safe, keeps) =
              other-Move key m (apart j lj other) (inv.others j lj other) in
            kept-Fits key _ _ _ _ l note (slips key m) inv.own still safe keeps)
  ]
    where
      c : ℕ
      c = count (succeeds key) s.log

      c' : ℕ
      c' = count (succeeds key) (note ∷ s.log)

      l' : ℕ
      l' = tally (slips key m) l

  Pick-others :
      (s : System) (l j : ℕ) {kv' : Kv} {p' : Pc} {note : Note}
      → j < n
      → Move utc has_kv answers (jobs j) s.kv (s.pc j) kv' p' note
      → Inv l s
      → (a : ℕ) → a < n
      → (a == i) ≡ false
      → about key (update s.pc j p' a) ≡ false
  Pick-others s l j {kv'} {p'} lj m inv a la ne = elim (Bool-cases (j == a)) [
    | inl same ↦
        let other : (j == i) ≡ false = ground (arith, same, ne) in
        rw same (other-Move key m (apart j lj other) (inv.others j lj other)).0
    | inr other ↦ rw other (inv.others a la ne)
  ]

  Step-Inv :
      {s t : System} (l : ℕ) (step : Step utc has_kv answers stops n jobs s t)
      → Inv l s
      → Inv (tally (lapsed key i step) l) t
  unfolding lapsed
  Step-Inv {s} l (Step.pick j lj m) inv = record {
    own = Pick-own s l j lj m inv;
    others = Pick-others s l j lj m inv;
  }
  Step-Inv {s} l (Step.dashboard w d) inv = record {
    own = kept-Fits key _ _ _ _ l quiet false inv.own refl refl (λ m.
        ap (λ (o : Option Text). not (is_none o)) (dashboard_keeps w s.kv utc (jobs i) day d) ∙ m);
    others = inv.others;
  }
  Step-Inv {s} l (Step.restart stop) inv = record {
    own = restart-Fits key s.kv (s.pc i) _ l inv.own;
    others = λ j lj ne. refl;
  }

  Reach-Inv :
      {s t : System} (r : Reach utc has_kv answers stops n jobs s t)
      → Inv 0 s
      → Inv (lapses key i r) t
  unfolding lapses
  Reach-Inv Reach.here inv = inv
  Reach-Inv (Reach.later r step) inv = Step-Inv (lapses key i r) step (Reach-Inv r inv)

  -- A daily job succeeds under one day's marker at most once, and once more for each lapse: a Get of the
  -- marker that the store did not answer before a run of the job, a Set of the marker that the store
  -- refused, and a restart of the process between a success of the job and that Set. So it is however
  -- the goroutines of the jobs, the dashboard and restarts of the process interleave, and whatever the
  -- store holds at the start. The conditions: the jobs have different names, their dates have ten
  -- characters, and the process starts with every goroutine asleep.
  pub successes_bound :
      {kv : Kv} {t : System}
      (r : Reach utc has_kv answers stops n jobs (record { kv = kv; pc = all_asleep; log = [] }) t)
      → count (succeeds (day_key utc (jobs i) day)) t.log
        ≤ suc (lapses (day_key utc (jobs i) day) i r)
  successes_bound r =
      (Reach-Inv r (record {
        own = (omega (arith), λ h. omega (arith), λ q. absurd (omega (arith, q)));
        others = λ j lj ne. refl;
      })).own.0

module _ (utc : Location) (has_kv : Bool) (n : ℕ) (jobs : ℕ → Job)
    (names : (i j : ℕ) → i < n → j < n → (jobs i).name ≡ (jobs j).name → i ≡ j)
    (dates : (i now : ℕ) → i < n → length (date_key utc (jobs i).spec now) ≡ 10) (day : ℕ) (i : ℕ)
    (lt : i < n) where
  Works-slips :
      {job : Job} {kv kv' : Kv} {p p' : Pc} {note : Note} (k : Text)
      (m : Move utc has_kv Works job kv p kv' p' note)
      → slips k m ≡ false
  unfolding slips
  Works-slips k (Move.wake_keyed now e) = refl
  Works-slips k (Move.wake_free e) = refl
  Works-slips k (Move.seen d w e) = refl
  Works-slips k (Move.clear {k = a} d w e) = rw w (ground (arith))
  Works-slips k Move.fail = refl
  Works-slips k Move.succeed_free = refl
  Works-slips k Move.succeed_keyed = refl
  Works-slips k (Move.mark {k = a} d now w) = rw w (ground (arith))

  abbrev Unmarked : Pc → Type 0
  Unmarked p = is_marking p ≡ false

  -- With a store that answers every call, and restarts at any moment but between a success and the Set
  -- of its marker, nothing lapses.
  none_lapse :
      {s t : System} (k : Text) (r : Reach utc has_kv Works Unmarked n jobs s t) → lapses k i r ≡ 0
  unfolding lapses lapsed
  none_lapse k Reach.here = refl
  none_lapse k (Reach.later r (Step.pick j lj m)) = rw (Works-slips k m) (none_lapse k r)
  none_lapse k (Reach.later r (Step.dashboard w d)) = none_lapse k r
  none_lapse k (Reach.later {t = t} r (Step.restart stop)) =
      rw (is_marking-in_mark k (t.pc i) (stop i)) (none_lapse k r)

  -- A daily job succeeds at most once under one day's marker, however the goroutines of the jobs, the
  -- dashboard and restarts of the process interleave. The conditions: the jobs have different names,
  -- their dates have ten characters, the store answers every call, the process starts with every
  -- goroutine asleep, and no restart falls between a job's success and the Set of its marker.
  once_a_day :
      {kv : Kv} {t : System}
      → Reach utc has_kv Works Unmarked n jobs (record { kv = kv; pc = all_asleep; log = [] }) t
      → count (succeeds (day_key utc (jobs i) day)) t.log ≤ 1
  once_a_day r =
      let bound = successes_bound utc has_kv Works Unmarked n jobs names dates day i lt r in
      omega (arith, bound, none_lapse (day_key utc (jobs i) day) r)
