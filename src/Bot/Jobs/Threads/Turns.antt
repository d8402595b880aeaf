-- ===== src/Bot/Jobs/Threads/Turns.antt =====
-- bot/schedule.go: what a move of a goroutine does to the successes of one marker.
use botkit.Prelude.{
  ℕ, suc, ◌≤◌, ◌≡◌, refl, ap, ◌∙◌, inl, inr, Bool, true, false, not, ◌&&◌, Option, none, some,
  arith, ◌==◌, nat_eq, Bool-cases, is_none, Text, codes, text_beq, text_beq_iff, text_eq,
  nat_beq_iff,
}
use botkit.Store.Kv
use botkit.Store.Kv.{Kv}
use botkit.Store.Lookup.{select_value-upsert}
use botkit.Bot.Jobs.{day_key, Job, is_marked}
use botkit.Bot.Jobs.{Location}
use botkit.Store.Cells.{is_done}
use botkit.Bot.Jobs.Threads.{
  tally, is_marking, Works, succeeds, Pc, asleep, checking, running, marking, Note, Move,
}
use botkit.Bot.Jobs.Threads.Markers.{marked}
use botkit.Bot.Jobs.Threads.Kept.{get-Works, set_keeps}

-- Whether the goroutine runs the job under the marker, is about to mark it, or holds it at all.
abbrev pub in_run : Text → Pc → Bool
in_run k (running (some c)) = text_beq c k
in_run k p = false

abbrev pub in_mark : Text → Pc → Bool
in_mark k (marking c) = text_beq c k
in_mark k p = false

abbrev pub about : Text → Pc → Bool
about k asleep = false
about k (checking c) = text_beq c k
about k (running none) = false
about k (running (some c)) = text_beq c k
about k (marking c) = text_beq c k

-- What the store's answers let slip: a Get that it did not answer before a run under the marker, or a
-- Set of the marker that it refused.
abbrev pub is_answered : Kv.Driver → Bool
is_answered Kv.works = true
is_answered (Kv.fails e) = false
is_answered (Kv.lost e) = false

unfoldable pub slips :
    {utc : Location} {has_kv : Bool} {answers : Kv.Driver → Type 0} {job : Job} {kv kv' : Kv}
    {p p' : Pc} {note : Note}
    → Text
    → Move utc has_kv answers job kv p kv' p' note
    → Bool
slips k (Move.wake_keyed now e) = false
slips k (Move.wake_free e) = false
slips k (Move.seen d w e) = false
slips k (Move.clear {k = a} d w e) = text_beq a k && not (is_answered d)
slips k Move.fail = false
slips k Move.succeed_free = false
slips k Move.succeed_keyed = false
slips k (Move.mark {k = a} d now w) = text_beq a k && not (is_done d)

-- What `c` successes and `l` lapses tell of the marker's own goroutine and of the store.
abbrev pub Fits : Text → Kv → Pc → ℕ → ℕ → Type 0
Fits k kv p c l =
    (c ≤ suc l)
    × (in_run k p ≡ true → c ≤ l)
    × (c ≡ suc l → in_mark k p ≡ false → marked k kv ≡ true)

upsert_marks :
    (now : ℕ) (k c v : Text) (kv : Kv)
    → text_beq c k ≡ true
    → marked k (Kv.set Kv.works now c v kv).0 ≡ true
unfolding Kv.set
upsert_marks now k c v kv h =
    ap (λ (o : Option Text). not (is_none o))
      (select_value-upsert k (record { key = c; value = v; updated_at = now }) kv.rows)
    ∙ ground (arith, h)

pub set_marks :
    (d : Kv.Driver) (now : ℕ) (k c v : Text) (kv : Kv)
    → is_done d ≡ true
    → text_beq c k ≡ true
    → marked k (Kv.set d now c v kv).0 ≡ true
unfolding Kv.set
set_marks Kv.works now k c v kv w h = upsert_marks now k c v kv h
set_marks (Kv.fails e) now k c v kv w h = absurd (cc)
set_marks (Kv.lost e) now k c v kv w h = upsert_marks now k c v kv h

is_answered-Works : (d : Kv.Driver) → is_answered d ≡ true → Works d
is_answered-Works Kv.works h = refl
is_answered-Works (Kv.fails e) h = absurd (cc)
is_answered-Works (Kv.lost e) h = absurd (cc)

-- A run that begins although the last success is marked has slipped.
fresh :
    (k a : Text) (c l : ℕ) (d : Kv.Driver) (kv : Kv)
    → c ≤ suc l
    → is_marked (Kv.get d a kv) ≡ false
    → text_beq a k ≡ true
    → (c ≡ suc l → marked k kv ≡ true)
    → c ≤ tally (not (is_answered d)) l
fresh k a c l d kv few e h rest = elim (Bool-cases (is_answered d)) [
  | inr lapse ↦ rw lapse (omega (arith, few))
  | inl works ↦ rw works (elim (Bool-cases (c == suc l)) [
    | inl full ↦ absurd (
        cc (
          rest ((nat_beq_iff c (suc l)).0 full),
          ap (λ (x : Text). marked x kv) ((text_beq_iff a k).0 h),
          get-Works d a kv (is_answered-Works d works),
          e,
        ))
    | inr other ↦ ground (arith, few, other, nat_beq_iff c (suc l))
  ])
]

few_still : (slip : Bool) (c l : ℕ) → c ≤ suc l → c ≤ suc (tally slip l)
few_still true c l few = omega (arith, few)
few_still false c l few = few

no_slip :
    (slip : Bool) (c l : ℕ) → c ≤ suc l → c ≡ suc (tally slip l) → (slip ≡ false) × (c ≡ suc l)
no_slip true c l few q = absurd (omega (arith, few, q))
no_slip false c l few q = (refl, q)

-- A move of the marker's own goroutine.
pub own-Move :
    {utc : Location} {has_kv : Bool} {answers : Kv.Driver → Type 0} {job : Job} {kv kv' : Kv}
    {p p' : Pc} {note : Note} (k : Text) (c l : ℕ)
    (m : Move utc has_kv answers job kv p kv' p' note)
    → Fits k kv p c l
    → Fits k kv' p' (tally (succeeds k note) c) (tally (slips k m) l)
unfolding slips
own-Move k c l (Move.wake_keyed now e) (few, run, rest) =
    (few, λ h. ground (arith), λ a b. rest a refl)
own-Move k c l (Move.wake_free e) (few, run, rest) = (few, λ h. ground (arith), λ a b. rest a refl)
own-Move k c l (Move.seen d w e) (few, run, rest) = (few, λ h. ground (arith), λ a b. rest a refl)
own-Move {kv = kv} k c l (Move.clear {k = a} d w e) (few, run, rest) =
    elim (Bool-cases (text_beq a k)) [
      | inl e' ↦ rw e' (
        few_still (not (is_answered d)) c l few,
        λ h. fresh k a c l d kv few e e' (λ q. rest q refl),
        λ q r. rest (no_slip (not (is_answered d)) c l few q).1 refl,
      )
      | inr e' ↦ rw e' (few, λ h. ground (arith), λ q r. rest q refl)
    ]
own-Move k c l (Move.fail {held = none}) (few, run, rest) =
    (few, λ h. ground (arith), λ a b. rest a refl)
own-Move k c l (Move.fail {held = some a}) (few, run, rest) =
    (few, λ h. ground (arith), λ a b. rest a refl)
own-Move k c l Move.succeed_free (few, run, rest) = (few, λ h. ground (arith), λ a b. rest a refl)
own-Move k c l (Move.succeed_keyed {k = a}) (few, run, rest) = elim (Bool-cases (text_beq a k)) [
  | inl e ↦ rw e (omega (arith, run e), λ h. ground (arith), λ q r. ground (arith, r))
  | inr e ↦ rw e (few, λ h. ground (arith), λ q r. rest q refl)
]
own-Move {kv = kv} k c l (Move.mark {k = a} d now w) (few, run, rest) =
    elim (Bool-cases (text_beq a k)) [
      | inl e ↦ rw e (
        few_still (not (is_done d)) c l few,
        λ h. ground (arith),
        λ q r.
            set_marks d now k a (codes "1") kv
              (ground (arith, (no_slip (not (is_done d)) c l few q).0)) e,
      )
      | inr e ↦
          rw e (few, λ h. ground (arith), λ q r. set_keeps d now k a (codes "1") kv (rest q e))
    ]

-- A move of another goroutine, whose markers are not `k`.
pub other-Move :
    {utc : Location} {has_kv : Bool} {answers : Kv.Driver → Type 0} {job : Job} {kv kv' : Kv}
    {p p' : Pc} {note : Note} (k : Text) (m : Move utc has_kv answers job kv p kv' p' note)
    → ((now : ℕ) → text_beq (day_key utc job now) k ≡ false)
    → about k p ≡ false
    → (about k p' ≡ false)
      × (succeeds k note ≡ false)
      × (slips k m ≡ false)
      × (marked k kv ≡ true → marked k kv' ≡ true)
unfolding slips
other-Move k (Move.wake_keyed now e) apart h = (apart now, refl, refl, λ m. m)
other-Move k (Move.wake_free e) apart h = (refl, refl, refl, λ m. m)
other-Move k (Move.seen d w e) apart h = (refl, refl, refl, λ m. m)
other-Move k (Move.clear d w e) apart h = (h, refl, rw h refl, λ m. m)
other-Move k Move.fail apart h = (refl, refl, refl, λ m. m)
other-Move k Move.succeed_free apart h = (refl, refl, refl, λ m. m)
other-Move k Move.succeed_keyed apart h = (h, h, refl, λ m. m)
other-Move {kv = kv} k (Move.mark {k = a} d now w) apart h =
    (refl, refl, rw h refl, set_keeps d now k a (codes "1") kv)

pub kept-Fits :
    (k : Text) (kv kv' : Kv) (p : Pc) (c l : ℕ) (note : Note) (slip : Bool)
    → Fits k kv p c l
    → succeeds k note ≡ false
    → slip ≡ false
    → (marked k kv ≡ true → marked k kv' ≡ true)
    → Fits k kv' p (tally (succeeds k note) c) (tally slip l)
kept-Fits k kv kv' p c l note slip (few, run, rest) quiet safe keeps =
    rw (quiet, safe) (few, run, λ q r. keeps (rest q r))

-- A restart between a success and its Set is a lapse.
pub restart-Fits :
    (k : Text) (kv : Kv) (p : Pc) (c l : ℕ)
    → Fits k kv p c l
    → Fits k kv asleep c (tally (in_mark k p) l)
restart-Fits k kv p c l (few, run, rest) = elim (Bool-cases (in_mark k p)) [
  | inl gap ↦
      rw gap (omega (arith, few), λ h. ground (arith), λ q r. absurd (omega (arith, few, q)))
  | inr safe ↦ rw safe (few, λ h. ground (arith), λ q r. rest q safe)
]

pub is_marking-in_mark : (k : Text) (p : Pc) → is_marking p ≡ false → in_mark k p ≡ false
is_marking-in_mark k asleep h = refl
is_marking-in_mark k (checking c) h = refl
is_marking-in_mark k (running held) h = refl
is_marking-in_mark k (marking c) h = cc
