-- ===== src/Bot/Jobs/Threads.antt =====
-- bot/schedule.go: the goroutines of the jobs over one store, an access of the store at a time, with the
-- dashboard's use of the same store and with restarts of the process between any two of them.
pub mod Markers
pub mod Alone
pub mod Kept
pub mod Turns
pub mod Once
pub mod Progress
use botkit.Prelude.{
  tally, ℕ, ◌+◌, ◌<◌, ◌≡◌, Bool, true, false, ◌&&◌, Option, none, some, List, [], ◌∷◌, ◌++◌,
  if◌then◌else◌, ◌==◌, nat_eq, Text, codes, text_beq, text_eq,
}
use botkit.Bot.Jobs.{Job, day_key, is_marked}
use botkit.Schedule.{Location, is_daily}
use botkit.Store.Kv
use botkit.Store.Kv.{Kv, Driver}
use botkit.Store.Uniqueness.{Write, set_op, consume_op, delete_op, expire_op, apply}
use botkit.Webauth.Auth.{nonce_prefix}

-- Where the goroutine of a job stands in `fireJob`, with the key that it holds.
pub data Pc : Type 0 where
  asleep : Pc  -- in a sleep of `runJob`
  checking : Text → Pc  -- before the Get
  running : Option Text → Pc  -- in the job's function; with the key of a daily job
  marking : Text → Pc  -- before the Set

-- Whether a run has succeeded and is not yet marked.
abbrev pub is_marking : Pc → Bool
is_marking asleep = false
is_marking (checking k) = false
is_marking (running held) = false
is_marking (marking k) = true

-- What a move is worth recording: a keyed run that begins, and one that succeeds.
pub data Note : Type 0 where
  quiet : Note
  began succeeded : Text → Note

module _ (utc : Location) (has_kv : Bool) (answers : Driver → Type 0) where
  -- One move of the goroutine. `answers` says how the store may answer a job.
  pub data Move (job : Job) (kv : Kv) : Pc → Kv → Pc → Note → Type 0 where
    wake_keyed :
        (now : ℕ)
        → (is_daily job.spec && has_kv) ≡ true
        → Move job kv asleep kv (checking (day_key utc job now)) quiet
    wake_free : (is_daily job.spec && has_kv) ≡ false → Move job kv asleep kv (running none) quiet
    seen :
        {k : Text} (d : Driver)
        → answers d
        → is_marked (Kv.get d k kv) ≡ true
        → Move job kv (checking k) kv asleep quiet
    clear :
        {k : Text} (d : Driver)
        → answers d
        → is_marked (Kv.get d k kv) ≡ false
        → Move job kv (checking k) kv (running (some k)) (began k)
    fail : {held : Option Text} → Move job kv (running held) kv asleep quiet
    succeed_free : Move job kv (running none) kv asleep quiet
    succeed_keyed : {k : Text} → Move job kv (running (some k)) kv (marking k) (succeeded k)
    mark :
        {k : Text} (d : Driver) (now : ℕ)
        → answers d
        → Move job kv (marking k) (Kv.set d now k (codes "1") kv).0 asleep quiet

-- The store answers every call.
abbrev pub Works : Driver → Type 0
Works d = d ≡ Kv.works

-- Whether a note tells of a run of a marker that begins, or that succeeds.
abbrev pub begins : Text → Note → Bool
begins k quiet = false
begins k (began c) = text_beq c k
begins k (succeeded c) = false

abbrev pub succeeds : Text → Note → Bool
succeeds k quiet = false
succeeds k (began c) = false
succeeds k (succeeded c) = text_beq c k

abbrev pub count : (Note → Bool) → List Note → ℕ
count p [] = 0
count p (x ∷ xs) = tally (p x) (count p xs)

-- How the dashboard writes to the store: it stores and takes nonces, and sweeps them.
abbrev pub IsDashboards : Write → Type 0
IsDashboards (set_op d now k v) = (nonce : Text) × (k ≡ nonce_prefix ++ nonce)
IsDashboards (consume_op d k) = (nonce : Text) × (k ≡ nonce_prefix ++ nonce)
IsDashboards (delete_op d k) = ⊥
IsDashboards (expire_op d counted now prefix age) = prefix ≡ nonce_prefix

-- The store, the goroutine of each job, and what has been recorded, the latest first.
pub record System : Type 0 where
  pub kv : Kv
  pub pc : ℕ → Pc
  pub log : List Note

abbrev pub update : (ℕ → Pc) → ℕ → Pc → ℕ → Pc
update f i p j = if i == j then p else f j

abbrev pub all_asleep : ℕ → Pc
all_asleep i = asleep

-- `n` jobs. `stops` says where a goroutine may stand when the process is killed.
module _ (utc : Location) (has_kv : Bool) (answers : Driver → Type 0) (stops : Pc → Type 0) (n : ℕ)
    (jobs : ℕ → Job) where
  pub data Step (s : System) : System → Type 0 where
    pick :
        (i : ℕ) {kv' : Kv} {p : Pc} {note : Note}
        → i < n
        → Move utc has_kv answers (jobs i) s.kv (s.pc i) kv' p note
        → Step s (record { kv = kv'; pc = update s.pc i p; log = note ∷ s.log })
    dashboard : (w : Write) → IsDashboards w → Step s (record s { kv = apply w s.kv })
    restart : ((i : ℕ) → stops (s.pc i)) → Step s (record s { pc = all_asleep })

  pub data Reach (s : System) : System → Type 0 where
    here : Reach s s
    later : {t u : System} → Reach s t → Step t u → Reach s u
