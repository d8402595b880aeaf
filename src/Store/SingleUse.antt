-- ===== src/Store/SingleUse.antt =====
-- store/kv.go: `Consume` under concurrency. SQLite runs one statement at a time, so callers that race
-- for one key, and whatever else uses the store meanwhile, are a schedule of statements in any order.
use botkit.Prelude.{
  ℕ, zero, suc, ◌+◌, ◌≤◌, ◌≡◌, refl, ap, ap₂, ◌≢◌, inl, inr, Bool, true, false, Option, none, some,
  List, [], ◌∷◌, arith, if◌then◌else◌, nat_eq, Option-cases, All, Text, text_beq_refl, text_beq_iff,
  text_eq,
}
use botkit.Errors.{Result, ok}
use botkit.Store.Table.{Row, select_value, delete_where}
use botkit.Store.Kv.{Kv, Driver, works, fails, lost, get, set, consume, delete, delete_expired}
use botkit.Store.Lookup.{select_value-delete_key, select_value-upsert}
use botkit.Store.Uniqueness.{Write, set_op, consume_op, delete_op, expire_op, apply}

-- A caller consumes the key that is raced for; `write` is any other use of the store.
pub data Statement : Type 0 where
  caller : Driver → Statement
  write : Write → Statement

-- The answers to the callers, in the order in which their statements run.
unfoldable pub race : Text → List Statement → Kv → List (Result (Option Text))
race k [] kv = []
race k (caller d ∷ rest) kv = let (kv', r) = consume d k kv in r ∷ race k rest kv'
race k (write w ∷ rest) kv = race k rest (apply w kv)

-- ok=true
abbrev pub is_winner : Result (Option Text) → Bool
is_winner (ok (some v)) = true
is_winner _ = false

unfoldable pub winners : List (Result (Option Text)) → ℕ
winners [] = 0
winners (r ∷ rs) = let n = winners rs in if is_winner r then n + 1 else n

-- No statement of the schedule stores the key anew.
abbrev pub LeavesKey : Text → Statement → Type 0
LeavesKey k (write (set_op d now j v)) = j ≢ k
LeavesKey k _ = Unit

-- What is still to be won.
abbrev pub prize : Option Text → ℕ
prize none = 0
prize (some v) = 1

prize-delete_where :
    (k : Text) (p : Row → Bool) (rs : List Row)
    → prize (select_value k (delete_where p rs)) ≤ prize (select_value k rs)
unfolding select_value delete_where
prize-delete_where k p [] = omega arith
prize-delete_where k p (r ∷ rs) = ground (arith, prize-delete_where k p rs)

prize-delete_key :
    (k j : Text) (kv : Kv)
    → prize (select_value k (consume works j kv).0.rows) ≤ prize (select_value k kv.rows)
unfolding consume
prize-delete_key k j kv = ground (arith, select_value-delete_key k j kv.rows)

prize-set :
    (k j v : Text) (now : ℕ) (kv : Kv)
    → j ≢ k
    → prize (select_value k (set works now j v kv).0.rows) ≤ prize (select_value k kv.rows)
unfolding set
prize-set k j v now kv h = ground (
  arith,
  select_value-upsert k (record { key = j; value = v; updated_at = now }) kv.rows,
  text_beq_iff j k,
)

pub prize-apply :
    (k : Text) (w : Write) (kv : Kv)
    → LeavesKey k (write w)
    → prize (select_value k (apply w kv).rows) ≤ prize (select_value k kv.rows)
unfolding set consume delete delete_expired
prize-apply k (set_op works now j v) kv h = prize-set k j v now kv h
prize-apply k (set_op (lost e) now j v) kv h = prize-set k j v now kv h
prize-apply k (consume_op works j) kv h = prize-delete_key k j kv
prize-apply k (consume_op (lost e) j) kv h = prize-delete_key k j kv
prize-apply k (delete_op works j) kv h = prize-delete_key k j kv
prize-apply k (delete_op (lost e) j) kv h = prize-delete_key k j kv
prize-apply k (expire_op works counted now prefix age) kv h = prize-delete_where k _ kv.rows
prize-apply k (expire_op (lost e) counted now prefix age) kv h = prize-delete_where k _ kv.rows
prize-apply k _ kv h = omega arith

winners_bound :
    (k : Text) (schedule : List Statement) (kv : Kv)
    → All (LeavesKey k) schedule
    → winners (race k schedule kv) ≤ prize (select_value k kv.rows)
unfolding winners race consume
winners_bound k [] kv h = omega arith
winners_bound k (caller works ∷ rest) kv h = ground (
  arith,
  winners_bound k rest (consume works k kv).0 h.1,
  select_value-delete_key k k kv.rows,
  text_beq_refl k,
)
winners_bound k (caller (fails e) ∷ rest) kv h = ground (arith, winners_bound k rest kv h.1)
winners_bound k (caller (lost e) ∷ rest) kv h = ground (
  arith,
  winners_bound k rest (consume (lost e) k kv).0 h.1,
  select_value-delete_key k k kv.rows,
  text_beq_refl k,
)
winners_bound k (write w ∷ rest) kv h =
    omega (arith, winners_bound k rest (apply w kv) h.1, prize-apply k w kv h.0)

-- However many callers race to consume one key, in whatever order their statements run among each
-- other, among sweeps and among other writes that do not store this key, and whichever statements
-- the driver refuses or loses the answer of, at most one caller sees ok=true.
pub race-single_winner :
    (k : Text) (schedule : List Statement) (kv : Kv)
    → All (LeavesKey k) schedule
    → winners (race k schedule kv) ≤ 1
race-single_winner k schedule kv h = elim (Option-cases (select_value k kv.rows)) [
  | inl gone ↦ omega (arith, rw gone at (winners_bound k schedule kv h))
  | inr (v, there) ↦ omega (arith, rw there at (winners_bound k schedule kv h))
]

abbrev pub replicate : {A : Type 0} → ℕ → A → List A
replicate zero a = []
replicate (suc n) a = a ∷ replicate n a

losers :
    (n : ℕ) (k : Text) (kv : Kv)
    → select_value k kv.rows ≡ none
    → race k (replicate n (caller works)) kv ≡ replicate n (ok none)
unfolding race
losers zero k kv h = refl
losers (suc n) k kv h = ap₂ ◌∷◌ (unfold consume in ap ok h) (
    losers n k (consume works k kv).0
      (unfold consume in rw (select_value-delete_key k k kv.rows) (rw (text_beq_refl k))))

-- Where the key is there and the driver works, of n + 1 callers the first to run gets the stored
-- value and the n others are told, without an error, that there is none.
race-first_wins :
    (n : ℕ) (k v : Text) (kv : Kv)
    → get works k kv ≡ ok (some v)
    → race k (replicate (suc n) (caller works)) kv ≡ ok (some v) ∷ replicate n (ok none)
unfolding race get
race-first_wins n k v kv h = ap₂ ◌∷◌ (unfold consume in h) (
    losers n k (consume works k kv).0
      (unfold consume in rw (select_value-delete_key k k kv.rows) (rw (text_beq_refl k))))
