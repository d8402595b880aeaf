-- ===== src/Store/Cells.antt =====
-- store/kv.go: what a `KV` promises, as operations on a table from keys to cells.
use botkit.Store.Table.{is_expired, Row}
use botkit.Store.Kv.{
  works, fails, lost, delete_expired, delete, consume, set, get, Driver, answer, Kv,
}
use botkit.Prelude.{
  ℕ, ◌/◌, ◌≡◌, ◌≢◌, ◌↔◌, Bool, true, false, Option, none, some, List, [], ◌∷◌, if◌then◌else◌, ◌==◌,
  nat_eq, length, Any, All, Text, codes, text_eq,
}
use botkit.Errors.{Result, ok, err}
use botkit.Store.Uniqueness.{apply, Write, set_op, consume_op, delete_op, expire_op}

-- A value with its stamp, and the cells of the keys.
abbrev pub Cells : Type 0
Cells = Text → Option (Text × ℕ)

unfoldable pub cells : List Row → Cells
cells [] k = none
cells (r ∷ rs) k = if r.key == k then some (r.value, r.updated_at) else cells rs k

-- An operation of a KV: a Get, or one that writes.
pub data Op : Type 0 where
  read_op : Driver → Text → Op
  write_op : Write → Op

-- What the caller reads of an answer: nothing, a value that may be missing, or how many rows went.
pub data Seen : Type 0 where
  no_value : Seen
  looked_up : Option Text → Seen
  swept : ℕ → Seen

abbrev pub seen : {A : Type 0} → (A → Seen) → Result A → Result Seen
seen f (ok a) = ok (f a)
seen f (err e) = err e

abbrev pub write_answer : Write → Kv → Result Seen
write_answer (set_op d now k v) kv = seen (λ _. no_value) (set d now k v kv).1
write_answer (consume_op d k) kv = seen looked_up (consume d k kv).1
write_answer (delete_op d k) kv = seen (λ _. no_value) (delete d k kv).1
write_answer (expire_op d counted now prefix age) kv =
    seen swept (delete_expired d counted now prefix age kv).1

abbrev pub op_answer : Op → Kv → Result Seen
op_answer (read_op d k) kv = seen looked_up (get d k kv)
op_answer (write_op w) kv = write_answer w kv

abbrev pub op_state : Op → Kv → Kv
op_state (read_op d k) kv = kv
op_state (write_op w) kv = apply w kv

-- The answers of the code, one after the other, and the table that it leaves.
abbrev pub run_ops : List Op → Kv → List (Result Seen) × Kv
run_ops [] kv = ([], kv)
run_ops (o ∷ os) kv =
    let (answers, last) = run_ops os (op_state o kv) in (op_answer o kv ∷ answers, last)

-- The same on cells. A statement is done unless the driver refused it.
abbrev pub is_done : Driver → Bool
is_done works = true
is_done (fails e) = false
is_done (lost e) = true

abbrev pub if_done : Driver → Cells → Cells → Cells
if_done d new old = if is_done d then new else old

abbrev pub unless_expired : (Row → Bool) → Text → Option (Text × ℕ) → Option (Text × ℕ)
unless_expired expired k none = none
unless_expired expired k (some (value, stamp)) =
    if expired (record { key = k; value = value; updated_at = stamp })
    then none
    else some (value, stamp)

abbrev pub value_in : Option (Text × ℕ) → Option Text
value_in none = none
value_in (some (value, stamp)) = some value

abbrev pub write_cells : Write → Cells → Cells
write_cells (set_op d now k v) m = if_done d (λ j. if k == j then some (v, now) else m j) m
write_cells (consume_op d k) m = if_done d (λ j. if k == j then none else m j) m
write_cells (delete_op d k) m = if_done d (λ j. if k == j then none else m j) m
write_cells (expire_op d counted now prefix age) m =
    if_done d (λ j. unless_expired (is_expired prefix (age / 1_000_000_000) now) j (m j)) m

-- Whether a cell is there and expired.
abbrev pub has_expired : (Row → Bool) → Text → Option (Text × ℕ) → Bool
has_expired expired k none = false
has_expired expired k (some (v, stamp)) =
    expired (record { key = k; value = v; updated_at = stamp })

-- How many cells have expired: as many as a list without repetitions has keys, where its keys are those
-- of the expired cells.
abbrev pub Distinct : List Text → Type 0
Distinct [] = Unit {0}
Distinct (k ∷ ks) = All (λ j. j ≢ k) ks × Distinct ks

abbrev pub Counts : (Row → Bool) → Cells → ℕ → Type 0
Counts expired m n =
    (keys : List Text) × Distinct keys
    × (length keys ≡ n)
    × ((k : Text) → Any (λ j. j ≡ k) keys ↔ (has_expired expired k (m k) ≡ true))

-- What an operation may answer on these cells. A sweep tells how many expired cells it empties, or 0
-- where the driver cannot count.
abbrev pub IsAnswer : Op → Cells → Result Seen → Type 0
IsAnswer (read_op d k) m r = r ≡ answer d (codes "kv get") (looked_up (value_in (m k)))
IsAnswer (write_op (set_op d now k v)) m r = r ≡ answer d (codes "kv set") no_value
IsAnswer (write_op (consume_op d k)) m r =
    r ≡ answer d (codes "kv consume") (looked_up (value_in (m k)))
IsAnswer (write_op (delete_op d k)) m r = r ≡ answer d (codes "kv delete") no_value
IsAnswer (write_op (expire_op d counted now prefix age)) m r =
    (n : ℕ) × (counted ≡ true → Counts (is_expired prefix (age / 1_000_000_000) now) m n)
    × (counted ≡ false → n ≡ 0)
    × (r ≡ answer d (codes "kv delete expired") (swept n))

abbrev pub op_cells : Op → Cells → Cells
op_cells (read_op d k) m = m
op_cells (write_op w) m = write_cells w m

-- The answers of a sequence of operations on these cells, and the cells that it leaves.
abbrev pub AreAnswers : List Op → Cells → List (Result Seen) → Type 0
AreAnswers [] m [] = Unit {0}
AreAnswers (o ∷ os) m (r ∷ rs) = IsAnswer o m r × AreAnswers os (op_cells o m) rs
AreAnswers _ m _ = ⊥

abbrev pub run_cells : List Op → Cells → Cells
run_cells [] m = m
run_cells (o ∷ os) m = run_cells os (op_cells o m)
