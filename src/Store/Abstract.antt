-- ===== src/Store/Abstract.antt =====
-- store/kv.go: what a `KV` holds, up to what its operations can tell.
use botkit.Store.Counting.{count_where-same}
use botkit.Prelude.{
  ℕ, ◌/◌, ◌≡◌, refl, sym, ap, ap₂, ◌∙◌, ◌↔◌, false, Option, none, some, List, [], ◌∷◌, arith, ltb,
  if◌then◌else◌, nat_eq, Text, text_eq,
}
use botkit.Errors.{Result, ok}
use mathlib.Core.Quot
use mathlib.Core.Quot.{Quot, Quot-set}
use botkit.Store.Table.{IsUnique, is_expired}
use botkit.Store.Kv.{delete_expired, delete, consume, set, get, Kv, works}
use botkit.Store.Like.{like_percent}
use botkit.Store.Uniqueness.{delete_op, consume_op, set_op, expire_op}
use botkit.Store.Cells.{
  op_state, looked_up, op_answer, Seen, cells, Op, read_op, write_op, run_ops, value_in,
  unless_expired,
}
use botkit.Store.Refinement.{
  op_state-IsUnique, value_in-cells, Agrees-write, Agrees, run_ops-run_cells,
}

-- A table whose `key` is a primary key.
pub record Table : Type 0 where
  pub kv : Kv
  pub unique : IsUnique kv.rows

-- Two tables that have the same cell for every key, in whatever order their rows stand.
abbrev pub SameCells : Table → Table → Type 0
SameCells a b = (k : Text) → cells a.kv.rows k ≡ cells b.kv.rows k

abbrev pub AbstractKv : Type 0
AbstractKv = Quot SameCells

abbrev pub abstract : Table → AbstractKv
abstract = Quot.mk

-- The cell of a key, of the abstract value.
unfoldable cell : Text → AbstractKv → Option (Text × ℕ)
cell k = Quot.lift (hlevel) (λ t. cells t.kv.rows k) (λ a b h. h k)

exact : (a b : Table) → abstract a ≡ abstract b → SameCells a b
unfolding cell
exact a b e k = ap (cell k) e

-- Tables with the same cells answer alike, and still have the same cells then.
SameCells-answer :
    (o : Op) (a b : Kv)
    → IsUnique a.rows
    → IsUnique b.rows
    → Agrees a (cells b.rows)
    → op_answer o a ≡ op_answer o b
unfolding get set consume delete delete_expired
SameCells-answer (read_op d k) a b u v h =
    rw (value_in-cells k a.rows, value_in-cells k b.rows, h k) refl
SameCells-answer (write_op (set_op d now k x)) a b u v h = refl
SameCells-answer (write_op (consume_op d k)) a b u v h =
    rw (value_in-cells k a.rows, value_in-cells k b.rows, h k) refl
SameCells-answer (write_op (delete_op d k)) a b u v h = refl
SameCells-answer (write_op (expire_op d counted now prefix age)) a b u v h =
    rw (count_where-same (is_expired prefix (age / 1_000_000_000) now) a.rows b.rows u v h) refl

SameCells-state :
    (o : Op) (a b : Kv)
    → IsUnique a.rows
    → IsUnique b.rows
    → Agrees a (cells b.rows)
    → Agrees (op_state o a) (cells (op_state o b).rows)
SameCells-state (read_op d k) a b u v h = h
SameCells-state (write_op w) a b u v h = λ k.
    Agrees-write w a (cells b.rows) u h k ∙ sym (Agrees-write w b (cells b.rows) v (λ j. refl) k)

run_ops-same :
    (os : List Op) (a b : Kv)
    → IsUnique a.rows
    → IsUnique b.rows
    → Agrees a (cells b.rows)
    → (run_ops os a).0 ≡ (run_ops os b).0
run_ops-same [] a b u v h = refl
run_ops-same (o ∷ os) a b u v h =
    ap₂ (λ first later. first ∷ later) (SameCells-answer o a b u v h)
      (run_ops-same os (op_state o a) (op_state o b) (op_state-IsUnique o a u)
        (op_state-IsUnique o b v) (SameCells-state o a b u v h))

-- Tables of one abstract value answer alike.
pub SameCells-run :
    (os : List Op) (a b : Table) → SameCells a b → (run_ops os a.kv).0 ≡ (run_ops os b.kv).0
SameCells-run os a b h = run_ops-same os a.kv b.kv a.unique b.unique h

-- The answers of a sequence of operations, from the abstract value alone.
unfoldable pub answers : List Op → AbstractKv → List (Result Seen)
answers os = Quot.lift (hlevel) (λ t. (run_ops os t.kv).0) (SameCells-run os)

-- A read of a key after a sweep, in the second `n`, of all that is older than that second.
abbrev probe : ℕ → Text → List Op
probe n k = write_op (expire_op works false n [] 0) ∷ read_op works k ∷ []

abbrev since : ℕ → Option (Text × ℕ) → Option (Text × ℕ)
since n none = none
since n (some (value, stamp)) = if ltb stamp n then none else some (value, stamp)

unless_expired-since :
    (n : ℕ) (k : Text) (c : Option (Text × ℕ))
    → unless_expired (is_expired [] (0 / 1_000_000_000) n) k c ≡ since n c
unfolding is_expired
unless_expired-since n k none = refl
unless_expired-since n k (some (value, stamp)) = ground (arith, like_percent k)

run_ops-read :
    (k : Text) (t : Table)
    → (run_ops (read_op works k ∷ []) t.kv).0 ≡ ok (looked_up (value_in (cells t.kv.rows k))) ∷ []
run_ops-read k t =
    let (answered, unique, agrees) =
      run_ops-run_cells (read_op works k ∷ []) t.kv (cells t.kv.rows) t.unique (λ j. refl) in
    ap (λ (r : Result Seen). r ∷ []) answered.0

run_ops-probe :
    (n : ℕ) (k : Text) (t : Table)
    → (run_ops (probe n k) t.kv).0
      ≡ op_answer (write_op (expire_op works false n [] 0)) t.kv
        ∷ ok (looked_up (value_in (since n (cells t.kv.rows k))))
        ∷ []
run_ops-probe n k t =
    let (answered, unique, agrees) =
      run_ops-run_cells (probe n k) t.kv (cells t.kv.rows) t.unique (λ j. refl) in
    ap (λ (r : Result Seen). op_answer (write_op (expire_op works false n [] 0)) t.kv ∷ r ∷ [])
      (answered.1.0 ∙ rw (unless_expired-since n k (cells t.kv.rows k)) refl)

-- A cell is known by its value and by what sweeps leave of it.
cell-determined :
    (x y : Option (Text × ℕ))
    → value_in x ≡ value_in y
    → ((n : ℕ) → value_in (since n x) ≡ value_in (since n y))
    → x ≡ y
cell-determined none none v h = refl
cell-determined none (some (b, t)) v h = absurd (cc)
cell-determined (some (a, s)) none v h = absurd (cc)
cell-determined (some (a, s)) (some (b, t)) v h = ground (arith, v, h s, h t)

head_ok :
    {x y : Option Text} {rest rest' : List (Result Seen)}
    → ok (looked_up x) ∷ rest ≡ ok (looked_up y) ∷ rest'
    → x ≡ y
head_ok e = cc

second_ok :
    {x y : Option Text} {r r' : Result Seen}
    → r ∷ ok (looked_up x) ∷ [] ≡ r' ∷ ok (looked_up y) ∷ []
    → x ≡ y
second_ok e = cc

-- Two tables with unique keys have one abstract value, in which the order of their rows is forgotten,
-- if and only if no sequence of operations of the KV, whatever the driver answers, tells them apart by
-- its answers, the counts of the sweeps among them: the cells of the keys are all that the operations
-- see, and they see all of them.
pub abstract_iff :
    (a b : Table)
    → (abstract a ≡ abstract b) ↔ ((os : List Op) → (run_ops os a.kv).0 ≡ (run_ops os b.kv).0)
unfolding answers
abstract_iff a b = (
  λ e os. ap (answers os) e,
  λ tell. Quot.sound (λ k.
      cell-determined (cells a.kv.rows k) (cells b.kv.rows k)
        (head_ok (sym (run_ops-read k a) ∙ tell (read_op works k ∷ []) ∙ run_ops-read k b))
        (λ n. second_ok (sym (run_ops-probe n k a) ∙ tell (probe n k) ∙ run_ops-probe n k b))),
)
