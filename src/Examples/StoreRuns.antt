-- ===== src/Examples/StoreRuns.antt =====
-- store/: runs of the theorems.
use botkit.Store.Refinement.{run_ops-run_cells, Agrees}
use botkit.Store.Cells.{
  swept, looked_up, no_value, AreAnswers, read_op, write_op, run_cells, Op, run_ops, cells,
}
use mathlib.Core.Quot
use botkit.Store.Abstract.{abstract, abstract_iff, Table}
use botkit.Prelude.{
  ℕ, ◌≤◌, String, ◌≡◌, refl, ◌↔◌, true, none, some, List, [], ◌∷◌, arith, nat_eq, codes, text_beq,
  text_beq_iff, text_eq,
}
use botkit.Errors.{Error, wrap, new_error, ok, err}
use botkit.Store.Table.{is_expired, Row, IsUnique}
use botkit.Store.Kv.{delete_expired, Kv, works, fails, lost, get, set, consume}
use botkit.Store.Lookup.{get-set}
use botkit.Store.Uniqueness.{set_op, consume_op, expire_op}
use botkit.Store.SingleUse.{Statement, caller, write, race, winners, race-single_winner}

abbrev pub down : Error
down = new_error (codes "database is locked")

abbrev row : String → ℕ → Row
row key at = record { key = codes key; value = codes "v"; updated_at = at }

abbrev two_rows : Kv
two_rows = record { rows = row "a" 100 ∷ row "jobXrun" 5 ∷ [] }

two_rows-IsUnique : IsUnique two_rows.rows
two_rows-IsUnique = (((λ e. cc), tt), (tt, tt))

get-set_example :
    get works (codes "a") (set (lost down) 7 (codes "a") (codes "w") two_rows).0
    ≡ ok (some (codes "w"))
unfolding text_beq
get-set_example = get-set (lost down) 7 (codes "a") (codes "a") (codes "w") two_rows tt

-- A read between writes, one of which is refused, and a sweep.
abbrev some_ops : List Op
some_ops =
    write_op (set_op works 8 (codes "a") (codes "w"))
    ∷ write_op (consume_op (fails down) (codes "a"))
    ∷ read_op works (codes "a")
    ∷ write_op (expire_op works true 1000 (codes "job") 0)
    ∷ write_op (consume_op works (codes "a"))
    ∷ read_op works (codes "a")
    ∷ []

run_ops-run_cells_example :
    AreAnswers some_ops (cells two_rows.rows) (run_ops some_ops two_rows).0
    × IsUnique (run_ops some_ops two_rows).1.rows
    × Agrees (run_ops some_ops two_rows).1 (run_cells some_ops (cells two_rows.rows))
run_ops-run_cells_example =
    run_ops-run_cells some_ops two_rows (cells two_rows.rows) two_rows-IsUnique (λ k. refl)

some_answers :
    (run_ops some_ops two_rows).0
    ≡ ok no_value
      ∷ err (wrap (codes "kv consume") down)
      ∷ ok (looked_up (some (codes "w")))
      ∷ ok (swept 1)
      ∷ ok (looked_up (some (codes "w")))
      ∷ ok (looked_up none)
      ∷ []
unfolding get set consume delete_expired is_expired text_beq
some_answers = refl

abbrev busy : List Statement
busy =
    caller (fails down)
    ∷ write (set_op works 8 (codes "b") (codes "w"))
    ∷ caller works
    ∷ caller (lost down)
    ∷ caller works
    ∷ []

race-single_winner_example : winners (race (codes "a") busy two_rows) ≤ 1
race-single_winner_example =
    race-single_winner (codes "a") busy two_rows (tt, ((λ e. ground arith), (tt, (tt, (tt, tt)))))

busy_run : winners (race (codes "a") busy two_rows) ≡ 1
unfolding winners race consume set text_beq
busy_run = refl

-- The same rows in two orders.
abbrev turned : Kv
turned = record { rows = row "jobXrun" 5 ∷ row "a" 100 ∷ [] }

turned-IsUnique : IsUnique turned.rows
turned-IsUnique = (((λ e. cc), tt), (tt, tt))

abbrev here_first : Table
here_first = record { kv = two_rows; unique = two_rows-IsUnique }

abbrev there_first : Table
there_first = record { kv = turned; unique = turned-IsUnique }

abstract_iff_example :
    (abstract here_first ≡ abstract there_first)
    ↔ ((os : List Op) → (run_ops os here_first.kv).0 ≡ (run_ops os there_first.kv).0)
abstract_iff_example = abstract_iff here_first there_first

one_value : abstract here_first ≡ abstract there_first
unfolding cells text_beq
one_value =
    Quot.sound (λ k. ground (arith, text_beq_iff (codes "a") k, text_beq_iff (codes "jobXrun") k))
