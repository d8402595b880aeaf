-- ===== src/Store/Refinement.antt =====
-- store/kv.go: that `KV` does what the operations on cells do.
use botkit.Store.Counting.{count_where-Counts, cells-absent, cells-delete_key}
use botkit.Store.Table.{is_expired, count_where, IsUnique, select_value, upsert, delete_where, Row}
use botkit.Store.Kv.{
  committed, works, fails, lost, delete_expired, delete, consume, set, get, Driver, answer, Kv,
}
use botkit.Prelude.{
  ◌/◌, ◌≡◌, refl, sym, ap, ◌∙◌, inl, inr, Bool, some, List, [], ◌∷◌, arith, if◌then◌else◌, ◌==◌,
  nat_eq, Bool-cases, Text, text_beq_iff, text_eq,
}
use botkit.Store.Uniqueness.{
  IsAbsent-delete_where, apply-IsUnique, apply, Write, set_op, consume_op, delete_op, expire_op,
}
use botkit.Store.Cells.{
  swept, looked_up, AreAnswers, IsAnswer, Cells, cells, Op, Seen, seen, op_answer, op_state,
  run_ops, if_done, unless_expired, value_in, write_cells, op_cells, run_cells, read_op, write_op,
}

cells-upsert :
    (k : Text) (n : Row) (rs : List Row)
    → cells (upsert n rs) k ≡ (if n.key == k then some (n.value, n.updated_at) else cells rs k)
unfolding cells upsert
cells-upsert k n [] = refl
cells-upsert k n (r ∷ rs) = ground (
  arith,
  cells-upsert k n rs,
  text_beq_iff r.key n.key,
  text_beq_iff r.key k,
  text_beq_iff n.key k,
)

cells-delete_where :
    (k : Text) (p : Row → Bool) (rs : List Row)
    → IsUnique rs
    → cells (delete_where p rs) k ≡ unless_expired p k (cells rs k)
unfolding cells delete_where
cells-delete_where k p [] h = refl
cells-delete_where k p (r ∷ rs) (new, h) = elim (Bool-cases (r.key == k)) [
  | inr other_key ↦
      rw (other_key, ← cells-delete_where k p rs h)
        (elim (Bool-cases (p r)) [
          | inl gone ↦ rw gone refl
          | inr stays ↦ rw (stays, other_key) refl
        ])
  | inl here ↦
      let alike : p (record r { key = k }) ≡ p r =
        ap (λ (j : Text). p (record r { key = j })) (sym ((text_beq_iff r.key k).0 here)) in
      rw (here, alike)
        (elim (Bool-cases (p r)) [
          | inl gone ↦ rw gone (
              cells-absent k (delete_where p rs)
                (IsAbsent-delete_where k p rs (rw ((text_beq_iff r.key k).0 here) at new)))
          | inr stays ↦ rw (stays, here) refl
        ])
]

pub value_in-cells : (k : Text) (rs : List Row) → select_value k rs ≡ value_in (cells rs k)
unfolding cells select_value
value_in-cells k [] = refl
value_in-cells k (r ∷ rs) = ground (arith, value_in-cells k rs)

-- The cells are those of the table.
abbrev pub Agrees : Kv → Cells → Type 0
Agrees kv m = (k : Text) → cells kv.rows k ≡ m k

seen-answer :
    {A : Type 0} (f : A → Seen) (d : Driver) (m : Text) (a : A)
    → seen f (answer d m a) ≡ answer d m (f a)
seen-answer f works m a = refl
seen-answer f (fails e) m a = refl
seen-answer f (lost e) m a = refl

Agrees-IsAnswer :
    (o : Op) (kv : Kv) (m : Cells) → IsUnique kv.rows → Agrees kv m → IsAnswer o m (op_answer o kv)
unfolding get set consume delete delete_expired
Agrees-IsAnswer (read_op d k) kv m u h =
    seen-answer looked_up d _ _ ∙ rw (value_in-cells k kv.rows, h k) refl
Agrees-IsAnswer (write_op (set_op d now k v)) kv m u h = seen-answer _ d _ _
Agrees-IsAnswer (write_op (consume_op d k)) kv m u h =
    seen-answer looked_up d _ _ ∙ rw (value_in-cells k kv.rows, h k) refl
Agrees-IsAnswer (write_op (delete_op d k)) kv m u h = seen-answer _ d _ _
Agrees-IsAnswer (write_op (expire_op d counted now prefix age)) kv m u h = (
  if counted then count_where (is_expired prefix (age / 1_000_000_000) now) kv.rows else 0,
  λ on. rw on (count_where-Counts _ kv.rows m u h),
  λ off. rw off refl,
  seen-answer swept d _ _,
)

-- What a statement leaves, by how the driver answers it.
committed-Agrees :
    (d : Driver) (new : List Row) (kv : Kv) (m next : Cells)
    → Agrees kv m
    → Agrees (record kv { rows = new }) next
    → Agrees (committed d new kv) (if_done d next m)
committed-Agrees works new kv m next h g = g
committed-Agrees (fails e) new kv m next h g = h
committed-Agrees (lost e) new kv m next h g = g

pub Agrees-write :
    (w : Write) (kv : Kv) (m : Cells)
    → IsUnique kv.rows
    → Agrees kv m
    → Agrees (apply w kv) (write_cells w m)
unfolding set consume delete delete_expired
Agrees-write (set_op d now k v) kv m u h =
    committed-Agrees d _ kv m _ h (λ j.
      cells-upsert j (record { key = k; value = v; updated_at = now }) kv.rows ∙ rw (h j) refl)
Agrees-write (consume_op d k) kv m u h =
    committed-Agrees d _ kv m _ h (λ j. cells-delete_key j k kv.rows ∙ rw (h j) refl)
Agrees-write (delete_op d k) kv m u h =
    committed-Agrees d _ kv m _ h (λ j. cells-delete_key j k kv.rows ∙ rw (h j) refl)
Agrees-write (expire_op d counted now prefix age) kv m u h =
    committed-Agrees d _ kv m _ h (λ j. cells-delete_where j _ kv.rows u ∙ rw (h j) refl)

pub op_state-IsUnique : (o : Op) (kv : Kv) → IsUnique kv.rows → IsUnique (op_state o kv).rows
op_state-IsUnique (read_op d k) kv u = u
op_state-IsUnique (write_op w) kv u = apply-IsUnique w kv u

Agrees-state :
    (o : Op) (kv : Kv) (m : Cells)
    → IsUnique kv.rows
    → Agrees kv m
    → IsUnique (op_state o kv).rows × Agrees (op_state o kv) (op_cells o m)
Agrees-state (read_op d k) kv m u h = (u, h)
Agrees-state (write_op w) kv m u h = (apply-IsUnique w kv u, Agrees-write w kv m u h)

-- From a table with unique keys and the cells that agree with it, any sequence of operations, whatever
-- the driver answers, is answered as it would be on the cells, where a Set, a Consume or a Delete
-- touches the cell of its key and no other, and a sweep empties the expired ones and tells how many
-- there were, or 0 where the driver cannot count them; and the table that is left has unique keys and
-- agrees with the cells that are left.
pub run_ops-run_cells :
    (os : List Op) (kv : Kv) (m : Cells)
    → IsUnique kv.rows
    → Agrees kv m
    → AreAnswers os m (run_ops os kv).0
      × IsUnique (run_ops os kv).1.rows
      × Agrees (run_ops os kv).1 (run_cells os m)
run_ops-run_cells [] kv m u h = (tt, u, h)
run_ops-run_cells (o ∷ os) kv m u h =
    let (unique, agrees) = Agrees-state o kv m u h in
    let (answers, still, rest) =
      run_ops-run_cells os (op_state o kv) (op_cells o m) unique agrees in
    ((Agrees-IsAnswer o kv m u h, answers), still, rest)
