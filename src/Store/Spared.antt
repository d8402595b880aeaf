-- ===== src/Store/Spared.antt =====
-- store/kv.go: what leaves the cell of a key alone.
use botkit.Prelude.{
  ℕ, ◌+◌, ◌/◌, ◌≤◌, ◌≡◌, refl, ◌∙◌, ◌≢◌, some, arith, nat_eq, Text, text_beq_refl, text_beq_iff,
  text_eq,
}
use botkit.Store.Table.{IsUnique, is_expired}
use botkit.Store.Kv.{Kv, Driver, works, fails, lost}
use botkit.Store.Uniqueness.{Write, set_op, consume_op, delete_op, expire_op, apply, apply-IsUnique}
use botkit.Store.Cells.{Cells, cells, if_done, write_cells}
use botkit.Store.Refinement.{Agrees-write}

-- The table has unique keys, and this value for the key, written in this second.
abbrev pub Holds : Text → Text → ℕ → Kv → Type 0
Holds k v stamp kv = IsUnique kv.rows × (cells kv.rows k ≡ some (v, stamp))

-- A write that is for other keys, or a sweep for which the cell is too young.
abbrev pub Spares : Text → ℕ → Write → Type 0
Spares k stamp (set_op d now j v) = j ≢ k
Spares k stamp (consume_op d j) = j ≢ k
Spares k stamp (delete_op d j) = j ≢ k
Spares k stamp (expire_op d counted now prefix age) = now ≤ stamp + age / 1_000_000_000

if_done-same :
    (d : Driver) (new old : Cells) (k : Text) → new k ≡ old k → if_done d new old k ≡ old k
if_done-same works new old k h = h
if_done-same (fails e) new old k h = refl
if_done-same (lost e) new old k h = h

write_cells-spared :
    (k v : Text) (stamp : ℕ) (w : Write) (m : Cells)
    → m k ≡ some (v, stamp)
    → Spares k stamp w
    → write_cells w m k ≡ m k
unfolding is_expired
write_cells-spared k v stamp (set_op d now j x) m h apart =
    if_done-same d _ m k (ground (arith, text_beq_iff j k, apart))
write_cells-spared k v stamp (consume_op d j) m h apart =
    if_done-same d _ m k (ground (arith, text_beq_iff j k, apart))
write_cells-spared k v stamp (delete_op d j) m h apart =
    if_done-same d _ m k (ground (arith, text_beq_iff j k, apart))
write_cells-spared k v stamp (expire_op d counted now prefix age) m h young =
    if_done-same d _ m k (rw h (ground (arith, young)))

-- A write that spares the key keeps what the store holds for it, whatever the driver answers.
pub apply-Holds :
    (k v : Text) (stamp : ℕ) (w : Write) (kv : Kv)
    → Holds k v stamp kv
    → Spares k stamp w
    → Holds k v stamp (apply w kv)
apply-Holds k v stamp w kv (unique, there) spared = (
  apply-IsUnique w kv unique,
  Agrees-write w kv (cells kv.rows) unique (λ j. refl) k
      ∙ (write_cells-spared k v stamp w (cells kv.rows) there spared ∙ there),
)

-- A Set that works is held.
pub set-Holds :
    (k v : Text) (now : ℕ) (kv : Kv)
    → IsUnique kv.rows
    → Holds k v now (apply (set_op works now k v) kv)
set-Holds k v now kv unique = (
  apply-IsUnique (set_op works now k v) kv unique,
  Agrees-write (set_op works now k v) kv (cells kv.rows) unique (λ j. refl) k
      ∙ rw (text_beq_refl k) refl,
)
