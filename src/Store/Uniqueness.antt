-- ===== src/Store/Uniqueness.antt =====
-- store/kv.go: `key` stays a primary key under every operation.
use botkit.Prelude.{
  ℕ, ◌≡◌, refl, sym, ◌≢◌, inl, inr, Bool, List, [], ◌∷◌, arith, ◌==◌, nat_eq, Bool-cases, Text,
  text_beq_iff, text_eq,
}
use botkit.Store.Table.{Row, upsert, delete_key, delete_where, IsAbsent, IsUnique}
use botkit.Store.Kv.{Kv, Driver, works, fails, lost, set, consume, delete, delete_expired}

IsAbsent-upsert :
    (k : Text) (n : Row) (rs : List Row) → n.key ≢ k → IsAbsent k rs → IsAbsent k (upsert n rs)
unfolding upsert
IsAbsent-upsert k n [] p h = (p, tt)
IsAbsent-upsert k n (r ∷ rs) p h = ground (arith, IsAbsent-upsert k n rs p h.1)

IsUnique-upsert : (n : Row) (rs : List Row) → IsUnique rs → IsUnique (upsert n rs)
unfolding upsert
IsUnique-upsert n [] h = (tt, tt)
IsUnique-upsert n (r ∷ rs) h = elim (Bool-cases (r.key == n.key)) [
  | inl same ↦ rw same (rw ((text_beq_iff r.key n.key).0 same) at h.0, h.1)
  | inr new ↦ rw new (
    IsAbsent-upsert r.key n rs (λ e. cc ((text_beq_iff r.key n.key).1 (sym e), new)) h.0,
    IsUnique-upsert n rs h.1,
  )
]

pub IsAbsent-delete_where :
    (k : Text) (p : Row → Bool) (rs : List Row) → IsAbsent k rs → IsAbsent k (delete_where p rs)
unfolding delete_where
IsAbsent-delete_where k p [] h = tt
IsAbsent-delete_where k p (r ∷ rs) h = ground (arith, IsAbsent-delete_where k p rs h.1)

pub IsUnique-delete_where :
    (p : Row → Bool) (rs : List Row) → IsUnique rs → IsUnique (delete_where p rs)
unfolding delete_where
IsUnique-delete_where p [] h = tt
IsUnique-delete_where p (r ∷ rs) h =
    ground (arith, IsUnique-delete_where p rs h.1, IsAbsent-delete_where r.key p rs h.0)

-- DELETE by key is the DELETE of the rows that have it.
delete_key-eq-delete_where :
    (k : Text) (rs : List Row) → delete_key k rs ≡ delete_where (λ r. r.key == k) rs
unfolding delete_key delete_where
delete_key-eq-delete_where k [] = refl
delete_key-eq-delete_where k (r ∷ rs) = rw (delete_key-eq-delete_where k rs)

pub IsUnique-delete_key : (k : Text) (rs : List Row) → IsUnique rs → IsUnique (delete_key k rs)
IsUnique-delete_key k rs h =
    rw delete_key-eq-delete_where (IsUnique-delete_where (λ r. r.key == k) rs h)

-- The operations of a KV that write, each with its driver's answer and the clock.
pub data Write : Type 0 where
  set_op : Driver → ℕ → Text → Text → Write
  consume_op : Driver → Text → Write
  delete_op : Driver → Text → Write
  expire_op : Driver → Bool → ℕ → Text → ℕ → Write

abbrev pub apply : Write → Kv → Kv
apply (set_op d now k v) kv = (set d now k v kv).0
apply (consume_op d k) kv = (consume d k kv).0
apply (delete_op d k) kv = (delete d k kv).0
apply (expire_op d counted now prefix age) kv = (delete_expired d counted now prefix age kv).0

pub apply-IsUnique : (w : Write) (kv : Kv) → IsUnique kv.rows → IsUnique (apply w kv).rows
unfolding set consume delete delete_expired
apply-IsUnique (set_op works now k v) kv h = IsUnique-upsert _ kv.rows h
apply-IsUnique (set_op (fails e) now k v) kv h = h
apply-IsUnique (set_op (lost e) now k v) kv h = IsUnique-upsert _ kv.rows h
apply-IsUnique (consume_op works k) kv h = IsUnique-delete_key k kv.rows h
apply-IsUnique (consume_op (fails e) k) kv h = h
apply-IsUnique (consume_op (lost e) k) kv h = IsUnique-delete_key k kv.rows h
apply-IsUnique (delete_op works k) kv h = IsUnique-delete_key k kv.rows h
apply-IsUnique (delete_op (fails e) k) kv h = h
apply-IsUnique (delete_op (lost e) k) kv h = IsUnique-delete_key k kv.rows h
apply-IsUnique (expire_op works counted now prefix age) kv h = IsUnique-delete_where _ kv.rows h
apply-IsUnique (expire_op (fails e) counted now prefix age) kv h = h
apply-IsUnique (expire_op (lost e) counted now prefix age) kv h = IsUnique-delete_where _ kv.rows h
