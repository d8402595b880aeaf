-- ===== src/Store/Lookup.antt =====
-- store/kv.go: what `Get` and `Consume` see after the other operations.
use botkit.Prelude.{
  ℕ, ◌≡◌, refl, none, some, List, [], ◌∷◌, arith, if◌then◌else◌, ◌==◌, nat_eq, Text, text_beq_iff,
  text_eq,
}
use botkit.Errors.{ok}
use botkit.Store.Table.{Row, select_value, upsert, delete_key}
use botkit.Store.Kv.{Kv, Driver, works, fails, lost, get, set, consume, delete}

pub select_value-upsert :
    (k : Text) (n : Row) (rs : List Row)
    → select_value k (upsert n rs) ≡ (if n.key == k then some n.value else select_value k rs)
unfolding select_value upsert
select_value-upsert k n [] = refl
select_value-upsert k n (r ∷ rs) = ground (
  arith,
  select_value-upsert k n rs,
  text_beq_iff r.key n.key,
  text_beq_iff r.key k,
  text_beq_iff n.key k,
)

pub select_value-delete_key :
    (k j : Text) (rs : List Row)
    → select_value k (delete_key j rs) ≡ (if j == k then none else select_value k rs)
unfolding select_value delete_key
select_value-delete_key k j [] = ground arith
select_value-delete_key k j (r ∷ rs) = ground (
  arith,
  select_value-delete_key k j rs,
  text_beq_iff r.key j,
  text_beq_iff r.key k,
  text_beq_iff j k,
)

-- A statement that the driver did not refuse outright.
abbrev pub TookEffect : Driver → Type 0
TookEffect works = Unit
TookEffect (lost e) = Unit
TookEffect (fails e) = ⊥

-- A Set that took effect is what every later Get of its key sees, and Get of another key sees what
-- it saw before; a Set that the driver refused changes nothing.
pub get-set :
    (d : Driver) (now : ℕ) (k j v : Text) (kv : Kv)
    → TookEffect d
    → get works j (set d now k v kv).0 ≡ (if k == j then ok (some v) else get works j kv)
unfolding get set
get-set works now k j v kv h =
    ground (arith, select_value-upsert j (record { key = k; value = v; updated_at = now }) kv.rows)
get-set (lost e) now k j v kv h =
    ground (arith, select_value-upsert j (record { key = k; value = v; updated_at = now }) kv.rows)
get-set (fails e) now k j v kv h = absurd h

-- So with Consume and Delete: the key is gone, and no other.
pub get-consume :
    (d : Driver) (k j : Text) (kv : Kv)
    → TookEffect d
    → get works j (consume d k kv).0 ≡ (if k == j then ok none else get works j kv)
unfolding get consume
get-consume works k j kv h = ground (arith, select_value-delete_key j k kv.rows)
get-consume (lost e) k j kv h = ground (arith, select_value-delete_key j k kv.rows)
get-consume (fails e) k j kv h = absurd h

pub get-delete :
    (d : Driver) (k j : Text) (kv : Kv)
    → TookEffect d
    → get works j (delete d k kv).0 ≡ (if k == j then ok none else get works j kv)
unfolding get delete
get-delete works k j kv h = ground (arith, select_value-delete_key j k kv.rows)
get-delete (lost e) k j kv h = ground (arith, select_value-delete_key j k kv.rows)
get-delete (fails e) k j kv h = absurd h
