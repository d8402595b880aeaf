-- ===== src/Store/Kv.antt =====
-- store/kv.go: the operations of `KV`.
use botkit.Prelude.{
  ℕ, ◌/◌, ◌≡◌, refl, ◌⊎◌, inl, inr, Bool, Option, List, if◌then◌else◌, nat_eq, Text, codes, text_eq,
}
use botkit.Errors.{Error, wrap, Result, ok, err}
use botkit.Store.Table.{
  Row, select_value, upsert, delete_key, is_expired, delete_where, count_where,
}

pub record Kv : Type 0 where
  pub rows : List Row

-- How the driver answers one statement: it works, it fails with nothing done, or it is done and the
-- answer is lost (a context cancelled in between).
pub data Driver : Type 0 where
  works : Driver
  fails : Error → Driver
  lost : Error → Driver

-- The rows after a statement that would leave `new`.
abbrev pub committed : Driver → List Row → Kv → Kv
committed works new kv = record kv { rows = new }
committed (fails e) new kv = kv
committed (lost e) new kv = record kv { rows = new }

-- What the caller sees of a statement that returns `a`.
abbrev pub answer : {A : Type 0} → Driver → Text → A → Result A
answer works m a = ok a
answer (fails e) m a = err (wrap m e)
answer (lost e) m a = err (wrap m e)

-- The value, if the key is there.
unfoldable pub get : Driver → Text → Kv → Result (Option Text)
unfolding select_value
get d key kv = answer d (codes "kv get") (select_value key kv.rows)

-- `now` is SQLite's datetime('now'), in seconds.
unfoldable pub set : Driver → ℕ → Text → Text → Kv → Kv × Result (Unit {0})
unfolding upsert
set d now key value kv = (
  committed d (upsert (record { key = key; value = value; updated_at = now }) kv.rows) kv,
  answer d (codes "kv set") tt,
)

unfoldable pub consume : Driver → Text → Kv → Kv × Result (Option Text)
unfolding select_value delete_key
consume d key kv = (
  committed d (delete_key key kv.rows) kv,
  answer d (codes "kv consume") (select_value key kv.rows),
)

unfoldable pub delete : Driver → Text → Kv → Kv × Result (Unit {0})
unfolding delete_key
delete d key kv = (committed d (delete_key key kv.rows) kv, answer d (codes "kv delete") tt)

-- `age` is a duration in nanoseconds, not negative; the count is 0 where the driver cannot tell it.
unfoldable pub delete_expired : Driver → Bool → ℕ → Text → ℕ → Kv → Kv × Result ℕ
unfolding delete_where count_where is_expired
delete_expired d counted now prefix age kv =
    let expired = is_expired prefix (age / 1_000_000_000) now in
    (
      committed d (delete_where expired kv.rows) kv,
      answer d (codes "kv delete expired") (if counted then count_where expired kv.rows else 0),
    )

-- Whether a statement changed the table.
pub Driver-cases :
    (d : Driver)
    → ((e : Error) × (d ≡ fails e))
      ⊎ ((new : List Row) (kv : Kv) → committed d new kv ≡ record kv { rows = new })
Driver-cases works = inr (λ new kv. refl)
Driver-cases (fails e) = inl (e, refl)
Driver-cases (lost e) = inr (λ new kv. refl)
