-- ===== src/Store/Open.antt =====
-- store/sqlite.go and `NewKV` of store/kv.go: opening a database, and closing it where that fails.
use botkit.Prelude.{
  ℕ, ◌+◌, ◌-◌, ◌≡◌, refl, ◌⊎◌, inl, inr, true, false, ◌&&◌, Option, none, some, arith, nat_eq,
  is_none, codes, text_eq,
}
use botkit.Errors.{Error, wrap, Result, ok, err}
use botkit.Store.Kv.{Kv}

-- What sql.Open, the ping and CREATE TABLE answer; the state is the number of handles held open.
unfoldable pub open_sqlite : Option Error → Option Error → ℕ → ℕ × Result (Unit {0})
open_sqlite (some e) ping handles = (handles, err (wrap (codes "open sqlite") e))
open_sqlite none (some e) handles =
    let opened = handles + 1 in (opened - 1, err (wrap (codes "ping sqlite") e))
open_sqlite none none handles = (handles + 1, ok tt)

create_table : Option Error → Kv → ℕ → ℕ × Result Kv
create_table (some e) file handles = (handles - 1, err (wrap (codes "create botkit_kv") e))
create_table none file handles = (handles, ok file)

and_create : Option Error → Kv → ℕ × Result (Unit {0}) → ℕ × Result Kv
and_create create file (handles, err e) = (handles, err e)
and_create create file (handles, ok _) = create_table create file handles

-- `file` is what the database file holds; CREATE TABLE IF NOT EXISTS keeps it.
unfoldable pub new_kv : Option Error → Option Error → Option Error → Kv → ℕ → ℕ × Result Kv
unfolding open_sqlite and_create create_table
new_kv opened ping create file handles = and_create create file (open_sqlite opened ping handles)

-- A state store that is opened holds one handle more; one that is not holds none, whichever step
-- failed.
pub new_kv-cases :
    (opened ping create : Option Error) (file : Kv) (handles : ℕ)
    → ((is_none opened && (is_none ping && is_none create) ≡ true)
        × (new_kv opened ping create file handles ≡ (handles + 1, ok file)))
      ⊎ ((is_none opened && (is_none ping && is_none create) ≡ false)
          × (e : Error) × (new_kv opened ping create file handles ≡ (handles, err e)))
unfolding new_kv
new_kv-cases (some e) ping create file handles = inr (refl, wrap (codes "open sqlite") e, refl)
new_kv-cases none (some e) create file handles =
    inr (refl, wrap (codes "ping sqlite") e, ground arith)
new_kv-cases none none (some e) file handles =
    inr (refl, wrap (codes "create botkit_kv") e, ground arith)
new_kv-cases none none none file handles = inl (refl, refl)
