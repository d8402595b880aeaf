-- ===== src/Store/Table.antt =====
-- The table `botkit_kv` of store/kv.go as a list of rows, and its SQL statements.
use botkit.Prelude.{
  ℕ, ◌+◌, ◌≢◌, Bool, ◌&&◌, List, [], ◌∷◌, ◌++◌, Text, Option, none, some, ltb, ◌==◌, text_eq,
  if◌then◌else◌, All,
}
use botkit.Store.Like.{like}

-- updated_at is a datetime of one second's resolution.
pub record Row : Type 0 where
  pub key : Text
  pub value : Text
  pub updated_at : ℕ

-- SELECT value FROM botkit_kv WHERE key = ?
unfoldable pub select_value : Text → List Row → Option Text
select_value k [] = none
select_value k (r ∷ rs) = if r.key == k then some r.value else select_value k rs

-- INSERT INTO botkit_kv … ON CONFLICT(key) DO UPDATE SET …
unfoldable pub upsert : Row → List Row → List Row
upsert n [] = n ∷ []
upsert n (r ∷ rs) = if r.key == n.key then n ∷ rs else r ∷ upsert n rs

-- DELETE FROM botkit_kv WHERE key = ?
unfoldable pub delete_key : Text → List Row → List Row
delete_key k [] = []
delete_key k (r ∷ rs) = let rest = delete_key k rs in if r.key == k then rest else r ∷ rest

-- key LIKE ? || '%' AND updated_at < datetime('now', ?), the second with "-<seconds> seconds"
unfoldable pub is_expired : Text → ℕ → ℕ → Row → Bool
unfolding like
is_expired prefix seconds now r =
    like (prefix ++ b'%' ∷ []) r.key && ltb (r.updated_at + seconds) now

-- DELETE FROM botkit_kv WHERE …, and the number of rows affected
unfoldable pub delete_where : (Row → Bool) → List Row → List Row
delete_where p [] = []
delete_where p (r ∷ rs) = let rest = delete_where p rs in if p r then rest else r ∷ rest

unfoldable pub count_where : (Row → Bool) → List Row → ℕ
count_where p [] = 0
count_where p (r ∷ rs) = let n = count_where p rs in if p r then n + 1 else n

-- `key` is the primary key: no two rows have one key.
abbrev pub IsAbsent : Text → List Row → Type 0
IsAbsent k rs = All (λ r. r.key ≢ k) rs

abbrev pub IsUnique : List Row → Type 0
IsUnique [] = Unit
IsUnique (r ∷ rs) = IsAbsent r.key rs × IsUnique rs
