-- ===== src/Store/Sweep.antt =====
-- store/kv.go: what `DeleteExpired` removes and what it keeps.
use botkit.Prelude.{
  ℕ, ◌+◌, ◌/◌, ◌<◌, ◌≡◌, refl, ap, ◌∙◌, inl, inr, Bool, true, ◌&&◌, Option, none, some, List, [],
  ◌∷◌, ◌++◌, append_assoc, arith, ltb, if◌then◌else◌, ◌==◌, nat_eq, Bool-cases, length, Text,
  text_beq_iff, text_eq,
}
use botkit.Errors.{ok}
use botkit.Store.Like.{like_percent, like, IsLiteral, like_literal_prefix, has_prefix_folded}
use mathlib.Core.Path.{fun_ext}
use botkit.Store.Table.{
  Row, select_value, is_expired, delete_where, count_where, IsAbsent, IsUnique,
}
use botkit.Store.Kv.{Kv, works, delete_expired}

-- The row of a key.
unfoldable pub find_row : Text → List Row → Option Row
find_row k [] = none
find_row k (r ∷ rs) = if r.key == k then some r else find_row k rs

abbrev pub keep_unless : (Row → Bool) → Option Row → Option Row
keep_unless p none = none
keep_unless p (some r) = if p r then none else some r

find_row_absent : (k : Text) (rs : List Row) → IsAbsent k rs → find_row k rs ≡ none
unfolding find_row
find_row_absent k [] h = refl
find_row_absent k (r ∷ rs) h = ground (arith, find_row_absent k rs h.1, text_beq_iff r.key k)

find_row_absent_swept :
    (k : Text) (p : Row → Bool) (rs : List Row)
    → IsAbsent k rs
    → find_row k (delete_where p rs) ≡ none
unfolding find_row delete_where
find_row_absent_swept k p [] h = refl
find_row_absent_swept k p (r ∷ rs) h =
    ground (arith, find_row_absent_swept k p rs h.1, text_beq_iff r.key k)

pub find_row-delete_where :
    (k : Text) (p : Row → Bool) (rs : List Row)
    → IsUnique rs
    → find_row k (delete_where p rs) ≡ keep_unless p (find_row k rs)
unfolding find_row delete_where
find_row-delete_where k p [] h = refl
find_row-delete_where k p (r ∷ rs) h = elim (Bool-cases (r.key == k)) [
  | inl same ↦
      ground (arith, find_row_absent_swept k p rs (rw ((text_beq_iff r.key k).0 same) at h.0))
  | inr other_key ↦ ground (arith, find_row-delete_where k p rs h.1)
]

pub select_value-find_row :
    (k : Text) (rs : List Row)
    → select_value k rs ≡ elim (find_row k rs) [ none ↦ none | some r ↦ some r.value ]
unfolding select_value find_row
select_value-find_row k [] = refl
select_value-find_row k (r ∷ rs) = ground (arith, select_value-find_row k rs)

-- A sweep under a literal prefix removes the row of a key exactly if the key has the prefix (case
-- folded) and the row was last written more than the age's whole seconds ago; every other row of a
-- table with unique keys stays as it was.
delete_expired_exact :
    (counted : Bool) (now age : ℕ) (prefix k : Text) (kv : Kv)
    → IsUnique kv.rows
    → IsLiteral prefix
    → find_row k (delete_expired works counted now prefix age kv).0.rows
      ≡ keep_unless
          (λ r. has_prefix_folded prefix r.key && ltb (r.updated_at + age / 1_000_000_000) now)
          (find_row k kv.rows)
unfolding delete_expired is_expired
delete_expired_exact counted now age prefix k kv u l =
    find_row-delete_where k (is_expired prefix (age / 1_000_000_000) now) kv.rows u
    ∙ ap (λ p. keep_unless p (find_row k kv.rows))
        (fun_ext λ r. rw (like_literal_prefix prefix r.key l) refl)

length-delete_where :
    (p : Row → Bool) (rs : List Row) → length (delete_where p rs) + count_where p rs ≡ length rs
unfolding delete_where count_where
length-delete_where p [] = omega arith
length-delete_where p (r ∷ rs) = ground (arith, length-delete_where p rs)

-- The count that a sweep returns is the number of rows that went.
pub delete_expired_count :
    (now age : ℕ) (prefix : Text) (kv : Kv) (n : ℕ)
    → (delete_expired works true now prefix age kv).1 ≡ ok n
    → length (delete_expired works true now prefix age kv).0.rows + n ≡ length kv.rows
unfolding delete_expired
delete_expired_count now age prefix kv n h =
    ground (arith, length-delete_where (is_expired prefix (age / 1_000_000_000) now) kv.rows)

like_underscore :
    (p s : Text) (c : ℕ) → IsLiteral p → like (p ++ b'_' ∷ b'%' ∷ []) (p ++ c ∷ s) ≡ true
unfolding like
like_underscore [] s c h = like_percent s
like_underscore (a ∷ p) s c h = ground (arith, like_underscore p s c h.1)

-- A "_" in the prefix is taken as a wildcard: a sweep under p ++ "_" removes every row, old enough,
-- whose key is p followed by any code point at all, also where the key does not begin with p ++ "_".
delete_expired_wildcard :
    (counted : Bool) (now age : ℕ) (p s : Text) (c : ℕ) (r : Row) (kv : Kv)
    → IsUnique kv.rows
    → IsLiteral p
    → find_row (p ++ c ∷ s) kv.rows ≡ some r
    → r.key ≡ p ++ c ∷ s
    → r.updated_at + age / 1_000_000_000 < now
    → find_row (p ++ c ∷ s) (delete_expired works counted now (p ++ b'_' ∷ []) age kv).0.rows ≡ none
unfolding delete_expired is_expired
delete_expired_wildcard counted now age p s c r kv u l there key old =
    rw
      (
        find_row-delete_where (p ++ c ∷ s) (is_expired (p ++ b'_' ∷ []) (age / 1_000_000_000) now)
            kv.rows u,
        there,
        append_assoc,
        key,
        like_underscore p s c l,
      )
      (ground arith)
