-- ===== src/Store/Counting.antt =====
-- store/kv.go: how many rows a sweep takes, said of the cells.
use botkit.Prelude.{
  ℕ, ◌+◌, ◌≡◌, refl, sym, ap, ◌∙◌, ◌≢◌, ◌↔◌, inl, inr, Bool, true, Option, none, some, List, [],
  ◌∷◌, arith, if◌then◌else◌, ◌==◌, nat_eq, Bool-cases, length, Any, All, Text, text_beq_refl,
  text_beq_iff, text_eq,
}
use botkit.Store.Table.{Row, IsUnique, IsAbsent, delete_key, count_where}
use botkit.Store.Uniqueness.{IsUnique-delete_key}
use botkit.Store.Cells.{Cells, cells, Distinct, Counts, has_expired}

pub cells-delete_key :
    (k j : Text) (rs : List Row) → cells (delete_key j rs) k ≡ (if j == k then none else cells rs k)
unfolding cells delete_key
cells-delete_key k j [] = ground arith
cells-delete_key k j (r ∷ rs) =
    ground
      (arith, cells-delete_key k j rs, text_beq_iff r.key j, text_beq_iff r.key k, text_beq_iff j k)

pub cells-absent : (k : Text) (rs : List Row) → IsAbsent k rs → cells rs k ≡ none
unfolding cells
cells-absent k [] h = refl
cells-absent k (r ∷ rs) (new, h) = ground (arith, cells-absent k rs h, text_beq_iff r.key k)

-- The keys of the rows that a sweep takes.
abbrev keys_where : (Row → Bool) → List Row → List Text
keys_where p [] = []
keys_where p (r ∷ rs) = let rest = keys_where p rs in if p r then r.key ∷ rest else rest

length-keys_where : (p : Row → Bool) (rs : List Row) → length (keys_where p rs) ≡ count_where p rs
unfolding count_where
length-keys_where p [] = refl
length-keys_where p (r ∷ rs) = elim (Bool-cases (p r)) [
  | inl gone ↦ rw gone (omega (arith, length-keys_where p rs))
  | inr stays ↦ rw stays (length-keys_where p rs)
]

keys_where-absent :
    (k : Text) (p : Row → Bool) (rs : List Row) → IsAbsent k rs → All (λ j. j ≢ k) (keys_where p rs)
keys_where-absent k p [] h = tt
keys_where-absent k p (r ∷ rs) (new, h) = elim (Bool-cases (p r)) [
  | inl gone ↦ rw gone (new, keys_where-absent k p rs h)
  | inr stays ↦ rw stays (keys_where-absent k p rs h)
]

keys_where-Distinct : (p : Row → Bool) (rs : List Row) → IsUnique rs → Distinct (keys_where p rs)
keys_where-Distinct p [] h = tt
keys_where-Distinct p (r ∷ rs) (new, h) = elim (Bool-cases (p r)) [
  | inl gone ↦ rw gone (keys_where-absent r.key p rs new, keys_where-Distinct p rs h)
  | inr stays ↦ rw stays (keys_where-Distinct p rs h)
]

not_among : (k : Text) (ks : List Text) → All (λ j. j ≢ k) ks → ¬ Any (λ j. j ≡ k) ks
not_among k [] h x = absurd x
not_among k (j ∷ ks) (other_key, h) (inl same) = other_key same
not_among k (j ∷ ks) (other_key, h) (inr later) = not_among k ks h later

keys_where-expired :
    (k : Text) (p : Row → Bool) (rs : List Row)
    → IsUnique rs
    → Any (λ j. j ≡ k) (keys_where p rs) ↔ (has_expired p k (cells rs k) ≡ true)
unfolding cells
keys_where-expired k p [] h = ((λ x. absurd x), λ e. absurd (cc e))
keys_where-expired k p (r ∷ rs) (new, h) = elim (Bool-cases (r.key == k)) [
  | inl here ↦
      let same = (text_beq_iff r.key k).0 here in
      let alike : p (record r { key = k }) ≡ p r =
        ap (λ (j : Text). p (record r { key = j })) (sym same) in
      let absent = not_among k (keys_where p rs) (keys_where-absent k p rs (rw same at new)) in
      rw (here, alike)
        (elim (Bool-cases (p r)) [
          | inl gone ↦ rw gone ((λ x. refl), λ e. inl same)
          | inr stays ↦ rw stays ((λ x. absurd (absent x)), λ e. absurd (cc e))
        ])
  | inr other_key ↦
      let rest = keys_where-expired k p rs h in
      rw other_key (elim (Bool-cases (p r)) [
        | inr stays ↦ rw stays rest
        | inl gone ↦ rw gone (
          (λ x. elim x [
            | inl same ↦ absurd (cc ((text_beq_iff r.key k).1 same, other_key))
            | inr later ↦ rest.0 later
          ]),
          λ e. inr (rest.1 e),
        )
      ])
]

-- The rows that a condition counts are as many as the cells that meet it.
pub count_where-Counts :
    (p : Row → Bool) (rs : List Row) (m : Cells)
    → IsUnique rs
    → ((k : Text) → cells rs k ≡ m k)
    → Counts p m (count_where p rs)
count_where-Counts p rs m u h = (
  keys_where p rs,
  keys_where-Distinct p rs u,
  length-keys_where p rs,
  λ k. rw (← h k) (keys_where-expired k p rs u),
)

one_if_expired : (Row → Bool) → Text → Option (Text × ℕ) → ℕ
one_if_expired p k c = if has_expired p k c then 1 else 0

delete_key-absent : (k : Text) (rs : List Row) → IsAbsent k rs → delete_key k rs ≡ rs
unfolding delete_key
delete_key-absent k [] h = refl
delete_key-absent k (r ∷ rs) (new, h) =
    ground (arith, delete_key-absent k rs h, text_beq_iff r.key k)

count_where-delete_key :
    (k : Text) (p : Row → Bool) (rs : List Row)
    → IsUnique rs
    → count_where p rs ≡ count_where p (delete_key k rs) + one_if_expired p k (cells rs k)
unfolding cells delete_key count_where one_if_expired
count_where-delete_key k p [] h = refl
count_where-delete_key k p (r ∷ rs) (new, h) = elim (Bool-cases (r.key == k)) [
  | inl here ↦
      let same = (text_beq_iff r.key k).0 here in
      let alike : p (record r { key = k }) ≡ p r =
        ap (λ (j : Text). p (record r { key = j })) (sym same) in
      rw (here, alike, delete_key-absent k rs (rw same at new)) (ground arith)
  | inr other_key ↦ rw other_key (ground (arith, count_where-delete_key k p rs h))
]

-- Two tables with the same cells have as many rows that meet a condition.
pub count_where-same :
    (p : Row → Bool) (rs ss : List Row)
    → IsUnique rs
    → IsUnique ss
    → ((k : Text) → cells rs k ≡ cells ss k)
    → count_where p rs ≡ count_where p ss
unfolding count_where cells one_if_expired
count_where-same p [] [] u v h = refl
count_where-same p [] (s ∷ ss) u v h = absurd (cc (h s.key, text_beq_refl s.key))
count_where-same p (r ∷ rs) ss (new, u) v h =
    let rest : (k : Text) → cells rs k ≡ cells (delete_key r.key ss) k = λ k.
      elim (Bool-cases (r.key == k)) [
        | inl here ↦
            cells-absent k rs (rw ((text_beq_iff r.key k).0 here) at new)
            ∙ sym (cells-delete_key k r.key ss ∙ rw here refl)
        | inr other_key ↦
            (rw other_key at (h k)) ∙ sym (cells-delete_key k r.key ss ∙ rw other_key refl)
      ] in
    let same =
      count_where-same p rs (delete_key r.key ss) u (IsUnique-delete_key r.key ss v) rest in
    let there : cells ss r.key ≡ some (r.value, r.updated_at) =
      sym (h r.key) ∙ rw (text_beq_refl r.key) refl in
    let counted = rw there at (count_where-delete_key r.key p ss v) in
    elim (Bool-cases (p r)) [
      | inl gone ↦ rw gone (omega (arith, same, rw gone at counted))
      | inr stays ↦ rw stays (omega (arith, same, rw stays at counted))
    ]
