-- ===== src/Store/Like.antt =====
-- SQLite's `LIKE`, which `DeleteExpired` filters by: "%" stands for any text, "_" for any one code
-- point, and letters of ASCII are compared without regard to case.
use botkit.Prelude.{
  ℕ, ◌+◌, ◌≡◌, refl, ◌≢◌, Bool, true, false, ◌&&◌, ◌||◌, [], ◌∷◌, ◌++◌, arith, leb, if◌then◌else◌,
  ◌==◌, nat_eq, All, Text, codes, text_eq, is_blank,
}

abbrev pub fold_case : ℕ → ℕ
fold_case c = if leb b'A' c && leb c b'Z' then c + 32 else c

unfoldable pub like : Text → Text → Bool
like [] s = is_blank s
like (p ∷ ps) [] = elim (p == b'%') [ true ↦ like ps [] | false ↦ false ]
like (p ∷ ps) (c ∷ s) = elim (p == b'%') [
  | true ↦ elim (like ps (c ∷ s)) [ true ↦ true | false ↦ like (p ∷ ps) s ]
  | false ↦ elim (p == b'_' || fold_case p == fold_case c) [ true ↦ like ps s | false ↦ false ]
]

-- A text that `LIKE` takes at its letters.
abbrev pub IsLiteral : Text → Type 0
IsLiteral s = All (λ c. (c ≢ b'%') × (c ≢ b'_')) s

-- A prefix without regard to the case of ASCII letters.
unfoldable pub has_prefix_folded : Text → Text → Bool
has_prefix_folded [] s = true
has_prefix_folded (p ∷ ps) [] = false
has_prefix_folded (p ∷ ps) (c ∷ s) = fold_case p == fold_case c && has_prefix_folded ps s

pub like_percent : (s : Text) → like (b'%' ∷ []) s ≡ true
unfolding like
like_percent [] = refl
like_percent (c ∷ s) = ground (arith, like_percent s)

-- prefix || '%' matches the texts with that prefix, case folded, where the prefix is literal.
pub like_literal_prefix :
    (p s : Text) → IsLiteral p → like (p ++ b'%' ∷ []) s ≡ has_prefix_folded p s
unfolding like has_prefix_folded
like_literal_prefix [] s h = like_percent s
like_literal_prefix (p ∷ ps) [] h = ground arith
like_literal_prefix (p ∷ ps) (c ∷ s) h = ground (arith, like_literal_prefix ps s h.1)

pub has_prefix_folded_self : (p s : Text) → has_prefix_folded p (p ++ s) ≡ true
unfolding has_prefix_folded
has_prefix_folded_self [] s = refl
has_prefix_folded_self (c ∷ p) s = ground (arith, has_prefix_folded_self p s)

like_tests :
    (like (codes "sched:%") (codes "sched:daily") ≡ true)
    × (like (codes "a_b%") (codes "axbc") ≡ true)
    × (like (codes "ab%") (codes "axbc") ≡ false)
    × (like (codes "AB%") (codes "abc") ≡ true)
unfolding like
like_tests = (refl, refl, refl, refl)
