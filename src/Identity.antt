-- ===== src/Identity.antt =====
-- identity/identity.go. `country` is the value of the package variable `DefaultCountryCode`.
pub mod Canonical
pub mod Spellings
use botkit.Prelude.{
  ℕ, ◌+◌, ◌-◌, ◌≡◌, refl, Bool, ◌&&◌, none, [], ◌∷◌, ◌++◌, leb, if◌then◌else◌, ◌==◌, nat_eq, Text,
  codes, text_eq, is_blank, has_prefix, trim_left,
}

-- r >= '0' && r <= '9'
abbrev pub is_digit : ℕ → Bool
is_digit c = leb b'0' c && leb c b'9'

-- The digits of a text, in order: the loop of `Normalize`.
unfoldable pub digits : Text → Text
digits [] = []
digits (r ∷ rest) = let kept = digits rest in if is_digit r then r ∷ kept else kept

abbrev pub is_zero : ℕ → Bool
is_zero c = c == b'0'

-- `Normalize` from the digits on.
unfoldable pub canonical : Text → Text → Text
unfolding has_prefix trim_left
canonical country d =
    if is_blank d
    then []
    else if has_prefix d (codes "0")
    then country ++ trim_left is_zero d
    else d

unfoldable pub normalize : Text → Text → Text
unfolding digits canonical
normalize country raw = canonical country (digits raw)

abbrev pub default_country_code : Text
default_country_code = codes "972"

normalize_tests :
    (normalize default_country_code (codes "050-000-0001") ≡ codes "972500000001")
    × (normalize default_country_code (codes "+972500000001") ≡ codes "972500000001")
    × (normalize default_country_code (codes "972500000001") ≡ codes "972500000001")
    × (normalize default_country_code (codes "none") ≡ [])
unfolding normalize
normalize_tests = (refl, refl, refl, refl)
