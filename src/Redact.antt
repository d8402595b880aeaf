-- ===== src/Redact.antt =====
-- redact/redact.go. `sha256` is the digest of the text's bytes.
pub mod Opaque
use botkit.Prelude.{
  ℕ, zero, suc, ◌+◌, ◌-◌, ◌/◌, ◌%◌, ◌<◌, ◌≡◌, refl, Bool, ◌||◌, List, [], ◌∷◌, ◌++◌, ltb,
  if◌then◌else◌, ◌==◌, nat_eq, Text, codes, text_eq, is_blank,
}

abbrev pub hex_digit : ℕ → ℕ
hex_digit d = if ltb d 10 then b'0' + d else b'a' + (d - 10)

-- hex.EncodeToString
unfoldable pub hex : List ℕ → Text
hex [] = []
hex (b ∷ bs) = hex_digit (b / 16) ∷ hex_digit (b % 16) ∷ hex bs

-- sum[:n]
abbrev pub take : ℕ → List ℕ → List ℕ
take zero xs = []
take (suc n) [] = []
take (suc n) (x ∷ xs) = x ∷ take n xs

module _ (sha256 : Text → List ℕ) where
  unfoldable pub phone : Text → Text
  unfolding hex
  phone p = if is_blank p then codes "<empty>" else codes "ph:" ++ hex (take 4 (sha256 p))

  unfoldable pub jid : Text → Text
  unfolding hex
  jid j = if is_blank j then codes "<empty>" else codes "g:" ++ hex (take 4 (sha256 j))

-- r == ' ' || r == '\t'
abbrev pub is_gap : ℕ → Bool
is_gap r = r == b' ' || r == 9

-- n[:i] at the first gap, or all of n
unfoldable pub first_token : Text → Text
first_token [] = []
first_token (r ∷ rest) = let more = first_token rest in if is_gap r then [] else r ∷ more

unfoldable pub name : Text → Text
unfolding first_token
name n = if is_blank n then codes "<empty>" else first_token n

name_test : name (codes "Liza Katz") ≡ codes "Liza"
unfolding name
name_test = refl
