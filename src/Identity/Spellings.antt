-- ===== src/Identity/Spellings.antt =====
-- identity/identity.go: which ways of writing a number have one key.
use botkit.Prelude.{
  ℕ, zero, suc, ◌≡◌, refl, sym, ap, ap₂, ◌∙◌, ◌↔◌, ◌⊎◌, inl, inr, true, false, [], ◌∷◌, ◌++◌, arith,
  nat_eq, Bool-cases, Text, text_eq, trim_left, nat_beq_iff,
}
use botkit.Identity.{is_zero, digits, canonical, normalize}
use botkit.Identity.Canonical.{IsCountryCode, IsNational, canonical_international}

-- A text after some zeros.
abbrev pub zeros : ℕ → Text → Text
zeros zero n = n
zeros (suc k) n = b'0' ∷ zeros k n

append_cancel_left : (s t u : Text) → s ++ t ≡ s ++ u → t ≡ u
append_cancel_left [] t u e = e
append_cancel_left (c ∷ s) t u e = append_cancel_left s t u (cc)

trim_left-zeros : (k : ℕ) (n : Text) → IsNational n → trim_left is_zero (zeros k n) ≡ n
unfolding trim_left
trim_left-zeros zero [] h = elim h [ ]
trim_left-zeros zero (c ∷ n) h = ground arith
trim_left-zeros (suc k) n h = trim_left-zeros k n h

zeros-trim_left : (d : Text) → (k : ℕ) × (d ≡ zeros k (trim_left is_zero d))
unfolding trim_left
zeros-trim_left [] = (0, refl)
zeros-trim_left (c ∷ d) = elim (Bool-cases (is_zero c)) [
  | inr digit ↦ (0, rw digit refl)
  | inl is_0 ↦
      let (k, e) = zeros-trim_left d in
      (suc k, rw is_0 (ap₂ (λ x y. x ∷ y) ((nat_beq_iff c b'0').0 is_0) e))
]

-- Ways of writing the national number `n`: with the country code, or after one zero or more.
abbrev pub Spells : Text → Text → Text → Type 0
Spells country n d = (d ≡ country ++ n) ⊎ ((k : ℕ) × (d ≡ zeros (suc k) n))

canonical_zero :
    (country d : Text) (c : ℕ)
    → is_zero c ≡ true
    → canonical country (c ∷ d) ≡ country ++ trim_left is_zero d
unfolding canonical
canonical_zero country d c h = ground (arith, h)

canonical_digit : (country d : Text) (c : ℕ) → is_zero c ≡ false → canonical country (c ∷ d) ≡ c ∷ d
unfolding canonical
canonical_digit country d c h = ground (arith, h)

canonical-Spells :
    (country n d : Text)
    → IsCountryCode country
    → canonical country d ≡ country ++ n
    → Spells country n d
unfolding canonical
canonical-Spells [] n d hc h = elim hc [ ]
canonical-Spells (a ∷ s) n [] hc h = absurd (cc)
canonical-Spells (a ∷ s) n (c ∷ d) hc h = elim (Bool-cases (is_zero c)) [
  | inr digit ↦ inl (sym (canonical_digit (a ∷ s) d c digit) ∙ h)
  | inl is_0 ↦
      let rest : trim_left is_zero d ≡ n =
        append_cancel_left (a ∷ s) _ _ (sym (canonical_zero (a ∷ s) d c is_0) ∙ h) in
      let (k, e) = zeros-trim_left d in
      inr (k, ap₂ (λ x y. x ∷ y) ((nat_beq_iff c b'0').0 is_0) (e ∙ ap (zeros k) rest))
]

Spells-canonical :
    (country n d : Text)
    → IsCountryCode country
    → IsNational n
    → Spells country n d
    → canonical country d ≡ country ++ n
unfolding canonical
Spells-canonical country n d hc hn (inl e) = rw e (canonical_international country n hc)
Spells-canonical country n d hc hn (inr (k, e)) = rw (e, trim_left-zeros k n hn) refl

-- Of a national number `n`, the key is the country code and n, and the texts that have this key are
-- exactly those whose digits, whatever stands between them, are the country code and n, or n after one
-- zero or more.
pub normalize_iff :
    (country n raw : Text)
    → IsCountryCode country
    → IsNational n
    → (normalize country raw ≡ country ++ n) ↔ Spells country n (digits raw)
unfolding normalize
normalize_iff country n raw hc hn =
    (canonical-Spells country n (digits raw) hc, Spells-canonical country n (digits raw) hc hn)
