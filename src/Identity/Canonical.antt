-- ===== src/Identity/Canonical.antt =====
-- identity/identity.go: `Normalize` gives one key to all the ways of writing a number.
use botkit.Prelude.{
  ℕ, ◌≡◌, refl, ◌≢◌, inl, inr, Bool, true, [], ◌∷◌, ◌++◌, arith, nat_eq, Bool-cases, All,
  All-append, Text, codes, text_eq, has_prefix, trim_left,
}
use botkit.Identity.{is_zero, is_digit, digits, canonical, normalize}

abbrev pub IsDigits : Text → Type 0
IsDigits s = All (λ c. is_digit c ≡ true) s

-- What `DefaultCountryCode` has to be: digits, of which the first is not "0".
abbrev pub IsCountryCode : Text → Type 0
IsCountryCode [] = ⊥
IsCountryCode (c ∷ s) = IsDigits (c ∷ s) × (c ≢ b'0')

-- A national number after its trunk "0".
abbrev pub IsNational : Text → Type 0
IsNational [] = ⊥
IsNational (c ∷ s) = IsDigits (c ∷ s) × (c ≢ b'0')

digits-IsDigits : (s : Text) → IsDigits (digits s)
unfolding digits
digits-IsDigits [] = tt
digits-IsDigits (c ∷ s) = ground (arith, digits-IsDigits s)

pub digits_of_IsDigits : (s : Text) → IsDigits s → digits s ≡ s
unfolding digits
digits_of_IsDigits [] h = refl
digits_of_IsDigits (c ∷ s) h = ground (arith, digits_of_IsDigits s h.1)

IsDigits-trim_left : (p : ℕ → Bool) (s : Text) → IsDigits s → IsDigits (trim_left p s)
unfolding trim_left
IsDigits-trim_left p [] h = tt
IsDigits-trim_left p (c ∷ s) h = ground (arith, IsDigits-trim_left p s h.1)

canonical-IsDigits :
    (country d : Text) → IsDigits country → IsDigits d → IsDigits (canonical country d)
unfolding canonical
canonical-IsDigits country [] hc hd = tt
canonical-IsDigits country (c ∷ s) hc hd = elim (Bool-cases (has_prefix (c ∷ s) (codes "0"))) [
  | inl zero_first ↦
      rw zero_first
        (All-append (λ c. is_digit c ≡ true) country _ hc (IsDigits-trim_left is_zero (c ∷ s) hd))
  | inr plain ↦ rw plain hd
]

canonical_of_nonzero : (country s : Text) (c : ℕ) → c ≢ b'0' → canonical country (c ∷ s) ≡ c ∷ s
unfolding canonical
canonical_of_nonzero country s c h = ground arith

canonical-canonical :
    (country d : Text)
    → IsCountryCode country
    → canonical country (canonical country d) ≡ canonical country d
unfolding canonical
canonical-canonical [] d h = elim h [ ]
canonical-canonical (k ∷ ks) [] h = refl
canonical-canonical (k ∷ ks) (c ∷ s) h = ground arith

IsDigits-of_IsCountryCode : (country : Text) → IsCountryCode country → IsDigits country
IsDigits-of_IsCountryCode [] h = elim h [ ]
IsDigits-of_IsCountryCode (c ∷ s) h = h.0

-- The result is digits only, and normalising it again changes nothing.
normalize-normalize :
    (country raw : Text)
    → IsCountryCode country
    → IsDigits (normalize country raw)
      × (normalize country (normalize country raw) ≡ normalize country raw)
unfolding normalize
normalize-normalize country raw h =
    let only_digits =
      canonical-IsDigits country (digits raw) (IsDigits-of_IsCountryCode country h)
        (digits-IsDigits raw) in
    (
      only_digits,
      rw (digits_of_IsDigits _ only_digits) (canonical-canonical country (digits raw) h),
    )

digits-append : (s t : Text) → digits (s ++ t) ≡ digits s ++ digits t
unfolding digits
digits-append [] t = refl
digits-append (c ∷ s) t = ground (arith, digits-append s t)

trim_national : (country n : Text) → IsNational n → canonical country (b'0' ∷ n) ≡ country ++ n
unfolding canonical
trim_national country [] h = elim h [ ]
trim_national country (c ∷ s) h = ground arith

pub canonical_international :
    (country n : Text) → IsCountryCode country → canonical country (country ++ n) ≡ country ++ n
canonical_international [] n h = elim h [ ]
canonical_international (c ∷ s) n h = canonical_of_nonzero (c ∷ s) (s ++ n) c h.1

IsDigits-of_IsNational : (n : Text) → IsNational n → IsDigits n
IsDigits-of_IsNational [] h = elim h [ ]
IsDigits-of_IsNational (c ∷ s) h = h.0

digits_of_full :
    (country n : Text) → IsCountryCode country → IsNational n → digits (country ++ n) ≡ country ++ n
digits_of_full country n hc hn = digits_of_IsDigits (country ++ n) (
    All-append (λ c. is_digit c ≡ true) country n (IsDigits-of_IsCountryCode country hc)
      (IsDigits-of_IsNational n hn))

-- A number written nationally, "0" and n, and the same number written with "+" and the country code
-- have one key, which is the country code and n.
normalize_national :
    (country n : Text)
    → IsCountryCode country
    → IsNational n
    → (normalize country (b'0' ∷ n) ≡ country ++ n)
      × (normalize country (b'+' ∷ country ++ n) ≡ country ++ n)
unfolding normalize digits
normalize_national country n hc hn = (
  rw (digits_of_IsDigits n (IsDigits-of_IsNational n hn)) (trim_national country n hn),
  rw (digits_of_full country n hc hn) (canonical_international country n hc),
)

double_zero :
    (country m n : Text)
    → IsCountryCode m
    → canonical country (b'0' ∷ b'0' ∷ m ++ n) ≡ country ++ (m ++ n)
unfolding canonical
double_zero country [] n h = elim h [ ]
double_zero country (c ∷ s) n h = ground arith

-- A number written with the prefix "00" and the country code gets the country code a second time:
-- its key is the country code, the country code and n.
normalize_double_zero :
    (country n : Text)
    → IsCountryCode country
    → IsNational n
    → normalize country (b'0' ∷ b'0' ∷ country ++ n) ≡ country ++ (country ++ n)
unfolding normalize digits
normalize_double_zero country n hc hn =
    rw (digits_of_full country n hc hn) (double_zero country country n hc)
