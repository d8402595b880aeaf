-- ===== src/Redact/Opaque.antt =====
-- redact/redact.go: what a redacted value shows.
use botkit.Prelude.{
  ℕ, zero, suc, ◌*◌, ◌/◌, ◌%◌, ◌≤◌, ◌<◌, ◌≡◌, refl, ap, ap₂, ◌≢◌, ◌↔◌, ◌⊎◌, inl, inr, true, false,
  List, [], ◌∷◌, ◌++◌, arith, nat_eq, Bool-cases, length, All, Text, codes, text_eq,
}
use botkit.Redact.{hex_digit, hex, take, phone, jid, is_gap, first_token, name}

length-take : (n : ℕ) (xs : List ℕ) → n ≤ length xs → length (take n xs) ≡ n
length-take zero xs h = refl
length-take (suc n) [] h = absurd (omega arith)
length-take (suc n) (x ∷ xs) h = omega (arith, length-take n xs (omega arith))

length-hex : (bs : List ℕ) → length (hex bs) ≡ 2 * length bs
unfolding hex
length-hex [] = omega arith
length-hex (b ∷ bs) = omega (arith, length-hex bs)

hex_digit-injective : (a b : ℕ) → a < 16 → b < 16 → hex_digit a ≡ hex_digit b → a ≡ b
hex_digit-injective a b la lb e = ground (arith, la, lb, e)

abbrev pub IsByte : ℕ → Type 0
IsByte b = b < 256

hex-injective : (xs ys : List ℕ) → All IsByte xs → All IsByte ys → hex xs ≡ hex ys → xs ≡ ys
unfolding hex
hex-injective [] [] hx hy e = refl
hex-injective [] (y ∷ ys) hx hy e = absurd (cc)
hex-injective (x ∷ xs) [] hx hy e = absurd (cc)
hex-injective (x ∷ xs) (y ∷ ys) (bx, hx) (by, hy) e =
    let high : x / 16 ≡ y / 16 =
      hex_digit-injective (x / 16) (y / 16) (omega (arith, bx)) (omega (arith, by)) (cc) in
    let low : x % 16 ≡ y % 16 =
      hex_digit-injective (x % 16) (y % 16) (omega arith) (omega arith) (cc) in
    ap₂ (λ b bs. b ∷ bs) (omega (arith, high, low)) (hex-injective xs ys hx hy (cc))

All-take : (P : ℕ → Type 0) (n : ℕ) (xs : List ℕ) → All P xs → All P (take n xs)
All-take P zero xs h = tt
All-take P (suc n) [] h = tt
All-take P (suc n) (x ∷ xs) h = (h.0, All-take P n xs h.1)

-- What is used of SHA-256: a digest is bytes, and at least four.
pub record DigestLaws (sha256 : Text → List ℕ) : Type 0 where
  pub bytes : (s : Text) → All IsByte (sha256 s)
  pub long : (s : Text) → 4 ≤ length (sha256 s)

-- A redacted phone is 11 characters and a redacted JID 10, whatever the value was, unless it was
-- empty; two values are redacted alike, as phones and as JIDs, exactly if their digests begin with the
-- same four bytes; and no phone is redacted like a JID.
pub phone_exact :
    (sha256 : Text → List ℕ) (p q : Text)
    → DigestLaws sha256
    → p ≢ []
    → q ≢ []
    → (length (phone sha256 p) ≡ 11)
      × (length (jid sha256 p) ≡ 10)
      × ((phone sha256 p ≡ phone sha256 q) ↔ (take 4 (sha256 p) ≡ take 4 (sha256 q)))
      × ((jid sha256 p ≡ jid sha256 q) ↔ (take 4 (sha256 p) ≡ take 4 (sha256 q)))
      × (phone sha256 p ≢ jid sha256 q)
unfolding phone jid
phone_exact sha256 [] q laws hp hq = absurd (hp refl)
phone_exact sha256 (c ∷ p) [] laws hp hq = absurd (hq refl)
phone_exact sha256 (c ∷ p) (d ∷ q) laws hp hq =
    let sum : List ℕ = take 4 (sha256 (c ∷ p)) in
    let inj =
      hex-injective (take 4 (sha256 (c ∷ p))) (take 4 (sha256 (d ∷ q)))
        (All-take IsByte 4 _ (laws.bytes (c ∷ p))) (All-take IsByte 4 _ (laws.bytes (d ∷ q))) in
    let size : length (hex sum) ≡ 8 =
      omega (arith, length-hex sum, length-take 4 (sha256 (c ∷ p)) (laws.long (c ∷ p))) in
    (
      omega (arith, size),
      omega (arith, size),
      ((λ e. inj (cc)), λ e. ap (λ (s : List ℕ). codes "ph:" ++ hex s) e),
      ((λ e. inj (cc)), λ e. ap (λ (s : List ℕ). codes "g:" ++ hex s) e),
      λ e. ground arith,
    )

first_token_split :
    (n : Text)
    → All (λ c. is_gap c ≡ false) (first_token n)
      × ((first_token n ≡ n)
          ⊎ ((c : ℕ) × (rest : Text) × (is_gap c ≡ true) × (n ≡ first_token n ++ c ∷ rest)))
unfolding first_token
first_token_split [] = (tt, inl refl)
first_token_split (r ∷ rest) = elim (Bool-cases (is_gap r)) [
  | inl gap ↦ rw gap (tt, inr (r, rest, gap, refl))
  | inr letter ↦
      let (clean, shape) = first_token_split rest in
      rw letter (
        (letter, clean),
        elim shape [
          | inl same ↦ inl (ap (λ (s : Text). r ∷ s) same)
          | inr (c, more, gap, e) ↦ inr (c, more, gap, ap (λ (s : Text). r ∷ s) e)
        ],
      )
]

-- A redacted name has no space or tab, and is either the whole name or what stands before the first.
name_first_token :
    (n : Text)
    → n ≢ []
    → All (λ c. is_gap c ≡ false) (name n)
      × ((name n ≡ n) ⊎ ((c : ℕ) × (rest : Text) × (is_gap c ≡ true) × (n ≡ name n ++ c ∷ rest)))
unfolding name
name_first_token [] h = absurd (h refl)
name_first_token (c ∷ n) h = first_token_split (c ∷ n)

-- A name that begins with a space or a tab is redacted to the empty text, and not to its first token.
name_leading_gap : (c : ℕ) (rest : Text) → is_gap c ≡ true → name (c ∷ rest) ≡ []
unfolding name first_token
name_leading_gap c rest h = ground arith
