-- ===== src/Prelude/Substrings.antt =====
-- What `strings.Contains` and `strings.HasPrefix` find, said without them.
use botkit.Prelude.{
  ℕ, ◌≡◌, refl, ap, ap₂, ◌↔◌, inl, inr, true, [], ◌∷◌, ◌++◌, arith, nat_eq, Bool-cases, Text,
  text_eq, has_prefix, contains, has_prefix-append,
}

-- Whether a text occurs in another, with something before and something behind it.
abbrev pub Includes : Text → Text → Type 0
Includes s sub = (before : Text) × (behind : Text) × (s ≡ before ++ (sub ++ behind))

has_prefix_sound : (s p : Text) → has_prefix s p ≡ true → (behind : Text) × (s ≡ p ++ behind)
unfolding has_prefix
has_prefix_sound s [] h = (s, refl)
has_prefix_sound [] (p ∷ ps) h = cc
has_prefix_sound (c ∷ s) (p ∷ ps) h =
    let (behind, e) = has_prefix_sound s ps (ground arith) in
    (behind, ap₂ (λ (a : ℕ) (t : Text). a ∷ t) (ground arith) e)

has_prefix-contains : (s p : Text) → has_prefix s p ≡ true → contains s p ≡ true
unfolding has_prefix contains
has_prefix-contains [] [] h = refl
has_prefix-contains [] (p ∷ ps) h = cc
has_prefix-contains (c ∷ s) p h = rw h refl

contains-Includes : (s sub : Text) → contains s sub ≡ true → Includes s sub
unfolding contains
contains-Includes [] [] h = ([], [], refl)
contains-Includes [] (p ∷ ps) h = cc
contains-Includes (c ∷ s) sub h = elim (Bool-cases (has_prefix (c ∷ s) sub)) [
  | inl here ↦ let (behind, e) = has_prefix_sound (c ∷ s) sub here in ([], behind, e)
  | inr later ↦
      let (before, behind, e) = contains-Includes s sub (rw later at h) in
      (c ∷ before, behind, ap (λ (t : Text). c ∷ t) e)
]

contains-inside : (before sub behind : Text) → contains (before ++ (sub ++ behind)) sub ≡ true
unfolding contains
contains-inside [] sub behind =
    has_prefix-contains (sub ++ behind) sub (has_prefix-append sub behind)
contains-inside (c ∷ before) sub behind = rw (contains-inside before sub behind) (ground arith)

pub contains_iff : (s sub : Text) → (contains s sub ≡ true) ↔ Includes s sub
contains_iff s sub =
    (contains-Includes s sub, λ (before, behind, e). rw e (contains-inside before sub behind))
