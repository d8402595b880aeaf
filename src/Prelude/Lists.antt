-- ===== src/Prelude/Lists.antt =====
-- Lists measured by native numbers, and predicates on their elements.
use Prim.Native.Nat.{ℕ, suc, ◌+◌}
use mathlib.Core.Path.{◌≡◌, refl}
use mathlib.Core.Bool.{Bool, true, false, ◌||◌}
use mathlib.Core.Logic.{◌↔◌, ◌⊎◌, inl, inr}
use botkit.Prelude.Tests.{Bool-cases}
use mathlib.Core.List.{List, [], ◌∷◌, ◌++◌, map}
use native.Mathlib.Omega.{arith}

module _ {ℓ} {A : Type ℓ} where
  abbrev pub length : List A → ℕ
  length [] = 0
  length (x ∷ xs) = suc (length xs)

  pub length-append : (xs ys : List A) → length (xs ++ ys) ≡ length xs + length ys
  length-append [] ys = omega arith
  length-append (x ∷ xs) ys = omega (arith, length-append xs ys)

  -- Whether a test holds of some element: a loop that returns `true` at the first.
  abbrev pub any : (A → Bool) → List A → Bool
  any p [] = false
  any p (x ∷ xs) = p x || any p xs

module _ {ℓ κ} {A : Type ℓ} (P : A → Type κ) where
  abbrev pub All : List A → Type κ
  All [] = Unit
  All (x ∷ xs) = P x × All xs

  pub All-append : (xs ys : List A) → All xs → All ys → All (xs ++ ys)
  All-append [] ys _ k = k
  All-append (x ∷ xs) ys (p, h) k = (p, All-append xs ys h k)

-- Of some element.
module _ {ℓ} {A : Type ℓ} (P : A → Type 0) where
  abbrev pub Any : List A → Type 0
  Any [] = ⊥
  Any (x ∷ xs) = P x ⊎ Any xs

pub any_iff {ℓ} :
    {A : Type ℓ} (p : A → Bool) (xs : List A) → (any p xs ≡ true) ↔ Any (λ x. p x ≡ true) xs
any_iff p [] = (λ h. cc, λ h. absurd h)
any_iff p (x ∷ xs) =
    let (there, back) = any_iff p xs in
    (
      λ h. elim (Bool-cases (p x)) [ inl here ↦ inl here | inr nay ↦ inr (there (rw nay at h)) ],
      λ h. elim h [
        | inl here ↦ rw here refl
        | inr rest ↦ elim (Bool-cases (p x)) [
          | inl here ↦ rw here refl
          | inr nay ↦ rw nay (back rest)
        ]
      ],
    )

pub Any-map {ℓ} :
    {A : Type ℓ} (P Q : A → Type 0) (xs : List A) → ((x : A) → P x → Q x) → Any P xs → Any Q xs
Any-map P Q [] f h = absurd h
Any-map P Q (x ∷ xs) f (inl p) = inl (f x p)
Any-map P Q (x ∷ xs) f (inr h) = inr (Any-map P Q xs f h)

pub length-map {ℓ κ} :
    {A : Type ℓ} {B : Type κ} (f : A → B) (xs : List A) → length (map f xs) ≡ length xs
length-map f [] = refl
length-map f (x ∷ xs) = omega (arith, length-map f xs)
