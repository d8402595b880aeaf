-- ===== src/Prelude/Strings.antt =====
-- Go strings as lists of code points (the program's strings are valid UTF-8, so equal texts, prefixes
-- and substrings are the same on code points as on bytes), and what the program uses of `strings`.
use Prim.Native.Nat.{ℕ}
use Prim.Native.Char.{code}
use Prim.Native.String.{String}
use mathlib.Core.Path.{◌≡◌, refl, sym, ap, ap₂, ◌∙◌}
use mathlib.Core.Logic.{◌↔◌, ◌≢◌, ◌⊎◌, inl, inr}
use mathlib.Core.Bool.{Bool, true, false, ◌&&◌, ◌||◌}
use mathlib.Core.List.{List, [], ◌∷◌, ◌++◌, reverse, reverse-reverse, reverse-append}
use native.Mathlib.Omega.{arith}
use botkit.Prelude.Tests.{leb, nat_beq, nat_beq_iff, if◌then◌else◌, Eq, ◌==◌, nat_eq, Bool-cases}
use botkit.Prelude.Lists.{All}

abbrev pub Text : Type 0
Text = List ℕ

-- A text literal.
abbrev pub codes : String → Text
codes String.[] = []
codes (String.◌∷◌ c s) = code c ∷ codes s

unfoldable pub text_beq : Text → Text → Bool
text_beq [] [] = true
text_beq (a ∷ s) (b ∷ t) = nat_beq a b && text_beq s t
text_beq _ _ = false

text_beq_sound : (s t : Text) → text_beq s t ≡ true → s ≡ t
unfolding text_beq
text_beq_sound [] [] h = refl
text_beq_sound [] (b ∷ t) h = cc
text_beq_sound (a ∷ s) [] h = cc
text_beq_sound (a ∷ s) (b ∷ t) h = ground (arith, text_beq_sound s t)

pub text_beq_refl : (s : Text) → text_beq s s ≡ true
unfolding text_beq
text_beq_refl [] = refl
text_beq_refl (a ∷ s) = ground (arith, text_beq_refl s)

pub text_beq_iff : (s t : Text) → (text_beq s t ≡ true) ↔ (s ≡ t)
text_beq_iff s t = (text_beq_sound s t, λ e. rw e (text_beq_refl t))

instance abbrev pub text_eq : Eq Text
text_eq = record { same_value = text_beq; same_value_iff = text_beq_iff }

-- s == ""
abbrev pub is_blank : Text → Bool
is_blank [] = true
is_blank (c ∷ s) = false

-- strings.HasPrefix(s, prefix)
unfoldable pub has_prefix : Text → Text → Bool
has_prefix s [] = true
has_prefix [] (p ∷ ps) = false
has_prefix (c ∷ s) (p ∷ ps) = nat_beq c p && has_prefix s ps

-- strings.Contains(s, sub)
unfoldable pub contains : Text → Text → Bool
unfolding has_prefix
contains [] sub = is_blank sub
contains (c ∷ s) sub = has_prefix (c ∷ s) sub || contains s sub

-- unicode.IsSpace
unfoldable pub is_space : ℕ → Bool
is_space c =
    (leb 9 c && leb c 13)
    || (c == 32)
    || (c == 0x85)
    || (c == 0xa0)
    || (c == 0x1680)
    || (leb 0x2000 c && leb c 0x200a)
    || (c == 0x2028)
    || (c == 0x2029)
    || (c == 0x202f)
    || (c == 0x205f)
    || (c == 0x3000)

-- strings.TrimLeftFunc
unfoldable pub trim_left : (ℕ → Bool) → Text → Text
trim_left p [] = []
trim_left p (c ∷ s) = if p c then trim_left p s else c ∷ s

-- strings.TrimSpace
unfoldable pub trim_space : Text → Text
unfolding trim_left is_space
trim_space s = reverse (trim_left is_space (reverse (trim_left is_space s)))

-- The first piece of a split, and the rest.
abbrev pub push_head : ℕ → List Text → List Text
push_head c [] = (c ∷ []) ∷ []
push_head c (w ∷ ws) = (c ∷ w) ∷ ws

-- strings.Split(s, sep) at a separator of one code point.
unfoldable pub split : ℕ → Text → List Text
split sep [] = [] ∷ []
split sep (c ∷ s) = let rest = split sep s in if c == sep then [] ∷ rest else push_head c rest

-- strings.Join with a separator of one code point.
abbrev pub intercalate : ℕ → List Text → Text
intercalate sep [] = []
intercalate sep (w ∷ []) = w
intercalate sep (w ∷ v ∷ ws) = w ++ sep ∷ intercalate sep (v ∷ ws)

abbrev pub Lacks : ℕ → Text → Type 0
Lacks sep s = All (λ c. c ≢ sep) s

pub split_lacking : (sep : ℕ) (s : Text) → Lacks sep s → split sep s ≡ s ∷ []
unfolding split
split_lacking sep [] h = refl
split_lacking sep (c ∷ s) h = ground (arith, split_lacking sep s h.1)

pub split_first : (sep : ℕ) (s t : Text) → Lacks sep s → split sep (s ++ sep ∷ t) ≡ s ∷ split sep t
unfolding split
split_first sep [] t h = ground arith
split_first sep (c ∷ s) t h = ground (arith, split_first sep s t h.1)

intercalate-push_head :
    (sep c : ℕ) (ws : List Text) → intercalate sep (push_head c ws) ≡ c ∷ intercalate sep ws
intercalate-push_head sep c [] = refl
intercalate-push_head sep c (w ∷ []) = refl
intercalate-push_head sep c (w ∷ v ∷ ws) = refl

split-ne-nil : (sep : ℕ) (s : Text) → split sep s ≢ []
unfolding split
split-ne-nil sep [] = λ e. cc
split-ne-nil sep (c ∷ s) = elim (Bool-cases (c == sep)) [
  | inl same ↦ rw same (λ e. cc)
  | inr other_point ↦ rw other_point (push_head-ne-nil c (split sep s))
]
  where
    push_head-ne-nil : (a : ℕ) (ws : List Text) → push_head a ws ≢ []
    push_head-ne-nil a [] = λ e. cc
    push_head-ne-nil a (w ∷ ws) = λ e. cc

intercalate-cons_blank :
    (sep : ℕ) (ws : List Text) → ws ≢ [] → intercalate sep ([] ∷ ws) ≡ sep ∷ intercalate sep ws
intercalate-cons_blank sep [] h = absurd (h refl)
intercalate-cons_blank sep (w ∷ ws) h = refl

pub intercalate-split : (sep : ℕ) (s : Text) → intercalate sep (split sep s) ≡ s
unfolding split
intercalate-split sep [] = refl
intercalate-split sep (c ∷ s) = elim (Bool-cases (c == sep)) [
  | inl same ↦ rw same (
      intercalate-cons_blank sep (split sep s) (split-ne-nil sep s)
      ∙ ap₂ (λ (a : ℕ) (t : Text). a ∷ t) (sym ((nat_beq_iff c sep).0 same))
          (intercalate-split sep s))
  | inr other_point ↦ rw other_point (
      intercalate-push_head sep c (split sep s)
      ∙ ap (λ (t : Text). c ∷ t) (intercalate-split sep s))
]

All-Lacks-push_head :
    (sep c : ℕ) (ws : List Text) → c ≢ sep → All (Lacks sep) ws → All (Lacks sep) (push_head c ws)
All-Lacks-push_head sep c [] h k = ((h, tt), tt)
All-Lacks-push_head sep c (w ∷ ws) h (k, ks) = ((h, k), ks)

-- No piece of a split holds the separator.
pub split-Lacks : (sep : ℕ) (s : Text) → All (Lacks sep) (split sep s)
unfolding split
split-Lacks sep [] = (tt, tt)
split-Lacks sep (c ∷ s) = elim (Bool-cases (c == sep)) [
  | inl same ↦ rw same (tt, split-Lacks sep s)
  | inr different ↦ rw different (
      All-Lacks-push_head sep c (split sep s) (λ e. cc ((nat_beq_iff c sep).1 e, different))
        (split-Lacks sep s))
]

pub split-intercalate :
    (sep : ℕ) (ws : List Text) → ws ≢ [] → All (Lacks sep) ws → split sep (intercalate sep ws) ≡ ws
split-intercalate sep [] ne h = absurd (ne refl)
split-intercalate sep (w ∷ []) ne h = split_lacking sep w h.0
split-intercalate sep (w ∷ v ∷ ws) ne h =
    split_first sep w (intercalate sep (v ∷ ws)) h.0
    ∙ ap (λ (rest : List Text). w ∷ rest) (split-intercalate sep (v ∷ ws) (λ e. cc) h.1)

pub has_prefix-append : (s t : Text) → has_prefix (s ++ t) s ≡ true
unfolding has_prefix
has_prefix-append [] t = refl
has_prefix-append (c ∷ s) t = ground (arith, has_prefix-append s t)

-- A text that begins with no space.
abbrev pub Solid : Text → Type 0
Solid [] = ⊥
Solid (c ∷ s) = is_space c ≡ false

pub Solid-append : (s t : Text) → Solid s → Solid (s ++ t)
Solid-append [] t h = absurd h
Solid-append (c ∷ s) t h = h

trim_left-Solid : (s : Text) → Solid s → trim_left is_space s ≡ s
unfolding trim_left
trim_left-Solid [] h = absurd h
trim_left-Solid (c ∷ s) h = rw h refl

-- A text with no space at its ends is trimmed already.
pub trim_space-Solid : (s : Text) → Solid s → Solid (reverse s) → trim_space s ≡ s
unfolding trim_space
trim_space-Solid s front back =
    rw (trim_left-Solid s front, trim_left-Solid (reverse s) back) (reverse-reverse s)

drop_return : (s : Text) → trim_left is_space (b'\r' ∷ s) ≡ trim_left is_space s
unfolding trim_left is_space
drop_return s = refl

-- A carriage return behind it is trimmed.
trim_left-return :
    (s : Text)
    → ((trim_left is_space s ≡ []) × (trim_left is_space (s ++ b'\r' ∷ []) ≡ []))
      ⊎ (trim_left is_space (s ++ b'\r' ∷ []) ≡ trim_left is_space s ++ b'\r' ∷ [])
unfolding trim_left
trim_left-return [] = inl (refl, unfold is_space in refl)
trim_left-return (c ∷ s) = elim (Bool-cases (is_space c)) [
  | inl space ↦ rw space (trim_left-return s)
  | inr solid ↦ rw solid (inr refl)
]

pub trim_space-return : (s : Text) → trim_space (s ++ b'\r' ∷ []) ≡ trim_space s
unfolding trim_space
trim_space-return s = elim (trim_left-return s) [
  | inl (bare, still) ↦ rw (bare, still) refl
  | inr e ↦
      rw (e, reverse-append (trim_left is_space s) (b'\r' ∷ []))
        (ap reverse (drop_return (reverse (trim_left is_space s))))
]
