-- ===== src/Bot/Contact/Cards.antt =====
-- bot/message.go: the phones of a card that was written line by line.
use botkit.Prelude.{
  ℕ, ◌≡◌, refl, ap, true, false, none, some, List, [], ◌∷◌, ◌++◌, map, append_assoc, arith, nat_eq,
  All, All-append, Text, codes, text_eq, has_prefix, trim_space, split, Lacks, split_first,
  has_prefix-append, Solid, Solid-append, trim_space-Solid, trim_space-return, map-append, reverse,
  reverse-append,
}
use botkit.Bot.Contact.{after_last, value_of, line_phone, add_phone, phones_of, phones}

after_last_lacking : (sep : ℕ) (s : Text) → Lacks sep s → after_last sep s ≡ none
unfolding after_last
after_last_lacking sep [] h = refl
after_last_lacking sep (c ∷ s) h = ground (arith, after_last_lacking sep s h.1)

after_last-append : (sep : ℕ) (s t : Text) → Lacks sep t → after_last sep (s ++ sep ∷ t) ≡ some t
unfolding after_last
after_last-append sep [] t h = ground (arith, after_last_lacking sep t h)
after_last-append sep (c ∷ s) t h = rw (after_last-append sep s t h) refl

-- A line of a card: an entry with its tag, its parameters and its number, or some other line.
pub data Line : Type 0 where
  tel : (tag params number : Text) → Line
  other_line : Text → Line

abbrev pub written : Line → Text
written (tel tag params number) = tag ++ (params ++ b':' ∷ number)
written (other_line t) = t

abbrev pub numbers : List Line → List Text
numbers [] = []
numbers (tel tag params number ∷ lines) = number ∷ numbers lines
numbers (other_line t ∷ lines) = numbers lines

abbrev ended : Line → Text
ended line = written line ++ b'\r' ∷ []

-- The card's text, in which every line, the last too, ends in a carriage return and a newline.
abbrev pub card_of : List Line → Text
card_of [] = []
card_of (line ∷ lines) = ended line ++ b'\n' ∷ card_of lines

module _ (upper : ℕ → ℕ) where
  -- What a line has to be: no newline in it; an entry begins with its tag, which is TEL in some case,
  -- and its number holds no colon and no space at its ends; another line, which may be blank or
  -- indented, does not begin with TEL in any case, where it is not blank.
  abbrev pub IsLine : Line → Type 0
  IsLine (tel tag params number) =
      (map upper tag ≡ codes "TEL")
      × Solid tag
      × Lacks b'\n' (tag ++ (params ++ b':' ∷ number))
      × Lacks b':' number
      × Solid number
      × Solid (reverse number)
  IsLine (other_line t) =
      (has_prefix (map upper (trim_space t)) (codes "TEL") ≡ false) × Lacks b'\n' t

  Solid-reverse : (s t : Text) → Solid (reverse t) → Solid (reverse (s ++ t))
  Solid-reverse s t h = rw (reverse-append s t) (Solid-append (reverse t) (reverse s) h)

  value_of-Solid : (v : Text) → Solid v → Solid (reverse v) → value_of (some v) ≡ some v
  unfolding value_of
  value_of-Solid [] front back = absurd front
  value_of-Solid (c ∷ v) front back = rw (trim_space-Solid (c ∷ v) front back) refl

  line_phone-tel :
      (tag params number : Text)
      → IsLine (tel tag params number)
      → line_phone upper (ended (tel tag params number)) ≡ some number
  unfolding line_phone
  line_phone-tel tag params number (is_tel, front, clean, colonless, first, last) =
      let rest = params ++ b':' ∷ number in
      let back : Solid (reverse (tag ++ rest)) =
        Solid-reverse tag rest
          (Solid-reverse params (b':' ∷ number) (Solid-reverse (b':' ∷ []) number last)) in
      let prefix : has_prefix (map upper (tag ++ rest)) (codes "TEL") ≡ true =
        rw (map-append upper tag rest, is_tel) (has_prefix-append (codes "TEL") (map upper rest)) in
      let found : after_last b':' (tag ++ rest) ≡ some number =
        rw (← append_assoc tag params (b':' ∷ number))
          (after_last-append b':' (tag ++ params) number colonless) in
      rw
        (
          trim_space-return (tag ++ rest),
          trim_space-Solid (tag ++ rest) (Solid-append tag rest front) back,
          prefix,
          found,
        )
        (value_of-Solid number first last)

  ended-Lacks : (line : Line) → IsLine line → Lacks b'\n' (ended line)
  ended-Lacks (tel tag params number) (is_tel, front, clean, colonless, first, last) =
      All-append _ (tag ++ (params ++ b':' ∷ number)) (b'\r' ∷ []) clean (λ e. omega arith, tt)
  ended-Lacks (other_line t) (prefix, clean) =
      All-append _ t (b'\r' ∷ []) clean (λ e. omega arith, tt)

  phones_of-written :
      (lines : List Line)
      → All IsLine lines
      → phones_of upper (split b'\n' (card_of lines)) ≡ numbers lines
  unfolding phones_of add_phone line_phone
  phones_of-written [] h = unfold split trim_space has_prefix in refl
  phones_of-written (tel tag params number ∷ lines) (now, later) =
      rw
        (
          split_first b'\n' (ended (tel tag params number)) (card_of lines)
              (ended-Lacks (tel tag params number) now),
          line_phone-tel tag params number now,
        )
        (ap (λ (rest : List Text). number ∷ rest) (phones_of-written lines later))
  phones_of-written (other_line t ∷ lines) ((prefix, clean), later) =
      rw
        (
          split_first b'\n' (ended (other_line t)) (card_of lines)
              (ended-Lacks (other_line t) (prefix, clean)),
          trim_space-return t,
          prefix,
        )
        (phones_of-written lines later)

  -- The phones of a card whose every line ends in a carriage return and a newline are the numbers of
  -- its TEL entries, in their order: whatever the case of the tag, whatever parameters stand before the
  -- last colon, and whatever lines, blank and indented ones among them, stand between. (An entry begins
  -- its line with the tag, and its number has no colon and no space at its ends.)
  pub phones-card_of :
      (name : Text) (lines : List Line)
      → All IsLine lines
      → phones upper (record { display_name = name; vcard = card_of lines }) ≡ numbers lines
  unfolding phones
  phones-card_of name lines h = phones_of-written lines h
