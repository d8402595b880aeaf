-- ===== src/Bot/Contact.antt =====
-- bot/message.go: the phone numbers of a contact card.
pub mod Cards
use botkit.Prelude.{
  ℕ, not, Option, none, some, List, [], ◌∷◌, map, if◌then◌else◌, ◌==◌, nat_eq, Text, codes, text_eq,
  is_blank, has_prefix, trim_space, split,
}
use botkit.Bot.Message.{Contact}

-- What follows the last ':' of a line (strings.LastIndex and the slice).
unfoldable pub after_last : ℕ → Text → Option Text
after_last sep [] = none
after_last sep (c ∷ s) = elim (after_last sep s) [
  | some t ↦ some t
  | none ↦ if c == sep then some s else none
]

-- The entry's value, if it is not blank.
value_of : Option Text → Option Text
value_of none = none
value_of (some t) = let v = trim_space t in if is_blank v then none else some v

module _ (upper : ℕ → ℕ) where
  -- One round of the loop; `upper` is unicode.ToUpper, which strings.ToUpper applies to each rune.
  unfoldable pub line_phone : Text → Option Text
  unfolding value_of after_last
  line_phone line =
      let t = trim_space line in
      if not (has_prefix (map upper t) (codes "TEL")) then none else value_of (after_last b':' t)

  add_phone : Option Text → List Text → List Text
  add_phone none rest = rest
  add_phone (some v) rest = v ∷ rest

  unfoldable pub phones_of : List Text → List Text
  unfolding line_phone add_phone
  phones_of [] = []
  phones_of (line ∷ lines) = add_phone (line_phone line) (phones_of lines)

  -- `Phones`
  unfoldable pub phones : Contact → List Text
  unfolding phones_of split
  phones c = phones_of (split b'\n' c.vcard)
