-- ===== src/Gate/Whitelist.antt =====
-- gate/gate.go: what a parsed whitelist lets through.
use botkit.Prelude.{
  ◌≡◌, refl, inl, inr, Bool, true, false, not, ◌&&◌, ◌||◌, some, List, [], ◌∷◌, arith, ◌==◌, nat_eq,
  any, Text, text_beq_iff, text_eq, is_blank, trim_space,
}
use botkit.Errors.{Result, ok, err, is_ok, Result-cases, >>=-eq-ok}
use botkit.Jid.{Jid, JidApi, group_server}
use botkit.Gate.{Groups, has_key, no_groups, add_jid, add_group, parse_from, parse_groups, allows}

module _ (api : JidApi) where
  open api use {parse_jid, jid_string}

  -- What an entry of the configuration has to be: blank, or a group's JID once trimmed.
  abbrev pub is_group : Result Jid → Bool
  is_group (ok jid) = jid.server == group_server
  is_group (err e) = false

  abbrev pub is_valid_entry : Text → Bool
  is_valid_entry s = is_blank (trim_space s) || is_group (parse_jid (trim_space s))

  abbrev pub all_valid : List Text → Bool
  all_valid [] = true
  all_valid (s ∷ rest) = is_valid_entry s && all_valid rest

  -- Whether an entry names the JID that is written `key`.
  abbrev pub names_key : Text → Result Jid → Bool
  names_key key (ok jid) = jid_string jid == key
  names_key key (err e) = false

  abbrev pub is_entry_of : Jid → Text → Bool
  is_entry_of jid s =
      not (is_blank (trim_space s)) && names_key (jid_string jid) (parse_jid (trim_space s))

  add_jid-has_key :
      (g : Groups) (r : Result Jid) (key : Text) (g' : Groups)
      → add_jid api g r ≡ ok g'
      → (has_key key g'.allowed ≡ (names_key key r || has_key key g.allowed)) × (g'.all ≡ g.all)
  unfolding add_jid has_key
  add_jid-has_key g (err e) key g' h = cc
  add_jid-has_key g (ok jid) key g' h = ground (arith, text_beq_iff (jid_string jid) key)

  add_group-has_key :
      (g : Groups) (s : Text) (jid : Jid) (g' : Groups)
      → add_group api g s ≡ ok g'
      → (has_key (jid_string jid) g'.allowed
          ≡ (is_entry_of jid s || has_key (jid_string jid) g.allowed))
        × (g'.all ≡ g.all)
  unfolding add_group
  add_group-has_key g s jid g' h =
      ground (arith, add_jid-has_key g (parse_jid (trim_space s)) (jid_string jid) g')

  parse_from-has_key :
      (entries : List Text) (g : Groups) (jid : Jid) (g' : Groups)
      → parse_from api g entries ≡ ok g'
      → (has_key (jid_string jid) g'.allowed
          ≡ (any (is_entry_of jid) entries || has_key (jid_string jid) g.allowed))
        × (g'.all ≡ g.all)
  unfolding parse_from
  parse_from-has_key [] g jid g' h = ground arith
  parse_from-has_key (s ∷ rest) g jid g' h =
      let (g1, added, more) = >>=-eq-ok (add_group api g s) (λ g'. parse_from api g' rest) h in
      ground (arith, add_group-has_key g s jid g1 added, parse_from-has_key rest g1 jid g' more)

  -- A parsed whitelist allows a JID exactly if some entry of the configuration, trimmed and not
  -- blank, parses to a JID that is written the same.
  pub allows-parse_groups :
      (entries : List Text) (g : Groups) (jid : Jid)
      → parse_groups api entries ≡ ok g
      → allows api (some g) jid ≡ any (is_entry_of jid) entries
  unfolding parse_groups allows
  allows-parse_groups entries g jid h =
      ground (arith, parse_from-has_key entries no_groups jid g h, has_key)

  add_jid-is_ok : (g : Groups) (r : Result Jid) → is_ok (add_jid api g r) ≡ is_group r
  unfolding add_jid
  add_jid-is_ok g (err e) = refl
  add_jid-is_ok g (ok jid) = ground arith

  add_group-is_ok : (g : Groups) (s : Text) → is_ok (add_group api g s) ≡ is_valid_entry s
  unfolding add_group
  add_group-is_ok g s = ground (arith, add_jid-is_ok g (parse_jid (trim_space s)))

  parse_from-is_ok :
      (entries : List Text) (g : Groups) → is_ok (parse_from api g entries) ≡ all_valid entries
  unfolding parse_from
  parse_from-is_ok [] g = refl
  parse_from-is_ok (s ∷ rest) g = elim (Result-cases (add_group api g s)) [
    | inl (g1, e) ↦ ground (arith, e, add_group-is_ok g s, parse_from-is_ok rest g1)
    | inr (x, e) ↦ ground (arith, e, add_group-is_ok g s)
  ]

  -- Parsing succeeds exactly if every entry is blank or a group's JID: one entry that is malformed,
  -- or names another kind of chat, refuses the whole configuration.
  parse_groups-is_ok : (entries : List Text) → is_ok (parse_groups api entries) ≡ all_valid entries
  unfolding parse_groups
  parse_groups-is_ok entries = parse_from-is_ok entries no_groups
