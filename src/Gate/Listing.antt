-- ===== src/Gate/Listing.antt =====
-- gate/gate.go: the list and the map of a parsed whitelist say the same.
use botkit.Errors.{>>=-eq-ok}
use botkit.Prelude.{
  ◌≡◌, refl, sym, ◌∙◌, inl, inr, Bool, false, ◌||◌, some, List, [], ◌∷◌, ◌++◌, arith, ◌==◌, nat_eq,
  Bool-cases, any, All, Text, text_beq_iff, text_eq, is_blank, trim_space,
}
use mathlib.Core.Path.{subst}
use botkit.Jid.{Jid, JidApi, group_server}
use botkit.Gate.{
  err, Result, ok, Groups, has_key, no_groups, add_jid, add_group, parse_from, parse_groups, allows,
  list_groups,
}

module _ (api : JidApi) where
  open api use {parse_jid, jid_string}

  -- The JID is written so.
  abbrev pub is_written : Text → Jid → Bool
  is_written key j = jid_string j == key

  -- No two are written the same.
  abbrev pub WrittenApart : List Jid → Type 0
  WrittenApart [] = Unit
  WrittenApart (j ∷ js) = (any (is_written (jid_string j)) js ≡ false) × WrittenApart js

  abbrev pub AllGroups : List Jid → Type 0
  AllGroups js = All (λ j. j.server ≡ group_server) js

  -- The map has exactly the keys of the list, in which no two are alike and all are groups.
  pub record IsListed (g : Groups) : Type 0 where
    pub finite : g.all ≡ false
    pub same : (key : Text) → has_key key g.allowed ≡ any (is_written key) g.list
    pub apart : WrittenApart g.list
    pub groups : AllGroups g.list

  any-append :
      (key : Text) (js : List Jid) (j : Jid)
      → any (is_written key) (js ++ j ∷ []) ≡ (is_written key j || any (is_written key) js)
  any-append key [] j = ground (arith)
  any-append key (x ∷ js) j = ground (arith, any-append key js j)

  WrittenApart-append :
      (js : List Jid) (j : Jid)
      → WrittenApart js
      → any (is_written (jid_string j)) js ≡ false
      → WrittenApart (js ++ j ∷ [])
  WrittenApart-append [] j h fresh = (refl, tt)
  WrittenApart-append (x ∷ js) j h fresh = (
    ground (
      arith,
      any-append (jid_string x) js j,
      h.0,
      fresh,
      text_beq_iff (jid_string x) (jid_string j),
      text_beq_iff (jid_string j) (jid_string x),
    ),
    WrittenApart-append js j h.1 (ground (arith, fresh)),
  )

  AllGroups-append :
      (js : List Jid) (j : Jid) → AllGroups js → j.server ≡ group_server → AllGroups (js ++ j ∷ [])
  AllGroups-append [] j h e = (e, tt)
  AllGroups-append (x ∷ js) j h e = (h.0, AllGroups-append js j h.1 e)

  IsListed-add :
      (g : Groups) (jid : Jid)
      → IsListed g
      → jid.server ≡ group_server
      → has_key (jid_string jid) g.allowed ≡ false
      → IsListed (record g { allowed = jid_string jid ∷ g.allowed; list = g.list ++ jid ∷ [] })
  unfolding has_key
  IsListed-add g jid h group fresh = record {
    finite = h.finite;
    same = λ key. ground (arith, h.same key, any-append key g.list jid);
    apart = WrittenApart-append g.list jid h.apart (sym (h.same (jid_string jid)) ∙ fresh);
    groups = AllGroups-append g.list jid h.groups group;
  }

  add_jid-IsListed :
      (g g' : Groups) (r : Result Jid) → IsListed g → add_jid api g r ≡ ok g' → IsListed g'
  unfolding add_jid
  add_jid-IsListed g g' (err e) h added = cc
  add_jid-IsListed g g' (ok jid) h added = elim (Bool-cases (jid.server == group_server)) [
    | inr person ↦ absurd (ground (arith, person))
    | inl group ↦ elim (Bool-cases (has_key (jid_string jid) g.allowed)) [
      | inl there ↦ subst IsListed (ground (arith, group, there)) h
      | inr fresh ↦
          subst IsListed (ground (arith, group, fresh))
            (IsListed-add g jid h ((text_beq_iff jid.server group_server).0 group) fresh)
    ]
  ]

  add_group-IsListed :
      (g g' : Groups) (s : Text) → IsListed g → add_group api g s ≡ ok g' → IsListed g'
  unfolding add_group
  add_group-IsListed g g' s h added = elim (Bool-cases (is_blank (trim_space s))) [
    | inl blank ↦ subst IsListed (ground (arith, blank)) h
    | inr entry ↦ add_jid-IsListed g g' (parse_jid (trim_space s)) h (ground (arith, entry))
  ]

  parse_from-IsListed :
      (entries : List Text) (g g' : Groups)
      → IsListed g
      → parse_from api g entries ≡ ok g'
      → IsListed g'
  unfolding parse_from
  parse_from-IsListed [] g g' h e = subst IsListed (ground (arith)) h
  parse_from-IsListed (s ∷ rest) g g' h e =
      let (g1, added, more) = >>=-eq-ok (add_group api g s) (λ g'. parse_from api g' rest) e in
      parse_from-IsListed rest g1 g' (add_group-IsListed g g1 s h added) more

  no_groups-IsListed : IsListed no_groups
  unfolding has_key
  no_groups-IsListed = record { finite = refl; same = λ key. refl; apart = tt; groups = tt }

  -- The whitelist that is parsed lists exactly the groups that it allows, each once and no other chat:
  -- a JID is allowed if and only if one of the list is written the same, no two of the list are written
  -- the same, and all of them are on the group server.
  pub parse_groups-IsListed :
      (entries : List Text) (g : Groups)
      → parse_groups api entries ≡ ok g
      → ((jid : Jid)
          → allows api (some g) jid ≡ any (is_written (jid_string jid)) (list_groups (some g)))
        × WrittenApart (list_groups (some g))
        × AllGroups (list_groups (some g))
  unfolding parse_groups allows list_groups
  parse_groups-IsListed entries g e =
      let l = parse_from-IsListed entries no_groups g no_groups-IsListed e in
      (λ jid. ground (arith, l.finite, l.same (jid_string jid)), l.apart, l.groups)
