-- ===== src/Gate.antt =====
-- gate/gate.go. A `*Groups` is an `Option Groups`, with `none` for nil; the map `allowed` is the list
-- of its keys.
pub mod Whitelist
pub mod Listing
use botkit.Prelude.{
  ◌+◌, Bool, true, false, not, ◌&&◌, ◌||◌, Option, none, some, List, [], ◌∷◌, ◌++◌, if◌then◌else◌,
  ◌==◌, nat_eq, length, Text, codes, text_eq, is_blank, trim_space,
}
use botkit.Errors.{wrap, new_error, Result, ok, err, ◌>>=◌}
use botkit.Jid.{Jid, JidApi, group_server}

pub record Groups : Type 0 where
  pub allowed : List Text
  pub list : List Jid
  pub all : Bool

-- allowed[key]
unfoldable pub has_key : Text → List Text → Bool
has_key key [] = false
has_key key (k ∷ ks) = k == key || has_key key ks

abbrev pub allow_all : Groups
allow_all = record { allowed = []; list = []; all = true }

abbrev pub no_groups : Groups
no_groups = record { allowed = []; list = []; all = false }

module _ (api : JidApi) where
  open api use {parse_jid, jid_string}

  -- The tail of a round of the loop of `ParseGroups`, after the JID is parsed.
  unfoldable pub add_jid : Groups → Result Jid → Result Groups
  unfolding has_key
  add_jid g (err e) = err (wrap (codes "bad group JID") e)
  add_jid g (ok jid) =
      if jid.server == group_server
      then ok (
          if has_key (jid_string jid) g.allowed
          then g
          else record g { allowed = jid_string jid ∷ g.allowed; list = g.list ++ jid ∷ [] })
      else err (new_error (codes "not a group JID"))

  -- A round of the loop.
  unfoldable pub add_group : Groups → Text → Result Groups
  unfolding add_jid
  add_group g s = let t = trim_space s in if is_blank t then ok g else add_jid g (parse_jid t)

  unfoldable pub parse_from : Groups → List Text → Result Groups
  unfolding add_group
  parse_from g [] = ok g
  parse_from g (s ∷ rest) = do g' ← add_group g s; parse_from g' rest

  unfoldable pub parse_groups : List Text → Result Groups
  unfolding parse_from
  parse_groups jids = parse_from no_groups jids

  unfoldable pub allows : Option Groups → Jid → Bool
  unfolding has_key
  allows none jid = false
  allows (some g) jid = g.all || has_key (jid_string jid) g.allowed

unfoldable pub allows_all : Option Groups → Bool
allows_all none = false
allows_all (some g) = g.all

unfoldable pub list_groups : Option Groups → List Jid
list_groups none = []
list_groups (some g) = g.list

unfoldable pub is_empty_groups : Option Groups → Bool
is_empty_groups none = true
is_empty_groups (some g) = not g.all && length g.allowed == 0
