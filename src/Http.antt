-- ===== src/Http.antt =====
-- What the handlers use of net/http: requests, status codes, and the routing of `ServeMux` for paths
-- that are clean already (no "//", "." or ".."), from its documentation.
use botkit.Prelude.{
  ℕ, Bool, false, ◌&&◌, Option, none, some, List, [], ◌∷◌, ◌++◌, ltb, if◌then◌else◌, ◌==◌, nat_eq,
  length, Text, codes, text_eq, has_prefix,
}

pub record Request : Type 0 where
  pub method : Text
  pub path : Text
  pub authorization : Text  -- the header, "" if there is none

abbrev pub method_get : Text
method_get = codes "GET"

abbrev pub method_post : Text
method_post = codes "POST"

abbrev pub status_ok : ℕ
status_ok = 200

abbrev pub status_unauthorized : ℕ
status_unauthorized = 401

abbrev pub status_forbidden : ℕ
status_forbidden = 403

abbrev pub status_not_found : ℕ
status_not_found = 404

abbrev pub status_method_not_allowed : ℕ
status_method_not_allowed = 405

abbrev pub status_conflict : ℕ
status_conflict = 409

abbrev pub status_too_many_requests : ℕ
status_too_many_requests = 429

abbrev pub status_internal_server_error : ℕ
status_internal_server_error = 500

-- "Bearer " + token
abbrev pub bearer : Text → Text
bearer token = codes "Bearer " ++ token

-- Where a mux sends a path.
pub data Routed (H : Type 0) : Type 0 where
  to : H → Routed H
  redirect : Text → Routed H
  not_found : Routed H

abbrev ends_in_slash : Text → Bool
ends_in_slash [] = false
ends_in_slash (c ∷ []) = c == b'/'
ends_in_slash (c ∷ d ∷ s) = ends_in_slash (d ∷ s)

module _ {H : Type 0} where
  -- The handler registered under exactly this pattern.
  unfoldable pub exact : Text → List (Text × H) → Option H
  exact path [] = none
  exact path ((pattern, h) ∷ rest) = if pattern == path then some h else exact path rest

  -- The longest pattern so far that ends in "/" and is a prefix of the path.
  abbrev longer : Text → H → Option (ℕ × H) → Option (ℕ × H)
  longer pattern h none = some (length pattern, h)
  longer pattern h (some (n, g)) =
      if ltb n (length pattern) then some (length pattern, h) else some (n, g)

  unfoldable pub subtree : Text → List (Text × H) → Option (ℕ × H)
  unfolding has_prefix
  subtree path [] = none
  subtree path ((pattern, h) ∷ rest) =
      let best = subtree path rest in
      if ends_in_slash pattern && has_prefix path pattern then longer pattern h best else best

  by_subtree : Option (ℕ × H) → Routed H
  by_subtree none = not_found
  by_subtree (some (n, h)) = to h

  add_slash : Text → Option H → Option (ℕ × H) → Routed H
  unfolding by_subtree
  add_slash path (some h) best = redirect (path ++ codes "/")
  add_slash path none best = by_subtree best

  route_inexact : Text → Option H → List (Text × H) → Routed H
  unfolding add_slash exact subtree
  route_inexact path (some h) patterns = to h
  route_inexact path none patterns =
      add_slash path (if ends_in_slash path then none else exact (path ++ codes "/") patterns)
        (subtree path patterns)

  unfoldable pub route : List (Text × H) → Text → Routed H
  unfolding route_inexact
  route patterns path = route_inexact path (exact path patterns) patterns
