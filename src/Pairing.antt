-- ===== src/Pairing.antt =====
-- pairing/server.go: the private API for manual pairing.
pub mod Cooldown
use botkit.Prelude.{
  ℕ, ◌+◌, ◌/◌, Bool, true, false, not, Option, none, some, List, [], ◌∷◌, ◌++◌, ltb, if◌then◌else◌,
  ◌==◌, nat_eq, Text, codes, text_eq, is_blank,
}
use botkit.Errors.{message, is, Result, ok, err}
use botkit.Http.{
  Request, Routed, method_get, method_post, status_ok, status_unauthorized, status_forbidden,
  status_not_found, status_method_not_allowed, status_conflict, status_too_many_requests,
  status_internal_server_error, bearer, route, to, redirect, not_found,
}

-- Two minutes, in nanoseconds.
abbrev pub pair_cooldown : ℕ
pair_cooldown = 120_000_000_000

pub record Group : Type 0 where
  pub jid : Text
  pub name : Text
  pub is_admin : Bool
  pub members : ℕ

-- The transport as a request finds it; `pair` and `groups` are what a call would return.
pub record WhatsApp : Type 0 where
  pub paired : Bool
  pub connected : Bool
  pub pair : Result Text
  pub groups : Result (List Group)

-- `last_pair` is `none` for the zero time.
pub record Server : Type 0 where
  pub token : Text
  pub last_pair : Option ℕ

unfoldable pub new : Text → Server
new token = record { token = token; last_pair = none }

-- The bodies of responses; `waited` carries how long ago the last attempt ran, as two instants.
pub data Body : Type 0 where
  plain_text : Text → Body
  waited : (now last : ℕ) → Body
  health : (paired connected : Bool) → Body
  status_of : (paired connected : Bool) → Body
  pairing_code : Text → Body
  group_list : List Group → Body

-- `attempted` is whether the handler called `Pair`.
pub record Response : Type 0 where
  pub status : ℕ
  pub body : Body
  pub attempted : Bool

abbrev pub reply : ℕ → Body → Response
reply status body = record { status = status; body = body; attempted = false }

-- Two readings of the clock in the critical section: of the test and of the new stamp.
pub record Clock : Type 0 where
  pub check : ℕ
  pub stamp : ℕ

pub data Endpoint : Type 0 where
  at_healthz at_pair at_status at_groups : Endpoint

abbrev pub handle_healthz : WhatsApp → Response
handle_healthz wa = reply status_ok (health wa.paired wa.connected)

-- The test of the critical section.
abbrev pub too_soon : Option ℕ → ℕ → Bool
too_soon none now = false
too_soon (some last) now = ltb now (last + pair_cooldown)

abbrev pub last_or : Option ℕ → ℕ → ℕ
last_or none now = now
last_or (some last) now = last

-- After the critical section.
abbrev pub attempt : Result Text → Response
attempt (ok code) = record { status = status_ok; body = pairing_code code; attempted = true }
attempt (err e) = record {
  status = status_internal_server_error;
  body = plain_text (codes "pairing failed: " ++ message e);
  attempted = true;
}

unfoldable pub handle_pair : WhatsApp → Clock → Request → Server → Server × Response
handle_pair wa clock r s =
    if not (r.method == method_post)
    then (s, reply status_method_not_allowed (plain_text (codes "use POST")))
    else if wa.paired
    then (s, reply status_conflict (plain_text (codes "already paired")))
    else if too_soon s.last_pair clock.check
    then (s, reply status_too_many_requests (waited clock.check (last_or s.last_pair clock.check)))
    else (record s { last_pair = some clock.stamp }, attempt wa.pair)

unfoldable pub handle_status : WhatsApp → Request → Response
handle_status wa r =
    if not (r.method == method_get)
    then reply status_method_not_allowed (plain_text (codes "use GET"))
    else reply status_ok (status_of wa.paired wa.connected)

abbrev pub list_reply : Result (List Group) → Response
list_reply (ok gs) = reply status_ok (group_list gs)
list_reply (err e) =
    reply status_internal_server_error (plain_text (codes "list groups: " ++ message e))

unfoldable pub handle_groups : WhatsApp → Request → Response
handle_groups wa r =
    if not (r.method == method_get)
    then reply status_method_not_allowed (plain_text (codes "use GET"))
    else if not wa.paired
    then reply status_conflict (plain_text (codes "not paired yet"))
    else list_reply wa.groups

-- The middleware `auth` around a handler.
unfoldable pub auth : (Server → Server × Response) → Request → Server → Server × Response
auth next r s =
    if is_blank s.token
    then (
      s,
      reply status_forbidden (plain_text (codes "pairing API disabled: token is not configured")),
    )
    else if not (r.authorization == bearer s.token)
    then (s, reply status_unauthorized (plain_text (codes "unauthorized")))
    else next s

unfoldable pub serve : WhatsApp → Clock → Request → Endpoint → Server → Server × Response
unfolding handle_pair handle_status handle_groups auth
serve wa clock r at_healthz s = (s, handle_healthz wa)
serve wa clock r at_pair s = auth (handle_pair wa clock r) r s
serve wa clock r at_status s = auth (λ s'. (s', handle_status wa r)) r s
serve wa clock r at_groups s = auth (λ s'. (s', handle_groups wa r)) r s

abbrev pub endpoints : List (Text × Endpoint)
endpoints =
    (codes "/healthz", at_healthz)
    ∷ (codes "/pair", at_pair)
    ∷ (codes "/status", at_status)
    ∷ (codes "/groups", at_groups)
    ∷ []

serve_routed : WhatsApp → Clock → Request → Routed Endpoint → Server → Server × Response
unfolding serve
serve_routed wa clock r (to e) s = serve wa clock r e s
serve_routed wa clock r (redirect path) s = (s, reply 301 (plain_text path))
serve_routed wa clock r not_found s =
    (s, reply status_not_found (plain_text (codes "404 page not found")))

-- `Handler`
unfoldable pub handler : WhatsApp → Clock → Request → Server → Server × Response
unfolding serve_routed route
handler wa clock r s = serve_routed wa clock r (route endpoints r.path) s
