-- ===== src/Pairing/Cooldown.antt =====
-- pairing/server.go: when `Pair` is called, and how often.
use botkit.Prelude.{
  ℕ, ◌+◌, ◌≤◌, ◌≡◌, refl, ap, inl, inr, Bool, true, false, not, ◌&&◌, Option, none, some, List, [],
  ◌∷◌, arith, if◌then◌else◌, ◌==◌, nat_eq, Bool-cases, Text, text_eq, is_blank,
}
use botkit.Errors.{Result, ok, err}
use botkit.Http.{Request, method_post, bearer, route, to, redirect, not_found, Routed}
use botkit.Pairing.{
  serve_routed, Group, WhatsApp, Server, Clock, Endpoint, at_healthz, at_pair, at_status, at_groups,
  Response, pair_cooldown, too_soon, auth, handle_pair, handle_status, handle_groups, list_reply,
  attempt, endpoints, handler,
}

-- Everything that a call of `Pair` needs: the route, a configured token, the right header, POST, no
-- session yet, and the cooldown over.
abbrev pub is_pair_route : Routed Endpoint → Bool
is_pair_route (to at_pair) = true
is_pair_route _ = false

abbrev pub is_authorised : Request → Server → Bool
is_authorised r s = not (is_blank s.token) && r.authorization == bearer s.token

abbrev pub may_pair : WhatsApp → Clock → Request → Server → Bool
may_pair wa clock r s =
    is_pair_route (route endpoints r.path)
    && (is_authorised r s
        && (r.method == method_post && (not wa.paired && not (too_soon s.last_pair clock.check))))

abbrev pub stamp_if : Bool → ℕ → Option ℕ → Option ℕ
stamp_if true now last = some now
stamp_if false now last = last

-- What a request does to the server, and whether it called `Pair`.
abbrev Does : Bool → ℕ → Server → Server × Response → Type 0
Does pairs now s outcome =
    (outcome.1.attempted ≡ pairs)
    × (outcome.0 ≡ record s { last_pair = stamp_if pairs now s.last_pair })

attempt-attempted : (code : Result Text) → (attempt code).attempted ≡ true
attempt-attempted (ok c) = refl
attempt-attempted (err e) = refl

list_reply-attempted : (gs : Result (List Group)) → (list_reply gs).attempted ≡ false
list_reply-attempted (ok c) = refl
list_reply-attempted (err e) = refl

handle_pair-Does :
    (wa : WhatsApp) (clock : Clock) (r : Request) (s : Server)
    → Does
        (r.method == method_post && (not wa.paired && not (too_soon s.last_pair clock.check)))
        clock.stamp
        s
        (handle_pair wa clock r s)
unfolding handle_pair
handle_pair-Does wa clock r s = ground (arith, attempt-attempted wa.pair)

auth-Does :
    (next : Server → Server × Response) (r : Request) (s : Server) (now : ℕ) (pairs : Bool)
    → Does pairs now s (next s)
    → Does (is_authorised r s && pairs) now s (auth next r s)
unfolding auth
auth-Does next r s now pairs h = elim (Bool-cases (is_blank s.token)) [
  | inl off ↦ rw off (refl, refl)
  | inr on ↦ elim (Bool-cases (r.authorization == bearer s.token)) [
    | inl good ↦ rw (on, good) h
    | inr bad ↦ rw (on, bad) (refl, refl)
  ]
]

handle_status-attempted : (wa : WhatsApp) (r : Request) → (handle_status wa r).attempted ≡ false
unfolding handle_status
handle_status-attempted wa r = ground arith

handle_groups-attempted : (wa : WhatsApp) (r : Request) → (handle_groups wa r).attempted ≡ false
unfolding handle_groups
handle_groups-attempted wa r = ground (arith, list_reply-attempted wa.groups)

auth-quiet :
    (next : Server → Server × Response) (r : Request) (s : Server) (now : ℕ)
    → Does false now s (next s)
    → Does false now s (auth next r s)
unfolding auth
auth-quiet next r s now h = elim (Bool-cases (is_blank s.token)) [
  | inl off ↦ rw off (refl, refl)
  | inr on ↦ elim (Bool-cases (r.authorization == bearer s.token)) [
    | inl good ↦ rw (on, good) h
    | inr bad ↦ rw (on, bad) (refl, refl)
  ]
]

serve_routed-Does :
    (wa : WhatsApp) (clock : Clock) (r : Request) (routed : Routed Endpoint) (s : Server)
    → Does
        (is_pair_route routed
          && (is_authorised r s
              && (r.method == method_post
                  && (not wa.paired && not (too_soon s.last_pair clock.check)))))
        clock.stamp
        s
        (serve_routed wa clock r routed s)
unfolding serve_routed
serve_routed-Does wa clock r (to at_healthz) s = (refl, refl)
serve_routed-Does wa clock r (to at_pair) s =
    auth-Does (handle_pair wa clock r) r s clock.stamp _ (handle_pair-Does wa clock r s)
serve_routed-Does wa clock r (to at_status) s =
    auth-quiet (λ s'. (s', handle_status wa r)) r s clock.stamp (handle_status-attempted wa r, refl)
serve_routed-Does wa clock r (to at_groups) s =
    auth-quiet (λ s'. (s', handle_groups wa r)) r s clock.stamp (handle_groups-attempted wa r, refl)
serve_routed-Does wa clock r (redirect path) s = (refl, refl)
serve_routed-Does wa clock r not_found s = (refl, refl)

-- A request makes the bot call `Pair` exactly if it is an authorised POST to /pair of an API that has
-- a token, while the bot is not paired and the cooldown is over; the server's state then changes to
-- the new stamp, whether pairing succeeds or not, and by no other request.
pub handler_pairs_exactly :
    (wa : WhatsApp) (clock : Clock) (r : Request) (s : Server)
    → ((handler wa clock r s).1.attempted ≡ may_pair wa clock r s)
      × ((handler wa clock r s).0
          ≡ record s { last_pair = stamp_if (may_pair wa clock r s) clock.stamp s.last_pair })
unfolding handler
handler_pairs_exactly wa clock r s = serve_routed-Does wa clock r (route endpoints r.path) s

-- One request as it reaches the server: what WhatsApp is like then, and the clock.
pub record Visit : Type 0 where
  pub wa : WhatsApp
  pub clock : Clock
  pub request : Request

-- The readings of the clock of those visits that called `Pair`, in order.
unfoldable pub attempts : List Visit → Server → List Clock
attempts [] s = []
attempts (v ∷ vs) s =
    let (s', response) = handler v.wa v.clock v.request s in
    let later = attempts vs s' in if response.attempted then v.clock ∷ later else later

-- Each attempt's test comes a cooldown or more after the stamp of the attempt before.
abbrev pub Spaced : Option ℕ → List Clock → Type 0
Spaced last [] = Unit
Spaced none (c ∷ cs) = Spaced (some c.stamp) cs
Spaced (some last) (c ∷ cs) = (last + pair_cooldown ≤ c.check) × Spaced (some c.stamp) cs

Spaced-next :
    (last : Option ℕ) (c : Clock) (cs : List Clock)
    → too_soon last c.check ≡ false
    → Spaced (some c.stamp) cs
    → Spaced last (c ∷ cs)
Spaced-next none c cs h spaced = spaced
Spaced-next (some last) c cs h spaced = (ground arith, spaced)

last_conjunct : (a b c d e : Bool) → (a && (b && (c && (d && not e)))) ≡ true → e ≡ false
last_conjunct a b c d e h = ground arith

-- Whatever requests come in, in whatever order and whatever WhatsApp does meanwhile, each call of
-- `Pair` comes at least the cooldown after the stamp of the call before it.
pub attempts-Spaced : (visits : List Visit) (s : Server) → Spaced s.last_pair (attempts visits s)
unfolding attempts
attempts-Spaced [] s = tt
attempts-Spaced (v ∷ vs) s =
    let (pairs, next) = handler_pairs_exactly v.wa v.clock v.request s in
    let later = attempts-Spaced vs (handler v.wa v.clock v.request s).0 in
    let stamped = ap (λ (t : Server). t.last_pair) next in
    elim (Bool-cases (may_pair v.wa v.clock v.request s)) [
      | inl attempted ↦
          rw (pairs, attempted)
            (Spaced-next s.last_pair v.clock _
              (last_conjunct (is_pair_route (route endpoints v.request.path))
                (is_authorised v.request s) (v.request.method == method_post) (not v.wa.paired)
                (too_soon s.last_pair v.clock.check) attempted)
              (rw (stamped, attempted) at later))
      | inr quiet ↦ rw (pairs, quiet) (rw (stamped, quiet) at later)
    ]
