-- ===== src/Bot/Adapter/Manual.antt =====
-- bot/bot.go: that nothing but a request of the operator pairs the bot.
use botkit.Bot.Ops.{may_pair-bearer}
use botkit.Identity.{normalize}
use botkit.Pairing.Cooldown.{handler_pairs_exactly, is_pair_route, may_pair}
use botkit.Transport.Presence.Manual.{pair-calls, pairing_calls, asks_pairing}
use botkit.Bot.Adapter.{adapter, Link, JidApi, calls_made}
use botkit.Http.{Request, bearer, method_post, route}
use botkit.Pairing.{Clock, too_soon, endpoints, Server}
use botkit.Prelude.{
  ◌≡◌, ◌≢◌, inl, inr, true, false, none, [], arith, nat_eq, Bool-cases, Option-cases, any, Text,
  text_beq_iff, text_eq,
}

-- WhatsApp is asked for a pairing code only for a POST to /pair with the ops token, not within the
-- cooldown, while the bot has no session and a phone is configured; and then for the canonical digits
-- of that phone, after the QR channel was opened and the socket was asked for.
pub calls_made-pairs :
    (api : JidApi) (country phone : Text) (l : Link) (clock : Clock) (r : Request) (s : Server)
    → any asks_pairing (calls_made api country phone l clock r s) ≡ true
    → (is_pair_route (route endpoints r.path) ≡ true)
      × (r.method ≡ method_post)
      × (r.authorization ≡ bearer s.token)
      × (too_soon s.last_pair clock.check ≡ false)
      × (l.session.id ≡ none)
      × (phone ≢ [])
      × (calls_made api country phone l clock r s ≡ pairing_calls (normalize country phone))
unfolding calls_made
calls_made-pairs api country phone l clock r s h =
    let wa = adapter api country phone l in
    let (attempted, next) = handler_pairs_exactly wa clock r s in
    elim (Bool-cases (may_pair wa clock r s)) [
      | inr quiet ↦ absurd (cc (rw (attempted, quiet) at h))
      | inl may ↦
          let (fresh, named, calls) =
            pair-calls country l.session l.answers phone (rw (attempted, may) at h) in
          (
            ground (arith, may),
            (text_beq_iff r.method method_post).0 (ground (arith, may)),
            may_pair-bearer wa clock r s may,
            ground (arith, may),
            elim (Option-cases l.session.id) [
              | inl e ↦ e
              | inr (j, e) ↦ absurd (cc (rw e at fresh))
            ],
            named,
            rw (attempted, may) calls,
          )
    ]
