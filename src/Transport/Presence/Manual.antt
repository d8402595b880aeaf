-- ===== src/Transport/Presence/Manual.antt =====
-- transport/client.go and transport/message.go: that pairing is asked for by `Pair` alone and in order,
-- and how long the typing indicator is left alone.
use botkit.Prelude.{
  ℕ, ◌+◌, ◌≤◌, ◌<◌, ◌≡◌, refl, ◌≢◌, inl, inr, Bool, true, false, Option, List, [], ◌∷◌, arith, ltb,
  nat_eq, Bool-cases, any, All, Text, text_eq,
}
use botkit.Errors.{Error, Result, ok, err}
use botkit.Jid.{Jid}
use botkit.Identity.{normalize}
use botkit.Transport.Presence.{
  Session, Call, get_qr_channel, go_online, pair_phone, sleep, Ready, ready, timed_out, stopped,
  Answers, pair_ready, pair_online, pair_channel, pair, paired, humanize, send_text,
}

-- A pairing request, for these digits.
abbrev pub asks_pairing : Call → Bool
asks_pairing (pair_phone digits) = true
asks_pairing _ = false

-- The one sequence of calls that asks for a pairing code.
abbrev pub pairing_calls : Text → List Call
pairing_calls digits = get_qr_channel ∷ go_online ∷ pair_phone digits ∷ []

pair_ready-calls :
    (digits : Text) (w : Answers) (r : Ready)
    → any asks_pairing (pair_ready digits w r).calls ≡ true
    → (pair_ready digits w r).calls ≡ pairing_calls digits
unfolding pair_ready
pair_ready-calls digits w ready h = refl
pair_ready-calls digits w timed_out h = cc
pair_ready-calls digits w (stopped e) h = cc

pair_online-calls :
    (digits : Text) (w : Answers) (r : Result (Unit {0}))
    → any asks_pairing (pair_online digits w r).calls ≡ true
    → (pair_online digits w r).calls ≡ pairing_calls digits
unfolding pair_online
pair_online-calls digits w (err e) h = cc
pair_online-calls digits w (ok _) h = pair_ready-calls digits w w.event h

pair_channel-calls :
    (digits : Text) (w : Answers) (r : Result (Unit {0}))
    → any asks_pairing (pair_channel digits w r).calls ≡ true
    → (pair_channel digits w r).calls ≡ pairing_calls digits
unfolding pair_channel
pair_channel-calls digits w (err e) h = cc
pair_channel-calls digits w (ok _) h = pair_online-calls digits w w.online h

-- `Pair` asks WhatsApp for a code only while the bot has no session and a phone is configured, and then
-- for the canonical digits of that phone, after the QR channel was opened and the socket was asked for.
pub pair-calls :
    (country : Text) (s : Session) (w : Answers) (phone : Text)
    → any asks_pairing (pair country s w phone).calls ≡ true
    → (paired s ≡ false)
      × (phone ≢ [])
      × ((pair country s w phone).calls ≡ pairing_calls (normalize country phone))
unfolding pair
pair-calls country s w [] h = elim (Bool-cases (paired s)) [
  | inl done ↦ absurd (cc (rw done at h))
  | inr fresh ↦ absurd (cc (rw fresh at h))
]
pair-calls country s w (c ∷ phone) h = elim (Bool-cases (paired s)) [
  | inl done ↦ absurd (cc (rw done at h))
  | inr fresh ↦ (
    fresh,
    λ e. cc,
    rw fresh (pair_channel-calls (normalize country (c ∷ phone)) w w.qr (rw fresh at h)),
  )
]

-- The milliseconds slept, and the longest sleep.
abbrev pub slept : List Call → ℕ
slept [] = 0
slept (sleep n ∷ calls) = n + slept calls
slept (_ ∷ calls) = slept calls

abbrev pub IsBrief : Call → Type 0
IsBrief (sleep n) = n ≤ 6000
IsBrief _ = Unit

-- For each text, 2 to 7 seconds are slept in all, 2 seconds and the drawn part, and no sleep is longer
-- than 6 seconds.
send_text-IsBrief :
    (drawn : ℕ) (answer : Option Error) (chat : Jid) (text : Text)
    → drawn < 5000
    → (slept (send_text drawn answer chat text).1 ≡ 2000 + drawn)
      × All IsBrief (send_text drawn answer chat text).1
unfolding send_text humanize
send_text-IsBrief drawn answer chat text h = elim (Bool-cases (ltb 6000 (2000 + drawn))) [
  | inl long ↦
      let more : 6000 < 2000 + drawn = ground (arith, long) in
      rw long (omega arith, (tt, (omega arith, (tt, (omega arith, (tt, tt))))))
  | inr short ↦
      let less : 2000 + drawn ≤ 6000 = ground (arith, short) in
      rw short (omega arith, (tt, (less, (tt, tt))))
]
