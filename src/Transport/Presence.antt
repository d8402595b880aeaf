-- ===== src/Transport/Presence.antt =====
-- transport/client.go and transport/message.go: going online, pairing, and sending text. What is asked
-- of whatsmeow is a list of calls, in order.
pub mod Manual
use botkit.Prelude.{
  ℕ, ◌+◌, ◌-◌, Bool, not, ◌&&◌, Option, none, some, List, [], ◌∷◌, ◌++◌, ltb, if◌then◌else◌, nat_eq,
  is_none, Text, codes, text_eq, is_blank,
}
use botkit.Errors.{not_paired, Error, plain, wrap, new_error, Result, ok, err, ◌>>◌, in_context}
use botkit.Jid.{Jid, zero_jid}
use botkit.Identity.{normalize}
use botkit.Send.{classify}

abbrev pub err_not_paired : Error
err_not_paired = plain not_paired (codes "not paired — a human must trigger pairing (Pair)")

-- The state of whatsmeow's client that is read.
pub record Session : Type 0 where
  pub id : Option Jid
  pub is_connected : Bool
  pub is_logged_in : Bool

abbrev pub paired : Session → Bool
paired s = not (is_none s.id)

abbrev pub connected : Session → Bool
connected s = s.is_connected && s.is_logged_in

abbrev pub self_jid : Session → Jid
self_jid s = elim s.id [ none ↦ zero_jid | some j ↦ j ]

pub data Call : Type 0 where
  get_qr_channel go_online : Call
  pair_phone : Text → Call
  composing : Jid → Call
  sleep : ℕ → Call  -- in milliseconds
  send_text_to : Jid → Text → Call

-- An outcome, and the calls made on the way.
pub record Made (A : Type 0) : Type 0 where
  pub outcome : Result A
  pub calls : List Call

-- `Connect`; `answer` is whatsmeow's.
unfoldable pub connect : Session → (answer : Result (Unit {0})) → Made (Unit {0})
connect s answer =
    if not (paired s)
    then record { outcome = err err_not_paired; calls = [] }
    else record { outcome = answer; calls = go_online ∷ [] }

-- How the wait for the first QR event ends.
pub data Ready : Type 0 where
  ready timed_out : Ready
  stopped : Error → Ready

-- What whatsmeow answers while pairing.
pub record Answers : Type 0 where
  pub qr : Result (Unit {0})
  pub online : Result (Unit {0})
  pub event : Ready
  pub code : Text → Result Text

pair_ready : Text → Answers → Ready → Made Text
unfolding normalize
pair_ready digits w timed_out = record {
  outcome = err (new_error (codes "timed out waiting for WhatsApp connection before pairing"));
  calls = get_qr_channel ∷ go_online ∷ [];
}
pair_ready digits w (stopped e) = record {
  outcome = err e;
  calls = get_qr_channel ∷ go_online ∷ [];
}
pair_ready digits w ready = record {
  outcome = in_context (codes "pair phone") (w.code digits);
  calls = get_qr_channel ∷ go_online ∷ pair_phone digits ∷ [];
}

pair_online : Text → Answers → Result (Unit {0}) → Made Text
unfolding pair_ready
pair_online digits w (err e) = record {
  outcome = err (wrap (codes "connect for pairing") e);
  calls = get_qr_channel ∷ go_online ∷ [];
}
pair_online digits w (ok _) = pair_ready digits w w.event

pair_channel : Text → Answers → Result (Unit {0}) → Made Text
unfolding pair_online
pair_channel digits w (err e) = record {
  outcome = err (wrap (codes "qr channel") e);
  calls = get_qr_channel ∷ [];
}
pair_channel digits w (ok _) = pair_online digits w w.online

-- `Pair`
unfoldable pub pair : Text → Session → Answers → Text → Made Text
unfolding pair_channel normalize
pair country s w phone =
    if paired s
    then record { outcome = err (new_error (codes "already paired")); calls = [] }
    else if is_blank phone
    then record { outcome = err (new_error (codes "cannot pair: bot phone not set")); calls = [] }
    else pair_channel (normalize country phone) w w.qr

abbrev logged_in_and_connected : Session → Result (Unit {0})
logged_in_and_connected s =
    if not s.is_logged_in
    then err (new_error (codes "not logged in (re-pair required)"))
    else if not s.is_connected
    then err (new_error (codes "socket not connected"))
    else ok tt

-- `Ping`; `database` is what its own ping answers.
unfoldable pub ping : Session → (database : Result (Unit {0})) → Result (Unit {0})
ping s database = in_context (codes "session db") database >> logged_in_and_connected s

-- `humanizeDelay`, in milliseconds; `drawn` is rand.IntN(5000).
abbrev pub humanize_delay : ℕ → ℕ
humanize_delay drawn = 2000 + drawn

unfoldable pub humanize : Jid → (drawn : ℕ) → List Call
humanize chat drawn =
    let delay = humanize_delay drawn in
    if ltb 6000 delay
    then composing chat ∷ sleep 5000 ∷ composing chat ∷ sleep (delay - 5000) ∷ []
    else composing chat ∷ sleep delay ∷ []

-- The error that `SendText` returns, and its calls; `answer` is whatsmeow's error.
unfoldable pub send_text :
    (drawn : ℕ) → (answer : Option Error) → Jid → Text → Option Error × List Call
unfolding humanize classify
send_text drawn answer to text = (classify answer, humanize to drawn ++ send_text_to to text ∷ [])
