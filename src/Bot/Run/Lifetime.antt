-- ===== src/Bot/Run/Lifetime.antt =====
-- bot/bot.go: what the goroutines of a run's events do, in whatever order they run.
use botkit.Prelude.{
  ℕ, zero, suc, ◌+◌, ◌-◌, ◌≡◌, refl, ap, ◌∙◌, ◌⊎◌, inl, inr, Bool, true, false, not, ◌&&◌, ◌||◌,
  Option, none, some, List, [], ◌∷◌, ◌++◌, append_assoc, append-nil, arith, ltb, if◌then◌else◌,
  nat_eq, Option-cases, length, length-append, any, Text, text_eq,
}
use botkit.Errors.{Result}
use mathlib.Core.List.{Perm}
use mathlib.Core.List.Perm
use botkit.Jid.{JidApi}
use botkit.Transport.Opening.{
  ClientEvent, connected, pair_success, disconnected, other_event, logged_out, received,
  handle_event, HookCall, no_call, call_connected, call_logged_out, call_message,
}
use botkit.Webauth.Config.{Url}
use botkit.Bot.Message.{InboundMessage}
use botkit.Bot.{Bot, Client, Reaches, deliver}
use botkit.Bot.Run.{run_events, Running, Happening, arrives, runs, all_hooks, called, started, pick}

-- The goroutines of an event: one for a connection, for a logout, and for a message that is not the
-- bot's own.
abbrev pub goroutines : ClientEvent → List HookCall
goroutines connected = call_connected ∷ []
goroutines (logged_out reason) = call_logged_out reason ∷ []
goroutines (received evt) = if evt.is_from_me then [] else call_message evt ∷ []
goroutines _ = []

-- Those of all events that arrive, in order.
abbrev pub calls : List Happening → List HookCall
calls [] = []
calls (arrives e ∷ hs) = goroutines e ++ calls hs
calls (runs i ∷ hs) = calls hs

-- How many goroutines have not run in the end, by counting alone, where so many are pending.
abbrev pub waiting : List Happening → ℕ → ℕ
waiting [] n = n
waiting (arrives e ∷ hs) n = waiting hs (n + length (goroutines e))
waiting (runs i ∷ hs) n = waiting hs (if ltb i n then n - 1 else n)

abbrev pub is_connected : HookCall → Bool
is_connected call_connected = true
is_connected _ = false

-- The reasons of the logouts, in order.
abbrev pub reasons : List HookCall → List Text
reasons [] = []
reasons (call_logged_out reason ∷ ran) = reason ∷ reasons ran
reasons (_ ∷ ran) = reasons ran

abbrev pub one_if : Bool → ℕ
one_if true = 1
one_if false = 0

abbrev pub only_if : {A : Type 0} → Bool → List A → List A
only_if true xs = xs
only_if false xs = []

abbrev pub as_list : {A : Type 0} → Option A → List A
as_list none = []
as_list (some a) = a ∷ []

started-goroutines : (e : ClientEvent) → started (handle_event all_hooks e) ≡ goroutines e
unfolding handle_event
started-goroutines connected = refl
started-goroutines pair_success = refl
started-goroutines disconnected = refl
started-goroutines other_event = refl
started-goroutines (logged_out reason) = refl
started-goroutines (received evt) = refl

-- A goroutine that is picked is one of the pending ones, which are one fewer then.
pick-cases :
    (i : ℕ) (pending : List HookCall)
    → ((call : HookCall) × (rest : List HookCall) × (pick i pending ≡ some (call, rest))
        × Perm (call ∷ rest) pending
        × (ltb i (length pending) ≡ true)
        × (length pending ≡ suc (length rest)))
      ⊎ ((pick i pending ≡ none) × (ltb i (length pending) ≡ false))
unfolding pick
pick-cases i [] = inr (refl, ground arith)
pick-cases zero (call ∷ calls) = inl (call, calls, refl, Perm.rfl, ground arith, refl)
pick-cases (suc i) (call ∷ calls) = elim (pick-cases i calls) [
  | inl (found, rest, e, same, inside, fewer) ↦ inl (
    found,
    call ∷ rest,
    rw e refl,
    Perm.trans (Perm.swap call found rest) (Perm.cons call same),
    ground arith,
    ap suc fewer,
  )
  | inr (e, outside) ↦ inr (rw e refl, ground arith)
]

module _ (api : JidApi) (parse_url : Text → Result Url) (c : Client) (b : Bot) (jobs : ℕ)
    (alerts : Bool) where
  -- What the gates make of the messages, in order.
  abbrev pub deliveries : List HookCall → List (Reaches × InboundMessage)
  deliveries [] = []
  deliveries (call_message evt ∷ ran) = as_list (deliver api c b evt) ++ deliveries ran
  deliveries (_ ∷ ran) = deliveries ran

  -- The state after these goroutines have run, with those pending.
  abbrev pub after : List HookCall → List HookCall → Running → Running
  after ran left r = record {
    world = record r.world {
      starts = r.world.starts + one_if (ltb 0 jobs && (not r.once && any is_connected ran));
      told = r.world.told ++ only_if alerts (reasons ran);
      handled = r.world.handled ++ deliveries ran;
    };
    once = r.once || (ltb 0 jobs && any is_connected ran);
    pending = left;
  }

  called-pending :
      (call : HookCall) (r : Running)
      → (called api parse_url c b jobs alerts call r).pending ≡ r.pending
  unfolding called
  called-pending no_call r = refl
  called-pending call_connected r = ground arith
  called-pending (call_logged_out reason) r = refl
  called-pending (call_message evt) r = refl

  after-called :
      (call : HookCall) (ran left : List HookCall) (r : Running)
      → after ran left (called api parse_url c b jobs alerts call r) ≡ after (call ∷ ran) left r
  unfolding called
  after-called no_call ran left r = refl
  after-called call_connected ran left r = ground arith
  after-called (call_logged_out reason) ran left r =
      ground (arith, append_assoc r.world.told (reason ∷ []) (reasons ran))
  after-called (call_message evt) ran left r = elim (Option-cases (deliver api c b evt)) [
    | inl e ↦ rw e refl
    | inr (d, e) ↦ rw e (ground (arith, append_assoc r.world.handled (d ∷ []) (deliveries ran)))
  ]

  -- What a run's happenings come to: some of the goroutines that were pending or are started have run,
  -- in some order, and the others are pending.
  pub record Ran (hs : List Happening) (r last : Running) : Type 0 where
    pub ran : List HookCall
    pub left : List HookCall
    pub each_once : Perm (ran ++ left) (r.pending ++ calls hs)
    pub waits : length left ≡ waiting hs (length r.pending)
    pub state : last ≡ after ran left r

  Ran-arrives :
      (e : ClientEvent) (hs : List Happening) (r last : Running)
      → Ran hs (record r { pending = r.pending ++ started (handle_event all_hooks e) }) last
      → Ran (arrives e ∷ hs) r last
  Ran-arrives e hs r last x = record {
    ran = x.ran;
    left = x.left;
    each_once =
        rw (started-goroutines e, append_assoc r.pending (goroutines e) (calls hs)) at x.each_once;
    waits = rw (started-goroutines e, length-append r.pending (goroutines e)) at x.waits;
    state = x.state;
  }

  Ran-runs :
      (i : ℕ) (hs : List Happening) (r last : Running) (call : HookCall) (rest : List HookCall)
      → Perm (call ∷ rest) r.pending
      → ltb i (length r.pending) ≡ true
      → length r.pending ≡ suc (length rest)
      → Ran hs (called api parse_url c b jobs alerts call (record r { pending = rest })) last
      → Ran (runs i ∷ hs) r last
  Ran-runs i hs r last call rest same inside fewer x =
      let kept = called-pending call (record r { pending = rest }) in
      let one_less : length r.pending - 1 ≡ length rest = omega (arith, fewer) in
      record {
        ran = call ∷ x.ran;
        left = x.left;
        each_once =
            Perm.trans (Perm.cons call (rw kept at x.each_once))
              (Perm.append_right (calls hs) same);
        waits = rw (inside, one_less) (rw kept at x.waits);
        state = x.state ∙ after-called call x.ran x.left (record r { pending = rest });
      }

  pub run_events-Ran :
      (hs : List Happening) (r : Running) → Ran hs r (run_events api parse_url c b jobs alerts hs r)
  unfolding run_events
  run_events-Ran [] r = record {
    ran = [];
    left = r.pending;
    each_once = rw (append-nil r.pending) Perm.rfl;
    waits = refl;
    state = ground (arith, append-nil r.world.told, append-nil r.world.handled);
  }
  run_events-Ran (arrives e ∷ hs) r =
      Ran-arrives e hs r _
        (run_events-Ran hs (record r { pending = r.pending ++ started (handle_event all_hooks e) }))
  run_events-Ran (runs i ∷ hs) r = elim (pick-cases i r.pending) [
    | inr (e, outside) ↦
        let x = run_events-Ran hs r in
        record {
          ran = x.ran;
          left = x.left;
          each_once = x.each_once;
          waits = rw outside x.waits;
          state = rw e x.state;
        }
    | inl (call, rest, e, same, inside, fewer) ↦ rw e (
        Ran-runs i hs r _ call rest same inside fewer (
          run_events-Ran hs
            (called api parse_url c b jobs alerts call (record r { pending = rest }))))
  ]
