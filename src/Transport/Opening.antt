-- ===== src/Transport/Opening.antt =====
-- transport/client.go: opening the client with its session database, and its event hooks.
use botkit.Prelude.{
  ℕ, ◌+◌, ◌-◌, ◌≡◌, refl, ◌⊎◌, inl, inr, Bool, true, false, ◌&&◌, Option, none, some, arith,
  if◌then◌else◌, nat_eq, Option-cases, is_none, Text, codes, text_eq,
}
use botkit.Errors.{Error, wrap, Result, ok, err}
use botkit.Store.Open.{open_sqlite}
use botkit.Bot.Message.{Event}

-- What sql.Open, the ping, the upgrade and the device query answer.
pub record Answers : Type 0 where
  pub opened : Option Error
  pub pinged : Option Error
  pub upgraded : Option Error
  pub device : Option Error

get_device : Option Error → ℕ → ℕ × Result (Unit {0})
get_device (some e) handles = (handles - 1, err (wrap (codes "get device") e))
get_device none handles = (handles, ok tt)

upgrade : Answers → Option Error → ℕ → ℕ × Result (Unit {0})
unfolding get_device
upgrade a (some e) handles = (handles - 1, err (wrap (codes "upgrade session store") e))
upgrade a none handles = get_device a.device handles

and_upgrade : Answers → ℕ × Result (Unit {0}) → ℕ × Result (Unit {0})
unfolding upgrade
and_upgrade a (handles, err e) = (handles, err e)
and_upgrade a (handles, ok _) = upgrade a a.upgraded handles

-- `New`; the state is the number of database handles held open.
unfoldable pub new : Answers → ℕ → ℕ × Result (Unit {0})
unfolding and_upgrade open_sqlite
new a handles = and_upgrade a (open_sqlite a.opened a.pinged handles)

-- The events that whatsmeow sends; `reason` is the reason's text.
pub data ClientEvent : Type 0 where
  connected pair_success disconnected other_event : ClientEvent
  logged_out : (reason : Text) → ClientEvent
  received : Event → ClientEvent

-- Which hooks are registered.
pub record Hooks : Type 0 where
  pub on_connected : Bool
  pub on_logged_out : Bool
  pub on_message : Bool

-- The hook that an event calls, if any.
pub data HookCall : Type 0 where
  no_call call_connected : HookCall
  call_logged_out : Text → HookCall
  call_message : Event → HookCall

unfoldable pub handle_event : Hooks → ClientEvent → HookCall
handle_event h connected = if h.on_connected then call_connected else no_call
handle_event h pair_success = no_call
handle_event h (logged_out reason) = if h.on_logged_out then call_logged_out reason else no_call
handle_event h disconnected = no_call
handle_event h (received evt) = if h.on_message then call_message evt else no_call
handle_event h other_event = no_call

-- Whether all four steps of `New` work.
abbrev pub all_work : Answers → Bool
all_work a = is_none a.opened && (is_none a.pinged && (is_none a.upgraded && is_none a.device))

-- A client that is opened holds one handle more; one that is not holds none, whichever step failed.
pub new-cases :
    (a : Answers) (handles : ℕ)
    → ((all_work a ≡ true) × (new a handles ≡ (handles + 1, ok tt)))
      ⊎ ((all_work a ≡ false) × (e : Error) × (new a handles ≡ (handles, err e)))
unfolding new
new-cases a handles = elim (Option-cases a.opened) [
  | inr (x, e) ↦ inr (ground (arith, e), wrap (codes "open sqlite") x, rw e refl)
  | inl o ↦ elim (Option-cases a.pinged) [
    | inr (x, e) ↦
        inr (ground (arith, o, e), wrap (codes "ping sqlite") x, rw (o, e) (ground arith))
    | inl p ↦ elim (Option-cases a.upgraded) [
      | inr (x, e) ↦ inr (
        ground (arith, o, p, e),
        wrap (codes "upgrade session store") x,
        rw (o, p, e) (ground arith),
      )
      | inl u ↦ elim (Option-cases a.device) [
        | inr (x, e) ↦ inr (
          ground (arith, o, p, u, e),
          wrap (codes "get device") x,
          rw (o, p, u, e) (ground arith),
        )
        | inl d ↦ inl (ground (arith, o, p, u, d), rw (o, p, u, d) refl)
      ]
    ]
  ]
]
