-- ===== src/Bot/Links.antt =====
-- bot/bot.go: all that uses the bot's store, the dashboard's endpoints, the minting of links and the
-- daily jobs, in any order, and the sessions that one link gives.
pub mod Lasting
use botkit.Prelude.{
  tally, ℕ, ◌+◌, ◌-◌, ◌≤◌, ◌≡◌, refl, sym, ◌∙◌, ◌≢◌, inl, inr, Bool, true, false, ◌||◌, List, [],
  ◌∷◌, ◌++◌, arith, Text, codes, text_beq, text_beq_iff, is_blank, nat_eq, text_eq,
}
use botkit.Store.Kv
use botkit.Store.Kv.{Kv}
use botkit.Errors.{Error}
use botkit.Webauth.Auth.{swept}
use botkit.Webauth.Spent.{swept-held}
use botkit.Store.SingleUse.{prize-apply}
use botkit.Store.Uniqueness.{set_op}
use botkit.Webauth.Codec.{Codec}
use botkit.Webauth.Config.{Config, single_use}
use botkit.Webauth.Auth.{Mint, mint_link, nonce_prefix}
use botkit.Webauth.Spent.{held, draws, mint_link-adds}
use botkit.Jid.{Jid, JidApi}
use botkit.Webauth.Server.{Exchange, handler}
use botkit.Webauth.Server.Spent.{grants, handler-spends}
use botkit.Schedule.{Location}
use botkit.Bot.Jobs.{Firing, day_key, fire_job}
use botkit.Bot.Jobs.Daily.{fire_job-store}

-- A use of the store: an exchange with the dashboard, a link minted by a handler, a job that fires; and
-- the sweep of a mint alone, where other uses come between it and the mint's Set. That Set is then a
-- mint whose sweep failed (`mint_link_cut`).
pub data Use : Type 0 where
  exchange : Exchange → Use
  mints : Mint → Jid → Jid → Use
  sweeps : Mint → Use
  fires : Firing → Use

bool_apart : true ≢ false
bool_apart e = cc

pub marker-beq-link :
    (utc : Location) (f : Firing) (nonce : Text)
    → text_beq (day_key utc f.job f.now) (nonce_prefix ++ nonce) ≡ false
unfolding text_beq
marker-beq-link utc f nonce = refl

fire_job-held :
    (utc : Location) (has_kv : Bool) (f : Firing) (nonce : Text) (kv : Kv)
    → held nonce (fire_job utc has_kv f kv).0 ≤ held nonce kv
fire_job-held utc has_kv f nonce kv = elim (fire_job-store utc has_kv f kv) [
  | inl same ↦ rw same (omega arith)
  | inr set ↦ rw set (
      prize-apply (nonce_prefix ++ nonce)
        (set_op f.writing f.set_at (day_key utc f.job f.now) (codes "1")) kv
        (λ e. bool_apart (
          sym ((text_beq_iff (day_key utc f.job f.now) (nonce_prefix ++ nonce)).1 e)
          ∙ marker-beq-link utc f nonce)))
]

module _ (api : JidApi) (codec : Codec) (cfg : Config) (utc : Location) (has_kv : Bool) where
  unfoldable pub used : Use → Kv → Kv
  used (exchange x) kv = (handler api codec cfg x kv).0
  used (mints m group member) kv = (mint_link api codec cfg m group member kv).0
  used (sweeps m) kv = swept cfg m kv
  used (fires f) kv = (fire_job utc has_kv f kv).0

  -- Whether this use gives out a session for the nonce.
  unfoldable pub gives : Text → Use → Kv → Bool
  gives nonce (exchange x) kv = grants nonce x (handler api codec cfg x kv).1
  gives nonce (mints m group member) kv = false
  gives nonce (sweeps m) kv = false
  gives nonce (fires f) kv = false

  -- How many sessions the nonce gives, in the order of the uses.
  unfoldable pub sessions : Text → List Use → Kv → ℕ
  unfolding used gives
  sessions nonce [] kv = 0
  sessions nonce (u ∷ rest) kv = tally (gives nonce u kv) (sessions nonce rest (used u kv))

  -- How many mints draw the nonce.
  unfoldable pub drawn : Text → List Use → ℕ
  drawn nonce [] = 0
  drawn nonce (mints m group member ∷ rest) = tally (draws api codec cfg nonce m) (drawn nonce rest)
  drawn nonce (exchange x ∷ rest) = drawn nonce rest
  drawn nonce (sweeps m ∷ rest) = drawn nonce rest
  drawn nonce (fires f ∷ rest) = drawn nonce rest

  -- A mint of a link is its sweep and then the same mint on the swept store, with a sweep that fails.
  mint_link_cut :
      (m : Mint) (e : Error) (group member : Jid) (kv : Kv)
      → (api.is_empty group || api.is_empty member || is_blank member.user) ≡ false
      → mint_link api codec cfg m group member kv
        ≡ mint_link api codec cfg (record m { sweep = Kv.fails e }) group member (swept cfg m kv)
  unfolding mint_link Kv.delete_expired
  mint_link_cut m e group member kv valid = rw valid refl

  -- Over any history of the store, a nonce gives at most as many sessions as the store holds links of it
  -- at the start (none or one) and mints draw it afterwards. The history is any sequence of exchanges
  -- with the dashboard's endpoints, of mints, in one piece or with other uses between the sweep and the
  -- Set, and of jobs that fire, whatever the store answers each of them. Links are single-use.
  pub sessions_bound :
      (nonce : Text) (uses : List Use) (kv : Kv)
      → single_use cfg ≡ true
      → sessions nonce uses kv ≤ held nonce kv + drawn nonce uses
  unfolding sessions used gives drawn
  sessions_bound nonce [] kv once = omega arith
  sessions_bound nonce (exchange x ∷ rest) kv once = ground (
    arith,
    handler-spends api codec cfg x nonce kv once,
    sessions_bound nonce rest (handler api codec cfg x kv).0 once,
  )
  sessions_bound nonce (mints m group member ∷ rest) kv once = ground (
    arith,
    mint_link-adds api codec cfg m group member nonce kv,
    sessions_bound nonce rest (mint_link api codec cfg m group member kv).0 once,
  )
  sessions_bound nonce (sweeps m ∷ rest) kv once =
      ground (
        arith,
        swept-held api codec cfg m nonce kv,
        sessions_bound nonce rest (swept cfg m kv) once,
      )
  sessions_bound nonce (fires f ∷ rest) kv once = ground (
    arith,
    fire_job-held utc has_kv f nonce kv,
    sessions_bound nonce rest (fire_job utc has_kv f kv).0 once,
  )
