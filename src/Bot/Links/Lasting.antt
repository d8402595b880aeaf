-- ===== src/Bot/Links/Lasting.antt =====
-- bot/bot.go: a minted link lasts through every other use of the store.
use botkit.Prelude.{
  ℕ, ◌+◌, ◌/◌, ◌≤◌, ◌≡◌, refl, ◌∙◌, ◌≢◌, inl, inr, Bool, true, false, List, [], ◌∷◌, ◌++◌, arith,
  nat_eq, All, Text, codes, text_beq_iff, text_eq,
}
use botkit.Errors.{ok}
use botkit.Jid.{IsCanonical, Jid, JidApi}
use botkit.Prelude.Int.{pos}
use botkit.Schedule.{Location}
use botkit.Store.Kv
use botkit.Store.Kv.{Kv}
use botkit.Store.Table.{IsUnique}
use botkit.Store.Uniqueness.{set_op}
use botkit.Store.Refinement.{value_in-cells}
use botkit.Store.Spared.{apply-Holds}
use botkit.Bot.Jobs.{Firing, day_key, fire_job}
use botkit.Bot.Jobs.Daily.{fire_job-store}
use botkit.Bot.Links.{Use, exchange, mints, sweeps, fires, used, marker-beq-link}
use botkit.Webauth.Codec.{Codec, CodecLaws}
use botkit.Webauth.Config.{Config, second}
use botkit.Webauth.Auth.{
  Membership, Mint, mint_link, nonce_prefix, unix, link_ttl, link_of, redeem, session_claims,
  session_ttl,
}
use botkit.Webauth.Token.{parse}
use botkit.Webauth.Links.{redeem-stored, mint_link-stored}
use botkit.Webauth.Spent.{draws}
use botkit.Webauth.Lasting.{HoldsNonce, swept-HoldsNonce, mint_link-HoldsNonce, mint_link-fresh}
use botkit.Webauth.Server.Lasting.{presents, handler-HoldsNonce}

fire_job-HoldsNonce :
    (utc : Location) (has_kv : Bool) (f : Firing) (nonce rec : Text) (stamp : ℕ) (kv : Kv)
    → HoldsNonce nonce rec stamp kv
    → HoldsNonce nonce rec stamp (fire_job utc has_kv f kv).0
fire_job-HoldsNonce utc has_kv f nonce rec stamp kv h = elim (fire_job-store utc has_kv f kv) [
  | inl same ↦ rw same h
  | inr set ↦ rw set (
      apply-Holds (nonce_prefix ++ nonce) rec stamp
        (set_op f.writing f.set_at (day_key utc f.job f.now) (codes "1")) kv h
        (λ e. cc (
          (text_beq_iff (day_key utc f.job f.now) (nonce_prefix ++ nonce)).1 e,
          marker-beq-link utc f nonce,
        )))
]

module _ (api : JidApi) (codec : Codec) (cfg : Config) (utc : Location) (has_kv : Bool) where
  -- The store after a history of uses.
  unfoldable pub store_after : List Use → Kv → Kv
  unfolding used
  store_after [] kv = kv
  store_after (u ∷ rest) kv = store_after rest (used api codec cfg utc has_kv u kv)

  -- A use that does not redeem the nonce and does not draw it; and no sweep comes after `now`.
  abbrev pub LeavesLink : Text → ℕ → Use → Type 0
  LeavesLink nonce now (exchange x) = presents cfg nonce x ≡ false
  LeavesLink nonce now (mints m group member) =
      (draws api codec cfg nonce m ≡ false) × (unix m.sweep_at ≤ unix now)
  LeavesLink nonce now (sweeps m) = unix m.sweep_at ≤ unix now
  LeavesLink nonce now (fires f) = Unit

  used-HoldsNonce :
      (nonce rec : Text) (stamp now : ℕ) (u : Use) (kv : Kv)
      → unix now ≤ stamp + link_ttl cfg / second
      → LeavesLink nonce now u
      → HoldsNonce nonce rec stamp kv
      → HoldsNonce nonce rec stamp (used api codec cfg utc has_kv u kv)
  unfolding used
  used-HoldsNonce nonce rec stamp now (exchange x) kv live leaves h =
      handler-HoldsNonce api codec cfg nonce rec stamp x kv leaves h
  used-HoldsNonce nonce rec stamp now (mints m group member) kv live (another, early) h =
      mint_link-HoldsNonce api codec cfg nonce rec stamp m group member kv another
        (omega (arith, live, early)) h
  used-HoldsNonce nonce rec stamp now (sweeps m) kv live early h =
      swept-HoldsNonce api codec cfg nonce rec stamp m kv (omega (arith, live, early)) h
  used-HoldsNonce nonce rec stamp now (fires f) kv live leaves h =
      fire_job-HoldsNonce utc has_kv f nonce rec stamp kv h

  store_after-HoldsNonce :
      (nonce rec : Text) (stamp now : ℕ) (uses : List Use) (kv : Kv)
      → unix now ≤ stamp + link_ttl cfg / second
      → All (LeavesLink nonce now) uses
      → HoldsNonce nonce rec stamp kv
      → HoldsNonce nonce rec stamp (store_after uses kv)
  unfolding store_after
  store_after-HoldsNonce nonce rec stamp now [] kv live leaves h = h
  store_after-HoldsNonce nonce rec stamp now (u ∷ rest) kv live (first, others) h =
      store_after-HoldsNonce nonce rec stamp now rest _ live others
        (used-HoldsNonce nonce rec stamp now u kv live first h)

  -- A link that was minted still redeems after any history of the store, in which the dashboard's
  -- endpoints are asked, other links are minted, with the sweeps that begin the mints, and jobs fire,
  -- whatever the store answers each of them, as long as no exchange with the dashboard's token names its
  -- nonce, no other mint draws it, and no sweep comes after the redeem: within the link's lifetime, in
  -- whole seconds, for a member that WhatsApp says is in the group, with a store that works, `Redeem`
  -- returns a token that carries the claims of this group and member, issued now, up to now plus the
  -- session's length. The table's keys are unique at the start, and the link's record is written no
  -- earlier than its expiry was reckoned.
  pub redeem-lasting :
      (m : Mint) (raw : List ℕ) (group member : Jid) (link : Text) (kv : Kv) (uses : List Use)
      (now : ℕ) (mem : Membership)
      → CodecLaws codec
      → IsCanonical api group
      → IsCanonical api member
      → codec.b64_encode raw ≢ []
      → IsUnique kv.rows
      → m.random ≡ ok raw
      → m.clock_at ≤ m.store_at
      → (mint_link api codec cfg m group member kv).1 ≡ ok link
      → All (LeavesLink (codec.b64_encode raw) now) uses
      → unix now ≤ unix m.clock_at + link_ttl cfg / second
      → mem group member ≡ ok true
      → (link ≡ link_of cfg (codec.b64_encode raw))
        × (token : Text) × ((redeem api codec cfg Kv.works now mem
              (codec.b64_encode raw)
              (store_after uses (mint_link api codec cfg m group member kv).0)).1
            ≡ ok token)
        × (parse codec cfg.signing_key token
            ≡ ok (session_claims api cfg group member now (pos (unix (now + session_ttl cfg)))))
  redeem-lasting m raw group member link kv uses now mem laws cg cm n unique er order h leaves live
        current =
      let nonce = codec.b64_encode raw in
      let minted = (mint_link api codec cfg m group member kv).0 in
      let shape = (mint_link-stored api codec cfg m raw group member link kv er h).0 in
      let (rec, marshalled, fresh) =
        mint_link-fresh api codec cfg m raw group member link kv unique er h in
      let (still, there) =
        store_after-HoldsNonce nonce rec (unix m.store_at) now uses minted
          (omega (arith, live, order)) leaves fresh in
      let (token, redeemed, carries) =
        redeem-stored api codec cfg nonce rec group member m.clock_at (store_after uses minted) now
          mem laws cg cm n marshalled (value_in-cells (nonce_prefix ++ nonce) _ ∙ rw there refl)
          (omega (arith, live)) current in
      (shape, token, redeemed, carries)
