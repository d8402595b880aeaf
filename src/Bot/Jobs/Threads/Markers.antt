-- ===== src/Bot/Jobs/Threads/Markers.antt =====
-- bot/schedule.go and webauth/webauth.go: the markers of the jobs among the nonces of the dashboard.
use botkit.Prelude.{
  ℕ, suc, ◌+◌, ◌/◌, ◌≡◌, refl, ap, ◌∙◌, inl, inr, Bool, false, not, ◌&&◌, List, [], ◌∷◌, ◌++◌,
  arith, ltb, nat_eq, Option-cases, is_none, length, length-append, Text, text_beq, text_beq_iff,
  text_eq,
}
use botkit.Bot.Jobs.{Job, day_key, is_marked}
use botkit.Bot.Jobs.Threads.{IsDashboards}
use botkit.Schedule.{Location, date_key}
use botkit.Store.Like.{like}
use botkit.Store.Kv
use botkit.Store.Kv.{Kv, works, fails, lost}
use botkit.Store.Table.{Row, select_value, delete_where, is_expired}
use botkit.Store.Lookup.{select_value-upsert, select_value-delete_key}
use botkit.Store.Uniqueness.{Write, set_op, consume_op, delete_op, expire_op, apply}
use botkit.Webauth.Auth.{nonce_prefix}

-- Whether the marker is there.
abbrev pub marked : Text → Kv → Bool
marked k kv = not (is_none (select_value k kv.rows))

pub is_marked-works : (k : Text) (kv : Kv) → is_marked (Kv.get Kv.works k kv) ≡ marked k kv
unfolding Kv.get
is_marked-works k kv = elim (Option-cases (select_value k kv.rows)) [
  | inl e ↦ rw e refl
  | inr (v, e) ↦ rw e refl
]

select_value-delete_where :
    (k : Text) (p : Row → Bool) (rs : List Row)
    → ((r : Row) → r.key ≡ k → p r ≡ false)
    → select_value k (delete_where p rs) ≡ select_value k rs
unfolding select_value delete_where
select_value-delete_where k p [] h = refl
select_value-delete_where k p (r ∷ rs) h =
    ground (arith, select_value-delete_where k p rs h, h r, text_beq_iff r.key k)

nonce-ne-day_key :
    (nonce : Text) (utc : Location) (job : Job) (now : ℕ)
    → text_beq (nonce_prefix ++ nonce) (day_key utc job now) ≡ false
unfolding text_beq
nonce-ne-day_key nonce utc job now = refl

like-day_key :
    (utc : Location) (job : Job) (now : ℕ)
    → like (nonce_prefix ++ b'%' ∷ []) (day_key utc job now) ≡ false
unfolding like
like-day_key utc job now = refl

is_expired_lem :
    (prefix : Text) (seconds at : ℕ) (r : Row)
    → is_expired prefix seconds at r
      ≡ (like (prefix ++ b'%' ∷ []) r.key && ltb (r.updated_at + seconds) at)
unfolding is_expired
is_expired_lem prefix seconds at r = refl

is_expired-day_key :
    (utc : Location) (job : Job) (now seconds at : ℕ) (r : Row)
    → r.key ≡ day_key utc job now
    → is_expired nonce_prefix seconds at r ≡ false
is_expired-day_key utc job now seconds at r h =
    is_expired_lem nonce_prefix seconds at r
    ∙ (ap (λ (k : Text). like (nonce_prefix ++ b'%' ∷ []) k && ltb (r.updated_at + seconds) at) h
        ∙ rw (like-day_key utc job now) refl)

committed_keeps :
    (d : Kv.Driver) (k : Text) (new : List Row) (kv : Kv)
    → select_value k new ≡ select_value k kv.rows
    → select_value k (Kv.committed d new kv).rows ≡ select_value k kv.rows
committed_keeps Kv.works k new kv h = h
committed_keeps (Kv.fails e) k new kv h = refl
committed_keeps (Kv.lost e) k new kv h = h

-- The dashboard leaves every marker as it is.
pub dashboard_keeps :
    (w : Write) (kv : Kv) (utc : Location) (job : Job) (now : ℕ)
    → IsDashboards w
    → select_value (day_key utc job now) (apply w kv).rows
      ≡ select_value (day_key utc job now) kv.rows
unfolding Kv.set Kv.consume Kv.delete_expired
dashboard_keeps (set_op d at k v) kv utc job now (nonce, h) = committed_keeps d _ _ kv (
    select_value-upsert (day_key utc job now) (record { key = k; value = v; updated_at = at })
      kv.rows
    ∙ rw (h, nonce-ne-day_key nonce utc job now) refl)
dashboard_keeps (consume_op d k) kv utc job now (nonce, h) = committed_keeps d _ _ kv (
    select_value-delete_key (day_key utc job now) k kv.rows
    ∙ rw (h, nonce-ne-day_key nonce utc job now) refl)
dashboard_keeps (delete_op d k) kv utc job now h = absurd h
dashboard_keeps (expire_op d counted at prefix age) kv utc job now h = committed_keeps d _ _ kv (
    select_value-delete_where (day_key utc job now) _ kv.rows
      (rw h (is_expired-day_key utc job now (age / 1_000_000_000) at)))

append_suffix : (s t s' t' : Text) → length t ≡ length t' → s ++ t ≡ s' ++ t' → s ≡ s'
append_suffix [] t [] t' h e = refl
append_suffix [] t (c ∷ s') t' h e = absurd (omega (arith, ap length e, length-append s' t'))
append_suffix (c ∷ s) t [] t' h e = absurd (omega (arith, ap length e, length-append s t))
append_suffix (c ∷ s) t (c' ∷ s') t' h e = cc (append_suffix s t s' t' h (cc))

-- Where dates have one length, a marker tells the job's name.
pub day_key-name :
    (utc : Location) (a b : Job) (now now' : ℕ)
    → length (date_key utc a.spec now) ≡ length (date_key utc b.spec now')
    → day_key utc a now ≡ day_key utc b now'
    → a.name ≡ b.name
day_key-name utc a b now now' h e =
    append_suffix a.name (b':' ∷ date_key utc a.spec now) b.name (b':' ∷ date_key utc b.spec now')
      (ap suc h) (cc)
