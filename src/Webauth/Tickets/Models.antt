-- ===== src/Webauth/Tickets/Models.antt =====
-- webauth/webauth.go: what the store holds of the tickets, and what sweeps, Sets and Consumes do
-- to it.
use botkit.Prelude.{
  ℕ, ◌+◌, ◌/◌, ◌≤◌, ◌<◌, ◌≡◌, refl, inl, inr, Option, none, some, ◌++◌, arith, if◌then◌else◌, ◌==◌,
  nat_eq, Bool-cases, Text, text_beq, text_eq,
}
use botkit.Errors.{ok}
use botkit.Jid.{IsCanonical, JidApi}
use botkit.Prelude.Int.{pos}
use botkit.Store.Kv
use botkit.Store.Kv.{Kv, Driver}
use botkit.Store.Table.{IsUnique, is_expired}
use botkit.Store.Uniqueness.{apply, set_op, consume_op, expire_op, apply-IsUnique}
use botkit.Store.Cells.{cells, is_done, unless_expired}
use botkit.Store.Refinement.{Agrees-write}
use botkit.Webauth.Config.{Config, second}
use botkit.Webauth.Codec.{Codec, NonceRecord}
use botkit.Webauth.Auth.{Mint, swept, unix, link_ttl, nonce_prefix}
use botkit.Webauth.Tickets.{Ticket, Tickets}

module _ (api : JidApi) (codec : Codec) (cfg : Config) where
  -- The record of a ticket as it is stored.
  abbrev pub record_of : Ticket → NonceRecord
  record_of t = record {
    group = api.jid_string t.group;
    member = api.jid_string t.member;
    expires = pos t.until;
  }

  pub record Stored (raw : Text) (stamp : ℕ) (t : Ticket) : Type 0 where
    pub written : codec.marshal_nonce (record_of t) ≡ ok raw
    pub short : t.until ≤ stamp + link_ttl cfg / second
    pub group : IsCanonical api t.group
    pub member : IsCanonical api t.member

  -- A cell of the store and the ticket that it stands for, at a second: a ticket without a cell is over.
  abbrev pub Fits : ℕ → Option (Text × ℕ) → Option Ticket → Type 0
  Fits at none none = Unit
  Fits at none (some t) = t.until < at
  Fits at (some (raw, stamp)) none = ⊥
  Fits at (some (raw, stamp)) (some t) = Stored raw stamp t

  pub record Models (at : ℕ) (kv : Kv) (ts : Tickets) : Type 0 where
    pub unique : IsUnique kv.rows
    pub fits : (n : Text) → Fits at (cells kv.rows (nonce_prefix ++ n)) (ts n)

  Fits-later :
      (at at' : ℕ) (c : Option (Text × ℕ)) (t : Option Ticket)
      → at ≤ at'
      → Fits at c t
      → Fits at' c t
  Fits-later at at' none none le h = tt
  Fits-later at at' none (some t) le h = omega (arith, le, h)
  Fits-later at at' (some (raw, stamp)) none le h = h
  Fits-later at at' (some (raw, stamp)) (some t) le h = h

  -- A sweep takes only tickets that are over.
  Fits-swept :
      (at at' : ℕ) (k : Text) (c : Option (Text × ℕ)) (t : Option Ticket)
      → at ≤ at'
      → Fits at c t
      → Fits at' (unless_expired (is_expired nonce_prefix (link_ttl cfg / second) at') k c) t
  unfolding is_expired
  Fits-swept at at' k none none le h = tt
  Fits-swept at at' k none (some t) le h = omega (arith, le, h)
  Fits-swept at at' k (some (raw, stamp)) none le h = absurd h
  Fits-swept at at' k (some (raw, stamp)) (some t) le h =
      elim (Bool-cases (
        is_expired nonce_prefix (link_ttl cfg / second) at'
          (record { key = k; value = raw; updated_at = stamp }))) [
            | inl old ↦ rw old (ground (arith, h.short, old))
            | inr young ↦ rw young h
          ]

  pub swept-Models :
      (m : Mint) (at : ℕ) (kv : Kv) (ts : Tickets)
      → at ≤ unix m.sweep_at
      → Models at kv ts
      → Models (unix m.sweep_at) (swept cfg m kv) ts
  swept-Models m at kv ts le h =
      let w = expire_op m.sweep m.counted (unix m.sweep_at) nonce_prefix (link_ttl cfg) in
      record {
        unique = apply-IsUnique w kv h.unique;
        fits = λ n.
            rw (Agrees-write w kv (cells kv.rows) h.unique (λ j. refl) (nonce_prefix ++ n))
              (elim (Bool-cases (is_done m.sweep)) [
                | inl done ↦ rw done (
                    Fits-swept at (unix m.sweep_at) (nonce_prefix ++ n)
                      (cells kv.rows (nonce_prefix ++ n)) (ts n) le (h.fits n))
                | inr refused ↦ rw refused (
                    Fits-later at (unix m.sweep_at) (cells kv.rows (nonce_prefix ++ n)) (ts n) le
                      (h.fits n))
              ]);
      }

  -- A record is set for a nonce, or the nonce is consumed.
  pub set-Models :
      (name raw : Text) (at stamp : ℕ) (t : Ticket) (kv : Kv) (ts : Tickets)
      → Stored raw stamp t
      → Models at kv ts
      → Models at
          (apply (set_op Kv.works stamp (nonce_prefix ++ name) raw) kv)
          (λ n. if name == n then some t else ts n)
  unfolding text_beq
  set-Models name raw at stamp t kv ts stored h =
      let w = set_op Kv.works stamp (nonce_prefix ++ name) raw in
      record {
        unique = apply-IsUnique w kv h.unique;
        fits = λ n.
            rw (Agrees-write w kv (cells kv.rows) h.unique (λ j. refl) (nonce_prefix ++ n))
              (elim (Bool-cases (text_beq name n)) [
                | inl same ↦ rw same stored
                | inr differs ↦ rw differs (h.fits n)
              ]);
      }

  pub consume-Models :
      (name : Text) (at : ℕ) (kv : Kv) (ts : Tickets)
      → Models at kv ts
      → Models at
          (apply (consume_op Kv.works (nonce_prefix ++ name)) kv)
          (λ n. if name == n then none else ts n)
  unfolding text_beq
  consume-Models name at kv ts h =
      let w = consume_op Kv.works (nonce_prefix ++ name) in
      record {
        unique = apply-IsUnique w kv h.unique;
        fits = λ n.
            rw (Agrees-write w kv (cells kv.rows) h.unique (λ j. refl) (nonce_prefix ++ n))
              (elim (Bool-cases (text_beq name n)) [
                | inl same ↦ rw same tt
                | inr differs ↦ rw differs (h.fits n)
              ]);
      }

  pub Models-later :
      (at at' : ℕ) (kv : Kv) (ts : Tickets) → at ≤ at' → Models at kv ts → Models at' kv ts
  Models-later at at' kv ts le h = record {
    unique = h.unique;
    fits = λ n. Fits-later at at' (cells kv.rows (nonce_prefix ++ n)) (ts n) le (h.fits n);
  }
