-- ===== src/Devserver/Removal.antt =====
-- examples/webauth-dev/devserver/main.go: that who is removed from the group gets no session.
use botkit.Webauth.Token.{sign}
use botkit.Webauth.Codec.{Claims, Codec}
use botkit.Webauth.Server.Doors.{handler-IsEarned, token_of}
use botkit.Prelude.{
  ◌≡◌, refl, ◌∙◌, ◌≢◌, inl, inr, Bool, true, false, not, ◌&&◌, ◌||◌, Option, none, some, List, [],
  ◌∷◌, arith, if◌then◌else◌, ◌==◌, nat_eq, Bool-cases, All, Text, codes, text_beq_refl,
  text_beq_iff, text_eq, is_blank,
}
use botkit.Errors.{Result, ok, err, Result-cases}
use botkit.Devserver.{
  webauth_route, mint_route, members_route, dev_group, DevRoute, edited, edit_members, link_reply,
  dev_edit, mint_for, dev_routes, dev_mint, dev_routed, DevRequest, DevResponse, dev_handler,
  membership_in, FakeGroup, dev_webauth, remove_member, add_member, DevBody, Edit, has_member, Dev,
  dev_session,
}
use botkit.Http.{method_get, Routed, route, to, redirect, not_found}
use botkit.Webauth.Auth.{mint_link}
use botkit.Webauth.Server.{Exchange}
use botkit.Jid.{Jid, JidApi}
use botkit.Webauth.Config.{Config}

has_member-add_member :
    (k j name : Text) (group : FakeGroup)
    → has_member k (add_member j name group) ≡ (j == k || has_member k group)
unfolding has_member add_member
has_member-add_member k j name [] = ground arith
has_member-add_member k j name ((i, n) ∷ rest) = ground (
  arith,
  has_member-add_member k j name rest,
  text_beq_iff i j,
  text_beq_iff i k,
  text_beq_iff j k,
)

has_member-remove_member :
    (k j : Text) (group : FakeGroup)
    → has_member k (remove_member j group) ≡ (not (j == k) && has_member k group)
unfolding has_member remove_member
has_member-remove_member k j [] = ground arith
has_member-remove_member k j ((i, n) ∷ rest) =
    ground (
      arith,
      has_member-remove_member k j rest,
      text_beq_iff i j,
      text_beq_iff i k,
      text_beq_iff j k,
    )

-- The session that a response hands out, if any.
abbrev pub session_of : DevBody → Option Text
session_of (dev_session response) = token_of response.body
session_of _ = none

-- Whether the request can put this JID into the group.
abbrev pub adds : Text → Result Edit → Bool
adds jid (err e) = false
adds jid (ok e) = not (e.action == codes "remove") && e.jid == jid

module _ (api : JidApi) (codec : Codec) (cfg : Config) where
  -- The token is signed for a member who is written so.
  abbrev pub IsFor : Text → Text → Type 0
  IsFor token who = (c : Claims) × (sign codec cfg.signing_key c ≡ ok token) × (c.member ≡ who)

  abbrev pub IsForAnother : Text → Text → Type 0
  IsForAnother jid token = (who : Text) × IsFor token who × (who ≢ jid)

  absent-other :
      (jid : Text) (group : FakeGroup) (g member : Jid)
      → has_member jid group ≡ false
      → membership_in api group g member ≡ ok true
      → api.jid_string member ≢ jid
  absent-other jid group g member gone current same = cc (rw same at current, gone)

  webauth-another :
      (jid token : Text) (x : Exchange) (s : Dev)
      → has_member jid s.group ≡ false
      → session_of (dev_webauth api codec cfg x s).1.1 ≡ some token
      → IsForAnother jid token
  unfolding dev_webauth
  webauth-another jid token x s gone h =
      let (bearer, (post, earned)) =
        handler-IsEarned api codec cfg (record x { membership = membership_in api s.group }) s.kv
          token h in
      elim earned [
        | inl (nonce, read, r) ↦ (
          api.jid_string r.member,
          (_, r.signed, refl),
          absent-other jid s.group r.group r.member gone r.current,
        )
        | inr (old, read, r) ↦ (
          api.jid_string r.member,
          (_, r.signed, refl),
          absent-other jid s.group r.group r.member gone r.current,
        )
      ]

  dev_routed-another :
      (jid token : Text) (r : DevRequest) (routed : Routed DevRoute) (s : Dev)
      → has_member jid s.group ≡ false
      → session_of (dev_routed api codec cfg r routed s).1.1 ≡ some token
      → IsForAnother jid token
  unfolding dev_routed dev_mint mint_for link_reply dev_edit edit_members
  dev_routed-another jid token r (to webauth_route) s gone h =
      webauth-another jid token r.exchange s gone h
  dev_routed-another jid token r (to mint_route) s gone h = elim (Result-cases r.member) [
    | inr (x, e) ↦ absurd (cc (rw e at h))
    | inl (text, e) ↦ elim (Result-cases (api.parse_jid text)) [
      | inr (x, bad) ↦ absurd (cc (rw (e, bad) at h))
      | inl (member, good) ↦
          elim (Result-cases (mint_link api codec cfg r.minting dev_group member s.kv).1) [
            | inr (x, failed) ↦ absurd (cc (rw (e, good, failed) at h))
            | inl (link, minted) ↦ absurd (cc (rw (e, good, minted) at h))
          ]
    ]
  ]
  dev_routed-another jid token r (to members_route) s gone h =
      elim (Bool-cases (r.exchange.request.method == method_get)) [
        | inl get ↦ absurd (cc (rw get at h))
        | inr post ↦ elim (Result-cases r.edit) [
          | inl (e, read) ↦ absurd (cc (rw (post, read) at h))
          | inr (x, bad) ↦ absurd (cc (rw (post, bad) at h))
        ]
      ]
  dev_routed-another jid token r (redirect path) s gone h = cc
  dev_routed-another jid token r not_found s gone h = cc

  dev_routed-group :
      (jid : Text) (r : DevRequest) (routed : Routed DevRoute) (s : Dev)
      → has_member jid s.group ≡ false
      → adds jid r.edit ≡ false
      → has_member jid (dev_routed api codec cfg r routed s).0.group ≡ false
  unfolding dev_routed dev_webauth dev_mint mint_for dev_edit edit_members edited
  dev_routed-group jid r (to webauth_route) s gone none_added = gone
  dev_routed-group jid r (to mint_route) s gone none_added = elim (Result-cases r.member) [
    | inr (x, e) ↦ rw e gone
    | inl (text, e) ↦ elim (Result-cases (api.parse_jid text)) [
      | inr (x, bad) ↦ rw (e, bad) gone
      | inl (member, good) ↦ rw (e, good) gone
    ]
  ]
  dev_routed-group jid r (to members_route) s gone none_added =
      elim (Bool-cases (r.exchange.request.method == method_get)) [
        | inl get ↦ rw get gone
        | inr post ↦ elim (Result-cases r.edit) [
          | inr (x, bad) ↦ rw (post, bad) gone
          | inl (e, read) ↦
              rw (post, read)
                (elim (Bool-cases (e.action == codes "remove")) [
                  | inl removal ↦
                      rw (removal, has_member-remove_member jid e.jid s.group, gone) (ground arith)
                  | inr addition ↦
                      rw
                        (
                          addition,
                          has_member-add_member jid e.jid
                              (if is_blank e.name then e.jid else e.name) s.group,
                          gone,
                        )
                        (ground (arith, rw (read, addition) at none_added))
                ])
        ]
      ]
  dev_routed-group jid r (redirect path) s gone none_added = gone
  dev_routed-group jid r not_found s gone none_added = gone

  abbrev pub dev_answers : List DevRequest → Dev → List DevResponse
  dev_answers [] s = []
  dev_answers (r ∷ rs) s =
      let (s', response) = dev_handler api codec cfg r s in response ∷ dev_answers rs s'

  -- A session in it is for another member.
  abbrev pub IsSpared : Text → DevResponse → Type 0
  IsSpared jid response =
      (token : Text) → session_of response.body ≡ some token → IsForAnother jid token

  dev_answers-absent :
      (jid : Text) (rs : List DevRequest) (s : Dev)
      → has_member jid s.group ≡ false
      → All (λ r. adds jid r.edit ≡ false) rs
      → All (IsSpared jid) (dev_answers rs s)
  unfolding dev_handler
  dev_answers-absent jid [] s gone h = tt
  dev_answers-absent jid (r ∷ rs) s gone (now, later) =
      elim (Bool-cases (r.exchange.request.method == codes "OPTIONS")) [
        | inl options ↦
            rw options ((λ token e. absurd (cc e)), dev_answers-absent jid rs s gone later)
        | inr served ↦ rw served (
          (λ token e.
              dev_routed-another jid token r (route dev_routes r.exchange.request.path) s gone e),
          dev_answers-absent jid rs
              (dev_routed api codec cfg r (route dev_routes r.exchange.request.path) s).0
              (dev_routed-group jid r (route dev_routes r.exchange.request.path) s gone now) later,
        )
      ]

  -- Once a JID is removed from the group, whatever requests come, as long as none of them adds it again,
  -- no response hands out a session that is not signed for another member: neither an open link nor
  -- a session from before is of use.
  pub dev_answers-removed :
      (jid : Text) (rs : List DevRequest) (s : Dev)
      → All (λ r. adds jid r.edit ≡ false) rs
      → All (IsSpared jid) (dev_answers rs (record s { group = remove_member jid s.group }))
  dev_answers-removed jid rs s h =
      dev_answers-absent jid rs (record s { group = remove_member jid s.group })
        (has_member-remove_member jid jid s.group ∙ rw (text_beq_refl jid) refl) h
