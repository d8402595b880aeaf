-- ===== src/Devserver.antt =====
-- examples/webauth-dev/devserver/main.go: the real endpoints in front of a group that is held in
-- memory. What the JSON decoder makes of a body is an argument, and bodies of answers are data.
pub mod Removal
pub mod Process
use botkit.Webauth.Codec.{Codec}
use botkit.Webauth.Auth.{mint_link, Membership, Mint}
use botkit.Store.Kv.{Kv}
use botkit.Jid.{group_server, Jid, JidApi}
use botkit.Webauth.Config.{Config}
use botkit.Http.{not_found, redirect, to, Routed, route, method_get, Request}
use botkit.Prelude.{
  ℕ, ◌-◌, ◌*◌, ◌/◌, Bool, true, false, not, ◌||◌, Option, none, some, List, [], ◌∷◌, ltb,
  if◌then◌else◌, ◌==◌, nat_eq, Text, codes, text_eq, is_blank,
}
use botkit.Errors.{message, Result, ok, err}
use botkit.Webauth.Server.{Exchange, Response as WebauthResponse}
use botkit.Webauth.Server

-- `fakeGroup`: from JIDs, as texts, to display names; no JID stands twice.
abbrev pub FakeGroup : Type 0
FakeGroup = List (Text × Text)

unfoldable pub has_member : Text → FakeGroup → Bool
has_member jid [] = false
has_member jid ((j, n) ∷ rest) = j == jid || has_member jid rest

-- `IsMember`
abbrev pub membership_in : JidApi → FakeGroup → Membership
membership_in api group g member = ok (has_member (api.jid_string member) group)

-- `add`
unfoldable pub add_member : Text → Text → FakeGroup → FakeGroup
add_member jid name [] = (jid, name) ∷ []
add_member jid name ((j, n) ∷ rest) =
    if j == jid then (jid, name) ∷ rest else (j, n) ∷ add_member jid name rest

-- `remove`
unfoldable pub remove_member : Text → FakeGroup → FakeGroup
remove_member jid [] = []
remove_member jid ((j, n) ∷ rest) =
    let left = remove_member jid rest in if j == jid then left else (j, n) ∷ left

-- The order of Go's strings.
unfoldable pub text_lt : Text → Text → Bool
text_lt s [] = false
text_lt [] (d ∷ t) = true
text_lt (c ∷ s) (d ∷ t) = let later = text_lt s t in if c == d then later else ltb c d

unfoldable pub insert_member : Text × Text → FakeGroup → FakeGroup
unfolding text_lt
insert_member m [] = m ∷ []
insert_member m (first ∷ rest) =
    let later = insert_member m rest in
    if text_lt first.0 m.0 then first ∷ later else m ∷ (first ∷ rest)

-- `list`
unfoldable pub list_members : FakeGroup → FakeGroup
unfolding insert_member
list_members [] = []
list_members (m ∷ rest) = insert_member m (list_members rest)

pub record Dev : Type 0 where
  pub group : FakeGroup
  pub kv : Kv

-- The body of POST /dev/members.
pub record Edit : Type 0 where
  pub jid : Text
  pub name : Text
  pub action : Text

-- A request with what the decoder makes of its body at each route, and what happens around a mint.
pub record DevRequest : Type 0 where
  pub exchange : Exchange
  pub member : Result Text
  pub edit : Result Edit
  pub minting : Mint

pub data DevBody : Type 0 where
  dev_line : Text → DevBody
  dev_link : Text → DevBody
  dev_members : (group : Option Text) → FakeGroup → DevBody
  dev_session : WebauthResponse → DevBody
  dev_empty : DevBody

pub record DevResponse : Type 0 where
  pub status : ℕ
  pub body : DevBody
  pub allow_origin : Text
  pub allow_headers : Text

pub data DevRoute : Type 0 where
  webauth_route mint_route members_route : DevRoute

abbrev pub dev_routes : List (Text × DevRoute)
dev_routes =
    (codes "/webauth/", webauth_route)
    ∷ (codes "/dev/mint", mint_route)
    ∷ (codes "/dev/members", members_route)
    ∷ []

abbrev pub dev_group : Jid
dev_group = record {
  user = codes "120363000000000000";
  server = group_server;
  raw_agent = 0;
  device = 0;
  integrator = 0;
}

module _ (api : JidApi) (codec : Codec) (cfg : Config) where
  dev_webauth : Exchange → Dev → Dev × (ℕ × DevBody)
  unfolding Server.handler
  dev_webauth x s =
      let (kv, response) =
        Server.handler api codec cfg (record x { membership = membership_in api s.group }) s.kv in
      (record s { kv = kv }, (response.status, dev_session response))

  link_reply : Result Text → ℕ × DevBody
  link_reply (ok link) = (200, dev_link link)
  link_reply (err e) = (500, dev_line (message e))

  mint_for : Mint → Result Jid → Dev → Dev × (ℕ × DevBody)
  unfolding mint_link link_reply
  mint_for m (err e) s = (s, (400, dev_line (codes "bad member JID")))
  mint_for m (ok member) s =
      let (kv, outcome) = mint_link api codec cfg m dev_group member s.kv in
      (record s { kv = kv }, link_reply outcome)

  dev_mint : Mint → Result Text → Dev → Dev × (ℕ × DevBody)
  unfolding mint_for
  dev_mint m (err e) s = (s, (400, dev_line (codes "bad body")))
  dev_mint m (ok member) s = mint_for m (api.parse_jid member) s

  edited : Edit → FakeGroup → FakeGroup
  unfolding add_member remove_member
  edited e group =
      if e.action == codes "remove"
      then remove_member e.jid group
      else add_member e.jid (if is_blank e.name then e.jid else e.name) group

  edit_members : Result Edit → Dev → Dev × (ℕ × DevBody)
  unfolding edited list_members
  edit_members (err e) s = (s, (400, dev_line (codes "bad body")))
  edit_members (ok e) s =
      let group = edited e s.group in
      (record s { group = group }, (200, dev_members none (list_members group)))

  dev_edit : Request → Result Edit → Dev → Dev × (ℕ × DevBody)
  unfolding edit_members list_members
  dev_edit r e s =
      if r.method == method_get
      then (s, (200, dev_members (some (api.jid_string dev_group)) (list_members s.group)))
      else edit_members e s

  dev_routed : DevRequest → Routed DevRoute → Dev → Dev × (ℕ × DevBody)
  unfolding dev_webauth dev_mint dev_edit
  dev_routed r (to webauth_route) s = dev_webauth r.exchange s
  dev_routed r (to mint_route) s = dev_mint r.minting r.member s
  dev_routed r (to members_route) s = dev_edit r.exchange.request r.edit s
  dev_routed r (redirect path) s = (s, (301, dev_line path))
  dev_routed r not_found s = (s, (404, dev_line (codes "404 page not found")))

  -- `cors` around the mux.
  unfoldable pub dev_handler : DevRequest → Dev → Dev × DevResponse
  unfolding dev_routed route
  dev_handler r s =
      let (s', (status, body)) =
        if r.exchange.request.method == codes "OPTIONS"
        then (s, (204, dev_empty))
        else dev_routed r (route dev_routes r.exchange.request.path) s in
      (
        s',
        record {
          status = status;
          body = body;
          allow_origin = codes "*";
          allow_headers = codes "content-type, authorization";
        },
      )
