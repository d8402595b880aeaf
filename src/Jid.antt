-- ===== src/Jid.antt =====
-- go.mau.fi/whatsmeow/types, as the code uses it. The code itself reads the fields `User` and `Server`
-- of a JID; the package's functions, which may read all of them, are parameters.
use botkit.Prelude.{ℕ, ◌≡◌, ◌≢◌, ◌↔◌, Bool, true, [], nat_eq, Text, codes, text_eq}
use botkit.Errors.{Result, ok}

pub record Jid : Type 0 where
  pub user : Text
  pub server : Text
  pub raw_agent : ℕ
  pub device : ℕ
  pub integrator : ℕ

-- types.JID{}
abbrev pub zero_jid : Jid
zero_jid = record { user = []; server = []; raw_agent = 0; device = 0; integrator = 0 }

-- types.DefaultUserServer, types.GroupServer, types.HiddenUserServer
abbrev pub default_user_server : Text
default_user_server = codes "s.whatsapp.net"

abbrev pub group_server : Text
group_server = codes "g.us"

abbrev pub hidden_user_server : Text
hidden_user_server = codes "lid"

-- types.ParseJID, jid.String() and jid.IsEmpty()
pub record JidApi : Type 0 where
  pub parse_jid : Text → Result Jid
  pub jid_string : Jid → Text
  pub is_empty : Jid → Bool

-- What IsEmpty documents: a JID without a server is empty, and no other.
pub record IsEmptyDocumented (api : JidApi) : Type 0 where
  pub empty_iff : (j : Jid) → (api.is_empty j ≡ true) ↔ (j.server ≡ [])

-- A JID that is written, and read back as itself: what String and ParseJID promise of the JIDs that
-- WhatsApp sends.
pub record IsCanonical (api : JidApi) (j : Jid) : Type 0 where
  pub round : api.parse_jid (api.jid_string j) ≡ ok j
  pub written : api.jid_string j ≢ []
