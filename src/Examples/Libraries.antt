-- ===== src/Examples/Libraries.antt =====
-- Stand-ins for the libraries that the code calls, which meet what is assumed of them.
use botkit.Prelude.{
  ℕ, zero, suc, ◌+◌, ◌-◌, ◌≡◌, refl, List, [], ◌∷◌, ◌++◌, arith, ltb, if◌then◌else◌, nat_eq, Text,
  codes, text_eq, is_blank, split,
}
use botkit.Errors.{new_error, Result, ok, err, ◌>>=◌}
use botkit.Prelude.Int.{ℤ, pos, negsuc}
use mathlib.Core.Path.{subst}
use botkit.Jid.{Jid, JidApi}
use botkit.Webauth.Codec.{Codec, Claims, NonceRecord, NoDot, CodecLaws}

-- A JID is written "user@server".
jid_parts : List Text → Result Jid
jid_parts (u ∷ v ∷ []) =
    ok (record { user = u; server = v; raw_agent = 0; device = 0; integrator = 0 })
jid_parts _ = err (new_error (codes "bad JID"))

unfoldable pub at_parse : Text → Result Jid
unfolding jid_parts
at_parse s = jid_parts (split b'@' s)

abbrev pub at_api : JidApi
at_api = record {
  parse_jid = at_parse;
  jid_string = λ j. j.user ++ b'@' ∷ j.server;
  is_empty = λ j. is_blank j.server;
}

-- A text as its code points plus one, up to a 0.
abbrev pub put_text : Text → List ℕ → List ℕ
put_text [] rest = 0 ∷ rest
put_text (c ∷ s) rest = suc c ∷ put_text s rest

abbrev pub put_int : ℤ → List ℕ → List ℕ
put_int (pos n) rest = 0 ∷ n ∷ rest
put_int (negsuc n) rest = 1 ∷ n ∷ rest

abbrev Reader : Type 0 → Type 0
Reader A = List ℕ → Result (A × List ℕ)

abbrev prepend : ℕ → Result (Text × List ℕ) → Result (Text × List ℕ)
prepend c (ok (s, rest)) = ok (c ∷ s, rest)
prepend c (err e) = err e

get_text : Reader Text
get_text [] = err (new_error (codes "short"))
get_text (zero ∷ rest) = ok ([], rest)
get_text (suc c ∷ rest) = prepend c (get_text rest)

get_int : Reader ℤ
get_int (zero ∷ n ∷ rest) = ok (pos n, rest)
get_int (suc k ∷ n ∷ rest) = ok (negsuc n, rest)
get_int _ = err (new_error (codes "short"))

get-put_text : (s : Text) (rest : List ℕ) → get_text (put_text s rest) ≡ ok (s, rest)
unfolding get_text
get-put_text [] rest = refl
get-put_text (c ∷ s) rest = rw (get-put_text s rest)

get-put_int : (z : ℤ) (rest : List ℕ) → get_int (put_int z rest) ≡ ok (z, rest)
unfolding get_int
get-put_int (pos n) rest = refl
get-put_int (negsuc n) rest = refl

abbrev pub put_claims : Claims → List ℕ
put_claims c =
    put_text c.group
      (put_text c.member (put_int c.issued_at (put_int c.expires (put_int c.absolute []))))

unfoldable pub get_claims : List ℕ → Result Claims
unfolding get_text get_int
get_claims bytes = do
  (group, r1) ← get_text bytes
  (member, r2) ← get_text r1
  (issued_at, r3) ← get_int r2
  (expires, r4) ← get_int r3
  (absolute, r5) ← get_int r4
  ok (record {
    group = group;
    member = member;
    issued_at = issued_at;
    expires = expires;
    absolute = absolute;
  })

abbrev put_nonce : NonceRecord → List ℕ
put_nonce r = put_text r.group (put_text r.member (put_int r.expires []))

unfoldable pub get_nonce : List ℕ → Result NonceRecord
unfolding get_text get_int
get_nonce bytes = do
  (group, r1) ← get_text bytes
  (member, r2) ← get_text r1
  (expires, r3) ← get_int r2
  ok (record { group = group; member = member; expires = expires })

-- Bytes as letters from "@" on, none of which is ".".
abbrev pub letters : List ℕ → Text
letters [] = []
letters (b ∷ bs) = (b + 64) ∷ letters bs

unfoldable pub bytes_of : Text → Result (List ℕ)
bytes_of [] = ok []
bytes_of (c ∷ s) =
    let rest = bytes_of s in
    if ltb c 64 then err (new_error (codes "bad letter")) else cons_byte (c - 64) rest
  where
    cons_byte : ℕ → Result (List ℕ) → Result (List ℕ)
    cons_byte b (ok bs) = ok (b ∷ bs)
    cons_byte b (err e) = err e

-- The MAC is the key followed by the body: no secret, but a function of both.
abbrev pub toy_codec : Codec
toy_codec = record {
  b64_encode = letters;
  b64_decode = bytes_of;
  hmac = λ key body. key ++ body;
  marshal_claims = λ c. ok (put_claims c);
  unmarshal_claims = get_claims;
  marshal_nonce = λ r. ok (put_nonce r);
  unmarshal_nonce = get_nonce;
}

bytes_of-letters : (bs : List ℕ) → bytes_of (letters bs) ≡ ok bs
unfolding bytes_of
bytes_of-letters [] = refl
bytes_of-letters (b ∷ bs) = ground (arith, bytes_of-letters bs)

letters-NoDot : (bs : List ℕ) → NoDot (letters bs)
letters-NoDot [] = tt
letters-NoDot (b ∷ bs) = (omega arith, letters-NoDot bs)

get-put_claims : (c : Claims) → get_claims (put_claims c) ≡ ok c
unfolding get_claims
get-put_claims c = simp (get-put_text, get-put_int)

get-put_nonce : (r : NonceRecord) → get_nonce (put_nonce r) ≡ ok r
unfolding get_nonce
get-put_nonce r = simp (get-put_text, get-put_int)

ok-injective : {A : Type 0} {a b : A} → ok a ≡ ok b → a ≡ b
ok-injective h = cc

pub toy_codec-laws : CodecLaws toy_codec
toy_codec-laws = record {
  b64_round = bytes_of-letters;
  b64_no_dot = letters-NoDot;
  claims_total = λ c. (put_claims c, refl);
  claims_round = λ c bs e. subst (λ b. get_claims b ≡ ok c) (ok-injective e) (get-put_claims c);
  nonce_total = λ r. (put_nonce r, refl);
  nonce_round = λ r s e. subst (λ b. get_nonce b ≡ ok r) (ok-injective e) (get-put_nonce r);
}
