-- ===== src/Errors.antt =====
-- Go's `error` values as the program builds and inspects them: `errors.New`, `fmt.Errorf` with `%w`,
-- `errors.Is` and `Error()`; and fallible functions, `(T, error)`, as results.
use botkit.Prelude.{
  ◌≡◌, refl, ◌⊎◌, inl, inr, Bool, true, false, ◌||◌, Option, none, some, ◌++◌, nat_eq, Text, codes,
  text_eq,
}

-- The sentinels that the code compares errors with: whatsmeow's three, botkit's own, and all others.
pub data Sentinel : Type 0 where
  not_in_group group_not_found not_logged_in : Sentinel
  peer_unreachable bot_wide : Sentinel
  not_paired denied : Sentinel
  other : Sentinel

-- Whether two errors are the same sentinel. An error that is none of them is no sentinel's equal.
abbrev pub same_sentinel : Sentinel → Sentinel → Bool
same_sentinel not_in_group not_in_group = true
same_sentinel group_not_found group_not_found = true
same_sentinel not_logged_in not_logged_in = true
same_sentinel peer_unreachable peer_unreachable = true
same_sentinel bot_wide bot_wide = true
same_sentinel not_paired not_paired = true
same_sentinel denied denied = true
same_sentinel _ _ = false

-- `plain` is a value that wraps nothing, `wrap m e` is fmt.Errorf("m: %w", e) and `join a b` is
-- fmt.Errorf("%w: %w", a, b).
pub data Error : Type 0 where
  plain : Sentinel → Text → Error
  wrap : Text → Error → Error
  join : Error → Error → Error

-- err.Error()
unfoldable pub message : Error → Text
message (plain s m) = m
message (wrap m e) = m ++ (codes ": " ++ message e)
message (join a b) = message a ++ (codes ": " ++ message b)

-- errors.Is(err, target)
unfoldable pub is : Error → Sentinel → Bool
is (plain s m) t = same_sentinel s t
is (wrap m e) t = is e t
is (join a b) t = is a t || is b t

-- errors.New, for messages that nothing inspects.
abbrev pub new_error : Text → Error
new_error m = plain other m

pub data Result (A : Type 0) : Type 0 where
  ok : A → Result A
  err : Error → Result A

infixl 5 ◌>>=◌ ◌>>◌
abbrev pub ◌>>=◌ : {A B : Type 0} → Result A → (A → Result B) → Result B
ok a >>= f = f a
err e >>= f = err e

abbrev pub ◌>>◌ : {B : Type 0} → Result (Unit {0}) → Result B → Result B
m >> k = m >>= λ _. k

-- if err != nil { return …, fmt.Errorf("m: %w", err) }
abbrev pub in_context : {A : Type 0} → Text → Result A → Result A
in_context m (ok a) = ok a
in_context m (err e) = err (wrap m e)

-- A Go `error` that may be nil is an `Option Error`.
abbrev pub is_error : Option Error → Sentinel → Bool
is_error none t = false
is_error (some e) t = is e t

abbrev pub is_ok : {A : Type 0} → Result A → Bool
is_ok (ok a) = true
is_ok (err e) = false

pub Result-cases :
    {A : Type 0} (outcome : Result A)
    → ((x : A) × (outcome ≡ ok x)) ⊎ ((e : Error) × (outcome ≡ err e))
Result-cases (ok x) = inl (x, refl)
Result-cases (err e) = inr (e, refl)

pub >>=-eq-ok :
    {A B : Type 0} (first : Result A) (next : A → Result B) {final : B}
    → (first >>= next) ≡ ok final
    → (x : A) × (first ≡ ok x) × (next x ≡ ok final)
>>=-eq-ok (ok x) next done = (x, refl, done)
>>=-eq-ok (err e) next done = cc
