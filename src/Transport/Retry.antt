-- ===== src/Transport/Retry.antt =====
-- transport/client.go: retrying on WhatsApp's rate limit.
use botkit.Prelude.{
  ℕ, zero, suc, ◌+◌, ◌^◌, ◌≤◌, ◌<◌, ◌≡◌, refl, inl, inr, Bool, true, false, not, ◌||◌, List, [],
  ◌∷◌, ◌++◌, append_assoc, append-nil, arith, if◌then◌else◌, nat_eq, Bool-cases, codes, text_eq,
  contains,
}
use botkit.Errors.{Error, message, new_error, Result, ok, err, Result-cases}

-- strings.Contains(err.Error(), ...)
unfoldable pub is_rate_limited : Error → Bool
is_rate_limited e =
    contains (message e) (codes "429") || contains (message e) (codes "rate-overlimit")

-- How a backoff ends: its time is over, or the context is cancelled with this error.
pub data Wait : Type 0 where
  elapsed : Wait
  cancelled : Error → Wait

-- What a call met: the calls of `fn` that ran, and the seconds slept.
pub record Retried (A : Type 0) : Type 0 where
  pub outcome : Result A
  pub calls : ℕ
  pub slept : List ℕ

-- `time.Duration(1<<attempt) * time.Second`, in seconds.
abbrev pub backoff : ℕ → ℕ
backoff attempt = 2 ^ attempt

abbrev pub max_attempts : ℕ
max_attempts = 4

-- One backoff, and what follows it.
after_wait : {A : Type 0} → Wait → (attempt : ℕ) → List ℕ → Retried A → Retried A
after_wait elapsed attempt slept again = again
after_wait (cancelled c) attempt slept again = record {
  outcome = err c;
  calls = suc attempt;
  slept = slept;
}

-- One round of the loop, from what the call answered; `again` are the further rounds.
after_call :
    {A : Type 0} → Result A → Wait → (attempt : ℕ) → List ℕ → (Error → Retried A) → Retried A
unfolding after_wait
after_call (ok a) wait attempt slept again = record {
  outcome = ok a;
  calls = suc attempt;
  slept = slept;
}
after_call (err e) wait attempt slept again =
    if not (is_rate_limited e)
    then record { outcome = err e; calls = suc attempt; slept = slept }
    else after_wait wait attempt (slept ++ backoff attempt ∷ []) (again e)

module _ {A : Type 0} (fn : ℕ → Result A) (wait : ℕ → Wait) where
  -- The loop from `attempt` on with `left` rounds to go; `last` is what it returns when none is left.
  unfoldable pub retry_from : (left attempt : ℕ) → Error → List ℕ → Retried A
  unfolding after_call
  retry_from zero attempt last slept = record { outcome = err last; calls = attempt; slept = slept }
  retry_from (suc left) attempt last slept =
      after_call (fn attempt) (wait attempt) attempt slept
        (λ e. retry_from left (suc attempt) e (slept ++ backoff attempt ∷ []))

  -- `withRateRetry`: `fn i` is what the i-th call answers, and `wait i` how the i-th backoff ends.
  abbrev pub with_rate_retry : Retried A
  with_rate_retry = retry_from max_attempts 0 (new_error []) []

-- A call that the loop does not repeat.
abbrev pub is_final : {A : Type 0} → Result A → Bool
is_final (ok a) = true
is_final (err e) = not (is_rate_limited e)

-- The first n backoffs from an attempt on, in seconds.
abbrev pub backoffs : (n attempt : ℕ) → List ℕ
backoffs zero attempt = []
backoffs (suc n) attempt = backoff attempt ∷ backoffs n (suc attempt)

limited-is_error :
    {A : Type 0} (r : Result A)
    → is_final r ≡ false
    → (e : Error) × (r ≡ err e) × (is_rate_limited e ≡ true)
limited-is_error (ok a) h = cc
limited-is_error (err e) h = (e, refl, ground arith)

module _ {A : Type 0} (fn : ℕ → Result A) (wait : ℕ → Wait) where
  -- The calls from one attempt to before another meet the rate limit, and their waits elapse.
  abbrev pub AllLimited : ℕ → ℕ → Type 0
  AllLimited from until =
      (i : ℕ) → from ≤ i → i < until → (is_final (fn i) ≡ false) × (wait i ≡ elapsed)

  retry_from-step :
      (left attempt : ℕ) (last e : Error) (slept : List ℕ)
      → fn attempt ≡ err e
      → is_rate_limited e ≡ true
      → wait attempt ≡ elapsed
      → retry_from fn wait (suc left) attempt last slept
        ≡ retry_from fn wait left (suc attempt) e (slept ++ backoff attempt ∷ [])
  unfolding retry_from
  retry_from-step left attempt last e slept failed rate waited = rw (failed, rate, waited) refl

  retry_from-stops :
      (left attempt : ℕ) (last : Error) (slept : List ℕ)
      → is_final (fn attempt) ≡ true
      → retry_from fn wait (suc left) attempt last slept
        ≡ record { outcome = fn attempt; calls = suc attempt; slept = slept }
  unfolding retry_from
  retry_from-stops left attempt last slept final = elim (Result-cases (fn attempt)) [
    | inl (a, e) ↦ rw e refl
    | inr (x, e) ↦ elim (Bool-cases (is_rate_limited x)) [
      | inl rate ↦ absurd (ground (arith, e, rate))
      | inr plain_error ↦ rw (e, plain_error) refl
    ]
  ]

  retry_from-answers :
      (k left attempt m : ℕ) (last : Error) (slept : List ℕ)
      → attempt + k ≡ m
      → k < left
      → AllLimited attempt m
      → is_final (fn m) ≡ true
      → retry_from fn wait left attempt last slept
        ≡ record { outcome = fn m; calls = suc m; slept = slept ++ backoffs k attempt }
  retry_from-answers k zero attempt m last slept sum lt limited final = absurd (omega arith)
  retry_from-answers zero (suc left) attempt m last slept sum lt limited final =
      let here : attempt ≡ m = omega arith in
      rw (here, append-nil slept) (retry_from-stops left m last slept final)
  retry_from-answers (suc k) (suc left) attempt m last slept sum lt limited final =
      let (l, w) = limited attempt (omega arith) (omega arith) in
      let (e, failed, rate) = limited-is_error (fn attempt) l in
      rw
        (
          retry_from-step left attempt last e slept failed rate w,
          ← append_assoc slept (backoff attempt ∷ []) (backoffs k (suc attempt)),
        )
        (retry_from-answers k left (suc attempt) m e (slept ++ backoff attempt ∷ []) (omega arith)
          (omega arith) (λ i ge lt'. limited i (omega arith) lt') final)

  retry_from-gives_up :
      (left attempt m : ℕ) (last : Error) (slept : List ℕ)
      → attempt + left ≡ m
      → AllLimited attempt (suc m)
      → (e : Error) × (fn m ≡ err e)
        × (retry_from fn wait (suc left) attempt last slept ≡ record {
          outcome = err e;
          calls = suc m;
          slept = slept ++ backoffs (suc left) attempt;
        })
  unfolding retry_from
  retry_from-gives_up zero attempt m last slept sum limited =
      let (l, w) = limited attempt (omega arith) (omega arith) in
      let (e, failed, rate) = limited-is_error (fn attempt) l in
      let here : attempt ≡ m = omega arith in
      rw (← here) (e, failed, retry_from-step 0 attempt last e slept failed rate w)
  retry_from-gives_up (suc left) attempt m last slept sum limited =
      let (l, w) = limited attempt (omega arith) (omega arith) in
      let (e, failed, rate) = limited-is_error (fn attempt) l in
      let (e', failed', rest) =
        retry_from-gives_up left (suc attempt) m e (slept ++ backoff attempt ∷ []) (omega arith)
          (λ i ge lt. limited i (omega arith) lt) in
      (
        e',
        failed',
        rw
            (
              retry_from-step (suc left) attempt last e slept failed rate w,
              ← append_assoc slept (backoff attempt ∷ []) (backoffs (suc left) (suc attempt)),
            )
            rest,
      )

  -- The answer of a retried call is its first answer that is not a rate limit, where that is one of
  -- the first four and no wait before it is cancelled; until then it has slept 1, 2, 4 seconds, as
  -- many of these as there were calls before, and it calls no further.
  pub with_rate_retry_answers :
      (m : ℕ)
      → m < max_attempts
      → AllLimited 0 m
      → is_final (fn m) ≡ true
      → with_rate_retry fn wait ≡ record { outcome = fn m; calls = suc m; slept = backoffs m 0 }
  with_rate_retry_answers m lt limited final =
      retry_from-answers m max_attempts 0 m (new_error []) [] (omega arith) lt limited final

  -- Against a limit that stays, the fourth error is returned, after four calls and four waits: the
  -- last wait, of 8 seconds, stands before no call.
  pub with_rate_retry_gives_up :
      AllLimited 0 max_attempts
      → (e : Error) × (fn 3 ≡ err e)
        × (with_rate_retry fn wait
            ≡ record { outcome = err e; calls = 4; slept = 1 ∷ 2 ∷ 4 ∷ 8 ∷ [] })
  with_rate_retry_gives_up limited = retry_from-gives_up 3 0 3 (new_error []) [] refl limited
