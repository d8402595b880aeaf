-- ===== src/Schedule/Bounds.antt =====
-- schedule/schedule.go: how far a jittered interval can be from the interval.
use botkit.Prelude.{
  ℕ, zero, suc, ◌+◌, ◌-◌, ◌^◌, ◌≤◌, ◌<◌, ◌≡◌, refl, ap, ◌∙◌, true, false, some, arith, nat_eq,
  text_eq,
}
use botkit.Prelude.Int.{leb_ℤ, ltb_ℤ, ◌-ℤ◌, ◌+ℤ◌, pos, negsuc}
use botkit.Schedule.{jittered, every_jittered, until_interval, floor_zero, wrap_64}

wrap_64-pos : (n : ℕ) → n < 2 ^ 63 → wrap_64 (pos n) ≡ pos n
unfolding wrap_64
wrap_64-pos n h = ground arith

wrap_64-negsuc : (n : ℕ) → n < 2 ^ 63 → wrap_64 (negsuc n) ≡ negsuc n
unfolding wrap_64
wrap_64-negsuc n h = ground arith

-- The interval shifted by r - j, in int64 arithmetic that does not wrap here.
shifted :
    (e j r : ℕ)
    → e + j < 2 ^ 63
    → r ≤ j + j
    → floor_zero (wrap_64 (pos e +ℤ wrap_64 (pos r -ℤ pos j))) ≡ pos (e + r - j)
unfolding wrap_64 ◌+ℤ◌ ◌-ℤ◌
shifted e j r small inside = ground arith

range : (j : ℕ) → j < 2 ^ 62 → wrap_64 (wrap_64 (pos j +ℤ pos j) +ℤ pos 1) ≡ pos (j + j + 1)
unfolding wrap_64 ◌+ℤ◌
range j small = ground arith

jittered_drawn :
    (rand : ℕ → ℕ) (e j : ℕ)
    → e + j < 2 ^ 63
    → rand (j + j + 1) ≤ j + j
    → jittered rand (pos e) (pos j) (pos (j + j + 1)) ≡ some (pos (e + rand (j + j + 1) - j))
unfolding jittered
jittered_drawn rand e j small inside =
    let positive : leb_ℤ (pos (j + j + 1)) (pos 0) ≡ false = ground arith in
    rw positive (ap some (shifted e j (rand (j + j + 1)) small inside))

until_interval-jittered :
    (rand : ℕ → ℕ) (e j : ℕ)
    → 0 < j
    → until_interval rand (every_jittered (pos e) (pos j))
      ≡ jittered rand (pos e) (pos j) (wrap_64 (wrap_64 (pos j +ℤ pos j) +ℤ pos 1))
unfolding until_interval every_jittered
until_interval-jittered rand e j some_jitter =
    let positive : ltb_ℤ (pos 0) (pos j) ≡ true = ground arith in rw positive refl

-- A jittered interval never panics and never overflows where the jitter is below 2^62 ns and the two
-- together below 2^63 ns: it fires between the interval less the jitter (or at once, where that is
-- negative) and the interval plus the jitter, whatever number the generator draws from its range.
pub until_interval_bounds :
    (rand : ℕ → ℕ) (e j : ℕ)
    → ((n : ℕ) → 0 < n → rand n < n)
    → e + j < 2 ^ 63
    → j < 2 ^ 62
    → (d : ℕ) × (until_interval rand (every_jittered (pos e) (pos j)) ≡ some (pos d))
      × (e - j ≤ d)
      × (d ≤ e + j)
unfolding until_interval every_jittered
until_interval_bounds rand e zero drawn small low = (e, ground arith, omega arith, omega arith)
until_interval_bounds rand e (suc j) drawn small low =
    let inside = drawn (suc j + suc j + 1) (omega arith) in
    (
      e + rand (suc j + suc j + 1) - suc j,
      until_interval-jittered rand e (suc j) (omega arith)
          ∙ rw (range (suc j) low) (jittered_drawn rand e (suc j) small (omega arith)),
      omega arith,
      omega arith,
    )
