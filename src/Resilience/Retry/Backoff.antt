-- ===== src/Resilience/Retry/Backoff.antt =====
-- The bounds of `RetryPolicy::backoff_for`, and the setting under which it panics.
use hkgov_rethink.Prelude.{
  ℕ, ◌+◌, ◌-◌, ◌*◌, ◌/◌, ◌%◌, ◌^◌, ◌≡◌, ◌≤◌, ◌<◌, ◌≢◌, inl, inr, max, some, arith, u32_mod, ◌==◌,
  Bool-cases,
}
use native.Mathlib.Nat.{mod-lt}
use hkgov_rethink.Resilience.Retry.{RetryPolicy, capped_backoff, jitter_modulus, backoff_for}

pub capped_backoff-le : (p : RetryPolicy) (attempt : ℕ) → capped_backoff p attempt ≤ p.max_backoff
unfolding capped_backoff
capped_backoff-le p attempt = omega arith

-- A backoff from the capped value `c`, whose quarter is below 2^32.
jittered :
    (c nanos : ℕ)
    → c / 4 < 2 ^ 32
    → c / 4 ≢ 0
    → (jitter_modulus (c / 4) ≢ 0) × (c - c / 4 + nanos % jitter_modulus (c / 4) < c)
unfolding jitter_modulus
jittered c nanos small positive =
    let whole : max (c / 4) 1 % u32_mod ≡ c / 4 = omega arith in
    rw whole (positive, omega (arith, mod-lt nanos {m = c / 4} (omega arith)))

backoff_cases :
    (p : RetryPolicy) (attempt nanos : ℕ)
    → capped_backoff p attempt / 4 < 2 ^ 32
    → (d : ℕ) × (backoff_for p attempt nanos ≡ some d)
      × (capped_backoff p attempt - capped_backoff p attempt / 4 ≤ d)
      × (d ≤ capped_backoff p attempt)
unfolding backoff_for
backoff_cases p attempt nanos h = elim (Bool-cases (capped_backoff p attempt / 4 == 0)) [
  | inl tiny ↦ (capped_backoff p attempt, rw tiny, omega arith, omega arith)
  | inr large ↦
      let (positive, below) = jittered (capped_backoff p attempt) nanos h (ground arith) in
      (
        capped_backoff p attempt
            - capped_backoff p attempt / 4
            + nanos % jitter_modulus (capped_backoff p attempt / 4),
        rw large (ground arith),
        omega arith,
        omega arith,
      )
]

-- With a cap below 4 * 2^32 nanoseconds (some 17 seconds) a backoff never panics, and lies from
-- three quarters of the capped exponential value up to that value, which never exceeds the cap.
pub backoff_for_bounds :
    (p : RetryPolicy) (attempt nanos : ℕ)
    → p.max_backoff < 4 * 2 ^ 32
    → (d : ℕ) × (backoff_for p attempt nanos ≡ some d)
      × (capped_backoff p attempt - capped_backoff p attempt / 4 ≤ d)
      × (d ≤ capped_backoff p attempt)
      × (d ≤ p.max_backoff)
backoff_for_bounds p attempt nanos h =
    let low = capped_backoff-le p attempt in
    let (d, e, above, below) = backoff_cases p attempt nanos (omega arith) in
    (d, e, above, below, omega arith)
