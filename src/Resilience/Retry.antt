-- ===== src/Resilience/Retry.antt =====
-- `RetryPolicy` of crates/connectors/src/resilience.rs. A `Duration` is its count of nanoseconds.
pub mod Backoff
pub mod Run
use hkgov_rethink.Prelude.{
  ℕ, zero, suc, ◌+◌, ◌-◌, ◌*◌, ◌/◌, ◌%◌, ◌^◌, ◌≡◌, min, max, Bool, true, false, not, ◌&&◌, ◌||◌,
  Option, none, some, Text, text, leb, ltb, ◌==◌, if◌then◌else◌, Result, ok, err, u32_mod, u64_mod,
  [], ◌∷◌,
}
use hkgov_rethink.Common.Errors.{Error, upstream, io}

-- The largest `Duration`: u64::MAX seconds and 999,999,999 nanoseconds.
abbrev pub max_duration : ℕ
max_duration = 2 ^ 64 * 1_000_000_000 - 1

pub record RetryPolicy : Type 0 where
  pub max_attempts : ℕ
  pub base : ℕ
  pub max_backoff : ℕ

pub new : ℕ → ℕ → ℕ → RetryPolicy
new attempts base backoff = record {
  max_attempts = max attempts 1;
  base = base;
  max_backoff = backoff;
}

-- 3 attempts, 200 ms and 8 s.
unfoldable pub default_policy : RetryPolicy
unfolding new
default_policy = new 3 200_000_000 8_000_000_000

is_retryable_status : ℕ → Bool
is_retryable_status s = s == 0 || s == 429 || (leb 500 s && ltb s 600)

unfoldable pub default_should_retry : Error → Bool
unfolding is_retryable_status
default_should_retry (upstream o s d) = is_retryable_status s
default_should_retry (io m) = true
default_should_retry _ = false

-- The part of a backoff before its jitter: `base * 2^(attempt - 2)`, saturating, and capped.
-- `checked_shl` fails from a shift of 32 on, and the exponent is at most 31.
pub capped_backoff : RetryPolicy → ℕ → ℕ
capped_backoff p attempt =
    let exponent = min (attempt - 2) 31 in
    min (min (p.base * 2 ^ exponent) max_duration) p.max_backoff

-- The divisor of the jitter: `jitter_range.as_nanos().max(1) as u32`, which drops the high bits.
jitter_modulus : ℕ → ℕ
jitter_modulus range = max range 1 % u32_mod

-- The backoff before an attempt, `nanos` being the sub-second part of the clock. `none` is the
-- panic of a remainder by zero, which a modulus that wrapped to 0 causes.
unfoldable pub backoff_for : RetryPolicy → ℕ → ℕ → Option ℕ
unfolding capped_backoff jitter_modulus
backoff_for p attempt nanos =
    let capped = capped_backoff p attempt in
    let range = capped / 4 in
    let m = jitter_modulus range in
    if range == 0 then some capped else if m == 0 then none else some (capped - range + nanos % m)

-- What `run` asks of its environment `S`: the call, the clock, and the sleep.
pub record Env (S A : Type 0) : Type 0 where
  pub call : S → Result A Error × S
  pub nanos : S → ℕ
  pub sleep : ℕ → S → S

-- `last_err.unwrap_or_else(…)`
exhausted : Text → Option Error → Error
exhausted origin (some e) = e
exhausted origin none = upstream origin 0 (text "exhausted retries")

module _ {S A : Type 0} where
  -- `sleep(backoff)` before any attempt but the first.
  pause : Env S A → RetryPolicy → ℕ → S → Option S
  pause env p attempt s =
      if ltb 1 attempt
      then elim (backoff_for p attempt (env.nanos s)) [
        | none ↦ none
        | some d ↦ some (env.sleep d s)
      ]
      else some s

  -- The match on a call's outcome: return it, or go on to the next attempt.
  settle :
      RetryPolicy
      → ℕ
      → (Error → S → Option (Result A Error × S))
      → Result A Error × S
      → Option (Result A Error × S)
  settle p attempt next (ok v, s) = some (ok v, s)
  settle p attempt next (err e, s) =
      if not (default_should_retry e) || leb p.max_attempts attempt
      then some (err e, s)
      else next e s

  -- The loop over `attempt..=max_attempts`, with the rounds that are left; `none` is a panic.
  run_from : Env S A → RetryPolicy → Text → ℕ → ℕ → Option Error → S → Option (Result A Error × S)
  run_from env p origin zero attempt last s = some (err (exhausted origin last), s)
  run_from env p origin (suc rounds) attempt last s =
      let next = λ (e : Error) (t : S). run_from env p origin rounds (attempt + 1) (some e) t in
      elim (pause env p attempt s) [ none ↦ none | some t ↦ settle p attempt next (env.call t) ]

  unfoldable pub run : Env S A → RetryPolicy → Text → S → Option (Result A Error × S)
  unfolding pause exhausted settle run_from
  run env p origin s = run_from env p origin p.max_attempts 1 none s
