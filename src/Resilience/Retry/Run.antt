-- ===== src/Resilience/Retry/Run.antt =====
-- What `RetryPolicy::run` returns, and how many calls it makes.
use hkgov_rethink.Prelude.{
  ℕ, zero, suc, ◌+◌, ◌-◌, ◌*◌, ◌^◌, ◌≡◌, ◌≤◌, ◌<◌, ◌⊎◌, inl, inr, false, Option, none, some, Text,
  Result, ok, err, arith, refl, Bool-cases, ltb, leb, leb→le, leb→lt,
}
use hkgov_rethink.Common.Errors.{Error}
use hkgov_rethink.Resilience.Retry.{
  RetryPolicy, Env, default_should_retry, pause, settle, run_from, run,
}
use hkgov_rethink.Resilience.Retry.Backoff.{backoff_for_bounds}

-- After `n` calls: a success, an error that is not retried, or the last attempt's error.
abbrev pub Settled : {A : Type 0} → RetryPolicy → ℕ → Result A Error → Type 0
Settled p n (ok v) = Unit {0}
Settled p n (err e) = (default_should_retry e ≡ false) ⊎ (n ≡ p.max_attempts)

module _ {S A : Type 0} (env : Env S A) (p : RetryPolicy) (origin : Text) (calls : S → ℕ)
    (call_counts : (t : S) → calls (env.call t).1 ≡ calls t + 1)
    (sleep_silent : (d : ℕ) (t : S) → calls (env.sleep d t) ≡ calls t)
    (short : p.max_backoff < 4 * 2 ^ 32) where
  -- From `attempt`, with `c` calls made before the loop's first.
  abbrev Ends : ℕ → ℕ → Option (Result A Error × S) → Type 0
  Ends c attempt o =
      (r : Result A Error) × (t : S) × (u : S) × (o ≡ some (r, t))
      × (env.call u ≡ (r, t))
      × (c + attempt ≤ calls t)
      × (calls t ≤ c + p.max_attempts)
      × ((n : ℕ) → c + n ≡ calls t → Settled p n r)

  pause_lem :
      (attempt : ℕ) (s : S) → (t : S) × (pause env p attempt s ≡ some t) × (calls t ≡ calls s)
  unfolding pause
  pause_lem attempt s =
      let (d, e, _, _, _) = backoff_for_bounds p attempt (env.nanos s) short in
      elim (Bool-cases (ltb 1 attempt)) [
        | inl later ↦ (env.sleep d s, ground arith, sleep_silent d s)
        | inr first ↦ (s, rw first, refl)
      ]

  -- From a later attempt on, at least as many calls are made.
  later :
      (c attempt : ℕ) (o : Option (Result A Error × S)) → Ends c (attempt + 1) o → Ends c attempt o
  later c attempt o (r, t, u, e, f, low, high, last) = (r, t, u, e, f, omega arith, high, last)

  settle_lem :
      (c attempt : ℕ) (next : Error → S → Option (Result A Error × S)) (u : S) (r : Result A Error)
      (t : S)
      → env.call u ≡ (r, t)
      → calls t ≡ c + attempt
      → attempt ≤ p.max_attempts
      → ((e : Error) → attempt < p.max_attempts → Ends c (attempt + 1) (next e t))
      → Ends c attempt (settle p attempt next (r, t))
  unfolding settle
  settle_lem c attempt next u (ok v) t e k h rest =
      (ok v, t, u, refl, e, omega arith, omega arith, λ n m. tt)
  settle_lem c attempt next u (err x) t e k h rest = elim (Bool-cases (default_should_retry x)) [
    | inr plain ↦ (err x, t, u, rw plain, e, omega arith, omega arith, λ n m. inl plain)
    | inl retried ↦ elim (Bool-cases (leb p.max_attempts attempt)) [
      | inl last ↦ (
        err x,
        t,
        u,
        rw (retried, last),
        e,
        omega arith,
        omega (arith, leb→le _ _ last),
        λ n m. inr (omega (arith, leb→le _ _ last)),
      )
      | inr more ↦ rw (retried, more) (later c attempt _ (rest x (leb→lt _ _ more)))
    ]
  ]

  run_from_lem :
      (c rounds attempt : ℕ) (last : Option Error) (s : S)
      → calls s + 1 ≡ c + attempt
      → attempt + rounds ≡ p.max_attempts + 1
      → attempt ≤ p.max_attempts
      → Ends c attempt (run_from env p origin rounds attempt last s)
  unfolding run_from
  run_from_lem c zero attempt last s k total h = absurd (omega arith)
  run_from_lem c (suc rounds) attempt last s k total h =
      let (t, paused, same_count) = pause_lem attempt s in
      let next = λ (x : Error) (v : S). run_from env p origin rounds (attempt + 1) (some x) v in
      let rest = λ (x : Error) (below : attempt < p.max_attempts).
        run_from_lem c rounds (attempt + 1) (some x) (env.call t).1 (omega (arith, call_counts t))
          (omega arith) (omega arith) in
      rw (paused, run_from)
        (settle_lem c attempt next t (env.call t).0 (env.call t).1 refl
          (omega (arith, call_counts t)) h rest)

  -- `run` never panics and always returns: its result is that of its last call, which is a success,
  -- an error that is not retried, or the error of attempt number `max_attempts`. It makes at least
  -- one call and at most `max_attempts`.
  pub run_lem :
      (s : S)
      → 0 < p.max_attempts
      → (r : Result A Error) × (t : S) × (u : S) × (run env p origin s ≡ some (r, t))
        × (env.call u ≡ (r, t))
        × (calls s + 1 ≤ calls t)
        × (calls t ≤ calls s + p.max_attempts)
        × Settled p (calls t - calls s) r
  unfolding run
  run_lem s h =
      let (r, t, u, e, f, low, high, last) =
        run_from_lem (calls s) p.max_attempts 1 none s refl (omega arith) h in
      (r, t, u, e, f, low, high, last (calls t - calls s) (omega arith))
