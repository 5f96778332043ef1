-- ===== src/Resilience/Connector/Defs.antt =====
-- `ResilientConnector::fetch` of crates/connectors/src/registry.rs, as one caller sees it. The
-- connector inside, the limiter, the clocks and the sleep are the world `S`: `acquire` is
-- `RateLimiter::acquire`, which only waits, and `now` reads the clock in milliseconds.
use hkgov_rethink.Prelude.{
  ℕ, Bool, true, false, ◌&&◌, ◌||◌, Option, none, some, Text, text, ◌++◌, leb, ltb, ◌==◌,
  if◌then◌else◌, Result, ok, err,
}
use hkgov_rethink.Common.Errors.{Error, upstream, io}
use hkgov_rethink.Common.Sources.{DataSource, as_str}
use hkgov_rethink.Resilience.Retry.{RetryPolicy, Env, default_policy, default_should_retry}
use hkgov_rethink.Resilience.Retry
use hkgov_rethink.Resilience.Breaker.{CircuitBreaker, before_call, on_success, on_failure}

pub record World (S A : Type 0) : Type 0 where
  pub env : Env S A
  pub acquire : S → S
  pub now : S → ℕ

pub record ResilientConnector : Type 0 where
  pub source : DataSource
  pub breaker : CircuitBreaker
  pub retry : Option RetryPolicy

unfoldable pub new : DataSource → CircuitBreaker → ResilientConnector
new source b = record { source = source; breaker = b; retry = some default_policy }

unfoldable pub without_retry : DataSource → CircuitBreaker → ResilientConnector
without_retry source b = record { source = source; breaker = b; retry = none }

unfoldable pub is_breaker_worthy : Error → Bool
is_breaker_worthy (upstream o s d) = s == 0 || s == 429 || (leb 500 s && ltb s 600)
is_breaker_worthy (io m) = true
is_breaker_worthy _ = false

-- The error of a fetch that the breaker rejects.
abbrev pub rejection : DataSource → Text → Error
rejection source reason =
    upstream (as_str source) 503 (text "circuit breaker open (" ++ (reason ++ text ")"))

module _ {S A : Type 0} where
  -- The call of the connector inside, with the retries that are set.
  unfoldable pub attempt : World S A → ResilientConnector → S → Option (Result A Error × S)
  attempt w c s = elim c.retry [
    | some p ↦ Retry.run w.env p (as_str c.source) s
    | none ↦ some (w.env.call s)
  ]

  -- The report to the breaker, at the time of the clock.
  unfoldable pub report : World S A → CircuitBreaker → Result A Error → S → CircuitBreaker
  report w b (ok v) s = on_success b
  report w b (err e) s = if is_breaker_worthy e then on_failure b (w.now s) else b

  -- The part behind the breaker's gate: `none` is a panic in a backoff.
  unfoldable pub admitted :
      World S A → ResilientConnector → S → Option (Result A Error × ResilientConnector × S)
  admitted w c s = elim (attempt w c (w.acquire s)) [
    | none ↦ none
    | some (r, t) ↦ some (r, record c { breaker = report w c.breaker r t }, t)
  ]

  -- What `before_call` says decides.
  unfoldable pub gate :
      World S A
      → ResilientConnector
      → S
      → Result (Unit {0}) Text
      → Option (Result A Error × ResilientConnector × S)
  gate w c s (err reason) = some (err (rejection c.source reason), c, s)
  gate w c s (ok go) = admitted w c s

  unfoldable pub fetch :
      World S A → ResilientConnector → S → Option (Result A Error × ResilientConnector × S)
  unfolding gate admitted report attempt is_breaker_worthy
  fetch w c s =
      let (b, r) = before_call c.breaker (w.now s) in gate w (record c { breaker = b }) s r
