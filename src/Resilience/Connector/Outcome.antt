-- ===== src/Resilience/Connector/Outcome.antt =====
-- What a fetch returns, what it does to the breaker, and when it makes no call.
use hkgov_rethink.Prelude.{
  ◌-◌, ◌≡◌, ◌<◌, ◌⊎◌, inl, inr, refl, true, false, some, Text, text, Result, ok, err, arith,
}
use hkgov_rethink.Common.Errors.{Error, upstream, io}
use hkgov_rethink.Resilience.Retry.{default_should_retry}
use hkgov_rethink.Resilience.Breaker.{CircuitBreaker, open_state, on_success, on_failure}
use hkgov_rethink.Resilience.Breaker.Cycle.{before_call-open}
use hkgov_rethink.Resilience.Connector.Defs.{
  World, ResilientConnector, is_breaker_worthy, rejection, fetch,
}

-- The breaker and the retries agree, on every error, on what counts as the upstream's failure.
pub is_breaker_worthy-default_should_retry :
    (e : Error) → is_breaker_worthy e ≡ default_should_retry e
unfolding is_breaker_worthy default_should_retry
is_breaker_worthy-default_should_retry (upstream o s d) = refl
is_breaker_worthy-default_should_retry (io m) = refl
is_breaker_worthy-default_should_retry _ = refl

module _ {S A : Type 0} (w : World S A) where
  -- The report of an outcome: a success closes the breaker, a failure of the upstream counts
  -- against it, and any other error leaves it as the gate left it.
  abbrev pub Reported : CircuitBreaker → Result A Error → S → CircuitBreaker → Type 0
  Reported b (ok v) t b' = b' ≡ on_success b
  Reported b (err e) t b' =
      ((default_should_retry e ≡ true) × (b' ≡ on_failure b (w.now t)))
      ⊎ ((default_should_retry e ≡ false) × (b' ≡ b))

module _ {S A : Type 0} (w : World S A) (c : ResilientConnector) where
  -- A rejected fetch: the 503 of the breaker's reason, nothing called, nothing changed.
  abbrev pub IsRejected : S → Text → Type 0
  IsRejected s reason = fetch w c s ≡ some (err (rejection c.source reason), c, s)

  -- While the breaker is open and its cooldown not over, a fetch reaches neither the limiter nor
  -- the connector inside: it is rejected, and neither the connector nor the world changes.
  pub fetch-open :
      (s : S)
      → c.breaker.state ≡ open_state
      → w.now s - c.breaker.opened_at_ms < c.breaker.cooldown_ms
      → IsRejected s (text "circuit open")
  unfolding fetch
  fetch-open s h hot = elim (before_call-open c.breaker (w.now s) h) [
    | inl (_, e) ↦ rw e
    | inr (cool, _, _) ↦ absurd (omega arith)
  ]
