-- ===== src/Resilience/Examples.antt =====
-- Witnesses and tests of the retries, the breaker and the connector.
use hkgov_rethink.Prelude.{
  ℕ, ◌+◌, ◌-◌, ◌≡◌, ◌≤◌, inl, refl, List, [], ◌∷◌, map, some, text, Result, ok, err, arith, ◌/◌,
  if◌then◌else◌, leb,
}
use hkgov_rethink.Common.Errors.{Error, upstream, not_found}
use hkgov_rethink.Common.Sources.{hkp}
use hkgov_rethink.Resilience.Retry.{
  RetryPolicy, Env, default_policy, default_should_retry, backoff_for, capped_backoff,
}
use hkgov_rethink.Resilience.Retry
use hkgov_rethink.Resilience.Retry.Backoff.{backoff_for_bounds}
use hkgov_rethink.Resilience.Breaker.{CircuitBreaker, closed, open_state, half_open, has_cooled}
use hkgov_rethink.Resilience.Breaker.Race.{
  Thread, interleave, probes, OneProbe, interleave-OneProbe, interleave_skips_cooldown,
}
use hkgov_rethink.Resilience.Breaker.Race
use hkgov_rethink.Resilience.Connector.{
  World, ResilientConnector, is_breaker_worthy, fetch, attempt, fetch_all, stuck, fetch-wedges,
}

backoff_for_bounds_example :
    (d : ℕ) × (backoff_for default_policy 3 123 ≡ some d)
    × (capped_backoff default_policy 3 - capped_backoff default_policy 3 / 4 ≤ d)
    × (d ≤ capped_backoff default_policy 3)
    × (d ≤ default_policy.max_backoff)
unfolding default_policy
backoff_for_bounds_example = backoff_for_bounds default_policy 3 123 (omega arith)

-- A world that counts its calls, of which all but the third fail with a 503.
abbrev flaky_call : ℕ → Result ℕ Error × ℕ
flaky_call n = (if leb 2 n then ok n else err (upstream (text "hkp") 503 (text "busy")), n + 1)

abbrev flaky : Env ℕ ℕ
flaky = record { call = flaky_call; nanos = λ n. 7; sleep = λ d n. n }

run-flaky : Retry.run flaky default_policy (text "hkp") 0 ≡ some (ok 2, 3)
unfolding Retry.run default_policy default_should_retry backoff_for
run-flaky = refl

abbrev fresh_breaker : CircuitBreaker
fresh_breaker = record {
  state = closed;
  failures = 0;
  opened_at_ms = 0;
  failure_threshold = 3;
  cooldown_ms = 60_000;
}

abbrev open_breaker : CircuitBreaker
open_breaker = record {
  state = open_state;
  failures = 3;
  opened_at_ms = 1_000;
  failure_threshold = 3;
  cooldown_ms = 60_000;
}

abbrev probing : CircuitBreaker
probing = record open_breaker { state = half_open }

-- Two callers, both past the load of the state before either has set it.
abbrev racing : List (ℕ × ℕ)
racing = (0, 70_000) ∷ (1, 70_000) ∷ (0, 70_000) ∷ (1, 70_000) ∷ (1, 70_000) ∷ (0, 70_000) ∷ []

abbrev two_callers : List Thread
two_callers = Race.calls ∷ Race.calls ∷ []

interleave-racing :
    interleave racing open_breaker two_callers ≡ (probing, Race.refused ∷ Race.proceeds ∷ [])
unfolding interleave Race.act Race.advance has_cooled
interleave-racing = refl

interleave-OneProbe_example :
    OneProbe
      (interleave racing open_breaker two_callers).0
      (probes (interleave racing open_breaker two_callers).1)
interleave-OneProbe_example =
    interleave-OneProbe racing open_breaker two_callers (tt, (tt, tt)) (inl (refl, refl))

-- A breaker that is one failure short of opening for the first time.
abbrev strained : CircuitBreaker
strained = record fresh_breaker { failures = 2 }

interleave_skips_cooldown_example :
    let (b, ts) =
      interleave
        ((0, 90_000) ∷ (0, 90_000) ∷ (1, 90_000) ∷ (1, 90_000) ∷ (1, 90_000) ∷ (0, 90_000) ∷ [])
        strained
        (Race.fails ∷ Race.calls ∷ []) in
    (b.opened_at_ms ≡ 90_000) × (b.state ≡ half_open) × (ts ≡ Race.reported ∷ Race.proceeds ∷ [])
interleave_skips_cooldown_example =
    interleave_skips_cooldown strained 90_000 (omega arith) (omega arith)

-- The state of the world is the number of calls; the clock reads 70 seconds.
abbrev flaky_world : World ℕ ℕ
flaky_world = record { env = flaky; acquire = λ n. n; now = λ n. 70_000 }

abbrev rejecting : ResilientConnector
rejecting = record {
  source = hkp;
  breaker = record open_breaker { opened_at_ms = 65_000 };
  retry = some default_policy;
}

abbrev ready : ResilientConnector
ready = record { source = hkp; breaker = open_breaker; retry = some default_policy }

-- A world whose upstream answers 404.
abbrev gone_world : World ℕ ℕ
gone_world = record {
  env = record {
    call = λ n. (err (not_found (text "x")), n + 1);
    nanos = λ n. 7;
    sleep = λ d n. n;
  };
  acquire = λ n. n;
  now = λ n. 70_000;
}

fetch-wedges_example :
    (d : ResilientConnector) × (fetch gone_world ready 0 ≡ some (err (not_found (text "x")), d, 1))
    × (d.breaker.state ≡ half_open)
    × ((ss : List ℕ) → fetch_all gone_world d ss ≡ (d, map (stuck gone_world d) ss))
unfolding attempt default_policy Retry.run is_breaker_worthy default_should_retry
fetch-wedges_example =
    fetch-wedges gone_world ready 0 1 (not_found (text "x")) refl (omega arith) refl refl
