-- ===== src/Resilience/Breaker.antt =====
-- `CircuitBreaker` of crates/connectors/src/resilience.rs, each method run without interruption;
-- `Breaker/Race` has `before_call` of several callers, interleaved at its atomic accesses.
-- Times are milliseconds.
pub mod Cycle
pub mod Race
use hkgov_rethink.Prelude.{
  ℕ, ◌+◌, ◌-◌, ◌/◌, ◌%◌, ◌≡◌, Bool, true, false, Text, text, leb, ltb, ◌==◌, if◌then◌else◌, Result,
  ok, err, u64_mod,
}

-- The states are a `u8`: 0, 1 and 2.
abbrev pub closed : ℕ
closed = 0

abbrev pub open_state : ℕ
open_state = 1

abbrev pub half_open : ℕ
half_open = 2

pub record CircuitBreaker : Type 0 where
  pub state : ℕ
  pub failures : ℕ
  pub opened_at_ms : ℕ
  pub failure_threshold : ℕ
  pub cooldown_ms : ℕ

unfoldable pub new : ℕ → ℕ → CircuitBreaker
new threshold cooldown = record {
  state = closed;
  failures = 0;
  opened_at_ms = 0;
  failure_threshold = threshold;
  cooldown_ms = cooldown;
}

-- `now_ms().saturating_sub(opened) >= cooldown`
unfoldable pub has_cooled : CircuitBreaker → ℕ → Bool
has_cooled b now = leb b.cooldown_ms (now - b.opened_at_ms)

unfoldable pub before_call : CircuitBreaker → ℕ → CircuitBreaker × Result (Unit {0}) Text
unfolding has_cooled
before_call b now =
    if b.state == closed
    then (b, ok tt)
    else if b.state == open_state
    then if has_cooled b now
      then (record b { state = half_open }, ok tt)
      else (b, err (text "circuit open"))
    else if b.state == half_open
    then (b, err (text "circuit half-open (probe in flight)"))
    else (b, ok tt)

unfoldable pub on_success : CircuitBreaker → CircuitBreaker
on_success b = record b { failures = 0; state = closed }

-- `fetch_add(1, …) + 1`, both of which wrap.
unfoldable pub on_failure : CircuitBreaker → ℕ → CircuitBreaker
on_failure b now =
    let f = (b.failures + 1) % u64_mod in
    if leb b.failure_threshold f
    then record b { failures = f; state = open_state; opened_at_ms = now }
    else if b.state == half_open
    then record b { failures = f; state = open_state; opened_at_ms = now }
    else record b { failures = f }

unfoldable pub state_label : CircuitBreaker → Text
state_label b =
    if b.state == closed
    then text "closed"
    else if b.state == open_state
    then text "open"
    else if b.state == half_open
    then text "half-open"
    else text "closed"
