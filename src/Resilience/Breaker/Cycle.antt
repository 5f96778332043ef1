-- ===== src/Resilience/Breaker/Cycle.antt =====
-- The life of a breaker: what opens it, what keeps it open, and what closes it.
use hkgov_rethink.Prelude.{
  ℕ, zero, suc, ◌+◌, ◌-◌, ◌≡◌, ◌≤◌, ◌<◌, ◌⊎◌, inl, inr, text, List, [], ◌∷◌, ok, err, arith, refl,
  u64_mod, dec_lt,
}
use hkgov_rethink.Resilience.Breaker.{
  CircuitBreaker, closed, open_state, half_open, new, has_cooled, before_call, on_success,
  on_failure,
}

-- The state is one of the three, and a closed breaker has counted no failure, or fewer than its
-- threshold.
pub record IsValid (b : CircuitBreaker) : Type 0 where
  pub known : b.state ≤ half_open
  pub below : b.state ≡ closed → (b.failures < b.failure_threshold) ⊎ (b.failures ≡ 0)

pub data Event : Type 0 where
  calls succeeds fails : Event

-- One method call, at a time of the clock.
unfoldable pub step : CircuitBreaker → ℕ × Event → CircuitBreaker
step b (now, calls) = (before_call b now).0
step b (now, succeeds) = on_success b
step b (now, fails) = on_failure b now

unfoldable pub run : CircuitBreaker → List (ℕ × Event) → CircuitBreaker
run b [] = b
run b (e ∷ es) = run (step b e) es

pub new-IsValid : (threshold cooldown : ℕ) → IsValid (new threshold cooldown)
unfolding new
new-IsValid threshold cooldown = record { known = omega arith; below = λ h. inr refl }

step-IsValid : (b : CircuitBreaker) (e : ℕ × Event) → IsValid b → IsValid (step b e)
unfolding step before_call on_success on_failure
step-IsValid b (now, calls) v = ground (arith, v.below)
step-IsValid b (now, succeeds) v = record { known = omega arith; below = λ h. inr refl }
step-IsValid b (now, fails) v = ground (arith, v.below)

-- Any sequence of calls of the three methods, at any times, leads from a valid breaker to a valid
-- one: the state is always one of the three, so the fallback arms of the matches are dead, and a
-- closed breaker has not reached its threshold.
pub run-IsValid : (b : CircuitBreaker) (es : List (ℕ × Event)) → IsValid b → IsValid (run b es)
unfolding run
run-IsValid b [] v = v
run-IsValid b (e ∷ es) v = run-IsValid (step b e) es (step-IsValid b e v)

-- `n` failures, reported one after the other at time `now`.
unfoldable pub fail_times : ℕ → ℕ → CircuitBreaker → CircuitBreaker
fail_times zero now b = b
fail_times (suc n) now b = fail_times n now (on_failure b now)

-- Fewer failures than the threshold leave a closed breaker closed, and are counted.
counts : ℕ → CircuitBreaker → CircuitBreaker
counts n b = record b { failures = b.failures + n }

on_failure-closed :
    (b : CircuitBreaker) (now : ℕ)
    → b.state ≡ closed
    → b.failures + 1 < b.failure_threshold
    → b.failure_threshold < u64_mod
    → on_failure b now ≡ counts 1 b
unfolding on_failure counts
on_failure-closed b now c h w = ground arith

fail_times-closed :
    (n now : ℕ) (b : CircuitBreaker)
    → b.state ≡ closed
    → b.failures + n < b.failure_threshold
    → b.failure_threshold < u64_mod
    → fail_times n now b ≡ counts n b
unfolding fail_times counts
fail_times-closed zero now b c h w =
    let e : b.failures ≡ b.failures + 0 = omega arith in ground arith
fail_times-closed (suc n) now b c h w =
    let ih = fail_times-closed n now (counts 1 b) c (omega arith) w in
    let e : b.failures + 1 + n ≡ b.failures + suc n = omega arith in
    rw (on_failure-closed b now c (omega arith) w) (ground (arith, ih))

fail_times-suc :
    (n now : ℕ) (b : CircuitBreaker)
    → fail_times (suc n) now b ≡ on_failure (fail_times n now b) now
unfolding fail_times
fail_times-suc zero now b = refl
fail_times-suc (suc n) now b = fail_times-suc n now (on_failure b now)

opens :
    (n now : ℕ) (b : CircuitBreaker)
    → b.state ≡ closed
    → b.failures + suc n ≡ b.failure_threshold
    → b.failure_threshold < u64_mod
    → ((fail_times (suc n) now b).state ≡ open_state)
      × ((fail_times (suc n) now b).opened_at_ms ≡ now)
unfolding on_failure counts
opens n now b c h w =
    rw (fail_times-suc n now b, fail_times-closed n now b c (omega arith) w) (ground arith)

-- A new breaker with a threshold `suc k` lets calls through, closed, after up to `k` failures in a
-- row; failure number `suc k` opens it, at its time.
pub fail_times-new :
    (k cooldown now n later : ℕ)
    → suc k < u64_mod
    → n ≤ k
    → (before_call (fail_times n now (new (suc k) cooldown)) later
        ≡ (fail_times n now (new (suc k) cooldown), ok tt))
      × ((fail_times (suc k) now (new (suc k) cooldown)).state ≡ open_state)
      × ((fail_times (suc k) now (new (suc k) cooldown)).opened_at_ms ≡ now)
unfolding new before_call counts
fail_times-new k cooldown now n later w h =
    let b = new (suc k) cooldown in
    let (opened, time) = opens k now b refl (omega arith) w in
    (rw (fail_times-closed n now b refl (omega arith) w), opened, time)

-- An open breaker rejects every call until its cooldown is over, and does not change. The first
-- call after that gets through as the probe, and every call behind it is rejected while the probe
-- is out.
pub before_call-open :
    (b : CircuitBreaker) (now : ℕ)
    → b.state ≡ open_state
    → ((now - b.opened_at_ms < b.cooldown_ms)
        × (before_call b now ≡ (b, err (text "circuit open"))))
      ⊎ ((b.cooldown_ms ≤ now - b.opened_at_ms)
          × ((before_call b now).1 ≡ ok tt)
          × ((later : ℕ)
              → before_call (before_call b now).0 later
                ≡ ((before_call b now).0, err (text "circuit half-open (probe in flight)"))))
unfolding before_call has_cooled
before_call-open b now h = elim (dec_lt (now - b.opened_at_ms) b.cooldown_ms) [
  | yes hot ↦ inl (hot, ground arith)
  | no cool ↦ inr (omega arith, ground arith, λ later. ground arith)
]

-- What ends the probe: a failure reopens the breaker whatever its count, for a whole cooldown from
-- then (a call at a `later` time within it is rejected); a success closes it with no failure counted.
pub probe_ends :
    (b : CircuitBreaker) (now later : ℕ)
    → b.state ≡ half_open
    → later - now < b.cooldown_ms
    → ((on_failure b now).state ≡ open_state)
      × ((on_failure b now).opened_at_ms ≡ now)
      × ((before_call (on_failure b now) later).1 ≡ err (text "circuit open"))
      × ((on_success b).failures ≡ 0)
      × (before_call (on_success b) later ≡ (on_success b, ok tt))
unfolding before_call on_failure on_success has_cooled
probe_ends b now later h hot = (ground arith, ground arith, ground arith, refl, refl)
