-- ===== src/Resilience/Breaker/Race.antt =====
-- `before_call` and `on_failure` of crates/connectors/src/resilience.rs as sequences of atomic
-- accesses to the shared breaker, run by any number of threads in any order.
use hkgov_rethink.Prelude.{
  ℕ, zero, suc, ◌+◌, ◌-◌, ◌%◌, ◌≡◌, ◌≤◌, ◌⊎◌, List, [], ◌∷◌, arith, u64_mod, leb, ◌==◌,
  if◌then◌else◌, All,
}
use hkgov_rethink.Resilience.Breaker.{CircuitBreaker, closed, open_state, half_open, has_cooled}

-- Where a thread stands: in `before_call` (before the load of the state, after it found OPEN, after
-- it found the cooldown over, done), or in `on_failure` (before the `fetch_add`, with its count,
-- before the test for HALF_OPEN, before the store of OPEN, before the store of the time, done).
pub data Thread : Type 0 where
  calls saw_open cooled proceeds refused : Thread
  fails : Thread
  counted : ℕ → Thread
  reopens opened reported : Thread

-- The load of the state, and the `match` on it.
load_state : CircuitBreaker → CircuitBreaker × Thread
load_state b =
    if b.state == closed
    then (b, proceeds)
    else if b.state == open_state
    then (b, saw_open)
    else if b.state == half_open
    then (b, refused)
    else (b, proceeds)

-- One atomic access, at time `now`.
unfoldable pub advance : CircuitBreaker → ℕ → Thread → CircuitBreaker × Thread
unfolding load_state
advance b now calls = load_state b
advance b now saw_open = if has_cooled b now then (b, cooled) else (b, refused)
advance b now cooled =
    if b.state == open_state then (record b { state = half_open }, proceeds) else (b, refused)
advance b now proceeds = (b, proceeds)
advance b now refused = (b, refused)
advance b now fails = let f = (b.failures + 1) % u64_mod in (record b { failures = f }, counted f)
advance b now (counted f) =
    if leb b.failure_threshold f
    then (record b { state = open_state }, opened)
    else if b.state == half_open
    then (b, reopens)
    else (b, reported)
advance b now reopens = (record b { state = open_state }, opened)
advance b now opened = (record b { opened_at_ms = now }, reported)
advance b now reported = (b, reported)

-- The thread at a position takes a step; a position past the last one does nothing.
unfoldable pub act : CircuitBreaker → ℕ → ℕ → List Thread → CircuitBreaker × List Thread
act b now i [] = (b, [])
act b now zero (t ∷ ts) = let (b', t') = advance b now t in (b', t' ∷ ts)
act b now (suc i) (t ∷ ts) = let (b', ts') = act b now i ts in (b', t ∷ ts')

-- A schedule: who steps, and when.
unfoldable pub interleave :
    List (ℕ × ℕ) → CircuitBreaker → List Thread → CircuitBreaker × List Thread
interleave [] b ts = (b, ts)
interleave ((i, now) ∷ es) b ts = let (b', ts') = act b now i ts in interleave es b' ts'

abbrev pub probes : List Thread → ℕ
probes [] = 0
probes (proceeds ∷ ts) = suc (probes ts)
probes (t ∷ ts) = probes ts

-- A thread that is in `before_call`.
abbrev pub IsCaller : Thread → Type 0
IsCaller calls = Unit
IsCaller saw_open = Unit
IsCaller cooled = Unit
IsCaller proceeds = Unit
IsCaller refused = Unit
IsCaller _ = ⊥

-- Either the breaker is open and nobody got through, or it is half open and one caller did.
abbrev pub OneProbe : CircuitBreaker → ℕ → Type 0
OneProbe b n = ((b.state ≡ open_state) × (n ≡ 0)) ⊎ ((b.state ≡ half_open) × (n ≡ 1))

advance_one :
    (b : CircuitBreaker) (now n : ℕ) (t : Thread)
    → IsCaller t
    → OneProbe b (n + probes (t ∷ []))
    → IsCaller (advance b now t).1
      × OneProbe (advance b now t).0 (n + probes ((advance b now t).1 ∷ []))
unfolding advance
advance_one b now n calls c h = ground arith
advance_one b now n saw_open c h = ground arith
advance_one b now n cooled c h = ground arith
advance_one b now n proceeds c h = (tt, h)
advance_one b now n refused c h = (tt, h)
advance_one b now n fails c h = absurd c
advance_one b now n (counted f) c h = absurd c
advance_one b now n reopens c h = absurd c
advance_one b now n opened c h = absurd c
advance_one b now n reported c h = absurd c

probes-cons : (t : Thread) (ts : List Thread) → probes (t ∷ ts) ≡ probes (t ∷ []) + probes ts
probes-cons proceeds ts = omega arith
probes-cons _ ts = omega arith

act_one :
    (b : CircuitBreaker) (now i n : ℕ) (ts : List Thread)
    → All IsCaller ts
    → OneProbe b (n + probes ts)
    → All IsCaller (act b now i ts).1 × OneProbe (act b now i ts).0 (n + probes (act b now i ts).1)
unfolding act
act_one b now i n [] a h = (tt, h)
act_one b now zero n (t ∷ ts) a h = ground (
  arith,
  probes-cons t ts,
  probes-cons (advance b now t).1 ts,
  advance_one b now (n + probes ts) t a.0,
)
act_one b now (suc i) n (t ∷ ts) a h = ground (
  arith,
  probes-cons t ts,
  probes-cons t (act b now i ts).1,
  act_one b now i (n + probes (t ∷ [])) ts a.1,
)

-- However any number of callers race through `before_call` of an open breaker, and whatever the
-- clock reads, at most one of them gets through: none while the breaker stays open, and exactly
-- one once it is half open.
pub interleave-OneProbe :
    (es : List (ℕ × ℕ)) (b : CircuitBreaker) (ts : List Thread)
    → All IsCaller ts
    → OneProbe b (probes ts)
    → OneProbe (interleave es b ts).0 (probes (interleave es b ts).1)
unfolding interleave
interleave-OneProbe [] b ts a h = h
interleave-OneProbe ((i, now) ∷ es) b ts a h =
    let (a', h') = act_one b now i 0 ts a (ground arith) in
    interleave-OneProbe es (act b now i ts).0 (act b now i ts).1 a' (ground arith)

-- The gap in `on_failure`: it stores OPEN before it stores the time. A caller that runs in between
-- reads the time of an earlier opening (0 if there was none), finds the cooldown over, and gets
-- through at the very time of the failure that opened the breaker.
pub interleave_skips_cooldown :
    (b : CircuitBreaker) (now : ℕ)
    → b.failure_threshold ≤ (b.failures + 1) % u64_mod
    → b.cooldown_ms ≤ now - b.opened_at_ms
    → let (b', ts) =
        interleave
          ((0, now) ∷ (0, now) ∷ (1, now) ∷ (1, now) ∷ (1, now) ∷ (0, now) ∷ [])
          b
          (fails ∷ calls ∷ []) in
      (b'.opened_at_ms ≡ now) × (b'.state ≡ half_open) × (ts ≡ reported ∷ proceeds ∷ [])
unfolding interleave act advance has_cooled
interleave_skips_cooldown b now h k = ground arith
