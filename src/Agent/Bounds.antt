-- ===== src/Agent/Bounds.antt =====
-- How long a run of the agent loop of crates/agent/src/loop_mod.rs is.
use hkgov_rethink.Prelude.{
  ℕ, suc, ◌+◌, ◌*◌, ◌≤◌, ◌<◌, ◌≡◌, ◌≢◌, ◌⊎◌, inl, inr, refl, ap, List, [], ◌∷◌, Text, ok, err,
  length, length-append, dec_le, arith,
}
use hkgov_rethink.Common.Errors.{Error}
use hkgov_rethink.Agent.Llm.{ToolCall, Message, AgentStep, Client, LlmFraming}
use hkgov_rethink.Agent.Loop.{Answer, answer, seed, run_agent_loop}
use hkgov_rethink.Agent.Run.{
  exchange, Calls, none_made, made, Ending, answered, failed, ran_out, trace_of,
  run_agent_loop-Ending,
}

module _ {W J : Type 0} (c : Client W J) where
  length-trace_of : (done : List (ToolCall J × J)) → length (trace_of c done) ≡ length done
  length-trace_of [] = refl
  length-trace_of ((call, result) ∷ done) = ap suc (length-trace_of done)

  length-exchange : (call : ToolCall J) (result : J) → length (exchange c call result) ≡ 2
  length-exchange call result = refl

  module _ (steps : W → ℕ)
      (stepped : (m : List (Message J)) (w : W) → steps (c.step m c.tool_specs w).1 ≡ suc (steps w))
      (kept : (name : Text) (arguments : J) (w : W)
        → steps (c.invoke name arguments w).1 ≡ steps w) where
    steps-Calls :
        {m : List (Message J)} {w w1 : W} {done : List (ToolCall J × J)}
        → Calls c m w done w1
        → steps w1 ≡ steps w + length done
    steps-Calls none_made = omega arith
    steps-Calls {m} {w} (made {w1 = w1} {call = call} s i r k) = omega (
      arith,
      steps-Calls k,
      stepped m w,
      kept call.name call.arguments w1,
      ap (λ p. steps p.1) s,
      ap (λ p. steps p.1) i,
    )

    steps-Ending :
        {max_steps n : ℕ} {m : List (Message J)} {w : W} (out : _ × W)
        → Ending c max_steps n m [] w out
        → steps out.1 ≤ steps w + n
    steps-Ending {m = m} out (answered done w1 w2 framing k l e o) =
        omega (arith, steps-Calls k, stepped _ w1, ap (λ p. steps p.1) e, ap (λ p. steps p.1) o)
    steps-Ending out (failed done w1 w2 x k l e o) =
        omega (arith, steps-Calls k, stepped _ w1, ap (λ p. steps p.1) e, ap (λ p. steps p.1) o)
    steps-Ending out (ran_out done w1 k l o) = omega (arith, steps-Calls k, ap (λ p. steps p.1) o)

    -- Where a counter in the world counts the client's steps, and no tool moves it, a run moves it by
    -- `max_steps` at most, whatever the client and the tools reply.
    pub run_agent_loop_bounds :
        (system prompt : Text) (max_steps : ℕ) (w : W)
        → steps (run_agent_loop c system prompt max_steps w).1 ≤ steps w + max_steps
    run_agent_loop_bounds system prompt max_steps w =
        steps-Ending (run_agent_loop c system prompt max_steps w)
          (run_agent_loop-Ending c system prompt max_steps w)

  module _ (k : ℕ)
      (answers : (m : List (Message J)) (w : W)
        → 2 + 2 * k ≤ length m
        → (f : LlmFraming) × ((c.step m c.tool_specs w).0 ≡ ok (AgentStep.final f)))
      (no_error : (m : List (Message J)) (w : W) (e : Error)
        → (c.step m c.tool_specs w).0 ≢ err e) where
    length-Calls :
        {m : List (Message J)} {w w1 : W} {done : List (ToolCall J × J)}
        → Calls c m w done w1
        → (length done ≡ 0) ⊎ (length m + 2 * length done < 4 + 2 * k)
    length-Calls none_made = inl refl
    length-Calls {m} {w} (made {call = call} {result = result} s i r more) =
        elim (dec_le (2 + 2 * k) (length m)) [
          | yes long ↦ let (f, e) = answers m w long in cc (ap (λ p. p.0) s)
          | no short ↦ elim (length-Calls more) [
            | inl z ↦ inr (omega arith)
            | inr l ↦ inr (
                omega
                  (arith, l, length-append m (exchange c call result), length-exchange call result))
          ]
        ]

    few :
        (m : List (Message J)) (done : List (ToolCall J × J))
        → (length done ≡ 0) ⊎ (length m + 2 * length done < 4 + 2 * k)
        → length m ≡ 2
        → length (trace_of c done) ≤ k
    few m done (inl z) two = omega (arith, length-trace_of done)
    few m done (inr l) two = omega (arith, length-trace_of done)

    answer-Ending :
        {max_steps n : ℕ} {m : List (Message J)} {w : W} (out : _ × W)
        → length m ≡ 2
        → k < n
        → Ending c max_steps n m [] w out
        → (a : Answer J) × (out.0 ≡ ok (answer a)) × (length a.trace ≤ k)
    answer-Ending out two h (answered done w1 w2 framing calls l e o) = (
      record { text = framing.summary; confidence = framing.confidence; trace = trace_of c done },
      ap (λ p. p.0) o,
      few _ done (length-Calls calls) two,
    )
    answer-Ending out two h (failed done w1 w2 x calls l e o) =
        absurd (no_error _ w1 x (ap (λ p. p.0) e))
    answer-Ending out two h (ran_out done w1 calls l o) =
        absurd (omega (arith, few _ done (length-Calls calls) two, length-trace_of done))

    -- A client that never fails and that answers as soon as it has seen `k` results is answered for
    -- within any bound above `k`, with at most `k` tool calls in the trace.
    pub run_agent_loop-answers :
        (system prompt : Text) (max_steps : ℕ) (w : W)
        → k < max_steps
        → (a : Answer J) × ((run_agent_loop c system prompt max_steps w).0 ≡ ok (answer a))
          × (length a.trace ≤ k)
    unfolding seed
    run_agent_loop-answers system prompt max_steps w h =
        answer-Ending (run_agent_loop c system prompt max_steps w) refl h
          (run_agent_loop-Ending c system prompt max_steps w)
