-- ===== src/Agent/Run.antt =====
-- What a run of the agent loop of crates/agent/src/loop_mod.rs does, told apart from its code: the
-- calls that were made, one behind the other, and the way in which the run ended.
use hkgov_rethink.Prelude.{
  none, ℕ, zero, suc, ◌<◌, ◌≡◌, refl, ap, ◌∙◌, List, [], ◌∷◌, ◌++◌, append-nil, append_assoc, Text,
  Result, ok, err, length, arith,
}
use hkgov_rethink.Common.Errors.{Error}
use hkgov_rethink.Common.Errors
use hkgov_rethink.Agent.Llm.{ToolCall, Message, AgentStep, Client, LlmFraming}
use hkgov_rethink.Agent.Loop.{
  TraceStep, AgentOutcome, answer, seed, trace_step, exhausted, result_of, fed_back, rounds,
  run_agent_loop,
}

module _ {W J : Type 0} (c : Client W J) where
  -- The two messages of a call and its result, and its step of the trace.
  abbrev pub exchange : ToolCall J → J → List (Message J)
  exchange call result =
      Message.assistant none (call ∷ []) ∷ Message.tool call.id (c.to_text result) ∷ []

  abbrev pub step_of : ToolCall J → J → TraceStep J
  step_of call result = record { tool = call.name; arguments = call.arguments; result = result }

  -- What a tool's reply comes to: its value, or the text of its error as JSON.
  abbrev pub returned : Result J Error → J
  returned (ok v) = v
  returned (err e) = c.error_json (Errors.display e)

  result_of-returned : (r : Result J Error) → result_of c r ≡ returned r
  unfolding result_of
  result_of-returned (ok v) = refl
  result_of-returned (err e) = refl

  -- The messages that the calls with their results add to the conversation, and their trace.
  abbrev pub talk : List (ToolCall J × J) → List (Message J)
  talk [] = []
  talk ((call, result) ∷ done) = exchange call result ++ talk done

  abbrev pub trace_of : List (ToolCall J × J) → List (TraceStep J)
  trace_of [] = []
  trace_of ((call, result) ∷ done) = step_of call result ∷ trace_of done

  -- From a conversation and a world, the client asks for these tools, and they leave this world.
  pub data Calls : List (Message J) → W → List (ToolCall J × J) → W → Type 0 where
    none_made : {messages : List (Message J)} {w : W} → Calls messages w [] w
    made :
        {messages : List (Message J)} {w w1 w2 w3 : W} {call : ToolCall J} {reply : Result J Error}
        {result : J} {done : List (ToolCall J × J)}
        → c.step messages c.tool_specs w ≡ (ok (AgentStep.tool_call call), w1)
        → c.invoke call.name call.arguments w1 ≡ (reply, w2)
        → result ≡ returned reply
        → Calls (messages ++ exchange call result) w2 done w3
        → Calls messages w ((call, result) ∷ done) w3

  -- How a run of at most `n` rounds ends.
  pub data Ending (max_steps n : ℕ) (messages : List (Message J)) (trace : List (TraceStep J))
      (w : W) : Result (AgentOutcome J) Error × W → Type 0 where
    answered :
        (done : List (ToolCall J × J)) (w1 w2 : W) (framing : LlmFraming)
        {out : Result (AgentOutcome J) Error × W}
        → Calls messages w done w1
        → length done < n
        → c.step (messages ++ talk done) c.tool_specs w1 ≡ (ok (AgentStep.final framing), w2)
        → out ≡ (
          ok (
              answer record {
                text = framing.summary;
                confidence = framing.confidence;
                trace = trace ++ trace_of done;
              }),
          w2,
        )
        → Ending max_steps n messages trace w out
    failed :
        (done : List (ToolCall J × J)) (w1 w2 : W) (e : Error)
        {out : Result (AgentOutcome J) Error × W}
        → Calls messages w done w1
        → length done < n
        → c.step (messages ++ talk done) c.tool_specs w1 ≡ (err e, w2)
        → out ≡ (err e, w2)
        → Ending max_steps n messages trace w out
    ran_out :
        (done : List (ToolCall J × J)) (w1 : W) {out : Result (AgentOutcome J) Error × W}
        → Calls messages w done w1
        → length done ≡ n
        → out ≡ (err (exhausted max_steps), w1)
        → Ending max_steps n messages trace w out

  -- One call more in front of a run.
  Ending-made :
      {max_steps n : ℕ} {messages : List (Message J)} {trace : List (TraceStep J)} {w w1 w2 : W}
      {call : ToolCall J} {reply : Result J Error} {out : Result (AgentOutcome J) Error × W}
      → c.step messages c.tool_specs w ≡ (ok (AgentStep.tool_call call), w1)
      → c.invoke call.name call.arguments w1 ≡ (reply, w2)
      → Ending max_steps n
          (messages ++ exchange call (returned reply))
          (trace ++ step_of call (returned reply) ∷ [])
          w2
          out
      → Ending max_steps (suc n) messages trace w out
  Ending-made {messages = m} {trace = t} {call = call} {reply = r} s i
        (answered done w1 w2 fr k l e o) =
      answered ((call, returned r) ∷ done) w1 w2 fr (made s i refl k) (omega arith)
        (rw (← append_assoc m (exchange call (returned r)) (talk done)) e)
        (o ∙ rw (append_assoc t (step_of call (returned r) ∷ []) (trace_of done)))
  Ending-made {messages = m} {call = call} {reply = r} s i (failed done w1 w2 x k l e o) =
      failed ((call, returned r) ∷ done) w1 w2 x (made s i refl k) (omega arith)
        (rw (← append_assoc m (exchange call (returned r)) (talk done)) e) o
  Ending-made {call = call} {reply = r} s i (ran_out done w1 k l o) =
      ran_out ((call, returned r) ∷ done) w1 (made s i refl k) (omega arith) o

  -- The first round, by the client's reply, and the rounds behind it.
  round-Ending :
      (max_steps n : ℕ)
      → ((messages : List (Message J)) (trace : List (TraceStep J)) (w : W)
          → Ending max_steps n messages trace w (rounds c max_steps n messages trace w))
      → (messages : List (Message J)) (trace : List (TraceStep J)) (w : W)
        (reply : Result (AgentStep J) Error)
      → (c.step messages c.tool_specs w).0 ≡ reply
      → Ending max_steps (suc n) messages trace w (rounds c max_steps (suc n) messages trace w)
  unfolding rounds fed_back trace_step
  round-Ending max_steps n more messages trace w (err e) s =
      let w1 = (c.step messages c.tool_specs w).1 in
      failed [] w w1 e none_made (omega arith) (rw (append-nil messages) (ap (λ r. (r, w1)) s))
        (rw (s, rounds))
  round-Ending max_steps n more messages trace w (ok (AgentStep.final framing)) s =
      let w1 = (c.step messages c.tool_specs w).1 in
      answered [] w w1 framing none_made (omega arith)
        (rw (append-nil messages) (ap (λ r. (r, w1)) s)) (rw (append-nil trace) (rw (s, rounds)))
  round-Ending max_steps n more messages trace w (ok (AgentStep.tool_call call)) s =
      let w1 = (c.step messages c.tool_specs w).1 in
      let (reply, w2) = c.invoke call.name call.arguments w1 in
      let result = returned reply in
      rw (s, rounds, result_of-returned reply)
        (Ending-made (ap (λ r. (r, w1)) s) refl
          (more (messages ++ exchange call result) (trace ++ step_of call result ∷ []) w2))

  rounds-Ending :
      (max_steps n : ℕ) (messages : List (Message J)) (trace : List (TraceStep J)) (w : W)
      → Ending max_steps n messages trace w (rounds c max_steps n messages trace w)
  unfolding rounds
  rounds-Ending max_steps zero messages trace w = ran_out [] w none_made refl refl
  rounds-Ending max_steps (suc n) messages trace w =
      round-Ending max_steps n (λ m t v. rounds-Ending max_steps n m t v) messages trace w
        (c.step messages c.tool_specs w).0 refl

  -- Every run of the loop ends in one of three ways: fewer than `max_steps` tool calls were made, one
  -- behind the other, each on the conversation as far as it had come, and then the client answered, with
  -- the answer's trace exactly those calls and their results in order; or its next step failed, and
  -- the run returns that error; or exactly `max_steps` calls were made, and the run returns the error
  -- that says so. A tool's own failure never ends the run.
  pub run_agent_loop-Ending :
      (system prompt : Text) (max_steps : ℕ) (w : W)
      → Ending max_steps max_steps
          (seed system prompt)
          []
          w
          (run_agent_loop c system prompt max_steps w)
  unfolding run_agent_loop
  run_agent_loop-Ending system prompt max_steps w =
      rounds-Ending max_steps max_steps (seed system prompt) [] w
