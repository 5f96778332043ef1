-- ===== src/Agent/Loop.antt =====
-- `run_agent_loop` of crates/agent/src/loop_mod.rs.
use hkgov_rethink.Prelude.{
  ℕ, zero, suc, List, [], ◌∷◌, ◌++◌, none, Text, text, decimal, Result, ok, err,
}
use hkgov_rethink.Common.Errors.{Error, internal}
use hkgov_rethink.Common.Errors
use hkgov_rethink.Agent.Llm.{ToolCall, Message, AgentStep, Client}

pub record TraceStep (J : Type 0) : Type 0 where
  pub tool : Text
  pub arguments : J
  pub result : J

pub record Answer (J : Type 0) : Type 0 where
  pub text : Text
  pub confidence : ℕ
  pub trace : List (TraceStep J)

-- The source's other outcome, a list of findings, is built nowhere.
pub data AgentOutcome (J : Type 0) : Type 0 where
  answer : Answer J → AgentOutcome J

unfoldable pub seed : {J : Type 0} → Text → Text → List (Message J)
seed system prompt = Message.system system ∷ Message.user prompt ∷ []

unfoldable pub trace_step : {J : Type 0} → ToolCall J → J → TraceStep J
trace_step call result = record { tool = call.name; arguments = call.arguments; result = result }

unfoldable pub exhausted : ℕ → Error
exhausted max_steps = internal (
    text "agent loop exhausted max_steps ("
    ++ (decimal max_steps ++ text ") without a final answer"))

module _ {W J : Type 0} (c : Client W J) where
  -- `unwrap_or_else` on what the tool returned
  unfoldable pub result_of : Result J Error → J
  result_of (ok v) = v
  result_of (err e) = c.error_json (Errors.display e)

  -- The two messages that feed a tool's result back.
  unfoldable pub fed_back : ToolCall J → J → List (Message J)
  fed_back call result =
      Message.assistant none (call ∷ []) ∷ Message.tool call.id (c.to_text result) ∷ []

  -- The rounds that are left, and the loop's variables.
  unfoldable pub rounds :
      ℕ → ℕ → List (Message J) → List (TraceStep J) → W → Result (AgentOutcome J) Error × W
  unfolding result_of trace_step fed_back
  rounds max_steps zero messages trace w = (err (exhausted max_steps), w)
  rounds max_steps (suc n) messages trace w =
      let (reply, w') = c.step messages c.tool_specs w in
      elim reply [
        | err e ↦ (err e, w')
        | ok (AgentStep.final framing) ↦ (
          ok (
              AgentOutcome.answer
                record { text = framing.summary; confidence = framing.confidence; trace = trace }),
          w',
        )
        | ok (AgentStep.tool_call call) ↦
            let (reply', w'') = c.invoke call.name call.arguments w' in
            let result = result_of reply' in
            rounds max_steps n (messages ++ fed_back call result)
              (trace ++ trace_step call result ∷ []) w''
      ]

  unfoldable pub run_agent_loop : Text → Text → ℕ → W → Result (AgentOutcome J) Error × W
  unfolding rounds seed
  run_agent_loop system prompt max_steps w = rounds max_steps max_steps (seed system prompt) [] w
