-- ===== src/Agent/Llm.antt =====
-- The messages and replies of crates/agent/src/llm.rs. `J` is `serde_json::Value`, which only travels
-- along; `W` is all that a client or a tool can read and change. An `f64` is its bit pattern.
use hkgov_rethink.Prelude.{ℕ, List, [], Option, Text, Result, ok}
use hkgov_rethink.Common.Errors.{Error}

pub record LlmFraming : Type 0 where
  pub summary : Text
  pub confidence : ℕ

module _ (J : Type 0) where
  pub record ToolCall : Type 0 where
    pub id : Text
    pub name : Text
    pub arguments : J

  pub data Message : Type 0 where
    system user : Text → Message
    assistant : Option Text → List ToolCall → Message
    tool : Text → Text → Message

  pub data AgentStep : Type 0 where
    tool_call : ToolCall → AgentStep
    final : LlmFraming → AgentStep

-- `LlmClient::step` and `ToolBelt::invoke`, with the renderings of a value and of an error's message as
-- JSON that `serde_json` gives.
pub record Client (W J : Type 0) : Type 0 where
  pub step : List (Message J) → List J → W → Result (AgentStep J) Error × W
  pub tool_specs : List J
  pub invoke : Text → J → W → Result J Error × W
  pub to_text : J → Text
  pub error_json : Text → J

-- The trait's default `step`, which the heuristic client keeps. 0 is the bit pattern of 0.0.
unfoldable pub default_step :
    {W J : Type 0} → List (Message J) → List J → W → Result (AgentStep J) Error × W
default_step messages specs w = (ok (AgentStep.final record { summary = []; confidence = 0 }), w)
