-- ===== src/Agent/Examples.antt =====
-- Witnesses and tests of the agent loop. The world counts the steps of the client, which asks for one
-- tool and then answers; values are texts.
use hkgov_rethink.Prelude.{
  ℕ, suc, ◌+◌, ◌*◌, ◌≡◌, ◌≤◌, refl, List, [], ◌∷◌, Text, text, ok, err, length, decimal, arith,
}
use hkgov_rethink.Common.Errors.{Error, not_found}
use hkgov_rethink.Common.Errors
use hkgov_rethink.Agent.Llm.{Message, AgentStep, Client, LlmFraming, default_step}
use hkgov_rethink.Agent.Loop.{answer, seed, exhausted, run_agent_loop}
use hkgov_rethink.Agent.Run.{Ending, run_agent_loop-Ending}

abbrev ask : AgentStep Text
ask = AgentStep.tool_call record { id = text "1"; name = text "list"; arguments = [] }

abbrev say : LlmFraming
say = record { summary = text "done"; confidence = 7 }

-- By the length of the conversation: a tool first, and an answer once its result is there.
abbrev reply_to : List (Message Text) → AgentStep Text
reply_to (a ∷ b ∷ []) = ask
reply_to (a ∷ b ∷ c ∷ []) = ask
reply_to (a ∷ []) = ask
reply_to [] = ask
reply_to _ = AgentStep.final say

abbrev curious : Client ℕ Text
curious = record {
  step = λ m specs w. (ok (reply_to m), suc w);
  tool_specs = [];
  invoke = λ name arguments w. (err (not_found name), w);
  to_text = λ j. j;
  error_json = λ s. s;
}

-- The failure of the tool is part of the answer's trace, and does not end the run.
curious_run : run_agent_loop curious (text "s") (text "p") 5 0 ≡ (
  ok (
      answer record {
        text = text "done";
        confidence = 7;
        trace = record { tool = text "list"; arguments = []; result = text "not found: list" } ∷ [];
      }),
  2,
)
unfolding run_agent_loop Errors.display
curious_run = refl

curious_stopped :
    run_agent_loop curious (text "s") (text "p") 1 0
    ≡ (err (Error.internal (text "agent loop exhausted max_steps (1) without a final answer")), 1)
unfolding run_agent_loop exhausted decimal Errors.display
curious_stopped = refl

-- The heuristic client answers at once.
heuristic_run :
    run_agent_loop (record curious { step = default_step }) (text "s") (text "p") 1 0
    ≡ (ok (answer record { text = []; confidence = 0; trace = [] }), 0)
unfolding run_agent_loop default_step
heuristic_run = refl

run_agent_loop-Ending_example :
    Ending curious 5 5
      (seed (text "s") (text "p"))
      []
      0
      (run_agent_loop curious (text "s") (text "p") 5 0)
run_agent_loop-Ending_example = run_agent_loop-Ending curious (text "s") (text "p") 5 0

answers_later :
    (m : List (Message Text)) (w : ℕ)
    → 2 + 2 * 1 ≤ length m
    → (f : LlmFraming) × ((curious.step m [] w).0 ≡ ok (AgentStep.final f))
answers_later [] w h = absurd (omega arith)
answers_later (a ∷ []) w h = absurd (omega arith)
answers_later (a ∷ b ∷ []) w h = absurd (omega arith)
answers_later (a ∷ b ∷ c ∷ []) w h = absurd (omega arith)
answers_later (a ∷ b ∷ c ∷ d ∷ m) w h = (say, refl)
