-- ===== src/Harness/Gates.antt =====
-- harness/eval_gates.py: checks of the loop state that end a task or send it round again.
use computer_use_orchestrato.Prelude.{
  String, ◌<>◌, Bool, true, false, Option, or_default, if◌then◌else◌,
}
use computer_use_orchestrato.Harness.Loop.{
  AgentLoopState, LoopPhase, goal, plan, action, observation, evaluation, next_step, escalation,
  has_evidence,
}

pub record EvalGateResult : Type 0 where
  pub passed : Bool
  pub gate_name : String
  pub reason : String

pub record EvalGate : Type 0 where
  pub name : String
  pub check : AgentLoopState → EvalGateResult

unfoldable pub evaluate : EvalGate → AgentLoopState → EvalGateResult
evaluate gate state = gate.check state

abbrev pub phase_text : LoopPhase → String
phase_text goal = "goal"
phase_text plan = "plan"
phase_text action = "action"
phase_text observation = "observation"
phase_text evaluation = "evaluation"
phase_text next_step = "next_step"
phase_text escalation = "escalation"

abbrev evidence_gate_name : Option String → String
evidence_gate_name kind = "require_evidence:" <> or_default kind "any"

unfoldable pub require_evidence : Option String → EvalGate
require_evidence kind = record {
  name = evidence_gate_name kind;
  check = λ state.
      if has_evidence state kind
      then record { passed = true; gate_name = evidence_gate_name kind; reason = "" }
      else record {
        passed = false;
        gate_name = evidence_gate_name kind;
        reason = "Expected evidence was not recorded";
      };
}

abbrev pub is_terminal : LoopPhase → Bool
is_terminal evaluation = true
is_terminal next_step = true
is_terminal escalation = true
is_terminal _ = false

unfoldable pub require_terminal_status : EvalGate
require_terminal_status = record {
  name = "require_terminal_status";
  check = λ state.
      if is_terminal state.phase
      then record { passed = true; gate_name = "require_terminal_status"; reason = "" }
      else record {
        passed = false;
        gate_name = "require_terminal_status";
        reason = "Loop stopped before evaluation phase: " <> phase_text state.phase;
      };
}
