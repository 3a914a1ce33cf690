-- ===== src/Harness/Runner/Workflow.antt =====
-- harness/runner.py: the gates of the loop, and what it does with their results.
use computer_use_orchestrato.Prelude.{
  ℕ, ◌+◌, String, ◌<>◌, true, false, not, Option, none, some, List, [], ◌∷◌, map, find, length, leb,
  ltb, or_text, show, if◌then◌else◌,
}
use computer_use_orchestrato.Json.{num, str, Fields, end, field}
use computer_use_orchestrato.Harness.Loop.{
  next_step, AgentAction, ask_human, AgentLoopState, set_plan, record_action, record_escalation,
}
use computer_use_orchestrato.Harness.Gates
use computer_use_orchestrato.Harness.Gates.{EvalGate, EvalGateResult, require_evidence}

unfoldable pub has_enough_observations : ℕ → EvalGate
unfolding show
has_enough_observations min_observations = record {
  name = "has_enough_observations";
  check = λ state.
      let observed = length state.observations in
      if leb min_observations observed
      then record {
        passed = true;
        gate_name = "has_enough_observations";
        reason = show observed <> ("/" <> (show min_observations <> " observations recorded"));
      }
      else record {
        passed = false;
        gate_name = "has_enough_observations";
        reason =
            "Need at least " <> (show min_observations <> (" observations; saw " <> show observed));
      };
}

unfoldable pub default_evaluation_gates : ℕ → List EvalGate
unfolding has_enough_observations
default_evaluation_gates min_observations =
    require_evidence (some "checkpoint") ∷ has_enough_observations min_observations ∷ []

-- `evaluation_gates or default_evaluation_gates(…)`
abbrev pub gates_or_default : Option (List EvalGate) → ℕ → List EvalGate
gates_or_default none min_observations = default_evaluation_gates min_observations
gates_or_default (some []) min_observations = default_evaluation_gates min_observations
gates_or_default (some (g ∷ gs)) min_observations = g ∷ gs

-- The first gate that fails.
unfoldable pub first_failed : List EvalGate → AgentLoopState → Option EvalGateResult
unfolding Gates.evaluate
first_failed gates state = find (λ r. not r.passed) (map (λ g. Gates.evaluate g state) gates)

abbrev pub harness_action : AgentLoopState → String → Fields → AgentAction
harness_action s intent inputs = record {
  action_id = "action-" <> show (length s.actions + 1);
  goal_id = s.goal.goal_id;
  tool_name = "harness_runner";
  intent = intent;
  inputs = inputs;
}

-- The branch that plans another attempt.
unfoldable pub retry : AgentLoopState → EvalGateResult → ℕ → AgentLoopState
unfolding set_plan record_action
retry state failed max_retries =
    let next_attempt = state.retry_count + 1 in
    let reason = or_text failed.reason failed.gate_name in
    let attempt = "retry attempt " <> (show next_attempt <> (": " <> reason)) in
    let planned =
      set_plan (record state { retry_count = next_attempt; current_plan_description = attempt })
        (record {
          goal_id = state.goal.goal_id;
          steps =
              attempt ∷ "run another bounded action" ∷ "record fresh observation and evidence"
              ∷ "evaluate gates again" ∷ [];
          rationale = "Dynamic workflow retry generated from failed eval gate.";
        }) in
    record_action planned (
      harness_action planned ("retry after eval gate failure: " <> failed.gate_name) (
        field "failed_gate" (str failed.gate_name) (
          field "reason" (str reason)
            (field "attempt" (num next_attempt) (field "max_retries" (num max_retries) end)))))

-- The branch that gives up.
unfoldable pub escalate : AgentLoopState → EvalGateResult → AgentLoopState
unfolding record_escalation
escalate state failed =
    record_escalation
      (record state { current_plan_description = "max retries exceeded -> escalating" })
      (record {
        should_escalate = true;
        reason = "max retries exceeded";
        policy = ask_human;
        rollback_hint = some (or_text failed.reason failed.gate_name);
      })

unfoldable pub settle : Option EvalGateResult → AgentLoopState → ℕ → AgentLoopState
unfolding retry escalate
settle none state max_retries = record state {
  current_plan_description = "eval gate passed -> continuing";
  phase = next_step;
}
settle (some failed) state max_retries =
    if ltb state.retry_count max_retries
    then retry state failed max_retries
    else escalate state failed

unfoldable pub evaluate_dynamic_workflow :
    AgentLoopState → ℕ → Option (List EvalGate) → ℕ → AgentLoopState
unfolding settle first_failed default_evaluation_gates
evaluate_dynamic_workflow state max_retries gates min_observations =
    settle (first_failed (gates_or_default gates min_observations) state) state max_retries
