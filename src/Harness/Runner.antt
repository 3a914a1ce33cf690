-- ===== src/Harness/Runner.antt =====
-- harness/runner.py: the phases of the long-running loop. The messages that it prints are left
-- out. `Port` is what the runner asks of the memory layer.
pub mod Workflow
pub mod Retries
pub mod Cycle
pub mod Phases
pub mod Remembering
pub mod Alone
use computer_use_orchestrato.Prelude.{
  ℕ, zero, suc, ◌+◌, String, ◌<>◌, Bool, false, Option, none, some, List, [], ◌∷◌, length, last?,
  contains, show, replace_slash, if◌then◌else◌,
}
use computer_use_orchestrato.Json.{num, str, end, field}
use computer_use_orchestrato.Harness.Loop.{
  LoopPhase, goal, plan, action, observation, evaluation, next_step, escalation, Goal, Plan,
  AgentAction, Observation, Evidence, AgentLoopState, new_state, set_plan, record_action,
  record_observation, record_evidence,
}
use computer_use_orchestrato.Harness.Gates
use computer_use_orchestrato.Harness.Gates.{EvalGate}
use computer_use_orchestrato.Harness.Runner.Workflow.{harness_action, evaluate_dynamic_workflow}

-- `recall` is `recall_related`, of which only the effect on the memory is kept. `record` is
-- `record_evidence`, with `false` when it raised.
pub record Port : Type 1 where
  pub Memory : Type 0
  pub signature : Goal → Evidence → String
  pub recall : String → ℕ → Memory → Memory
  pub save : Goal → Evidence → Memory → Memory × Bool

-- The name of a checkpoint's file in its directory.
unfoldable pub checkpoint_name : String → String
unfolding replace_slash
checkpoint_name goal_id = replace_slash goal_id <> ".json"

-- `str(checkpoint_path(goal_id))`, in the default directory
unfoldable pub checkpoint_path : String → String
unfolding checkpoint_name
checkpoint_path goal_id = "data/checkpoints/" <> checkpoint_name goal_id

unfoldable pub create_state : String → String → AgentLoopState
unfolding new_state
create_state goal_id goal_text = new_state (record {
  goal_id = goal_id;
  text = goal_text;
  success_criteria = "plan_created" ∷ "action_attempted" ∷ "evidence_recorded" ∷ [];
})

-- The arguments of `advance_state` that stay the same from step to step.
pub record Limits : Type 0 where
  pub memory_recall_limit : ℕ
  pub max_retries : ℕ
  pub evaluation_gates : Option (List EvalGate)
  pub min_observations_for_pass : ℕ

abbrev initial_plan : AgentLoopState → Plan
initial_plan s = record {
  goal_id = s.goal.goal_id;
  steps =
      "clarify goal" ∷ "attempt a bounded action" ∷ "record observation and evidence"
      ∷ "evaluate next step" ∷ [];
  rationale = "Demo harness plan generated by the long-running runner.";
}

abbrev tick_observation : AgentLoopState → AgentAction → Observation
tick_observation s latest = record {
  action_id = latest.action_id;
  summary = "Simulated observation captured for checkpoint demo";
  raw_event_type = some "runner_tick";
  metadata = field "tick" (num (length s.observations + 1)) end;
}

abbrev checkpoint_evidence : AgentLoopState → Evidence
checkpoint_evidence s = record {
  evidence_id = "evidence-" <> show (length s.evidence + 1);
  goal_id = s.goal.goal_id;
  kind = "checkpoint";
  summary = "Checkpoint evidence recorded by runner";
  artifact_id = some (checkpoint_path s.goal.goal_id);
  confidence = 1000000;
}

-- The loop state, the memory, and the signatures recorded by this run; `none` where the caller
-- passed `None`.
pub record Run (port : Port) : Type 0 where
  pub state : AgentLoopState
  pub memory : Option port.Memory
  pub signatures : Option (List String)

abbrev is_recorded : Option (List String) → String → Bool
is_recorded none signature = false
is_recorded (some known) signature = contains known signature

abbrev add_signature : String → Option (List String) → Option (List String)
add_signature signature none = none
add_signature signature (some known) = some (signature ∷ known)

module _ {port : Port} where
  pub recall_memory : ℕ → Run port → Run port
  recall_memory limit r = elim r.memory [
    | none ↦ r
    | some m ↦ record r { memory = some (port.recall r.state.goal.text limit m) }
  ]

  -- The branch for new evidence: a signature is noted only once the memory took the evidence.
  pub remember : Evidence → Run port → Run port
  remember item r = elim r.memory [
    | none ↦ r
    | some m ↦
        let signature = port.signature r.state.goal item in
        let (m', saved) = port.save r.state.goal item m in
        let noted = if saved then add_signature signature r.signatures else r.signatures in
        if is_recorded r.signatures signature
        then r
        else record r { memory = some m'; signatures = noted }
  ]

  advance_goal : Limits → Run port → Run port
  unfolding set_plan recall_memory
  advance_goal limits r = recall_memory limits.memory_recall_limit (record r {
    state = record (set_plan r.state (initial_plan r.state)) {
      current_plan_description = "initial plan generated";
    };
  })

  observe_latest : Option AgentAction → Run port → Option (Run port)
  unfolding record_observation
  observe_latest none r = none
  observe_latest (some latest) r =
      some (record r { state = record_observation r.state (tick_observation r.state latest) })

  -- `none` is the `IndexError` of a loop in the action phase that has no action.
  advance_action : Run port → Option (Run port)
  unfolding observe_latest
  advance_action r = observe_latest (last? r.state.actions) r

  advance_observation : Run port → Run port
  unfolding record_evidence remember checkpoint_path
  advance_observation r =
      let item = checkpoint_evidence r.state in
      remember item (record r { state = record_evidence r.state item })

  advance_phase : Limits → LoopPhase → Run port → Option (Run port)
  unfolding advance_goal advance_action advance_observation record_action evaluate_dynamic_workflow
  advance_phase limits goal r = some (advance_goal limits r)
  advance_phase limits plan r = some (record r {
    state = record_action r.state (
        harness_action r.state "simulate one bounded agentic attempt"
          (field "goal" (str r.state.goal.text) end));
  })
  advance_phase limits action r = advance_action r
  advance_phase limits observation r = some (advance_observation r)
  advance_phase limits evaluation r = some (record r {
    state =
        evaluate_dynamic_workflow r.state limits.max_retries limits.evaluation_gates
          limits.min_observations_for_pass;
  })
  advance_phase limits next_step r = some (record r {
    state = record_action r.state (
        harness_action r.state "continue narrow retry loop after evaluation"
          (field "previous_evidence" (num (length r.state.evidence)) end));
  })
  advance_phase limits escalation r = some r

  unfoldable pub advance_state : Limits → Run port → Option (Run port)
  unfolding advance_phase
  advance_state limits r = advance_phase limits r.state.phase r

  -- That many steps; `none` once a step has raised.
  abbrev pub advance_many : Limits → ℕ → Run port → Option (Run port)
  advance_many limits zero r = some r
  advance_many limits (suc n) r = elim (advance_state limits r) [
    | none ↦ none
    | some r' ↦ advance_many limits n r'
  ]

  -- The state that `run_loop` starts from when no checkpoint is there.
  abbrev pub fresh_run : String → String → Option port.Memory → Run port
  fresh_run goal_id goal_text memory = record {
    state = create_state goal_id goal_text;
    memory = memory;
    signatures = some [];
  }
