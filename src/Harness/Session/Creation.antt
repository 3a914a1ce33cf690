-- ===== src/Harness/Session/Creation.antt =====
-- harness/session_harness.py: the harness of a new session.
use computer_use_orchestrato.Prelude.{String, ◌<>◌, Option, none, some, [], ◌∷◌}
use computer_use_orchestrato.Json.{str, Fields, end, field}
use computer_use_orchestrato.Harness.Loop.{Goal, Plan, new_state, set_plan}
use computer_use_orchestrato.Harness.Budgets.{SessionBudgets}
use computer_use_orchestrato.Harness.Grants.{local_demo_default}
use computer_use_orchestrato.Harness.Contracts
use computer_use_orchestrato.Harness.Contracts.{
  ExecutionContract, evidence_recorded, eval_gates_passed,
}
use computer_use_orchestrato.Harness.Triggers.{session_created, new_dispatcher}
use computer_use_orchestrato.Harness.Traces.{new_trace, trace_action, TraceStore}
use computer_use_orchestrato.Harness.Session.{SessionHarness, emit, write_trace}

abbrev default_budgets : Option SessionBudgets → SessionBudgets
default_budgets none = record {
  runtime_seconds = 3600;
  idle_seconds = 1800;
  max_messages = 100;
  max_events = 5000;
  max_tokens = none;
  max_cost_usd = none;
}
default_budgets (some budgets) = budgets

-- `SessionHarness.create`; the store is the one at the trace directory.
unfoldable pub create : String → String → Option SessionBudgets → TraceStore → SessionHarness
unfolding new_state set_plan new_trace trace_action emit write_trace local_demo_default
create session_id goal_text budgets store =
    let goal : Goal = record {
      goal_id = session_id;
      text = goal_text;
      success_criteria = "answer" ∷ "evidence" ∷ "eval_gates_passed" ∷ [];
    } in
    let plan : Plan = record {
      goal_id = session_id;
      steps =
          "forward goal to computer-use worker" ∷ "observe worker events"
          ∷ "record evidence from completion" ∷ "evaluate harness gates" ∷ [];
      rationale = "SessionHarness adapter plan for real worker events.";
    } in
    let contract : ExecutionContract = record {
      contract_id = "contract-" <> session_id;
      goal = goal_text;
      required_outputs = "answer" ∷ "evidence" ∷ [];
      budgets = default_budgets budgets;
      tool_grants = local_demo_default;
      completion_conditions = evidence_recorded ∷ eval_gates_passed ∷ [];
      evidence_paths = (store.root_dir <> ("/" <> (session_id <> ".json"))) ∷ [];
      escalation_policy = Contracts.ask_human;
    } in
    let action : Fields =
      field "action_id" (str "worker-message-1")
        (field "tool" (str "computer_use_worker") (field "intent" (str "execute user goal") end)) in
    write_trace (
      emit
        (record {
          session_id = session_id;
          goal_text = goal_text;
          contract = contract;
          state = set_plan (new_state goal) plan;
          trace = trace_action (new_trace session_id goal_text) action;
          trace_store = store;
          dispatcher = new_dispatcher;
          eval_results = [];
        })
        session_created (field "session_id" (str session_id) end))
