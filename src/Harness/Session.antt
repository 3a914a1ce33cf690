-- ===== src/Harness/Session.antt =====
-- harness/session_harness.py: the harness of one session, fed with the events of its worker.
-- `repr` is how Python prints a float, a list or a dict. No handler is registered with the
-- dispatcher of a session, so an event is only listed as emitted.
pub mod Events
pub mod Creation
pub mod Invariant
pub mod Outcome
use computer_use_orchestrato.Prelude.{
  ℕ, String, ◌<>◌, true, not, Option, none, some, List, [], ◌∷◌, ◌++◌, all, is_empty, last?, length,
  select, map, if◌then◌else◌,
}
use computer_use_orchestrato.Json.{
  Json, bool, num, str, arr, Items, nil, cons, obj, Fields, end, field, get, put, is_truthy, ◌or◌,
  str_items,
}
use computer_use_orchestrato.Harness.Loop.{
  AgentAction, Evidence, ask_human, AgentLoopState, record_action, record_observation,
  record_evidence, record_escalation,
}
use computer_use_orchestrato.Harness.Contracts
use computer_use_orchestrato.Harness.Contracts.{ExecutionContract}
use computer_use_orchestrato.Harness.Gates
use computer_use_orchestrato.Harness.Gates.{
  EvalGateResult, require_evidence, require_terminal_status,
}
use computer_use_orchestrato.Harness.Triggers.{
  HarnessEvent, session_finished, agent_error, eval_failed, TriggerDispatcher, emit_event,
}
use computer_use_orchestrato.Harness.Traces.{
  RawTrace, trace_observation, trace_tool_event, finish, TraceStore, full_path, write,
}
use computer_use_orchestrato.Harness.Session.Events.{
  EventKind, watched, done, error, other, kind_of, summarize_event,
}

pub record SessionHarness : Type 0 where
  pub session_id : String
  pub goal_text : String
  pub contract : ExecutionContract
  pub state : AgentLoopState
  pub trace : RawTrace
  pub trace_store : TraceStore
  pub dispatcher : TriggerDispatcher (Unit {0})
  pub eval_results : List EvalGateResult

emit : SessionHarness → HarnessEvent → Fields → SessionHarness
unfolding emit_event
emit h event payload = record h { dispatcher = (emit_event h.dispatcher event payload tt).0 }

gate_items : List EvalGateResult → Items
gate_items [] = nil
gate_items (r ∷ rs) =
    cons
      (obj (
        field "name" (str r.gate_name)
          (field "passed" (bool r.passed) (field "reason" (str r.reason) end))))
      (gate_items rs)

unfoldable pub write_trace : SessionHarness → SessionHarness
unfolding gate_items write
write_trace h =
    let usage = put "eval_gates" (arr (gate_items h.eval_results)) h.trace.budget_usage in
    let trace = record (h.trace) {
      budget_usage = put "contract_id" (str h.contract.contract_id) usage;
    } in
    record h { trace = trace; trace_store = write h.trace_store trace }

abbrev worker_action : String → AgentAction
worker_action goal_id = record {
  action_id = "worker-message-1";
  goal_id = goal_id;
  tool_name = "computer_use_worker";
  intent = "execute user goal";
  inputs = end;
}

-- `if not self.state.actions: self.state.record_action(…)`
pub ensure_action : AgentLoopState → AgentLoopState
unfolding record_action
ensure_action s = if is_empty s.actions then record_action s (worker_action s.goal.goal_id) else s

abbrev latest_action_id : List AgentAction → String
latest_action_id actions = elim (last? actions) [ none ↦ "" | some a ↦ a.action_id ]

record_observation_event : (Json → String) → SessionHarness → String → Fields → SessionHarness
unfolding ensure_action summarize_event record_observation trace_observation
record_observation_event repr h name d =
    let s = ensure_action h.state in
    let action_id = latest_action_id s.actions in
    let summary = summarize_event repr name d in
    record h {
      state = record_observation s (record {
        action_id = action_id;
        summary = summary;
        raw_event_type = some name;
        metadata = field "session_id" (str h.session_id) end;
      });
      trace = trace_observation h.trace (
          field "action_id" (str action_id)
            (field "summary" (str summary) (field "raw_event_type" (str name) end)));
    }

-- `1.0 if data.get("ok", True) else 0.5`, in millionths
abbrev confidence_of : Option Json → ℕ
confidence_of none = 1000000
confidence_of (some ok) = if is_truthy ok then 1000000 else 500000

record_evidence_event : (Json → String) → SessionHarness → String → Fields → SessionHarness
unfolding summarize_event record_evidence full_path
record_evidence_event repr h name d =
    let path = full_path h.trace_store h.session_id in
    let item : Evidence = record {
      evidence_id = "evidence-" <> (h.session_id <> "-1");
      goal_id = h.state.goal.goal_id;
      kind = "answer";
      summary = summarize_event repr name d;
      artifact_id = some path;
      confidence = confidence_of (get "ok" d);
    } in
    if is_empty h.state.evidence
    then record h {
      state = record_evidence h.state item;
      trace = record (h.trace) { evidence_paths = h.trace.evidence_paths ++ path ∷ [] };
    }
    else h

record_error : (Json → String) → SessionHarness → Fields → SessionHarness
unfolding summarize_event record_escalation finish emit
record_error repr h d =
    let reason = summarize_event repr "error" d in
    emit
      (record h {
        state = record_escalation h.state (record {
          should_escalate = true;
          reason = reason;
          policy = ask_human;
          rollback_hint = some "Inspect worker event stream and session trace";
        });
        trace = finish h.trace "failed" (some reason);
      })
      agent_error (field "session_id" (str h.session_id) (field "reason" (str reason) end))

failed_names : List EvalGateResult → List String
failed_names results = map (λ r. r.gate_name) (select (λ r. not r.passed) results)

unfoldable pub evaluate : SessionHarness → SessionHarness
unfolding emit failed_names Gates.evaluate require_evidence require_terminal_status
evaluate h =
    let results =
      Gates.evaluate (require_evidence (some "answer")) h.state
      ∷ Gates.evaluate require_terminal_status h.state
      ∷ [] in
    let h' = record h { eval_results = results } in
    if all (λ r. r.passed) results
    then h'
    else emit h' eval_failed (
        field "session_id" (str h.session_id)
          (field "failed_gates" (arr (str_items (failed_names results))) end))

finish_done : (Json → String) → SessionHarness → String → Fields → SessionHarness
unfolding record_evidence_event evaluate finish emit
finish_done repr h name d =
    let judged = evaluate (record_evidence_event repr h name d) in
    emit (record judged { trace = finish judged.trace "completed" none }) session_finished
      (field "session_id" (str h.session_id) end)

pub handle_kind : (Json → String) → EventKind → SessionHarness → String → Fields → SessionHarness
unfolding record_observation_event finish_done record_error
handle_kind repr watched h name d = record_observation_event repr h name d
handle_kind repr done h name d = finish_done repr h name d
handle_kind repr error h name d = record_error repr h d
handle_kind repr other h name d = h

count_usage : SessionHarness → SessionHarness
count_usage h = record h {
  trace = record (h.trace) {
    budget_usage = field "events" (num (length h.trace.tool_events)) (
        field "actions" (num (length h.state.actions)) (
          field "observations" (num (length h.state.observations))
            (field "evidence" (num (length h.state.evidence)) end)));
  };
}

unfoldable pub on_worker_event : (Json → String) → SessionHarness → String → Fields → SessionHarness
unfolding handle_kind count_usage write_trace trace_tool_event
on_worker_event repr h name d =
    let noted = record h {
      trace = trace_tool_event h.trace (field "event_type" (str name) (field "data" (obj d) end));
    } in
    write_trace (count_usage (handle_kind repr (kind_of name) noted name d))
