-- ===== src/Harness/Checkpoint/Asdict.antt =====
-- harness/runner.py: what `asdict` makes of the loop state, as JSON.
use computer_use_orchestrato.Prelude.{String, Option, none, some, List, [], ◌∷◌}
use computer_use_orchestrato.Json.{
  Json, null, bool, num, float, str, arr, obj, Items, nil, cons, end, field, str_items,
}
use computer_use_orchestrato.Harness.Loop.{
  Goal, Plan, AgentAction, Observation, Evidence, Policy, EscalationDecision, AgentLoopState,
}
use computer_use_orchestrato.Harness.Gates.{phase_text}

-- `dataclasses.asdict`
abbrev pub opt_str : Option String → Json
opt_str none = null
opt_str (some s) = str s

abbrev pub policy_text : Policy → String
policy_text Policy.continue = "continue"
policy_text Policy.ask_human = "ask_human"
policy_text Policy.stop_session = "stop_session"
policy_text Policy.restart_worker = "restart_worker"
policy_text Policy.mark_failed = "mark_failed"

unfoldable pub goal_json : Goal → Json
goal_json g = obj (
    field "goal_id" (str g.goal_id) (
      field "text" (str g.text)
        (field "success_criteria" (arr (str_items g.success_criteria)) end)))

unfoldable pub plan_json : Option Plan → Json
plan_json none = null
plan_json (some p) = obj (
    field "goal_id" (str p.goal_id)
      (field "steps" (arr (str_items p.steps)) (field "rationale" (str p.rationale) end)))

unfoldable pub action_json : AgentAction → Json
action_json a = obj (
    field "action_id" (str a.action_id) (
      field "goal_id" (str a.goal_id) (
        field "tool_name" (str a.tool_name)
          (field "intent" (str a.intent) (field "inputs" (obj a.inputs) end)))))

unfoldable pub observation_json : Observation → Json
observation_json o = obj (
    field "action_id" (str o.action_id) (
      field "summary" (str o.summary) (
        field "raw_event_type" (opt_str o.raw_event_type) (field "metadata" (obj o.metadata) end))))

unfoldable pub evidence_json : Evidence → Json
evidence_json e = obj (
    field "evidence_id" (str e.evidence_id) (
      field "goal_id" (str e.goal_id) (
        field "kind" (str e.kind) (
          field "summary" (str e.summary) (
            field "artifact_id" (opt_str e.artifact_id)
              (field "confidence" (float e.confidence) end))))))

unfoldable pub escalation_json : EscalationDecision → Json
escalation_json d = obj (
    field "should_escalate" (bool d.should_escalate) (
      field "reason" (str d.reason) (
        field "policy" (str (policy_text d.policy))
          (field "rollback_hint" (opt_str d.rollback_hint) end))))

unfoldable pub items_of : {A : Type 0} → (A → Json) → List A → Items
items_of encode [] = nil
items_of encode (x ∷ xs) = cons (encode x) (items_of encode xs)

unfoldable pub state_to_json : AgentLoopState → Json
unfolding goal_json plan_json action_json observation_json evidence_json escalation_json items_of
state_to_json s = obj (
    field "goal" (goal_json s.goal) (
      field "phase" (str (phase_text s.phase)) (
        field "plan" (plan_json s.plan) (
          field "actions" (arr (items_of action_json s.actions)) (
            field "observations" (arr (items_of observation_json s.observations)) (
              field "evidence" (arr (items_of evidence_json s.evidence)) (
                field "escalations" (arr (items_of escalation_json s.escalations)) (
                  field "retry_count" (num s.retry_count)
                    (field "current_plan_description" (str s.current_plan_description) end)))))))))
