-- ===== src/Harness/Loop.antt =====
-- harness/loop.py: goals, plans, actions, observations, evidence, escalations, and the loop state.
use computer_use_orchestrato.Prelude.{
  ℕ, String, Bool, Option, none, some, List, [], ◌∷◌, ◌++◌, ◌==◌, not, any, is_empty, if◌then◌else◌,
}
use computer_use_orchestrato.Json.{Fields}

pub data LoopPhase : Type 0 where
  goal plan action observation evaluation next_step escalation : LoopPhase

pub record Goal : Type 0 where
  pub goal_id : String
  pub text : String
  pub success_criteria : List String

pub record Plan : Type 0 where
  pub goal_id : String
  pub steps : List String
  pub rationale : String

pub record AgentAction : Type 0 where
  pub action_id : String
  pub goal_id : String
  pub tool_name : String
  pub intent : String
  pub inputs : Fields

pub record Observation : Type 0 where
  pub action_id : String
  pub summary : String
  pub raw_event_type : Option String
  pub metadata : Fields

-- `confidence` counts millionths.
pub record Evidence : Type 0 where
  pub evidence_id : String
  pub goal_id : String
  pub kind : String
  pub summary : String
  pub artifact_id : Option String
  pub confidence : ℕ

pub data Policy : Type 0 where
  continue ask_human stop_session restart_worker mark_failed : Policy

pub record EscalationDecision : Type 0 where
  pub should_escalate : Bool
  pub reason : String
  pub policy : Policy
  pub rollback_hint : Option String

pub record AgentLoopState : Type 0 where
  pub goal : Goal
  pub phase : LoopPhase
  pub plan : Option Plan
  pub actions : List AgentAction
  pub observations : List Observation
  pub evidence : List Evidence
  pub escalations : List EscalationDecision
  pub retry_count : ℕ
  pub current_plan_description : String

-- `AgentLoopState(goal=goal)`
unfoldable pub new_state : Goal → AgentLoopState
new_state g = record {
  goal = g;
  phase = LoopPhase.goal;
  plan = none;
  actions = [];
  observations = [];
  evidence = [];
  escalations = [];
  retry_count = 0;
  current_plan_description = "";
}

unfoldable pub set_plan : AgentLoopState → Plan → AgentLoopState
set_plan s p = record s { plan = some p; phase = LoopPhase.plan }

unfoldable pub record_action : AgentLoopState → AgentAction → AgentLoopState
record_action s a = record s { actions = s.actions ++ a ∷ []; phase = LoopPhase.action }

unfoldable pub record_observation : AgentLoopState → Observation → AgentLoopState
record_observation s o = record s {
  observations = s.observations ++ o ∷ [];
  phase = LoopPhase.observation;
}

unfoldable pub record_evidence : AgentLoopState → Evidence → AgentLoopState
record_evidence s e = record s { evidence = s.evidence ++ e ∷ []; phase = LoopPhase.evaluation }

unfoldable pub record_escalation : AgentLoopState → EscalationDecision → AgentLoopState
record_escalation s d = record s {
  escalations = s.escalations ++ d ∷ [];
  phase = if d.should_escalate then LoopPhase.escalation else LoopPhase.next_step;
}

-- `kind` is `none` for any evidence at all.
unfoldable pub has_evidence : AgentLoopState → Option String → Bool
has_evidence s none = not (is_empty s.evidence)
has_evidence s (some kind) = any (λ item. item.kind == kind) s.evidence
