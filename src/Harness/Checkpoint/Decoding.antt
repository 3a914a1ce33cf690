-- ===== src/Harness/Checkpoint/Decoding.antt =====
-- harness/runner.py: `state_from_dict`. `untyped` is a value of another type than the field's, which
-- Python stores as it is and the model does not follow.
use computer_use_orchestrato.Prelude.{
  ℕ, String, Bool, Option, none, some, List, [], ◌∷◌, ◌==◌, if◌then◌else◌, Result, ok, err, ◌>>=◌,
}
use computer_use_orchestrato.Json.{
  Json, null, bool, num, float, str, arr, obj, Items, nil, cons, Fields, end, field, get, is_truthy,
}
use computer_use_orchestrato.Harness.Loop.{
  LoopPhase, goal, plan, action, observation, evaluation, next_step, escalation, Goal, Plan,
  AgentAction, Observation, Evidence, Policy, EscalationDecision, AgentLoopState,
}

-- What `state_from_dict` raises: `KeyError` and `TypeError` are caught by `load_checkpoint`,
-- `AttributeError` is not.
pub data Failure : Type 0 where
  key_error type_error attribute_error untyped : Failure

abbrev pub Decoded : Type 0 → Type 0
Decoded A = Result Failure A

-- `value[key]`
abbrev pub index : Json → String → Decoded Json
index (obj d) key = elim (get key d) [ none ↦ err key_error | some v ↦ ok v ]
index _ key = err type_error

-- `value.get(key, default)`
abbrev pub get_default : Json → String → Json → Decoded Json
get_default (obj d) key default = elim (get key d) [ none ↦ ok default | some v ↦ ok v ]
get_default _ key default = err attribute_error

abbrev pub as_str : Json → Decoded String
as_str (str s) = ok s
as_str _ = err untyped

abbrev pub as_opt_str : Json → Decoded (Option String)
as_opt_str null = ok none
as_opt_str (str s) = ok (some s)
as_opt_str _ = err untyped

abbrev pub as_dict : Json → Decoded Fields
as_dict (obj d) = ok d
as_dict _ = err untyped

abbrev pub as_num : Json → Decoded ℕ
as_num (num n) = ok n
as_num _ = err untyped

abbrev pub as_float : Json → Decoded ℕ
as_float (float n) = ok n
as_float _ = err untyped

abbrev pub as_bool : Json → Decoded Bool
as_bool (bool b) = ok b
as_bool _ = err untyped

abbrev pub as_phase : Json → Decoded LoopPhase
as_phase (str s) =
    if s == "goal"
    then ok goal
    else if s == "plan"
    then ok plan
    else if s == "action"
    then ok action
    else if s == "observation"
    then ok observation
    else if s == "evaluation"
    then ok evaluation
    else if s == "next_step"
    then ok next_step
    else if s == "escalation"
    then ok escalation
    else err untyped
as_phase _ = err untyped

abbrev pub as_policy : Json → Decoded Policy
as_policy (str s) =
    if s == "continue"
    then ok Policy.continue
    else if s == "ask_human"
    then ok Policy.ask_human
    else if s == "stop_session"
    then ok Policy.stop_session
    else if s == "restart_worker"
    then ok Policy.restart_worker
    else if s == "mark_failed"
    then ok Policy.mark_failed
    else err untyped
as_policy _ = err untyped

-- A loop over a JSON value: over the items of a list, over the one-letter texts of a text and the
-- keys of a dict, on which `item[key]` is a `TypeError`.
unfoldable pub each_item : {A : Type 0} → (Json → Decoded A) → Items → Decoded (List A)
each_item decode nil = ok []
each_item decode (cons v rest) = do x ← decode v; xs ← each_item decode rest; ok (x ∷ xs)

unfoldable pub each : {A : Type 0} → (Json → Decoded A) → Json → Decoded (List A)
unfolding each_item
each decode (arr items) = each_item decode items
each decode (str s) = if s == "" then ok [] else err type_error
each decode (obj end) = ok []
each decode (obj (field k v rest)) = err type_error
each decode _ = err type_error

-- `_tuple(value)`, of texts
unfoldable pub to_tuple : Json → Decoded (List String)
unfolding each_item
to_tuple null = ok []
to_tuple (arr items) = each_item as_str items
to_tuple (str s) = err untyped
to_tuple (obj d) = err untyped
to_tuple _ = err type_error

unfoldable pub goal_of : Json → Decoded Goal
unfolding to_tuple
goal_of d = do
  goal_id ← (do v ← index d "goal_id"; as_str v)
  text ← (do v ← index d "text"; as_str v)
  criteria ← (do v ← get_default d "success_criteria" null; to_tuple v)
  ok (record { goal_id = goal_id; text = text; success_criteria = criteria })

unfoldable pub made_plan : Json → Decoded (Option Plan)
unfolding to_tuple
made_plan d = do
  goal_id ← (do v ← index d "goal_id"; as_str v)
  steps ← (do v ← get_default d "steps" null; to_tuple v)
  rationale ← (do v ← get_default d "rationale" (str ""); as_str v)
  ok (some (record { goal_id = goal_id; steps = steps; rationale = rationale }))

-- `if plan_data`
unfoldable pub plan_of : Json → Decoded (Option Plan)
unfolding made_plan
plan_of d = if is_truthy d then made_plan d else ok none

unfoldable pub action_of : Json → Decoded AgentAction
action_of d = do
  action_id ← (do v ← index d "action_id"; as_str v)
  goal_id ← (do v ← index d "goal_id"; as_str v)
  tool_name ← (do v ← index d "tool_name"; as_str v)
  intent ← (do v ← index d "intent"; as_str v)
  inputs ← (do v ← get_default d "inputs" (obj end); as_dict v)
  ok (record {
    action_id = action_id;
    goal_id = goal_id;
    tool_name = tool_name;
    intent = intent;
    inputs = inputs;
  })

unfoldable pub observation_of : Json → Decoded Observation
observation_of d = do
  action_id ← (do v ← index d "action_id"; as_str v)
  summary ← (do v ← index d "summary"; as_str v)
  event_type ← (do v ← get_default d "raw_event_type" null; as_opt_str v)
  metadata ← (do v ← get_default d "metadata" (obj end); as_dict v)
  ok (record {
    action_id = action_id;
    summary = summary;
    raw_event_type = event_type;
    metadata = metadata;
  })

unfoldable pub evidence_of : Json → Decoded Evidence
evidence_of d = do
  evidence_id ← (do v ← index d "evidence_id"; as_str v)
  goal_id ← (do v ← index d "goal_id"; as_str v)
  kind ← (do v ← index d "kind"; as_str v)
  summary ← (do v ← index d "summary"; as_str v)
  artifact_id ← (do v ← get_default d "artifact_id" null; as_opt_str v)
  confidence ← (do v ← get_default d "confidence" (float 1000000); as_float v)
  ok (record {
    evidence_id = evidence_id;
    goal_id = goal_id;
    kind = kind;
    summary = summary;
    artifact_id = artifact_id;
    confidence = confidence;
  })

unfoldable pub escalation_of : Json → Decoded EscalationDecision
escalation_of d = do
  should_escalate ← (do v ← index d "should_escalate"; as_bool v)
  reason ← (do v ← index d "reason"; as_str v)
  policy ← (do v ← index d "policy"; as_policy v)
  rollback_hint ← (do v ← get_default d "rollback_hint" null; as_opt_str v)
  ok (record {
    should_escalate = should_escalate;
    reason = reason;
    policy = policy;
    rollback_hint = rollback_hint;
  })

-- The part after `state_data` is found.
unfoldable pub loop_state_of : Json → Decoded AgentLoopState
unfolding goal_of plan_of action_of observation_of evidence_of escalation_of each
loop_state_of d = do
  the_goal ← (do v ← index d "goal"; goal_of v)
  the_plan ← (do v ← get_default d "plan" null; plan_of v)
  the_phase ← (do v ← get_default d "phase" (str "goal"); as_phase v)
  the_actions ← (do v ← get_default d "actions" (arr nil); each action_of v)
  the_observations ← (do v ← get_default d "observations" (arr nil); each observation_of v)
  the_evidence ← (do v ← get_default d "evidence" (arr nil); each evidence_of v)
  the_escalations ← (do v ← get_default d "escalations" (arr nil); each escalation_of v)
  the_retry_count ← (do v ← get_default d "retry_count" (num 0); as_num v)
  description ← (do v ← get_default d "current_plan_description" (str ""); as_str v)
  ok (record {
    goal = the_goal;
    phase = the_phase;
    plan = the_plan;
    actions = the_actions;
    observations = the_observations;
    evidence = the_evidence;
    escalations = the_escalations;
    retry_count = the_retry_count;
    current_plan_description = description;
  })

unfoldable pub state_from_dict : Json → Decoded AgentLoopState
unfolding loop_state_of
state_from_dict payload = do
  state_data ← get_default payload "state" payload
  loop_state_of state_data
