-- ===== src/Harness/Checkpoint/RoundTrip.antt =====
-- A saved loop state is read back as it was.
use computer_use_orchestrato.Prelude.{String, ◌≡◌, refl, Option, none, some, List, [], ◌∷◌, ok}
use computer_use_orchestrato.Json.{Json, arr, str, str_items}
use computer_use_orchestrato.Harness.Loop.{
  Goal, Plan, AgentAction, Observation, Evidence, EscalationDecision, Policy, LoopPhase, goal, plan,
  action, observation, evaluation, next_step, escalation, AgentLoopState,
}
use computer_use_orchestrato.Harness.Gates.{phase_text}
use computer_use_orchestrato.Harness.Checkpoint.Asdict.{
  goal_json, plan_json, action_json, observation_json, evidence_json, escalation_json, items_of,
  state_to_json, opt_str, policy_text,
}
use computer_use_orchestrato.Harness.Checkpoint.Decoding.{
  Decoded, as_str, as_opt_str, as_phase, as_policy, each_item, each, to_tuple, goal_of, plan_of,
  action_of, observation_of, evidence_of, escalation_of, loop_state_of, state_from_dict,
}
use computer_use_orchestrato.Harness.Checkpoint.{checkpoint_payload}

each_item-items_of :
    {A : Type 0} (encode : A → Json) (decode : Json → Decoded A)
    → ((a : A) → decode (encode a) ≡ ok a)
    → (xs : List A) → each_item decode (items_of encode xs) ≡ ok xs
unfolding each_item items_of
each_item-items_of encode decode h [] = refl
each_item-items_of encode decode h (x ∷ xs) = rw (h x) (rw (each_item-items_of encode decode h xs))

each_item-str_items : (xs : List String) → each_item as_str (str_items xs) ≡ ok xs
unfolding each_item
each_item-str_items [] = refl
each_item-str_items (x ∷ xs) = rw (each_item-str_items xs)

to_tuple-str_items : (xs : List String) → to_tuple (arr (str_items xs)) ≡ ok xs
unfolding to_tuple
to_tuple-str_items xs = each_item-str_items xs

as_opt_str-opt_str : (o : Option String) → as_opt_str (opt_str o) ≡ ok o
as_opt_str-opt_str none = refl
as_opt_str-opt_str (some s) = refl

as_phase-phase_text : (p : LoopPhase) → as_phase (str (phase_text p)) ≡ ok p
as_phase-phase_text goal = refl
as_phase-phase_text plan = refl
as_phase-phase_text action = refl
as_phase-phase_text observation = refl
as_phase-phase_text evaluation = refl
as_phase-phase_text next_step = refl
as_phase-phase_text escalation = refl

as_policy-policy_text : (p : Policy) → as_policy (str (policy_text p)) ≡ ok p
as_policy-policy_text Policy.continue = refl
as_policy-policy_text Policy.ask_human = refl
as_policy-policy_text Policy.stop_session = refl
as_policy-policy_text Policy.restart_worker = refl
as_policy-policy_text Policy.mark_failed = refl

goal_of-goal_json : (g : Goal) → goal_of (goal_json g) ≡ ok g
unfolding goal_of goal_json
goal_of-goal_json g = rw (to_tuple-str_items g.success_criteria)

plan_of-plan_json : (p : Option Plan) → plan_of (plan_json p) ≡ ok p
unfolding plan_of plan_json
plan_of-plan_json none = refl
plan_of-plan_json (some p) = rw (to_tuple-str_items p.steps)

action_of-action_json : (a : AgentAction) → action_of (action_json a) ≡ ok a
unfolding action_of action_json
action_of-action_json a = refl

observation_of-observation_json : (o : Observation) → observation_of (observation_json o) ≡ ok o
unfolding observation_of observation_json
observation_of-observation_json o = rw (as_opt_str-opt_str o.raw_event_type)

evidence_of-evidence_json : (e : Evidence) → evidence_of (evidence_json e) ≡ ok e
unfolding evidence_of evidence_json
evidence_of-evidence_json e = rw (as_opt_str-opt_str e.artifact_id)

escalation_of-escalation_json : (d : EscalationDecision) → escalation_of (escalation_json d) ≡ ok d
unfolding escalation_of escalation_json
escalation_of-escalation_json d =
    rw (as_policy-policy_text d.policy) (rw (as_opt_str-opt_str d.rollback_hint))

loop_state_of-state_to_json : (s : AgentLoopState) → loop_state_of (state_to_json s) ≡ ok s
unfolding loop_state_of state_to_json each
loop_state_of-state_to_json s = rw (goal_of-goal_json s.goal) (
    rw (plan_of-plan_json s.plan) (
      rw (as_phase-phase_text s.phase) (
        rw (each_item-items_of action_json action_of action_of-action_json s.actions) (
          rw
            (each_item-items_of observation_json observation_of observation_of-observation_json
              s.observations)
            (rw (each_item-items_of evidence_json evidence_of evidence_of-evidence_json s.evidence)
              (rw (
                each_item-items_of escalation_json escalation_of escalation_of-escalation_json
                  s.escalations)))))))

-- The payload of a checkpoint decodes to the state that was saved.
pub state_from_dict-checkpoint_payload :
    (now : String) (s : AgentLoopState) → state_from_dict (checkpoint_payload now s) ≡ ok s
unfolding state_from_dict
state_from_dict-checkpoint_payload now s = loop_state_of-state_to_json s
