-- ===== src/Harness/Runner/Alone.antt =====
-- What a step of the runner keeps when the runner has no memory layer.
use computer_use_orchestrato.Prelude.{
  ℕ, ◌≡◌, refl, ◌∙◌, Option, none, some, [], ltb, last?, Bool-cases, inl, inr,
}
use computer_use_orchestrato.Harness.Gates.{EvalGateResult}
use computer_use_orchestrato.Harness.Loop.{
  Goal, Evidence, AgentAction, AgentLoopState, LoopPhase, goal, plan, action, observation,
  evaluation, next_step, escalation, set_plan, record_action, record_observation, record_evidence,
  record_escalation,
}
use computer_use_orchestrato.Harness.Runner.{
  Port, Run, Limits, recall_memory, remember, advance_goal, advance_action, observe_latest,
  advance_observation, advance_phase, advance_state,
}
use computer_use_orchestrato.Harness.Runner.Workflow.{
  first_failed, gates_or_default, evaluate_dynamic_workflow, settle, retry, escalate,
}

goal-settle :
    (failed : Option EvalGateResult) (s : AgentLoopState) (max_retries : ℕ)
    → (settle failed s max_retries).goal ≡ s.goal
unfolding settle retry escalate set_plan record_action record_escalation
goal-settle none s max_retries = refl
goal-settle (some failed) s max_retries = elim (Bool-cases (ltb s.retry_count max_retries)) [
  | inl again ↦ rw again refl
  | inr over ↦ rw over refl
]

module _ {port : Port} (limits : Limits) (g : Goal) where
  -- The run has no memory and has noted no signature, and is about the goal.
  abbrev pub IsAlone : Run port → Type 0
  IsAlone r = (r.memory ≡ none) × (r.signatures ≡ some []) × (r.state.goal ≡ g)

  abbrev pub StaysAlone : Option (Run port) → Type 0
  StaysAlone none = Unit
  StaysAlone (some r) = IsAlone r

  recall_memory-IsAlone : (n : ℕ) (r : Run port) → IsAlone r → IsAlone (recall_memory n r)
  unfolding recall_memory
  recall_memory-IsAlone n r (m, k, h) = rw (m, recall_memory) (m, k, h)

  remember-IsAlone : (e : Evidence) (r : Run port) → IsAlone r → IsAlone (remember e r)
  unfolding remember
  remember-IsAlone e r (m, k, h) = rw (m, remember) (m, k, h)

  observe_latest-StaysAlone :
      (latest : Option AgentAction) (r : Run port)
      → IsAlone r
      → StaysAlone (observe_latest latest r)
  unfolding observe_latest record_observation
  observe_latest-StaysAlone none r h = tt
  observe_latest-StaysAlone (some latest) r h = h

  advance_phase-StaysAlone :
      (p : LoopPhase) (r : Run port) → IsAlone r → StaysAlone (advance_phase limits p r)
  unfolding advance_phase advance_goal advance_action advance_observation set_plan record_action
      record_evidence evaluate_dynamic_workflow
  advance_phase-StaysAlone goal r h = recall_memory-IsAlone _ _ h
  advance_phase-StaysAlone plan r h = h
  advance_phase-StaysAlone action r h = observe_latest-StaysAlone (last? r.state.actions) r h
  advance_phase-StaysAlone observation r h = remember-IsAlone _ _ h
  advance_phase-StaysAlone evaluation r (m, k, h) = (
    m,
    k,
    goal-settle
          (first_failed (gates_or_default limits.evaluation_gates limits.min_observations_for_pass)
            r.state)
          r.state limits.max_retries
        ∙ h,
  )
  advance_phase-StaysAlone next_step r h = h
  advance_phase-StaysAlone escalation r h = h

  pub advance_state-StaysAlone : (r : Run port) → IsAlone r → StaysAlone (advance_state limits r)
  unfolding advance_state
  advance_state-StaysAlone r h = advance_phase-StaysAlone r.state.phase r h
