-- ===== src/Harness/Runner/Phases.antt =====
-- The phases that one step of the runner leads from and to.
use computer_use_orchestrato.Prelude.{
  ℕ, zero, suc, ◌≡◌, refl, sym, subst, Option, none, some, arith, ltb, last?, Bool-cases, inl, inr,
}
use computer_use_orchestrato.Harness.Gates.{EvalGateResult}
use computer_use_orchestrato.Harness.Loop.{
  Evidence, AgentAction, AgentLoopState, LoopPhase, goal, plan, action, observation, evaluation,
  next_step, escalation, set_plan, record_action, record_observation, record_evidence,
  record_escalation,
}
use computer_use_orchestrato.Harness.Runner.{
  Port, Run, Limits, advance_many, recall_memory, remember, advance_goal, advance_action,
  observe_latest, advance_observation, advance_phase, advance_state,
}
use computer_use_orchestrato.Harness.Runner.Workflow.{
  first_failed, gates_or_default, evaluate_dynamic_workflow, settle, retry, escalate,
}

infix 40 ◌⟶◌
pub data ◌⟶◌ : LoopPhase → LoopPhase → Type 0 where
  make_plan : goal ⟶ plan
  attempt : plan ⟶ action
  observe : action ⟶ observation
  collect : observation ⟶ evaluation
  pass : evaluation ⟶ next_step
  try_again : evaluation ⟶ action
  give_up : evaluation ⟶ escalation
  go_on : next_step ⟶ action
  wait : escalation ⟶ escalation

phase-settle :
    (failed : Option EvalGateResult) (s : AgentLoopState) (max_retries : ℕ)
    → evaluation ⟶ (settle failed s max_retries).phase
unfolding settle retry escalate set_plan record_action record_escalation
phase-settle none s max_retries = pass
phase-settle (some failed) s max_retries = elim (Bool-cases (ltb s.retry_count max_retries)) [
  | inl again ↦ rw again try_again
  | inr over ↦ rw over give_up
]

module _ {port : Port} (limits : Limits) where
  pub state-recall_memory : (n : ℕ) (r : Run port) → (recall_memory n r).state ≡ r.state
  unfolding recall_memory
  state-recall_memory n r = ground arith

  pub state-remember : (e : Evidence) (r : Run port) → (remember e r).state ≡ r.state
  unfolding remember
  state-remember e r = ground arith

  abbrev Lands : LoopPhase → Option (Run port) → Type 0
  Lands p none = Unit
  Lands p (some r) = p ⟶ r.state.phase

  observe_latest-Lands :
      (latest : Option AgentAction) (r : Run port) → Lands action (observe_latest latest r)
  unfolding observe_latest record_observation
  observe_latest-Lands none r = tt
  observe_latest-Lands (some latest) r = observe

  advance_phase-Lands :
      (p : LoopPhase) (r : Run port) → r.state.phase ≡ p → Lands p (advance_phase limits p r)
  unfolding advance_phase advance_goal advance_action advance_observation set_plan record_action
      record_observation record_evidence evaluate_dynamic_workflow
  advance_phase-Lands goal r e = rw (state-recall_memory limits.memory_recall_limit) make_plan
  advance_phase-Lands plan r e = attempt
  advance_phase-Lands action r e = observe_latest-Lands (last? r.state.actions) r
  advance_phase-Lands observation r e = rw state-remember collect
  advance_phase-Lands evaluation r e =
      phase-settle
        (first_failed (gates_or_default limits.evaluation_gates limits.min_observations_for_pass)
          r.state)
        r.state limits.max_retries
  advance_phase-Lands next_step r e = go_on
  advance_phase-Lands escalation r e = rw e wait

  -- Every step that does not raise follows an edge of the phase diagram.
  pub advance_state-⟶ :
      (r : Run port) {r' : Run port}
      → advance_state limits r ≡ some r'
      → r.state.phase ⟶ r'.state.phase
  unfolding advance_state
  advance_state-⟶ r h = subst (Lands r.state.phase) h (advance_phase-Lands r.state.phase r refl)

  advance_state_escalated :
      (r : Run port) → r.state.phase ≡ escalation → advance_state limits r ≡ some r
  unfolding advance_state advance_phase
  advance_state_escalated r e = subst (λ p. advance_phase limits p r ≡ some r) (sym e) refl

  -- An escalated loop stays as it is, however many steps follow.
  pub advance_many_escalated :
      (n : ℕ) (r : Run port) → r.state.phase ≡ escalation → advance_many limits n r ≡ some r
  advance_many_escalated zero r e = refl
  advance_many_escalated (suc n) r e =
      rw (advance_state_escalated r e, advance_many) (advance_many_escalated n r e)
