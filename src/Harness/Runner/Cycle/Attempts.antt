-- ===== src/Harness/Runner/Cycle/Attempts.antt =====
-- The steps of one attempt with the default gates: acting, observing, judging, and what comes of it.
use computer_use_orchestrato.Prelude.{
  ℕ, suc, ◌+◌, ◌≤◌, ◌<◌, ◌≡◌, refl, sym, subst, Bool, true, false, Option, none, some, arith, leb,
  length, length-append, is_empty, String, if◌then◌else◌,
}
use computer_use_orchestrato.Harness.Gates
use computer_use_orchestrato.Harness.Gates.{EvalGateResult, require_evidence}
use computer_use_orchestrato.Harness.Loop.{
  AgentAction, AgentLoopState, LoopPhase, goal, plan, action, observation, evaluation, next_step,
  escalation, set_plan, record_action, record_observation, record_escalation, has_evidence,
  new_state,
}
use computer_use_orchestrato.Harness.Runner.{
  Port, Run, Limits, advance_many, advance_goal, advance_action, observe_latest,
  advance_observation, advance_phase, advance_state, create_state, fresh_run,
}
use computer_use_orchestrato.Harness.Runner.Workflow.{
  first_failed, default_evaluation_gates, has_enough_observations, evaluate_dynamic_workflow,
  settle, retry, escalate,
}
use computer_use_orchestrato.Harness.Runner.Phases.{state-recall_memory, state-remember}
use computer_use_orchestrato.Harness.Runner.Retries.{
  Holds, Holds-some, has_evidence-record_evidence, is_empty-snoc, last?-total,
}

-- Where attempt j stands: it has made j retries.
pub record Acting (j : ℕ) (s : AgentLoopState) : Type 0 where
  pub phase : s.phase ≡ action
  pub acted : is_empty s.actions ≡ false
  pub retries : s.retry_count ≡ j
  pub seen : length s.observations ≡ j
  pub calm : length s.escalations ≡ 0

pub record Observed (j : ℕ) (s : AgentLoopState) : Type 0 where
  pub phase : s.phase ≡ observation
  pub retries : s.retry_count ≡ j
  pub seen : length s.observations ≡ j + 1
  pub calm : length s.escalations ≡ 0

pub record Judging (j : ℕ) (s : AgentLoopState) : Type 0 where
  pub phase : s.phase ≡ evaluation
  pub proven : has_evidence s (some "checkpoint") ≡ true
  pub retries : s.retry_count ≡ j
  pub seen : length s.observations ≡ j + 1
  pub calm : length s.escalations ≡ 0

-- The loop has ended with j retries: past the gates, or escalated.
pub record Ended (passed : Bool) (j : ℕ) (s : AgentLoopState) : Type 0 where
  pub phase : s.phase ≡ (if passed then next_step else escalation)
  pub retries : s.retry_count ≡ j
  pub escalated : length s.escalations ≡ (if passed then 0 else 1)

-- With the evidence there, only the number of observations counts.
first_failed_enough :
    (m : ℕ) (s : AgentLoopState)
    → has_evidence s (some "checkpoint") ≡ true
    → leb m (length s.observations) ≡ true
    → first_failed (default_evaluation_gates m) s ≡ none
unfolding first_failed default_evaluation_gates has_enough_observations require_evidence
    Gates.evaluate
first_failed_enough m s e h = rw (e, h)

first_failed_few :
    (m : ℕ) (s : AgentLoopState)
    → has_evidence s (some "checkpoint") ≡ true
    → leb m (length s.observations) ≡ false
    → (f : EvalGateResult) × (first_failed (default_evaluation_gates m) s ≡ some f)
unfolding first_failed default_evaluation_gates has_enough_observations require_evidence
    Gates.evaluate
first_failed_few m s e h = rw (e, h) (_, refl)

settle_passes : (j R : ℕ) (s : AgentLoopState) → Judging j s → Ended true j (settle none s R)
unfolding settle
settle_passes j R s h = ground arith

settle_retries :
    (j R : ℕ) (f : EvalGateResult) (s : AgentLoopState)
    → j < R
    → Judging j s
    → Acting (suc j) (settle (some f) s R)
unfolding settle retry set_plan record_action
settle_retries j R f s lt h = grind (arith, is_empty-snoc)

settle_escalates :
    (k R : ℕ) (f : EvalGateResult) (s : AgentLoopState)
    → k ≡ R
    → Judging k s
    → Ended false k (settle (some f) s R)
unfolding settle escalate record_escalation
settle_escalates k R f s e h = grind (arith, length-append {0})

-- The default gates.
abbrev pub default_limits : ℕ → ℕ → ℕ → Limits
default_limits recall max_retries m = record {
  memory_recall_limit = recall;
  max_retries = max_retries;
  evaluation_gates = none;
  min_observations_for_pass = m;
}

at_phase :
    {port : Port} (limits : Limits) (P : AgentLoopState → Type 0) (p : LoopPhase) (r : Run port)
    → r.state.phase ≡ p
    → Holds P (advance_phase limits p r)
    → Holds P (advance_state limits r)
unfolding advance_state
at_phase limits P p r e h = subst (λ q. Holds P (advance_phase limits q r)) (sym e) h

-- That many steps return, in a state with the property.
abbrev pub Leads : {port : Port} → Limits → (AgentLoopState → Type 0) → ℕ → Run port → Type 0
Leads {port} limits P n r = (r' : Run port) × (advance_many limits n r ≡ some r') × P r'.state

pub Leads-suc :
    {port : Port} (limits : Limits) (P Q : AgentLoopState → Type 0) (n : ℕ) (r : Run port)
    → Holds P (advance_state limits r)
    → ((r' : Run port) → P r'.state → Leads limits Q n r')
    → Leads limits Q (suc n) r
Leads-suc limits P Q n r h next =
    let (r₁, step, p) = Holds-some P (advance_state limits r) h in
    let (r₂, rest, q) = next r₁ p in (r₂, rw (step, advance_many) rest, q)

pub record Planned (s : AgentLoopState) : Type 0 where
  pub phase : s.phase ≡ plan
  pub retries : s.retry_count ≡ 0
  pub seen : length s.observations ≡ 0
  pub calm : length s.escalations ≡ 0

module _ {port : Port} (recall max_retries m : ℕ) where
  observe_latest-Observed :
      (j : ℕ) (latest : AgentAction) (r : Run port)
      → Acting j r.state
      → Holds (Observed j) (observe_latest (some latest) r)
  unfolding observe_latest record_observation
  observe_latest-Observed j latest r h = grind (arith, length-append {0})

  pub step-Acting :
      (j : ℕ) (r : Run port)
      → Acting j r.state
      → Holds (Observed j) (advance_state (default_limits recall max_retries m) r)
  unfolding advance_phase advance_action
  step-Acting j r h =
      let (latest, found) = last?-total r.state.actions h.acted in
      at_phase (default_limits recall max_retries m) (Observed j) action r h.phase
        (rw found (observe_latest-Observed j latest r h))

  pub step-Observed :
      (j : ℕ) (r : Run port)
      → Observed j r.state
      → Holds (Judging j) (advance_state (default_limits recall max_retries m) r)
  unfolding advance_phase advance_observation
  step-Observed j r h =
      at_phase (default_limits recall max_retries m) (Judging j) observation r h.phase (
        rw (state-remember (default_limits recall max_retries m))
          (grind (arith, has_evidence-record_evidence)))

  pub step_retry :
      (j : ℕ) (r : Run port)
      → j < max_retries
      → j + 1 < m
      → Judging j r.state
      → Holds (Acting (suc j)) (advance_state (default_limits recall max_retries m) r)
  unfolding advance_phase evaluate_dynamic_workflow
  step_retry j r lt few h =
      let (f, found) = first_failed_few m r.state h.proven (ground (arith, h.seen)) in
      at_phase (default_limits recall max_retries m) (Acting (suc j)) evaluation r h.phase
        (rw found (settle_retries j max_retries f r.state lt h))

  pub step_pass :
      (j : ℕ) (r : Run port)
      → m ≤ j + 1
      → Judging j r.state
      → Holds (Ended true j) (advance_state (default_limits recall max_retries m) r)
  unfolding advance_phase evaluate_dynamic_workflow
  step_pass j r enough h =
      at_phase (default_limits recall max_retries m) (Ended true j) evaluation r h.phase (
        rw (first_failed_enough m r.state h.proven (ground (arith, h.seen)))
          (settle_passes j max_retries r.state h))

  pub step_escalate :
      (k : ℕ) (r : Run port)
      → k ≡ max_retries
      → max_retries + 1 < m
      → Judging k r.state
      → Holds (Ended false k) (advance_state (default_limits recall max_retries m) r)
  unfolding advance_phase evaluate_dynamic_workflow
  step_escalate k r e few h =
      let (f, found) = first_failed_few m r.state h.proven (ground (arith, h.seen)) in
      at_phase (default_limits recall max_retries m) (Ended false k) evaluation r h.phase
        (rw found (settle_escalates k max_retries f r.state e h))

  pub step_plan :
      (r : Run port)
      → Planned r.state
      → Holds (Acting 0) (advance_state (default_limits recall max_retries m) r)
  unfolding advance_phase record_action
  step_plan r h =
      at_phase (default_limits recall max_retries m) (Acting 0) plan r h.phase
        (grind (arith, is_empty-snoc))

module _ (port : Port) (recall max_retries m : ℕ) (goal_id goal_text : String)
    (memory : Option port.Memory) where
  pub step_goal : Holds Planned (
      advance_state
        (default_limits recall max_retries m)
        (fresh_run {port = port} goal_id goal_text memory))
  unfolding advance_phase advance_goal set_plan create_state new_state
  step_goal =
      at_phase (default_limits recall max_retries m) Planned goal
        (fresh_run {port = port} goal_id goal_text memory) refl
        (rw (state-recall_memory (default_limits recall max_retries m) recall) (ground arith))
