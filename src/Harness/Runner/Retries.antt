-- ===== src/Harness/Runner/Retries.antt =====
-- The runner never raises and never retries past its limit.
use computer_use_orchestrato.Prelude.{
  ℕ, zero, suc, ◌+◌, ◌≤◌, ◌≡◌, refl, Bool, true, false, Option, none, some, List, [], ◌∷◌, ◌++◌,
  arith, last?, length, length-append, is_empty, any-append, ◌==◌, String, ◌||◌, if◌then◌else◌,
}
use computer_use_orchestrato.Harness.Gates.{EvalGateResult}
use computer_use_orchestrato.Harness.Loop.{
  Evidence, AgentAction, AgentLoopState, LoopPhase, goal, plan, action, observation, evaluation,
  next_step, escalation, set_plan, record_action, record_observation, record_evidence,
  record_escalation, has_evidence, new_state,
}
use computer_use_orchestrato.Harness.Runner.{
  Port, Run, Limits, advance_many, advance_goal, advance_action, observe_latest,
  advance_observation, advance_phase, advance_state, create_state, fresh_run,
}
use computer_use_orchestrato.Harness.Runner.Workflow.{
  evaluate_dynamic_workflow, settle, retry, escalate,
}
use computer_use_orchestrato.Harness.Runner.Phases.{state-recall_memory, state-remember}

-- What is known of the loop state in each phase.
abbrev pub Shape : LoopPhase → AgentLoopState → Type 0
Shape goal s = s.retry_count ≡ 0
Shape plan s = s.retry_count ≡ 0
Shape action s = (is_empty s.actions ≡ false) × (s.retry_count ≤ length s.observations)
Shape observation s = s.retry_count + 1 ≤ length s.observations
Shape evaluation s =
    (s.retry_count + 1 ≤ length s.observations) × (has_evidence s (some "checkpoint") ≡ true)
Shape next_step s = s.retry_count ≤ length s.observations
Shape escalation s = Unit

abbrev pub is_escalation : LoopPhase → Bool
is_escalation escalation = true
is_escalation _ = false

-- The retries stay within the limit, and there is one escalation in the escalation phase, with all
-- retries used, and none in any other.
pub record Inv (max_retries : ℕ) (s : AgentLoopState) : Type 0 where
  pub bounded : s.retry_count ≤ max_retries
  pub shape : Shape s.phase s
  pub escalated : length s.escalations ≡ (if is_escalation s.phase then 1 else 0)
  pub exhausted : is_escalation s.phase ≡ true → s.retry_count ≡ max_retries

pub is_empty-snoc : {A : Type 0} (xs : List A) (x : A) → is_empty (xs ++ x ∷ []) ≡ false
is_empty-snoc [] x = refl
is_empty-snoc (y ∷ ys) x = refl

pub last?-total : {A : Type 0} (xs : List A) → is_empty xs ≡ false → (a : A) × (last? xs ≡ some a)
last?-total [] h = cc
last?-total (x ∷ []) h = (x, refl)
last?-total (x ∷ y ∷ ys) h = last?-total (y ∷ ys) refl

settle-Inv :
    (failed : Option EvalGateResult) (s : AgentLoopState) (max_retries : ℕ)
    → s.phase ≡ evaluation
    → Inv max_retries s
    → Inv max_retries (settle failed s max_retries)
unfolding settle retry escalate set_plan record_action record_escalation
settle-Inv none s max_retries e i = ground arith
settle-Inv (some failed) s max_retries e i = grind (arith, length-append {0}, is_empty-snoc)

or_true : (b : Bool) → (b || true) ≡ true
or_true true = refl
or_true false = refl

pub has_evidence-record_evidence :
    (s : AgentLoopState) (e : Evidence)
    → e.kind ≡ "checkpoint"
    → has_evidence (record_evidence s e) (some "checkpoint") ≡ true
unfolding has_evidence record_evidence
has_evidence-record_evidence s e k =
    rw (any-append (λ (item : Evidence). item.kind == "checkpoint") s.evidence (e ∷ []), k)
      (or_true _)

abbrev pub Holds : {port : Port} → (AgentLoopState → Type 0) → Option (Run port) → Type 0
Holds P none = ⊥
Holds P (some r) = P r.state

pub Holds-some :
    {port : Port} (P : AgentLoopState → Type 0) (o : Option (Run port))
    → Holds P o
    → (r : Run port) × (o ≡ some r) × P r.state
Holds-some P none h = absurd h
Holds-some P (some r) h = (r, refl, h)

module _ {port : Port} (limits : Limits) where
  observe_latest-Inv :
      (latest : AgentAction) (r : Run port)
      → r.state.phase ≡ action
      → Inv limits.max_retries r.state
      → Holds (Inv limits.max_retries) (observe_latest (some latest) r)
  unfolding observe_latest record_observation
  observe_latest-Inv latest r e i = grind (arith, length-append {0})

  advance_phase-Inv :
      (p : LoopPhase) (r : Run port)
      → r.state.phase ≡ p
      → Inv limits.max_retries r.state
      → Holds (Inv limits.max_retries) (advance_phase limits p r)
  unfolding advance_phase advance_goal advance_action advance_observation set_plan record_action
      evaluate_dynamic_workflow
  advance_phase-Inv goal r e i =
      rw (state-recall_memory limits limits.memory_recall_limit) (ground arith)
  advance_phase-Inv plan r e i = grind (arith, is_empty-snoc)
  advance_phase-Inv action r e i =
      let (latest, found) = last?-total r.state.actions (ground arith) in
      rw found (observe_latest-Inv latest r e i)
  advance_phase-Inv observation r e i =
      rw (state-remember limits) (grind (arith, has_evidence-record_evidence))
  advance_phase-Inv evaluation r e i = settle-Inv _ r.state limits.max_retries e i
  advance_phase-Inv next_step r e i = grind (arith, is_empty-snoc)
  advance_phase-Inv escalation r e i = i

  advance_state-Inv :
      (r : Run port)
      → Inv limits.max_retries r.state
      → (r' : Run port) × (advance_state limits r ≡ some r') × Inv limits.max_retries r'.state
  unfolding advance_state
  advance_state-Inv r i =
      Holds-some (Inv limits.max_retries) _ (advance_phase-Inv r.state.phase r refl i)

  advance_many-Inv :
      (n : ℕ) (r : Run port)
      → Inv limits.max_retries r.state
      → (r' : Run port) × (advance_many limits n r ≡ some r') × Inv limits.max_retries r'.state
  advance_many-Inv zero r i = (r, refl, i)
  advance_many-Inv (suc n) r i =
      let (r₁, step, i₁) = advance_state-Inv r i in
      let (r₂, rest, i₂) = advance_many-Inv n r₁ i₁ in (r₂, rw (step, advance_many) rest, i₂)

  -- From a fresh state, with any gates and any memory, every number of steps returns. The retries
  -- stay within the limit, and the loop has escalated, once, only if all of them were used.
  pub advance_many_bounded :
      (goal_id goal_text : String) (memory : Option port.Memory) (n : ℕ)
      → (r : Run port) × (advance_many limits n (fresh_run goal_id goal_text memory) ≡ some r)
        × Inv limits.max_retries r.state
  unfolding create_state new_state
  advance_many_bounded goal_id goal_text memory n =
      advance_many-Inv n (fresh_run goal_id goal_text memory) (ground arith)
