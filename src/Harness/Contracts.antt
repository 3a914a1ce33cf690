-- ===== src/Harness/Contracts.antt =====
-- harness/contracts.py: what a session has to deliver, within which budgets and with which tools.
use computer_use_orchestrato.Prelude.{
  String, ◌<>◌, ◌≡◌, refl, Bool, true, false, not, Option, none, some, List, [], ◌∷◌, all, select,
  contains, join, Result, Bool-cases, inl, inr,
}
use computer_use_orchestrato.Harness.Budgets.{
  SessionBudgets, BudgetSnapshot, BudgetDecision, evaluate_budgets,
}
use computer_use_orchestrato.Harness.Grants
use computer_use_orchestrato.Harness.Grants.{ToolGrantPolicy, GrantError}

pub data CompletionCondition : Type 0 where
  evidence_recorded eval_gates_passed human_approved : CompletionCondition

pub data EscalationPolicy : Type 0 where
  ask_human stop_session restart_worker mark_failed : EscalationPolicy

pub record ContractValidationResult : Type 0 where
  pub valid : Bool
  pub reason : String
  pub budget_decision : Option BudgetDecision

pub record ExecutionContract : Type 0 where
  pub contract_id : String
  pub goal : String
  pub required_outputs : List String
  pub budgets : SessionBudgets
  pub tool_grants : ToolGrantPolicy
  pub completion_conditions : List CompletionCondition
  pub evidence_paths : List String
  pub escalation_policy : EscalationPolicy

unfoldable pub require_tool : ExecutionContract → String → Result GrantError (Unit {0})
require_tool contract grant = Grants.require contract.tool_grants grant

unfoldable pub validate_budget : ExecutionContract → BudgetSnapshot → ContractValidationResult
validate_budget contract usage =
    let decision = evaluate_budgets contract.budgets usage in
    record { valid = decision.allowed; reason = decision.reason; budget_decision = some decision }

-- The test `if missing` of `validate_outputs`.
report_missing : List String → ContractValidationResult
report_missing [] = record { valid = true; reason = ""; budget_decision = none }
report_missing (item ∷ items) = record {
  valid = false;
  reason = "Missing required outputs: " <> join ", " (item ∷ items);
  budget_decision = none;
}

unfoldable pub validate_outputs : ExecutionContract → List String → ContractValidationResult
unfolding report_missing
validate_outputs contract produced_outputs =
    report_missing (select (λ item. not (contains produced_outputs item)) contract.required_outputs)

valid-report_missing :
    (produced required : List String)
    → (report_missing (select (λ item. not (contains produced item)) required)).valid
      ≡ all (contains produced) required
unfolding report_missing
valid-report_missing produced [] = refl
valid-report_missing produced (x ∷ xs) = elim (Bool-cases (contains produced x)) [
  | inl has ↦ rw has (valid-report_missing produced xs)
  | inr lacks ↦ rw lacks
]

-- Outputs are valid exactly when every required output was produced.
valid-validate_outputs :
    (contract : ExecutionContract) (produced : List String)
    → (validate_outputs contract produced).valid ≡ all (contains produced) contract.required_outputs
unfolding validate_outputs
valid-validate_outputs contract produced = valid-report_missing produced contract.required_outputs
