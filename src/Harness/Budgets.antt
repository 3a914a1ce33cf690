-- ===== src/Harness/Budgets.antt =====
-- harness/budgets.py: the usage of a session held against its budgets. A cost counts millionths of
-- a dollar.
pub mod Limits
use computer_use_orchestrato.Prelude.{
  ℕ, String, ◌<>◌, Bool, true, false, Option, none, some, List, [], ◌∷◌, ◌++◌, map, join, ltb, leb,
  if◌then◌else◌,
}

pub data BudgetName : Type 0 where
  runtime idle messages events tokens cost : BudgetName

pub record SessionBudgets : Type 0 where
  pub runtime_seconds : ℕ
  pub idle_seconds : ℕ
  pub max_messages : ℕ
  pub max_events : ℕ
  pub max_tokens : Option ℕ
  pub max_cost_usd : Option ℕ

pub record BudgetSnapshot : Type 0 where
  pub runtime_seconds : ℕ
  pub idle_seconds : ℕ
  pub messages : ℕ
  pub events : ℕ
  pub tokens : ℕ
  pub cost_usd : ℕ

pub record BudgetDecision : Type 0 where
  pub allowed : Bool
  pub exceeded : List BudgetName
  pub reason : String

abbrev pub budget_text : BudgetName → String
budget_text runtime = "runtime"
budget_text idle = "idle"
budget_text messages = "messages"
budget_text events = "events"
budget_text tokens = "tokens"
budget_text cost = "cost"

-- `if test: exceeded.append(name)`
append_if : Bool → BudgetName → List BudgetName → List BudgetName
append_if test name exceeded = if test then exceeded ++ name ∷ [] else exceeded

-- `limit is not None and usage >= limit`
reached : Option ℕ → ℕ → Bool
reached none usage = false
reached (some limit) usage = leb limit usage

exceeded_names : SessionBudgets → BudgetSnapshot → List BudgetName
unfolding append_if reached
exceeded_names budgets usage =
    let after_runtime = append_if (ltb budgets.runtime_seconds usage.runtime_seconds) runtime [] in
    let after_idle = append_if (ltb budgets.idle_seconds usage.idle_seconds) idle after_runtime in
    let after_messages = append_if (leb budgets.max_messages usage.messages) messages after_idle in
    let after_events = append_if (leb budgets.max_events usage.events) events after_messages in
    let after_tokens = append_if (reached budgets.max_tokens usage.tokens) tokens after_events in
    append_if (reached budgets.max_cost_usd usage.cost_usd) cost after_tokens

decide_budgets : List BudgetName → BudgetDecision
decide_budgets [] = record { allowed = true; exceeded = []; reason = "" }
decide_budgets (name ∷ names) = record {
  allowed = false;
  exceeded = name ∷ names;
  reason = "Budget exceeded: " <> join ", " (map budget_text (name ∷ names));
}

unfoldable pub evaluate_budgets : SessionBudgets → BudgetSnapshot → BudgetDecision
unfolding exceeded_names decide_budgets
evaluate_budgets budgets usage = decide_budgets (exceeded_names budgets usage)
