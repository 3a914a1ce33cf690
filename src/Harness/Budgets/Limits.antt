-- ===== src/Harness/Budgets/Limits.antt =====
-- What `evaluate_budgets` decides, against a description of each limit by itself.
use computer_use_orchestrato.Prelude.{
  ℕ, ◌≤◌, ◌<◌, ◌≡◌, refl, ◌↔◌, sym, subst, Bool, true, false, Option, none, some, List, [], ◌∷◌,
  ◌||◌, arith, any, any-append, if◌then◌else◌, leb, ltb,
}
use computer_use_orchestrato.Harness.Budgets.{
  BudgetName, runtime, idle, messages, events, tokens, cost, SessionBudgets, BudgetSnapshot,
  append_if, reached, exceeded_names, decide_budgets, evaluate_budgets,
}

abbrev pub same_name : BudgetName → BudgetName → Bool
same_name runtime runtime = true
same_name idle idle = true
same_name messages messages = true
same_name events events = true
same_name tokens tokens = true
same_name cost cost = true
same_name _ _ = false

-- Whether the decision lists a budget.
abbrev pub lists : List BudgetName → BudgetName → Bool
lists names name = any (λ other. same_name other name) names

abbrev pub AtLeast : Option ℕ → ℕ → Type 0
AtLeast none usage = ⊥
AtLeast (some limit) usage = limit ≤ usage

-- The usage is past a limit: above it for the two times, at it for the four counts.
abbrev pub IsOver : SessionBudgets → BudgetSnapshot → BudgetName → Type 0
IsOver b u runtime = b.runtime_seconds < u.runtime_seconds
IsOver b u idle = b.idle_seconds < u.idle_seconds
IsOver b u messages = b.max_messages ≤ u.messages
IsOver b u events = b.max_events ≤ u.events
IsOver b u tokens = AtLeast b.max_tokens u.tokens
IsOver b u cost = AtLeast b.max_cost_usd u.cost_usd

lists-append_if :
    (test : Bool) (name : BudgetName) (names : List BudgetName) (n : BudgetName)
    → lists (append_if test name names) n
      ≡ lists names n || (if test then same_name name n else false)
unfolding append_if
lists-append_if true name names n =
    ground (arith, any-append (λ o. same_name o n) names (name ∷ []))
lists-append_if false name names n = ground arith

over : SessionBudgets → BudgetSnapshot → BudgetName → Bool
over b u runtime = ltb b.runtime_seconds u.runtime_seconds
over b u idle = ltb b.idle_seconds u.idle_seconds
over b u messages = leb b.max_messages u.messages
over b u events = leb b.max_events u.events
over b u tokens = reached b.max_tokens u.tokens
over b u cost = reached b.max_cost_usd u.cost_usd

lists-exceeded_names :
    (b : SessionBudgets) (u : BudgetSnapshot) (n : BudgetName)
    → lists (exceeded_names b u) n ≡ over b u n
unfolding exceeded_names over append_if
lists-exceeded_names b u runtime = ground arith
lists-exceeded_names b u idle = ground arith
lists-exceeded_names b u messages = ground arith
lists-exceeded_names b u events = ground arith
lists-exceeded_names b u tokens = ground arith
lists-exceeded_names b u cost = ground arith

over→IsOver :
    (b : SessionBudgets) (u : BudgetSnapshot) (n : BudgetName) → over b u n ≡ true ↔ IsOver b u n
unfolding over reached
over→IsOver b u runtime = ground arith
over→IsOver b u idle = ground arith
over→IsOver b u messages = ground arith
over→IsOver b u events = ground arith
over→IsOver b u tokens = ground arith
over→IsOver b u cost = ground arith

exceeded-evaluate_budgets :
    (b : SessionBudgets) (u : BudgetSnapshot) → (evaluate_budgets b u).exceeded ≡ exceeded_names b u
unfolding evaluate_budgets decide_budgets
exceeded-evaluate_budgets b u = ground arith

-- A budget is listed as exceeded exactly when the usage is past its limit.
pub exceeded_exact :
    (b : SessionBudgets) (u : BudgetSnapshot) (n : BudgetName)
    → lists (evaluate_budgets b u).exceeded n ≡ true ↔ IsOver b u n
exceeded_exact b u n =
    subst (λ names. lists names n ≡ true ↔ IsOver b u n) (sym (exceeded-evaluate_budgets b u))
      (subst (λ t. t ≡ true ↔ IsOver b u n) (sym (lists-exceeded_names b u n)) (over→IsOver b u n))

same_name_refl : (n : BudgetName) → same_name n n ≡ true
same_name_refl runtime = refl
same_name_refl idle = refl
same_name_refl messages = refl
same_name_refl events = refl
same_name_refl tokens = refl
same_name_refl cost = refl

allowed_iff_nil :
    (names : List BudgetName)
    → (decide_budgets names).allowed ≡ true ↔ ((n : BudgetName) → ¬ (lists names n ≡ true))
unfolding decide_budgets
allowed_iff_nil [] = (λ _ n h. cc, λ _. refl)
allowed_iff_nil (x ∷ xs) = (λ h. cc, λ none_listed. absurd (none_listed x (rw (same_name_refl x))))

-- A usage is allowed exactly when it is past no limit; a limit that is `None` is never passed.
allowed_exact :
    (b : SessionBudgets) (u : BudgetSnapshot)
    → (evaluate_budgets b u).allowed ≡ true ↔ ((n : BudgetName) → ¬ IsOver b u n)
unfolding evaluate_budgets
allowed_exact b u = (
  λ h n p. (allowed_iff_nil _).0 h n (rw (lists-exceeded_names b u n) ((over→IsOver b u n).1 p)),
  λ h.
      (allowed_iff_nil _).1
        (λ n p. h n ((over→IsOver b u n).0 (rw (lists-exceeded_names b u n) at p))),
)
