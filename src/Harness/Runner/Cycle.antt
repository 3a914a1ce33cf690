-- ===== src/Harness/Runner/Cycle.antt =====
-- How the loop ends with the default gates: one observation more on every attempt, until there are
-- enough of them or the retries are used up.
pub mod Attempts
use computer_use_orchestrato.Prelude.{
  ℕ, zero, suc, ◌+◌, ◌*◌, ◌≤◌, ◌<◌, ◌≡◌, refl, subst, Bool, true, false, Option, arith, leb, String,
  tests,
}
use Prim.Native.Nat.{min, ◌-◌}
use computer_use_orchestrato.Harness.Gates
use computer_use_orchestrato.Harness.Runner.{Port, Run, advance_state, fresh_run}
use computer_use_orchestrato.Harness.Runner.Retries.{Holds}
use computer_use_orchestrato.Harness.Runner.Cycle.Attempts.{
  Acting, Observed, Judging, Ended, Planned, default_limits, Leads, Leads-suc, step-Acting,
  step-Observed, step_retry, step_pass, step_escalate, step_plan, step_goal,
}

-- The steps from a first judgement to the end, with that many attempts to come.
steps_left : ℕ → ℕ
steps_left zero = 1
steps_left (suc i) = suc (suc (suc (steps_left i)))

steps_left_lem : (i : ℕ) → steps_left i ≡ 1 + 3 * i
unfolding steps_left
steps_left_lem zero = refl
steps_left_lem (suc i) = omega (arith, steps_left_lem i)

module _ {port : Port} (recall max_retries m : ℕ) where
  -- From a judgement, i attempts before the last, with the outcome of the last one given.
  from-Judging :
      (passed : Bool) (k : ℕ)
      → ((r : Run port)
          → Judging k r.state
          → Holds (Ended passed k) (advance_state (default_limits recall max_retries m) r))
      → k ≤ max_retries
      → k < m
      → (i j : ℕ) (r : Run port) → j + i ≡ k
      → Judging j r.state
      → Leads (default_limits recall max_retries m) (Ended passed k) (steps_left i) r
  unfolding steps_left
  from-Judging passed k last le lt zero j r e h =
      let limits = default_limits recall max_retries m in
      let h' : Judging k r.state = subst (λ x. Judging x r.state) (omega arith) h in
      Leads-suc limits (Ended passed k) (Ended passed k) 0 r (last r h') (λ r' d. (r', refl, d))
  from-Judging passed k last le lt (suc i) j r e h =
      let limits = default_limits recall max_retries m in
      let goal_state = Ended passed k in
      Leads-suc limits (Acting (suc j)) goal_state (suc (suc (steps_left i))) r
        (step_retry recall max_retries m j r (omega arith) (omega arith) h)
        λ r₁ a.
          Leads-suc limits (Observed (suc j)) goal_state (suc (steps_left i)) r₁
            (step-Acting recall max_retries m (suc j) r₁ a)
            λ r₂ o.
              Leads-suc limits (Judging (suc j)) goal_state (steps_left i) r₂
                (step-Observed recall max_retries m (suc j) r₂ o)
                λ r₃ g. from-Judging passed k last le lt i (suc j) r₃ (omega arith) g

module _ (port : Port) (recall max_retries m : ℕ) (goal_id goal_text : String)
    (memory : Option port.Memory) where
  outcome_at :
      (passed : Bool) (k : ℕ)
      → ((r : Run port)
          → Judging k r.state
          → Holds (Ended passed k) (advance_state (default_limits recall max_retries m) r))
      → k ≤ max_retries
      → k < m
      → Leads
          (default_limits recall max_retries m)
          (Ended passed k)
          (suc (suc (suc (suc (steps_left k)))))
          (fresh_run {port = port} goal_id goal_text memory)
  outcome_at passed k last le lt =
      let limits = default_limits recall max_retries m in
      let goal_state = Ended passed k in
      Leads-suc limits Planned goal_state (suc (suc (suc (steps_left k)))) _
        (step_goal port recall max_retries m goal_id goal_text memory)
        λ r₁ p.
          Leads-suc limits (Acting 0) goal_state (suc (suc (steps_left k))) r₁
            (step_plan recall max_retries m r₁ p)
            λ r₂ a.
              Leads-suc limits (Observed 0) goal_state (suc (steps_left k)) r₂
                (step-Acting recall max_retries m 0 r₂ a)
                λ r₃ o.
                  Leads-suc limits (Judging 0) goal_state (steps_left k) r₃
                    (step-Observed recall max_retries m 0 r₃ o)
                    λ r₄ g.
                      from-Judging recall max_retries m passed k last le lt k 0 r₄ (omega arith) g

  last_judgement :
      (passed : Bool) (k : ℕ)
      → leb m (max_retries + 1) ≡ passed
      → k ≡ min (m - 1) max_retries
      → 0 < m
      → (r : Run port) → Judging k r.state
      → Holds (Ended passed k) (advance_state (default_limits recall max_retries m) r)
  last_judgement true k enough e pos r h =
      step_pass recall max_retries m k r (omega (tests, enough, e)) h
  last_judgement false k few e pos r h =
      let low : max_retries + 1 < m = ground (arith, few) in
      step_escalate recall max_retries m k r (omega (arith, e, low)) low h

  -- With the default gates a fresh loop that needs m observations makes as many retries as that
  -- takes, but no more than its limit. It passes the gates if the limit leaves it m attempts, and
  -- has escalated if not, after exactly five steps and three for every retry.
  pub outcome :
      0 < m
      → let k = min (m - 1) max_retries in
        Leads
          (default_limits recall max_retries m)
          (Ended (leb m (max_retries + 1)) k)
          (5 + 3 * k)
          (fresh_run {port = port} goal_id goal_text memory)
  outcome pos =
      let k = min (m - 1) max_retries in
      let count : suc (suc (suc (suc (steps_left k)))) ≡ 5 + 3 * k =
        omega (arith, steps_left_lem k) in
      subst
        (λ n.
          Leads (default_limits recall max_retries m) (Ended (leb m (max_retries + 1)) k) n
            (fresh_run {port = port} goal_id goal_text memory))
        count
        (outcome_at (leb m (max_retries + 1)) k (last_judgement _ k refl refl pos) (omega arith)
          (omega arith))
