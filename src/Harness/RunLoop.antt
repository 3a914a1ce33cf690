-- ===== src/Harness/RunLoop.antt =====
-- harness/runner.py: `run_loop`, from the checkpoint that it finds to the one that it leaves. A signal
-- comes after a given number of iterations and ends the loop before the next; a loop without a greatest
-- number of iterations that gets no signal does not end. `now` is the clock before each save, by its
-- number, and `stamp` the time in the name of a corrupt checkpoint.
pub mod Resume
use computer_use_orchestrato.Prelude.{
  ℕ, zero, suc, ◌+◌, String, Bool, true, Option, none, some, [], ltb, if◌then◌else◌,
}
use computer_use_orchestrato.Harness.Loop.{AgentLoopState}
use computer_use_orchestrato.Harness.Runner.{Port, Run, Limits, create_state, advance_state}
use computer_use_orchestrato.Harness.Checkpoint.{
  Files, Loaded, absent, loaded, corrupted, raised, save_checkpoint, load_checkpoint,
}

-- `max_iterations is None or iterations < max_iterations`
abbrev pub is_below : Option ℕ → ℕ → Bool
is_below none iterations = true
is_below (some most) iterations = ltb iterations most

-- The state that the loop starts from.
abbrev pub first_state : String → String → Loaded → Option AgentLoopState
first_state goal_id goal_text absent = some (create_state goal_id goal_text)
first_state goal_id goal_text corrupted = some (create_state goal_id goal_text)
first_state goal_id goal_text (loaded s) = some s
first_state goal_id goal_text (raised e) = none

module _ {port : Port} (limits : Limits) (now : ℕ → String) where
  -- The files after a step, and the run; `none` where the step raised.
  abbrev pub saved : ℕ → Option (Run port) → Files → Files × Option (Run port)
  saved iterations none files = (files, none)
  saved iterations (some r) files = (save_checkpoint (now iterations) r.state files, some r)

  abbrev pub next :
      (Run port → Files → Files × Option (Run port))
      → Files × Option (Run port)
      → Files × Option (Run port)
  next f (files, none) = (files, none)
  next f (files, some r) = f r files

  -- The `while`, for as many iterations as come before the signal, with the last save behind it.
  unfoldable pub iterate : ℕ → Option ℕ → ℕ → Run port → Files → Files × Option (Run port)
  unfolding advance_state save_checkpoint
  iterate zero most iterations r files = saved iterations (some r) files
  iterate (suc left) most iterations r files =
      let stepped = saved iterations (advance_state limits r) files in
      let rest = next (iterate left most (iterations + 1)) stepped in
      if is_below most iterations then rest else saved iterations (some r) files

  abbrev pub started :
      Option port.Memory → ℕ → Option ℕ → Files × Option AgentLoopState → Files × Option (Run port)
  started memory signal_after most (files, none) = (files, none)
  started memory signal_after most (files, some s) =
      iterate signal_after most 0 (record { state = s; memory = memory; signatures = some [] })
        files

  -- `run_loop`; the run that it ends with is `none` if it raises.
  unfoldable pub run_loop :
      String
      → String
      → Option port.Memory
      → ℕ
      → Option ℕ
      → String
      → Files
      → Files × Option (Run port)
  unfolding iterate load_checkpoint create_state
  run_loop goal_id goal_text memory signal_after most stamp files =
      let (files', found) = load_checkpoint goal_id stamp files in
      started memory signal_after most (files', first_state goal_id goal_text found)
