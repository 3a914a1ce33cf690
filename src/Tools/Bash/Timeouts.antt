-- ===== src/Tools/Bash/Timeouts.antt =====
-- The calls of computer_use_demo/tools/bash.py on a session that has timed out.
use computer_use_orchestrato.Prelude.{
  ℕ, String, ◌≡◌, refl, inl, inr, true, false, Option, none, some, List, [], ◌∷◌, Option-cases,
}
use computer_use_orchestrato.Tools.Base.{Outcome, returned, tool_error}
use computer_use_orchestrato.Tools.Bash.{
  Shell, timeout_message, BashSession, exited, BashCall, run, run_alive, run_opened, opened, call,
  call_all,
}

-- The calls are no restarts.
abbrev pub NoRestart : List BashCall → Type 0
NoRestart [] = Unit
NoRestart (c ∷ calls) = (c.restart ≡ false) × NoRestart calls

-- What a call without a restart ends in when the session of this process has timed out.
abbrev pub refusal : Option String → Option String → Outcome
refusal returncode none = tool_error "no command provided."
refusal none (some command) = tool_error timeout_message
refusal (some code) (some command) = returned (exited code)

abbrev pub refusals : Option String → List BashCall → List Outcome
refusals returncode [] = []
refusals returncode (c ∷ calls) = refusal returncode c.command ∷ refusals returncode calls

module _ {W : Type 0} (shell : Shell W) (polls : ℕ) (p : ℕ) where
  abbrev stale : BashSession
  stale = record { process = some p; timed_out = true }

  run_opened-stale :
      (command : Option String) (w : W)
      → run_opened shell polls command (w, stale)
        ≡ (w, some stale, refusal (shell.returncode p w) command)
  unfolding run_opened run run_alive
  run_opened-stale none w = refl
  run_opened-stale (some command) w = elim (Option-cases (shell.returncode p w)) [
    | inl alive ↦ rw (alive, run)
    | inr (code, ended) ↦ rw (ended, run)
  ]

  -- When a session has timed out, then as long as the agent does not restart the tool, its calls send
  -- nothing to the shell, change neither the machine nor the session, and return no output: each is a
  -- `ToolError`, or says that the tool must be restarted.
  pub call_all-timed_out :
      (calls : List BashCall) (w : W)
      → NoRestart calls
      → call_all shell polls calls (some stale) w
        ≡ (w, some stale, refusals (shell.returncode p w) calls)
  unfolding call_all call opened
  call_all-timed_out [] w h = refl
  call_all-timed_out (c ∷ calls) w (no_restart, h) =
      rw (no_restart, run_opened-stale c.command w, call_all-timed_out calls w h)
