-- ===== src/Tools/Bash.antt =====
-- computer_use_demo/tools/bash.py: the session of a shell and the calls of the tool. `W` is the state of
-- the machine and a process is known by a number. `polls` is the number of times that the loop
-- of `run` looks at the output before its timeout. The buffers hold UTF-8, and a pipe takes what is
-- written to it.
pub mod Answers
pub mod Timeouts
use Prim.Native.Char.{code}
use computer_use_orchestrato.Prelude.{
  ℕ, zero, suc, String, ◌<>◌, Bool, true, false, Option, none, some, List, [], ◌∷◌, nat_eq,
  if◌then◌else◌,
}
use computer_use_orchestrato.Tools.Base.{ToolResult, no_result, Outcome, returned, tool_error}
use computer_use_orchestrato.Tools.Text.{cut}

-- What the session asks of the machine: a new process; its return code, printed, once it has ended; its
-- termination; a write to its input; what is in the buffer of its output after one delay more; what is
-- in that of its errors; and the clearing of both.
pub record Shell (W : Type 0) : Type 0 where
  pub spawn : W → W × ℕ
  pub returncode : ℕ → W → Option String
  pub terminate : ℕ → W → W
  pub send : ℕ → String → W → W
  pub poll : ℕ → W → W × String
  pub stderr : ℕ → W → String
  pub clear : ℕ → W → W

abbrev pub sentinel : String
sentinel = "<<exit>>"

abbrev pub timeout_message : String
timeout_message = "timed out: bash has not returned in 120.0 seconds and must be restarted"

-- `_BashSession`; it has its process when `_started` is set.
pub record BashSession : Type 0 where
  pub process : Option ℕ
  pub timed_out : Bool

abbrev pub new_session : BashSession
new_session = record { process = none; timed_out = false }

-- A text without the newline at its end.
unfoldable pub without_newline : String → String
without_newline String.[] = ""
without_newline (String.◌∷◌ c String.[]) = if nat_eq (code c) 10 then "" else String.◌∷◌ c ""
without_newline (String.◌∷◌ c (String.◌∷◌ d s)) = String.◌∷◌ c (without_newline (String.◌∷◌ d s))

-- The result of a command, by its output before the sentinel and its errors.
abbrev pub cli_result : String → String → ToolResult
cli_result output error = record no_result {
  output = some (without_newline output);
  error = some (without_newline error);
}

abbrev pub exited : String → ToolResult
exited returncode = record no_result {
  system = some "tool must be restarted";
  error = some ("bash has exited with returncode " <> returncode);
}

-- A call of the tool: a command, if one is given, and whether it is a restart.
pub record BashCall : Type 0 where
  pub command : Option String
  pub restart : Bool

module _ {W : Type 0} (shell : Shell W) where
  open shell use {spawn, returncode, terminate, poll, stderr, clear}

  -- `_BashSession.start`
  unfoldable pub start : BashSession → W → W × BashSession
  start s w = elim s.process [
    | some p ↦ (w, s)
    | none ↦ let (w', p) = spawn w in (w', record s { process = some p })
  ]

  -- `_BashSession.stop`, with its error
  unfoldable pub stop : BashSession → W → W × Option String
  stop s w = elim s.process [
    | none ↦ (w, some "Session has not started.")
    | some p ↦ elim (returncode p w) [ some code ↦ (w, none) | none ↦ (terminate p w, none) ]
  ]

  -- The loop that reads the output until the sentinel is found, with the text before it.
  unfoldable pub await_sentinel : ℕ → ℕ → W → W × Option String
  await_sentinel zero p w = (w, none)
  await_sentinel (suc left) p w =
      let (w', output) = poll p w in
      elim (cut sentinel output) [
        | some (before, behind) ↦ (w', some before)
        | none ↦ await_sentinel left p w'
      ]

  abbrev pub answer : BashSession → ℕ → W × Option String → W × BashSession × Outcome
  answer s p (w, none) = (w, record s { timed_out = true }, tool_error timeout_message)
  answer s p (w, some output) = (clear p w, s, returned (cli_result output (stderr p w)))

  -- The new session of a restart.
  unfoldable pub fresh_session : W → W × Option BashSession × Outcome
  unfolding start
  fresh_session w =
      let (w', s) = start new_session w in
      (w', some s, returned (record no_result { system = some "tool has been restarted." }))

  unfoldable pub restart_session : Option BashSession → W → W × Option BashSession × Outcome
  unfolding stop fresh_session
  restart_session none w = fresh_session w
  restart_session (some s) w =
      let (w', error) = stop s w in
      elim error [ some message ↦ (w', some s, tool_error message) | none ↦ fresh_session w' ]

  unfoldable pub opened : Option BashSession → W → W × BashSession
  unfolding start
  opened (some s) w = (w, s)
  opened none w = start new_session w

module _ {W : Type 0} (shell : Shell W) (polls : ℕ) where
  open shell use {returncode, send}

  -- `run` in a process that has not ended
  unfoldable pub run_alive : BashSession → ℕ → String → W → W × BashSession × Outcome
  unfolding await_sentinel
  run_alive s p command w =
      if s.timed_out
      then (w, s, tool_error timeout_message)
      else answer shell s p
          (await_sentinel shell polls p (send p (command <> ("; echo '" <> (sentinel <> "'\n"))) w))

  -- `_BashSession.run`
  unfoldable pub run : BashSession → String → W → W × BashSession × Outcome
  unfolding run_alive
  run s command w = elim s.process [
    | none ↦ (w, s, tool_error "Session has not started.")
    | some p ↦ elim (returncode p w) [
      | some code ↦ (w, s, returned (exited code))
      | none ↦ run_alive s p command w
    ]
  ]

  abbrev pub kept : W × BashSession × Outcome → W × Option BashSession × Outcome
  kept (w, s, outcome) = (w, some s, outcome)

  unfoldable pub run_opened : Option String → W × BashSession → W × Option BashSession × Outcome
  unfolding run
  run_opened (some command) (w, s) = kept (run s command w)
  run_opened none (w, s) = (w, some s, tool_error "no command provided.")

  -- `BashTool20250124.__call__`
  unfoldable pub call : BashCall → Option BashSession → W → W × Option BashSession × Outcome
  unfolding restart_session opened run_opened
  call c session w =
      if c.restart
      then restart_session shell session w
      else run_opened c.command (opened shell session w)

  -- The calls of an agent in turn, with what each of them ended in.
  unfoldable pub call_all :
      List BashCall → Option BashSession → W → W × Option BashSession × List Outcome
  unfolding call
  call_all [] session w = (w, session, [])
  call_all (c ∷ calls) session w =
      let (w1, session1, outcome) = call c session w in
      let (w2, session2, outcomes) = call_all calls session1 w1 in
      (w2, session2, outcome ∷ outcomes)
