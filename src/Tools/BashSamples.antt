-- ===== src/Tools/BashSamples.antt =====
-- The theorems on the bash tool at concrete inputs.
use computer_use_orchestrato.Prelude.{
  ℕ, suc, ◌<◌, String, ◌≡◌, refl, ◌⊎◌, true, false, none, some, List, [], ◌∷◌, ◌++◌, after_prefix,
}
use computer_use_orchestrato.Tools.Base.{returned, tool_error}
use computer_use_orchestrato.Tools.Text.{cut}
use computer_use_orchestrato.Tools.Bash.{
  Shell, timeout_message, BashSession, cli_result, BashCall, without_newline, run, call_all,
}
use computer_use_orchestrato.Tools.Bash.Answers.{LacksSentinel, polled, shown, Found, run_cases}
use computer_use_orchestrato.Tools.Bash.Timeouts.{refusals, call_all-timed_out}

-- A machine that notes what is written, and shows the sentinel.
abbrev echo : Shell (List String)
echo = record {
  spawn = λ w. (w, 7);
  returncode = λ p w. none;
  terminate = λ p w. w;
  send = λ p text w. w ++ text ∷ [];
  poll = λ p w. (w, "hello\n<<exit>>\n");
  stderr = λ p w. "";
  clear = λ p w. w;
}

abbrev session : BashSession
session = record { process = some 7; timed_out = false }

abbrev late : BashSession
late = record { process = some 7; timed_out = true }

abbrev sent : List String
sent = "echo hello; echo '<<exit>>'\n" ∷ []

-- What is returned has no newline at its end.
returns : run echo 600 session "echo hello" [] ≡ (
  sent,
  session,
  returned (record { output = some "hello"; error = some ""; base64_image = none; system = none }),
)
unfolding run cut after_prefix without_newline
returns = refl

run_cases_example :
    ((k : ℕ) × (before : String) × (k < 600)
      × Found echo 7 k sent before
      × (run echo 600 session "echo hello" []
          ≡ (polled echo 7 (suc k) sent, session, returned (cli_result before ""))))
    ⊎ (((j : ℕ) → j < 600 → LacksSentinel (shown echo 7 j sent))
        × (run echo 600 session "echo hello" []
            ≡ (polled echo 7 600 sent, late, tool_error timeout_message)))
run_cases_example = run_cases echo 7 600 "echo hello" [] refl

abbrev two_calls : List BashCall
two_calls =
    record { command = some "ls"; restart = false }
    ∷ record { command = none; restart = false }
    ∷ []

call_all-timed_out_example :
    call_all echo 600 two_calls (some late) [] ≡ ([], some late, refusals none two_calls)
call_all-timed_out_example = call_all-timed_out echo 600 7 two_calls [] (refl, (refl, tt))
