-- ===== src/Tools/Bash/Answers.antt =====
-- What a command in the shell of computer_use_demo/tools/bash.py ends in: `run`.
use Prim.Native.String.{count}
use computer_use_orchestrato.Prelude.{
  ℕ, zero, suc, ◌≤◌, ◌<◌, String, ◌<>◌, ◌≡◌, ◌≢◌, refl, ap, ◌⊎◌, inl, inr, true, false, none, some,
  Option, arith, Option-cases,
}
use computer_use_orchestrato.Tools.Base.{returned, tool_error}
use computer_use_orchestrato.Tools.Text.{cut}
use computer_use_orchestrato.Tools.Text.Pieces.{cut-some, cut-first, cut-none}
use computer_use_orchestrato.Tools.Bash.{
  Shell, sentinel, timeout_message, BashSession, cli_result, await_sentinel, answer, run_alive, run,
}

-- The text stands before the first sentinel of an output.
abbrev pub IsBefore : String → String → Type 0
IsBefore before output =
    ((behind : String) × (output ≡ before <> (sentinel <> behind)))
    × ((x y : String) → output ≡ x <> (sentinel <> y) → count before ≤ count x)

-- The output has no sentinel.
abbrev pub LacksSentinel : String → Type 0
LacksSentinel output = (x y : String) → output ≢ x <> (sentinel <> y)

module _ {W : Type 0} (shell : Shell W) (p : ℕ) where
  open shell use {poll, send, stderr, clear}

  -- The machine after this many looks at the output, and what the next look shows.
  abbrev pub polled : ℕ → W → W
  polled zero w = w
  polled (suc n) w = polled n (poll p w).0

  abbrev pub shown : ℕ → W → String
  shown n w = (poll p (polled n w)).1

  -- A look finds the sentinel, and none of the looks before it did.
  abbrev pub Found : ℕ → W → String → Type 0
  Found k w before = IsBefore before (shown k w) × ((j : ℕ) → j < k → LacksSentinel (shown j w))

  abbrev Awaited : ℕ → W → W × Option String → Type 0
  Awaited n w r =
      ((k : ℕ) × (before : String) × (k < n)
        × Found k w before
        × (r ≡ (polled (suc k) w, some before)))
      ⊎ (((j : ℕ) → j < n → LacksSentinel (shown j w)) × (r ≡ (polled n w, none)))

  lacks-suc :
      (n : ℕ) (w : W)
      → LacksSentinel (shown 0 w)
      → ((j : ℕ) → j < n → LacksSentinel (shown j (poll p w).0))
      → (j : ℕ) → j < suc n
      → LacksSentinel (shown j w)
  lacks-suc n w first rest zero h = first
  lacks-suc n w first rest (suc j) h = rest j (omega arith)

  later :
      (n : ℕ) (w : W) {r : W × Option String}
      → LacksSentinel (shown 0 w)
      → Awaited n (poll p w).0 r
      → Awaited (suc n) w r
  later n w first (inl (k, before, h, (is_before, none_before), r_is)) =
      inl (suc k, before, omega arith, (is_before, lacks-suc k w first none_before), r_is)
  later n w first (inr (none_found, r_is)) = inr (lacks-suc n w first none_found, r_is)

  await_sentinel-Awaited : (n : ℕ) (w : W) → Awaited n w (await_sentinel shell n p w)
  unfolding await_sentinel
  await_sentinel-Awaited zero w = inr ((λ j h. absurd (omega arith)), refl)
  await_sentinel-Awaited (suc n) w = elim (Option-cases (cut sentinel (poll p w).1)) [
    | inr ((before, behind), found) ↦
        rw (found, await_sentinel)
          (inl (
            0,
            before,
            omega arith,
            (
              (
                (behind, cut-some sentinel _ before behind found),
                (λ x y. cut-first sentinel _ before behind x y found),
              ),
              (λ j h. absurd (omega arith)),
            ),
            refl,
          ))
    | inl missing ↦
        let first : LacksSentinel (poll p w).1 = λ x y. cut-none sentinel _ x y refl missing in
        rw (missing, await_sentinel) (later n w first (await_sentinel-Awaited n (poll p w).0))
  ]

  -- In a session that has not timed out, with a process that lives: the command is sent, and if one of
  -- the looks at the output that the timeout allows shows a sentinel, the first that does ends the call
  -- with the text before its first sentinel and what is in the buffer of the errors, each without a
  -- newline at its end, and clears the buffers; if none of them does, the call is a `ToolError` and the
  -- session has timed out.
  pub run_cases :
      (polls : ℕ) (command : String) (w : W)
      → shell.returncode p w ≡ none
      → let s : BashSession = record { process = some p; timed_out = false } in
        let sent = send p (command <> "; echo '<<exit>>'\n") w in
        ((k : ℕ) × (before : String) × (k < polls)
          × Found k sent before
          × (let end = polled (suc k) sent in
              run shell polls s command w
              ≡ (clear p end, s, returned (cli_result before (stderr p end)))))
        ⊎ (((j : ℕ) → j < polls → LacksSentinel (shown j sent))
            × (run shell polls s command w
                ≡ (polled polls sent, record s { timed_out = true }, tool_error timeout_message)))
  unfolding run run_alive
  run_cases polls command w alive =
      let s : BashSession = record { process = some p; timed_out = false } in
      let sent = send p (command <> "; echo '<<exit>>'\n") w in
      elim (await_sentinel-Awaited polls sent) [
        | inl (k, before, h, found, r_is) ↦
            inl (k, before, h, found, rw (alive, run) (ap (answer shell s p) r_is))
        | inr (none_found, r_is) ↦ inr (none_found, rw (alive, run) (ap (answer shell s p) r_is))
      ]
