-- ===== src/Harness/Session/Outcome.antt =====
-- How a worker's last event settles the session: `done`, `error`, and the gates.
use computer_use_orchestrato.Prelude.{
  ◌+◌, String, ◌≡◌, ◌∙◌, length-snoc, ◌||◌, refl, Bool, true, false, ◌&&◌, none, some, [], arith,
  all, any, length, is_empty, any-append,
}
use computer_use_orchestrato.Json.{Json, Fields}
use computer_use_orchestrato.Harness.Loop.{
  LoopPhase, goal, plan, action, next_step, escalation, evaluation, observation, has_evidence,
  record_evidence, record_escalation,
}
use computer_use_orchestrato.Harness.Gates
use computer_use_orchestrato.Harness.Gates.{require_evidence, require_terminal_status, is_terminal}
use computer_use_orchestrato.Harness.Triggers.{HarnessEvent, agent_error, same_event}
use computer_use_orchestrato.Harness.Traces.{finish, trace_tool_event}
use computer_use_orchestrato.Harness.Session.{
  SessionHarness, record_evidence_event, record_error, evaluate, finish_done, handle_kind,
  count_usage, write_trace, on_worker_event, emit,
}
use computer_use_orchestrato.Harness.Session.Events.{summarize_event}

-- All gates of the last evaluation passed.
abbrev pub gates_passed : SessionHarness → Bool
gates_passed h = all (λ r. r.passed) h.eval_results

abbrev pub has_emitted : HarnessEvent → SessionHarness → Bool
has_emitted e h = any (λ item. same_event item.0 e) h.dispatcher.emitted

or_true : (b : Bool) → (b || true) ≡ true
or_true true = refl
or_true false = refl

-- The phases from evaluation on
abbrev pub is_late : LoopPhase → Bool
is_late goal = false
is_late plan = false
is_late action = false
is_late observation = false
is_late evaluation = true
is_late next_step = true
is_late escalation = true

is_terminal-is_late : (p : LoopPhase) → is_terminal p ≡ is_late p
is_terminal-is_late goal = refl
is_terminal-is_late plan = refl
is_terminal-is_late action = refl
is_terminal-is_late observation = refl
is_terminal-is_late evaluation = refl
is_terminal-is_late next_step = refl
is_terminal-is_late escalation = refl

module _ (repr : Json → String) where
  -- The first `done` of a session that has no evidence yet records the answer, passes every gate
  -- and ends the trace as completed.
  done_first :
      (h : SessionHarness) (d : Fields)
      → h.state.evidence ≡ []
      → let h' = on_worker_event repr h "done" d in
        (length h'.state.evidence ≡ 1)
        × (h'.state.phase ≡ evaluation)
        × (gates_passed h' ≡ true)
        × (h'.trace.final_status ≡ "completed")
        × (h'.trace.failure_reason ≡ none)
  unfolding on_worker_event handle_kind finish_done record_evidence_event record_evidence evaluate
      emit finish count_usage write_trace trace_tool_event Gates.evaluate require_evidence
      require_terminal_status has_evidence
  done_first h d e = rw e (refl, refl, refl, refl, refl)

  -- A later `done`, when some evidence is there, adds none and leaves the loop state alone. The
  -- trace ends as completed whatever the gates say, and they pass exactly when the loop stands in
  -- a phase from evaluation on and an answer is among the evidence.
  pub done_again :
      (h : SessionHarness) (d : Fields)
      → is_empty h.state.evidence ≡ false
      → let h' = on_worker_event repr h "done" d in
        (h'.state ≡ h.state)
        × (gates_passed h' ≡ has_evidence h.state (some "answer") && is_late h.state.phase)
        × (h'.trace.final_status ≡ "completed")
  unfolding on_worker_event handle_kind finish_done record_evidence_event evaluate emit finish
      count_usage write_trace trace_tool_event Gates.evaluate require_evidence
      require_terminal_status
  done_again h d e =
      rw e (ground arith, ground (arith, is_terminal-is_late h.state.phase), ground arith)

  -- After a second `done` that follows an observation, the trace says completed although a gate
  -- failed.
  pub done_completes_failed_gates :
      (h : SessionHarness) (d : Fields)
      → is_empty h.state.evidence ≡ false
      → h.state.phase ≡ observation
      → let h' = on_worker_event repr h "done" d in
        (gates_passed h' ≡ false) × (h'.trace.final_status ≡ "completed")
  done_completes_failed_gates h d e p =
      let (_, gates, status) = done_again h d e in (ground arith, status)

  -- An `error` event sends the loop to escalation with the worker's message as the reason, ends the
  -- trace as failed with it, and emits the agent error.
  error_escalates :
      (h : SessionHarness) (d : Fields)
      → let h' = on_worker_event repr h "error" d in
        (h'.state.phase ≡ escalation)
        × (length h'.state.escalations ≡ length h.state.escalations + 1)
        × (h'.trace.final_status ≡ "failed")
        × (h'.trace.failure_reason ≡ some (summarize_event repr "error" d))
        × (has_emitted agent_error h' ≡ true)
        × (h'.state.evidence ≡ h.state.evidence)
  unfolding on_worker_event handle_kind record_error record_escalation emit finish count_usage
      write_trace trace_tool_event
  error_escalates h d = (
    refl,
    length-snoc h.state.escalations _,
    refl,
    refl,
    any-append (λ item. same_event item.0 agent_error) h.dispatcher.emitted _ ∙ or_true _,
    refl,
  )
