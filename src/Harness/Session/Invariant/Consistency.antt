-- ===== src/Harness/Session/Invariant/Consistency.antt =====
-- The agreement of the trace of harness/session_harness.py with its loop state.
use mathlib.Core.List.{map-append}
use computer_use_orchestrato.Prelude.{
  map, none, sym, ◌∙◌, ◌++◌, is_empty, Bool-cases, inl, inr, ◌≤◌, String, ◌≡◌, refl, ap, Option,
  some, List, [], ◌∷◌, arith, length, length-append,
}
use computer_use_orchestrato.Json.{Json, null, str, obj, Fields, end, field}
use computer_use_orchestrato.Harness.Loop.{
  AgentLoopState, Observation, Evidence, record_action, record_observation, record_evidence,
  record_escalation, new_state, set_plan,
}
use computer_use_orchestrato.Harness.Traces.{
  TraceStore, finish, trace_observation, trace_tool_event, new_trace, trace_action,
}
use computer_use_orchestrato.Harness.Budgets.{SessionBudgets}
use computer_use_orchestrato.Harness.Session.{
  SessionHarness, ensure_action, latest_action_id, record_observation_event, record_evidence_event,
  record_error, evaluate, finish_done, handle_kind, count_usage, write_trace, on_worker_event, emit,
}
use computer_use_orchestrato.Harness.Session.Events.{
  EventKind, watched, done, error, other, kind_of, summarize_event,
}
use computer_use_orchestrato.Harness.Session.Creation.{create}

abbrev pub text_or_null : Option String → Json
text_or_null none = null
text_or_null (some text) = str text

-- What a trace lists of an observation.
abbrev pub observation_item : Observation → Fields
observation_item o =
    field "action_id" (str o.action_id)
      (field "summary" (str o.summary) (field "raw_event_type" (text_or_null o.raw_event_type) end))

listed :
    {A B : Type 0} (f : A → B) (xs : List A) (ys : List B) (x : A)
    → ys ≡ map f xs
    → ys ++ f x ∷ [] ≡ map f (xs ++ x ∷ [])
listed f xs ys x h = ap (λ l. l ++ f x ∷ []) h ∙ sym (map-append f xs (x ∷ []))

abbrev pub artifact_of : Evidence → Option String
artifact_of e = e.artifact_id

-- At most one action and one piece of evidence, and the trace lists the observations of the loop state
-- and the paths of its evidence.
pub record IsConsistent (h : SessionHarness) : Type 0 where
  pub one_action : length h.state.actions ≤ 1
  pub one_evidence : length h.state.evidence ≤ 1
  pub same_observations : h.trace.observations ≡ map observation_item h.state.observations
  pub same_evidence : map some h.trace.evidence_paths ≡ map artifact_of h.state.evidence
  pub same_session : h.trace.session_id ≡ h.session_id

module _ (repr : Json → String) where
  -- An action is added where there was none, and nothing else changes.
  pub ensure_action_keeps :
      (s : AgentLoopState)
      → length s.actions ≤ 1
      → (length (ensure_action s).actions ≤ 1)
        × ((ensure_action s).observations ≡ s.observations)
        × ((ensure_action s).evidence ≡ s.evidence)
  unfolding ensure_action record_action
  ensure_action_keeps s h = elim (Bool-cases (is_empty s.actions)) [
    | inl none_yet ↦ rw none_yet (ground (arith, length-append s.actions), refl, refl)
    | inr some_there ↦ rw some_there (h, refl, refl)
  ]

  record_observation_event-IsConsistent :
      (h : SessionHarness) (name : String) (d : Fields)
      → IsConsistent h
      → IsConsistent (record_observation_event repr h name d)
  unfolding record_observation_event record_observation trace_observation
  record_observation_event-IsConsistent h name d c =
      let (one, observations, evidence) = ensure_action_keeps h.state c.one_action in
      let same : h.trace.observations ≡ map observation_item (ensure_action h.state).observations =
        c.same_observations ∙ ap (map observation_item) (sym observations) in
      record {
        one_action = one;
        one_evidence = rw evidence c.one_evidence;
        same_observations =
            listed observation_item (ensure_action h.state).observations _
              (record {
                action_id = latest_action_id (ensure_action h.state).actions;
                summary = summarize_event repr name d;
                raw_event_type = some name;
                metadata = field "session_id" (str h.session_id) end;
              })
              same;
        same_evidence = c.same_evidence ∙ ap (map artifact_of) (sym evidence);
        same_session = c.same_session;
      }

  record_evidence_event-IsConsistent :
      (h : SessionHarness) (name : String) (d : Fields)
      → IsConsistent h
      → IsConsistent (record_evidence_event repr h name d)
  unfolding record_evidence_event record_evidence
  record_evidence_event-IsConsistent h name d c = elim (Bool-cases (is_empty h.state.evidence)) [
    | inl none_yet ↦ rw none_yet (record {
      one_action = c.one_action;
      one_evidence = ground (arith, length-append h.state.evidence);
      same_observations = c.same_observations;
      same_evidence =
          map-append some h.trace.evidence_paths _
          ∙ listed artifact_of h.state.evidence (map some h.trace.evidence_paths) _ c.same_evidence;
      same_session = c.same_session;
    })
    | inr some_there ↦ rw some_there c
  ]

  record_error-IsConsistent :
      (h : SessionHarness) (d : Fields) → IsConsistent h → IsConsistent (record_error repr h d)
  unfolding record_error record_escalation finish emit
  record_error-IsConsistent h d c = ground arith

  evaluate-IsConsistent : (h : SessionHarness) → IsConsistent h → IsConsistent (evaluate h)
  unfolding evaluate emit
  evaluate-IsConsistent h c = ground arith

  pub handle_kind-IsConsistent :
      (k : EventKind) (h : SessionHarness) (name : String) (d : Fields)
      → IsConsistent h
      → IsConsistent (handle_kind repr k h name d)
  unfolding handle_kind finish_done emit finish
  handle_kind-IsConsistent watched h name d c = record_observation_event-IsConsistent h name d c
  handle_kind-IsConsistent done h name d c = ground (
    arith,
    evaluate-IsConsistent (record_evidence_event repr h name d)
        (record_evidence_event-IsConsistent h name d c),
  )
  handle_kind-IsConsistent error h name d c = record_error-IsConsistent h d c
  handle_kind-IsConsistent other h name d c = c

  pub on_worker_event-IsConsistent :
      (h : SessionHarness) (name : String) (d : Fields)
      → IsConsistent h
      → IsConsistent (on_worker_event repr h name d)
  unfolding on_worker_event count_usage write_trace trace_tool_event
  on_worker_event-IsConsistent h name d c =
      let noted = record h {
        trace = trace_tool_event h.trace (field "event_type" (str name) (field "data" (obj d) end));
      } in
      ground (arith, handle_kind-IsConsistent (kind_of name) noted name d (ground arith))

  pub create-IsConsistent :
      (session_id goal_text : String) (budgets : Option SessionBudgets) (store : TraceStore)
      → IsConsistent (create session_id goal_text budgets store)
  unfolding create write_trace emit new_state set_plan new_trace trace_action
  create-IsConsistent session_id goal_text budgets store = ground arith
