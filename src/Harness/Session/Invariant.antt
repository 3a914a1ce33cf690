-- ===== src/Harness/Session/Invariant.antt =====
-- What holds of a session's harness after any worker events.
pub mod Consistency
use mathlib.Core.List.{map-append, append-nil, append_assoc}
use computer_use_orchestrato.Prelude.{
  if◌then◌else◌, true, false, map, sym, ◌∙◌, ◌++◌, Bool, select, ◌==◌, ◌||◌, Bool-cases, inl, inr,
  ◌≤◌, String, ◌≡◌, refl, ap, Option, some, List, [], ◌∷◌, arith, length, eq_refl,
}
use computer_use_orchestrato.Json.{Json, str, obj, Fields, end, field}
use computer_use_orchestrato.Harness.Loop.{
  Observation, record_action, record_observation, record_evidence, record_escalation, new_state,
  set_plan,
}
use computer_use_orchestrato.Harness.Traces.{
  TraceStore, read, write, finish, trace_observation, trace_tool_event, new_trace, trace_action,
}
use computer_use_orchestrato.Harness.Budgets.{SessionBudgets}
use computer_use_orchestrato.Harness.Session.{
  SessionHarness, ensure_action, record_observation_event, record_evidence_event, record_error,
  evaluate, finish_done, handle_kind, count_usage, write_trace, on_worker_event, emit,
}
use computer_use_orchestrato.Harness.Session.Events.{
  EventKind, watched, done, error, other, kind_of, summarize_event,
}
use computer_use_orchestrato.Harness.Session.Creation.{create}
use computer_use_orchestrato.Harness.Session.Invariant.Consistency.{
  IsConsistent, ensure_action_keeps, handle_kind-IsConsistent, on_worker_event-IsConsistent,
  create-IsConsistent,
}

-- What a trace lists of an event.
abbrev pub event_item : String × Fields → Fields
event_item (name, d) = field "event_type" (str name) (field "data" (obj d) end)

-- The events that the harness makes an observation of.
abbrev pub is_watched : String × Fields → Bool
is_watched (name, d) =
    name == "assistant_block"
    || (name == "tool_result" || (name == "screenshot" || name == "user_message"))

-- What an observation says of its event.
abbrev pub said : Observation → String × Option String
said o = (o.summary, o.raw_event_type)

-- The file of the session holds the trace as it stands.
abbrev pub IsStored : SessionHarness → Type 0
IsStored h = read h.trace_store h.session_id ≡ some h.trace

module _ (repr : Json → String) where
  -- Handling an event leaves the ids, the store and the list of worker events alone.
  handle_kind_keeps :
      (k : EventKind) (h : SessionHarness) (name : String) (d : Fields)
      → let h' = handle_kind repr k h name d in
        (h'.session_id ≡ h.session_id)
        × (h'.trace_store ≡ h.trace_store)
        × (h'.trace.tool_events ≡ h.trace.tool_events)
  unfolding handle_kind record_observation_event ensure_action record_action record_observation
      trace_observation finish_done record_evidence_event record_evidence evaluate record_error
      record_escalation finish emit
  handle_kind_keeps watched h name d = (refl, refl, refl)
  handle_kind_keeps done h name d = ground arith
  handle_kind_keeps error h name d = (refl, refl, refl)
  handle_kind_keeps other h name d = (refl, refl, refl)

  write_trace-IsStored :
      (h : SessionHarness) → h.trace.session_id ≡ h.session_id → IsStored (write_trace h)
  unfolding write_trace read write
  write_trace-IsStored h e = rw e (simp eq_refl)

  on_worker_event-IsStored :
      (h : SessionHarness) (name : String) (d : Fields)
      → IsConsistent h
      → IsStored (on_worker_event repr h name d)
  unfolding on_worker_event count_usage trace_tool_event
  on_worker_event-IsStored h name d c =
      let noted = record h {
        trace = trace_tool_event h.trace (field "event_type" (str name) (field "data" (obj d) end));
      } in
      write_trace-IsStored (count_usage (handle_kind repr (kind_of name) noted name d))
        (handle_kind-IsConsistent repr (kind_of name) noted name d (ground arith)).same_session

  tool_events-on_worker_event :
      (h : SessionHarness) (event : String × Fields)
      → (on_worker_event repr h event.0 event.1).trace.tool_events
        ≡ h.trace.tool_events ++ event_item event ∷ []
  unfolding on_worker_event count_usage write_trace trace_tool_event
  tool_events-on_worker_event h (name, d) =
      let noted = record h { trace = trace_tool_event h.trace (event_item (name, d)) } in
      rw (handle_kind_keeps (kind_of name) noted name d).2 refl

  -- What an observation is to say of an event that is watched.
  abbrev pub noted : String × Fields → String × Option String
  noted (name, d) = (summarize_event repr name d, some name)

  -- What an event of this kind adds to what the observations say.
  abbrev added : EventKind → String × Fields → List (String × Option String)
  added watched event = noted event ∷ []
  added done event = []
  added error event = []
  added other event = []

  observations-finish_done :
      (h : SessionHarness) (name : String) (d : Fields)
      → (finish_done repr h name d).state.observations ≡ h.state.observations
  unfolding finish_done record_evidence_event record_evidence evaluate finish emit
  observations-finish_done h name d = ground arith

  said-handle_kind :
      (k : EventKind) (h : SessionHarness) (name : String) (d : Fields)
      → length h.state.actions ≤ 1
      → map said (handle_kind repr k h name d).state.observations
        ≡ map said h.state.observations ++ added k (name, d)
  unfolding handle_kind record_observation_event record_observation record_error record_escalation
      finish emit
  said-handle_kind watched h name d one =
      let (_, observations, _) = ensure_action_keeps repr h.state one in
      map-append said (ensure_action h.state).observations _
      ∙ ap (λ os. map said os ++ noted (name, d) ∷ []) observations
  said-handle_kind done h name d one =
      ap (map said) (observations-finish_done h name d) ∙ sym (append-nil _)
  said-handle_kind error h name d one = sym (append-nil _)
  said-handle_kind other h name d one = sym (append-nil _)

  kind_of-watched :
      (name : String) (d : Fields) → is_watched (name, d) ≡ true → kind_of name ≡ watched
  kind_of-watched name d h = ground arith

  kind_of-others :
      (name : String) (d : Fields)
      → is_watched (name, d) ≡ false
      → kind_of name ≡ (if name == "done" then done else if name == "error" then error else other)
  kind_of-others name d h = ground arith

  added-others :
      (a b : Bool) (event : String × Fields)
      → added (if a then done else if b then error else other) event ≡ []
  added-others true b event = refl
  added-others false true event = refl
  added-others false false event = refl

  added-kind_of :
      (name : String) (d : Fields)
      → added (kind_of name) (name, d) ≡ map noted (select is_watched ((name, d) ∷ []))
  added-kind_of name d = elim (Bool-cases (is_watched (name, d))) [
    | inl yes_watched ↦ rw (yes_watched, kind_of-watched name d yes_watched) refl
    | inr no_watched ↦ rw (no_watched, kind_of-others name d no_watched) (added-others _ _ _)
  ]

  -- The events of a worker, in order.
  abbrev pub run_events : SessionHarness → List (String × Fields) → SessionHarness
  run_events h [] = h
  run_events h ((name, d) ∷ rest) = run_events (on_worker_event repr h name d) rest

  create-IsStored :
      (session_id goal_text : String) (budgets : Option SessionBudgets) (store : TraceStore)
      → IsStored (create session_id goal_text budgets store)
  unfolding create write_trace read write new_trace trace_action emit
  create-IsStored session_id goal_text budgets store = simp eq_refl

  observations-create :
      (session_id goal_text : String) (budgets : Option SessionBudgets) (store : TraceStore)
      → (create session_id goal_text budgets store).state.observations ≡ []
  unfolding create write_trace new_state set_plan emit
  observations-create session_id goal_text budgets store = refl

  tool_events-create :
      (session_id goal_text : String) (budgets : Option SessionBudgets) (store : TraceStore)
      → (create session_id goal_text budgets store).trace.tool_events ≡ []
  unfolding create write_trace new_trace trace_action emit
  tool_events-create session_id goal_text budgets store = refl

  said-on_worker_event :
      (h : SessionHarness) (event : String × Fields)
      → length h.state.actions ≤ 1
      → map said (on_worker_event repr h event.0 event.1).state.observations
        ≡ map said h.state.observations ++ map noted (select is_watched (event ∷ []))
  unfolding on_worker_event count_usage write_trace trace_tool_event
  said-on_worker_event h (name, d) one =
      said-handle_kind (kind_of name)
        (record h { trace = trace_tool_event h.trace (event_item (name, d)) }) name d one
      ∙ ap (λ l. map said h.state.observations ++ l) (added-kind_of name d)

  noted-cons :
      (event : String × Fields) (rest : List (String × Fields))
      → map noted (select is_watched (event ∷ [])) ++ map noted (select is_watched rest)
        ≡ map noted (select is_watched (event ∷ rest))
  noted-cons event rest = elim (Bool-cases (is_watched event)) [
    | inl yes_watched ↦ rw yes_watched refl
    | inr no_watched ↦ rw no_watched refl
  ]

  -- What the trace and the observations say once these events are handled.
  Tells : SessionHarness → List (String × Fields) → SessionHarness → Type 0
  Tells h events h' =
      (h'.trace.tool_events ≡ h.trace.tool_events ++ map event_item events)
      × (map said h'.state.observations
          ≡ map said h.state.observations ++ map noted (select is_watched events))

  run_events_keeps :
      (h : SessionHarness) (events : List (String × Fields))
      → IsConsistent h
      → IsStored h
      → IsConsistent (run_events h events)
        × IsStored (run_events h events)
        × Tells h events (run_events h events)
  unfolding Tells
  run_events_keeps h [] c st = (c, st, (sym (append-nil _), sym (append-nil _)))
  run_events_keeps h ((name, d) ∷ rest) c st =
      let h' = on_worker_event repr h name d in
      let (c', st', (events, observations)) =
        run_events_keeps h' rest (on_worker_event-IsConsistent repr h name d c)
          (on_worker_event-IsStored h name d c) in
      (
        c',
        st',
        (
          events
              ∙ ap (λ l. l ++ map event_item rest) (tool_events-on_worker_event h (name, d))
              ∙ append_assoc h.trace.tool_events _ _,
          observations
              ∙ ap (λ l. l ++ map noted (select is_watched rest))
                  (said-on_worker_event h (name, d) c.one_action)
              ∙ append_assoc (map said h.state.observations) _ _
              ∙ ap (λ l. map said h.state.observations ++ l) (noted-cons (name, d) rest),
        ),
      )

  -- After any events of its worker, a new session's harness has at most one action and one piece
  -- of evidence. Its trace lists every event with its data, in order; the action, the summary and
  -- the type of each observation of the loop state; and the path of each piece of its evidence.
  -- The observations are those of the watched events, in order, each with the summary and the type
  -- of its event. The stored file is the trace as it stands.
  pub run_events-create :
      (session_id goal_text : String) (budgets : Option SessionBudgets) (store : TraceStore)
      (events : List (String × Fields))
      → let h = run_events (create session_id goal_text budgets store) events in
        IsConsistent h
        × IsStored h
        × (h.trace.tool_events ≡ map event_item events)
        × (map said h.state.observations ≡ map noted (select is_watched events))
  unfolding Tells
  run_events-create session_id goal_text budgets store events =
      let (c, st, (listed_events, observations)) =
        run_events_keeps _ events (create-IsConsistent repr session_id goal_text budgets store)
          (create-IsStored session_id goal_text budgets store) in
      (
        c,
        st,
        listed_events
            ∙ ap (λ l. l ++ map event_item events)
                (tool_events-create session_id goal_text budgets store),
        observations
            ∙ ap (λ l. map said l ++ map noted (select is_watched events))
                (observations-create session_id goal_text budgets store),
      )
