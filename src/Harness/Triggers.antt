-- ===== src/Harness/Triggers.antt =====
-- harness/triggers.py: events and their handlers. A handler is a function of the rest of the
-- program's state `W`; it returns the state that it leaves and whether it returned or raised.
use computer_use_orchestrato.Prelude.{
  String, ◌≡◌, refl, Bool, true, false, Option, none, some, List, [], ◌∷◌, ◌++◌, ◌==◌, arith,
  if◌then◌else◌, Bool-cases, inl, inr,
}
use computer_use_orchestrato.Json.{Fields, end}

pub data HarnessEvent : Type 0 where
  session_created worker_ready budget_exceeded idle_timeout : HarnessEvent
  agent_error eval_failed session_finished : HarnessEvent

-- `HarnessEvent(text)`; `none` is the `ValueError`.
unfoldable pub parse_event : String → Option HarnessEvent
parse_event text =
    if text == "on_session_created"
    then some session_created
    else if text == "on_worker_ready"
    then some worker_ready
    else if text == "on_budget_exceeded"
    then some budget_exceeded
    else if text == "on_idle_timeout"
    then some idle_timeout
    else if text == "on_agent_error"
    then some agent_error
    else if text == "on_eval_failed"
    then some eval_failed
    else if text == "on_session_finished"
    then some session_finished
    else none

abbrev pub same_event : HarnessEvent → HarnessEvent → Bool
same_event session_created session_created = true
same_event worker_ready worker_ready = true
same_event budget_exceeded budget_exceeded = true
same_event idle_timeout idle_timeout = true
same_event agent_error agent_error = true
same_event eval_failed eval_failed = true
same_event session_finished session_finished = true
same_event _ _ = false

same_event_refl : (e : HarnessEvent) → same_event e e ≡ true
same_event_refl session_created = refl
same_event_refl worker_ready = refl
same_event_refl budget_exceeded = refl
same_event_refl idle_timeout = refl
same_event_refl agent_error = refl
same_event_refl eval_failed = refl
same_event_refl session_finished = refl

-- `true` beside the state means that the handler raised.
abbrev pub Handler : Type 0 → Type 0
Handler W = HarnessEvent → Fields → W → W × Bool

pub record TriggerDispatcher (W : Type 0) : Type 0 where
  pub handlers : HarnessEvent → List (Handler W)
  pub emitted : List (HarnessEvent × Fields)

-- `TriggerDispatcher()`
abbrev pub new_dispatcher : {W : Type 0} → TriggerDispatcher W
new_dispatcher = record { handlers = λ _. []; emitted = [] }

-- `payload or {}`
abbrev pub or_empty : Option Fields → Fields
or_empty none = end
or_empty (some payload) = payload

module _ {W : Type 0} where
  unfoldable pub register_event :
      TriggerDispatcher W → HarnessEvent → Handler W → TriggerDispatcher W
  register_event d event handler = record d {
    handlers = λ other.
        if same_event other event then d.handlers other ++ handler ∷ [] else d.handlers other;
  }

  -- `none` is the `ValueError` of an unknown event.
  unfoldable pub register : TriggerDispatcher W → String → Handler W → Option (TriggerDispatcher W)
  unfolding register_event parse_event
  register d event handler = elim (parse_event event) [
    | none ↦ none
    | some harness_event ↦ some (register_event d harness_event handler)
  ]

  -- The loop over the handlers; an exception ends it.
  run_handlers : List (Handler W) → HarnessEvent → Fields → W → W × Bool
  run_handlers [] event payload w = (w, false)
  run_handlers (handler ∷ rest) event payload w =
      let (w', raised) = handler event payload w in
      let others = run_handlers rest event payload w' in if raised then (w', true) else others

  unfoldable pub emit_event :
      TriggerDispatcher W → HarnessEvent → Fields → W → TriggerDispatcher W × W × Bool
  unfolding run_handlers
  emit_event d event payload w =
      let d' = record d { emitted = d.emitted ++ (event, payload) ∷ [] } in
      let (w', raised) = run_handlers (d.handlers event) event payload w in (d', w', raised)

  -- The dispatcher, the rest of the state, and whether a handler raised.
  unfoldable pub emit :
      TriggerDispatcher W → String → Option Fields → W → Option (TriggerDispatcher W × W × Bool)
  unfolding emit_event parse_event
  emit d event payload w = elim (parse_event event) [
    | none ↦ none
    | some harness_event ↦ some (emit_event d harness_event (or_empty payload) w)
  ]

  run_handlers-snoc :
      (hs : List (Handler W)) (h : Handler W) (event : HarnessEvent) (payload : Fields) (w : W)
      → run_handlers (hs ++ h ∷ []) event payload w ≡ (
          if (run_handlers hs event payload w).1
          then run_handlers hs event payload w
          else h event payload (run_handlers hs event payload w).0)
  unfolding run_handlers
  run_handlers-snoc [] h event payload w = elim (Bool-cases (h event payload w).1) [
    | inl raised ↦ ground arith
    | inr fine ↦ ground arith
  ]
  run_handlers-snoc (x ∷ xs) h event payload w =
      ground (arith, run_handlers-snoc xs h event payload (x event payload w).0)

  -- A handler registered last for an event runs last when it is emitted: on the state that the
  -- earlier handlers left, and only if none of them raised.
  emit-register :
      (d : TriggerDispatcher W) (e : HarnessEvent) (h : Handler W) (payload : Fields) (w : W)
      → let before = emit_event d e payload w in
        let after = emit_event (register_event d e h) e payload w in
        (after.1 ≡ (if before.2 then before.1 else (h e payload before.1).0))
        × (after.2 ≡ (if before.2 then true else (h e payload before.1).1))
  unfolding emit_event register_event
  emit-register d e h payload w =
      rw (same_event_refl e) (ground (arith, run_handlers-snoc (d.handlers e) h e payload w))
