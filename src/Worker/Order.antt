-- ===== src/Worker/Order.antt =====
-- The order in which a task's events get their ids.
use mathlib.Core.List.{append_assoc, append-nil}
use computer_use_orchestrato.Prelude.{
  ℕ, ◌+◌, String, ◌≡◌, refl, sym, ap, subst, ◌∙◌, true, none, some, List, [], ◌∷◌, ◌++◌, map, arith,
  length, length-append,
}
use computer_use_orchestrato.Json.{bool, str, Fields, end, field}
use computer_use_orchestrato.Worker.{WorkerEvent, WorkerState, emit}
use computer_use_orchestrato.Worker.Tasks.{
  LoopStep, calls_back, waits, emit_all, run_steps, LoopEnd, loop_returned, loop_raised,
  finish_task, run_task,
}
use computer_use_orchestrato.Worker.Log.{number, number-append}

-- The events of the callbacks.
abbrev pub callbacks : List LoopStep → List (String × Fields)
callbacks [] = []
callbacks (calls_back e ∷ steps) = e ∷ callbacks steps
callbacks (waits ∷ steps) = callbacks steps

-- The event that ends a task.
abbrev pub last_event : LoopEnd → String × Fields
last_event (loop_returned none) = ("done", field "ok" (bool true) end)
last_event (loop_returned (some message)) = ("error", field "message" (str message) end)
last_event (loop_raised message) = ("error", field "message" (str message) end)

module _ (before : List WorkerEvent) (first : ℕ) where
  -- These were put into the queue, after what was there before.
  record Queued (sent : List (String × Fields)) (s : WorkerState) : Type 0 where
    queue : s.queue ≡ before ++ number first sent
    next : s.next_event_id ≡ first + length sent

  emit-Queued :
      (sent : List (String × Fields)) (event : String) (payload : Fields) (s : WorkerState)
      → Queued sent s
      → Queued (sent ++ (event, payload) ∷ []) (emit event payload s)
  unfolding emit
  emit-Queued sent event payload s q =
      let e : ℕ → WorkerEvent = λ i. record { id = i; event = event; payload = payload } in
      record {
        queue =
            ap (λ l. l ++ e s.next_event_id ∷ []) q.queue
            ∙ append_assoc before (number first sent) (e s.next_event_id ∷ [])
            ∙ ap (λ i. before ++ (number first sent ++ e i ∷ [])) q.next
            ∙ ap (λ l. before ++ l) (sym (number-append first sent event payload));
        next = omega (arith, q.next, length-append {0} sent ((event, payload) ∷ []));
      }

  emit_all-Queued :
      (xs sent : List (String × Fields)) (s : WorkerState)
      → Queued sent s
      → Queued (sent ++ xs) (emit_all xs s)
  emit_all-Queued [] sent s q = rw append-nil q
  emit_all-Queued ((event, payload) ∷ xs) sent s q =
      subst (λ l. Queued l (emit_all xs (emit event payload s)))
        (append_assoc sent ((event, payload) ∷ []) xs)
        (emit_all-Queued xs (sent ++ (event, payload) ∷ []) (emit event payload s)
          (emit-Queued sent event payload s q))

  -- The events that are queued or scheduled are those before and the callbacks since.
  run_steps-Queued :
      (steps : List LoopStep) (pending sent : List (String × Fields)) (s : WorkerState)
      → Queued sent s
      → (sent' : List (String × Fields)) × Queued sent' (run_steps steps pending s).0
        × (sent' ++ (run_steps steps pending s).1 ≡ sent ++ (pending ++ callbacks steps))
  unfolding run_steps
  run_steps-Queued [] pending sent s q = (sent, q, rw append-nil refl)
  run_steps-Queued (calls_back e ∷ steps) pending sent s q =
      let (sent', q', same) = run_steps-Queued steps (pending ++ e ∷ []) sent s q in
      (sent', q', same ∙ ap (λ l. sent ++ l) (append_assoc pending (e ∷ []) (callbacks steps)))
  run_steps-Queued (waits ∷ steps) pending sent s q =
      let (sent', q', same) =
        run_steps-Queued steps [] (sent ++ pending) (emit_all pending s)
          (emit_all-Queued pending sent s q) in
      (sent', q', same ∙ append_assoc sent pending (callbacks steps))

  finish_task-Queued :
      (how : LoopEnd) (sent : List (String × Fields)) (s : WorkerState)
      → Queued sent s
      → Queued (sent ++ last_event how ∷ []) (finish_task how s)
  unfolding finish_task
  finish_task-Queued (loop_returned none) sent s q =
      emit-Queued sent _ _ _ (record { queue = q.queue; next = q.next })
  finish_task-Queued (loop_returned (some message)) sent s q =
      emit-Queued sent _ _ _ (record { queue = q.queue; next = q.next })
  finish_task-Queued (loop_raised message) sent s q =
      emit-Queued sent _ _ _ (record { queue = q.queue; next = q.next })

run_steps_calls :
    (late pending : List (String × Fields)) (s : WorkerState)
    → run_steps (map calls_back late) pending s ≡ (s, pending ++ late)
unfolding run_steps
run_steps_calls [] pending s = ap (λ l. (s, l)) (sym (append-nil pending))
run_steps_calls (e ∷ late) pending s =
    run_steps_calls late (pending ++ e ∷ []) s
    ∙ ap (λ l. (s, l)) (append_assoc pending (e ∷ []) late)

run_steps-append :
    (steps more : List LoopStep) (pending : List (String × Fields)) (s : WorkerState)
    → run_steps (steps ++ more) pending s
      ≡ run_steps more (run_steps steps pending s).1 (run_steps steps pending s).0
unfolding run_steps
run_steps-append [] more pending s = refl
run_steps-append (calls_back e ∷ steps) more pending s =
    run_steps-append steps more (pending ++ e ∷ []) s
run_steps-append (waits ∷ steps) more pending s =
    run_steps-append steps more [] (emit_all pending s)

run_steps_waits :
    (late pending : List (String × Fields)) (s : WorkerState)
    → run_steps (waits ∷ map calls_back late) pending s ≡ (emit_all pending s, late)
unfolding run_steps
run_steps_waits late pending s = run_steps_calls late [] (emit_all pending s)

nothing_sent : (s : WorkerState) → Queued s.queue s.next_event_id [] s
unfolding number
nothing_sent s = record { queue = sym (append-nil s.queue); next = omega arith }

-- A task puts its events into the queue in this order: the user's message; the callbacks up to the
-- last wait of the sampling loop, in order; the `done` or `error` that ends the task; and only
-- then the callbacks after the last wait. They take the next ids in turn.
pub queue-run_task :
    (text : String) (steps : List LoopStep) (late : List (String × Fields)) (how : LoopEnd)
    (s : WorkerState)
    → (run_task text (steps ++ waits ∷ map calls_back late) how s).queue
      ≡ s.queue
        ++ number s.next_event_id (
            ("user_message", field "text" (str text) end)
            ∷ (callbacks steps ++ last_event how ∷ late))
unfolding run_task
queue-run_task text steps late how s =
    let before = s.queue in
    let first = s.next_event_id in
    let message : String × Fields = ("user_message", field "text" (str text) end) in
    let started = emit "user_message" (field "text" (str text) end) s in
    let working = (run_steps steps [] started).0 in
    let pending = (run_steps steps [] started).1 in
    let ran =
      run_steps-append steps (waits ∷ map calls_back late) [] started
      ∙ run_steps_waits late pending working in
    let (sent, queued, same) =
      run_steps-Queued before first steps [] (message ∷ []) started
        (emit-Queued before first [] _ _ s (nothing_sent s)) in
    let flushed = emit_all-Queued before first pending sent working queued in
    let ended = finish_task-Queued before first how (sent ++ pending) _ flushed in
    let all = emit_all-Queued before first late _ _ ended in
    rw ran (
      all.queue
      ∙ ap (λ l. before ++ number first l)
          (append_assoc (sent ++ pending) (last_event how ∷ []) late
            ∙ ap (λ l. l ++ last_event how ∷ late) same))
