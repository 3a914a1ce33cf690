-- ===== src/Worker/Samples.antt =====
-- The theorems on the worker's events at concrete inputs.
use computer_use_orchestrato.Prelude.{
  String, ◌≡◌, true, none, List, [], ◌∷◌, ◌++◌, map, drop, arith,
}
use computer_use_orchestrato.Json.{bool, str, Fields, end, field}
use computer_use_orchestrato.Worker.{new_worker, replay}
use computer_use_orchestrato.Worker.Tasks.{calls_back, waits, loop_returned, run_task, emit_all}
use computer_use_orchestrato.Worker.Log.{number, until_last, replay-emit_all}
use computer_use_orchestrato.Worker.Order.{callbacks, last_event, queue-run_task}

abbrev said : String → String × Fields
said text = ("assistant_block", field "type" (str "text") (field "text" (str text) end))

abbrev events : List (String × Fields)
events = said "one" ∷ said "two" ∷ ("done", field "ok" (bool true) end) ∷ said "three" ∷ []

replay-emit_all_example :
    (replay 1 (emit_all events new_worker).event_log).0 ≡ until_last (drop 1 (number 1 events))
replay-emit_all_example = replay-emit_all events 1 (omega arith)

queue-run_task_example :
    (run_task "hello"
      ((calls_back (said "one") ∷ []) ++ waits ∷ map calls_back (said "two" ∷ []))
      (loop_returned none)
      new_worker).queue
    ≡ []
      ++ number 1 (
          ("user_message", field "text" (str "hello") end)
          ∷ (callbacks (calls_back (said "one") ∷ [])
              ++ last_event (loop_returned none) ∷ said "two" ∷ []))
queue-run_task_example =
    queue-run_task "hello" (calls_back (said "one") ∷ []) (said "two" ∷ []) (loop_returned none)
      new_worker
