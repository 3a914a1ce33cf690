-- ===== src/Worker.antt =====
-- computer_use_demo/worker_api.py: the worker's state, its event log and the stream of its events.
-- `dumps` is `json.dumps` without the escape of other scripts. A task runs as one step of the model
-- for each event that it emits.
pub mod Log
pub mod Tasks
pub mod Order
mod Samples
use computer_use_orchestrato.Prelude.{
  ℕ, ◌+◌, String, ◌<>◌, ◌==◌, Bool, true, false, ◌||◌, Option, none, some, List, [], ◌∷◌, ◌++◌,
  length, last_of, ltb, show, if◌then◌else◌,
}
use computer_use_orchestrato.Json.{Fields}

-- An entry of `event_log`.
pub record WorkerEvent : Type 0 where
  pub id : ℕ
  pub event : String
  pub payload : Fields

pub record WorkerState : Type 0 where
  pub queue : List WorkerEvent
  pub busy : Bool
  pub status : String
  pub error : Option String
  pub next_event_id : ℕ
  pub event_log : List WorkerEvent

-- `WorkerState()`
abbrev pub new_worker : WorkerState
new_worker = record {
  queue = [];
  busy = false;
  status = "idle";
  error = none;
  next_event_id = 1;
  event_log = [];
}

abbrev pub event_log_max : ℕ
event_log_max = 500

-- `_emit`
unfoldable pub emit : String → Fields → WorkerState → WorkerState
emit event payload s =
    let e : WorkerEvent = record { id = s.next_event_id; event = event; payload = payload } in
    let log = s.event_log ++ e ∷ [] in
    record s {
      next_event_id = s.next_event_id + 1;
      event_log = if ltb event_log_max (length log) then last_of event_log_max log else log;
      queue = s.queue ++ e ∷ [];
    }

abbrev pub is_last_event : WorkerEvent → Bool
is_last_event e = e.event == "done" || e.event == "error"

-- The loop over the log for a client that saw the events up to `last_id`, and whether it returned.
unfoldable pub replay : ℕ → List WorkerEvent → List WorkerEvent × Bool
replay last_id [] = ([], false)
replay last_id (e ∷ log) =
    let (rest, returned) = replay last_id log in
    if ltb last_id e.id
    then (if is_last_event e then (e ∷ [], true) else (e ∷ rest, returned))
    else (rest, returned)

module _ (dumps : Fields → String) where
  -- `_sse_pack`
  abbrev id_line : Option ℕ → String
  id_line none = ""
  id_line (some id) = "id: " <> (show id <> "\n")

  unfoldable pub sse_pack : String → Fields → Option ℕ → String
  unfolding show
  sse_pack event payload event_id =
      id_line event_id
      <> ("event: " <> (event <> ("\n" <> ("data: " <> (dumps payload <> ("\n" <> "\n"))))))
