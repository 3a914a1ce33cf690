-- ===== src/Worker/Tasks.antt =====
-- worker_api.py: the request for a task, the task, and the stream of events that a client reads.
use Prim.Native.Char.{code}
use computer_use_orchestrato.Prelude.{
  ℕ, ◌+◌, ◌-◌, ◌*◌, String, ◌<>◌, Bool, true, false, not, ◌&&◌, Option, none, some, List, [], ◌∷◌,
  ◌++◌, leb, truthy, strip, prefix, contains, if◌then◌else◌, Result, ok, err,
}
use computer_use_orchestrato.Json.{Json, bool, num, str, Fields, end, field}
use computer_use_orchestrato.Tools.Base.{ToolResult, filled}
use computer_use_orchestrato.Worker.{WorkerEvent, WorkerState, emit, replay, sse_pack}

-- The blocks of an answer that are told apart.
pub data ContentBlock : Type 0 where
  text_block : String → ContentBlock
  tool_use : Json → Json → Json → ContentBlock
  other_block : Json → ContentBlock

-- What `_emit_content_block` emits
unfoldable pub block_event : ContentBlock → String × Fields
block_event (text_block text) =
    ("assistant_block", field "type" (str "text") (field "text" (str text) end))
block_event (tool_use id name input) =
    ("tool_use_start", field "id" id (field "name" name (field "input" input end)))
block_event (other_block block) = ("debug", field "block" block end)

abbrev text_or_empty : Option String → String
text_or_empty none = ""
text_or_empty (some s) = s

-- What `_emit_tool_result` emits
unfoldable pub result_events : ToolResult → String → List (String × Fields)
unfolding prefix
result_events r tool_use_id =
    let id = λ (more : Fields). field "tool_use_id" (str tool_use_id) more in
    let quiet =
      if filled r.output
      then field "output" (str (prefix 4000 (text_or_empty r.output))) end
      else end in
    let payload =
      if filled r.error
      then id (field "is_error" (bool true) (field "error" (str (text_or_empty r.error)) end))
      else id (field "is_error" (bool false) quiet) in
    ("tool_result", payload)
    ∷ (if filled r.base64_image
        then ("screenshot", id (field "image_base64" (str (text_or_empty r.base64_image)) end)) ∷ []
        else [])

-- What the sampling loop does that the worker sees: it calls back with an event, whose emission is
-- scheduled as a task, or it waits, and the scheduled tasks run.
pub data LoopStep : Type 0 where
  calls_back : String × Fields → LoopStep
  waits : LoopStep

abbrev pub emit_all : List (String × Fields) → WorkerState → WorkerState
emit_all [] s = s
emit_all ((event, payload) ∷ rest) s = emit_all rest (emit event payload s)

-- The state after the steps, and the emissions that are still scheduled.
unfoldable pub run_steps :
    List LoopStep → List (String × Fields) → WorkerState → WorkerState × List (String × Fields)
run_steps [] pending s = (s, pending)
run_steps (calls_back e ∷ steps) pending s = run_steps steps (pending ++ e ∷ []) s
run_steps (waits ∷ steps) pending s = run_steps steps [] (emit_all pending s)

-- How the loop ends: it returns, with the last error that the API answered, if any, or it raises.
pub data LoopEnd : Type 0 where
  loop_returned : Option String → LoopEnd
  loop_raised : String → LoopEnd

unfoldable pub failed_task : String → WorkerState → WorkerState
failed_task message s =
    emit "error" (field "message" (str message) end)
      (record s { status = "error"; error = some message })

unfoldable pub finish_task : LoopEnd → WorkerState → WorkerState
unfolding failed_task
finish_task (loop_returned none) s =
    emit "done" (field "ok" (bool true) end) (record s { status = "done" })
finish_task (loop_returned (some message)) s = failed_task message s
finish_task (loop_raised message) s = failed_task message s

-- `_run`. The emission at the end is awaited and does not wait for what is scheduled.
unfoldable pub run_task : String → List LoopStep → LoopEnd → WorkerState → WorkerState
unfolding run_steps finish_task
run_task text steps how s =
    let started = emit "user_message" (field "text" (str text) end) s in
    let (working, pending) = run_steps steps [] started in
    record (emit_all pending (finish_task how working)) { busy = false }

-- `get_settings()` in the worker: it raises a `ConfigError`, or gives these values.
pub record WorkerSettings : Type 0 where
  pub anthropic_api_key : String
  pub tool_version : String

pub record Refusal : Type 0 where
  pub status_code : ℕ
  pub detail : String

abbrev refuse : ℕ → String → WorkerState → WorkerState × Result Refusal String
refuse status_code detail s = (s, err (record { status_code = status_code; detail = detail }))

-- A refusal that is an event too.
abbrev refuse_loudly : String → WorkerState → WorkerState × Result Refusal String
refuse_loudly message s = refuse 500 message (emit "error" (field "message" (str message) end) s)

abbrev tool_versions : List String
tool_versions =
    "computer_use_20241022" ∷ "computer_use_20250124" ∷ "computer_use_20250429"
    ∷ "computer_use_20251124" ∷ []

start_task : Result String WorkerSettings → WorkerState → WorkerState × Result Refusal String
start_task (err message) s = refuse_loudly message s
start_task (ok settings) s =
    if not (truthy settings.anthropic_api_key)
    then refuse_loudly "ANTHROPIC_API_KEY not set in worker" s
    else if not (contains tool_versions settings.tool_version)
    then refuse_loudly ("Unsupported TOOL_VERSION: " <> settings.tool_version) s
    else (record s { status = "running"; error = none; busy = true }, ok "running")

-- `post_message`, up to the task that it creates
unfoldable pub post_message :
    String → Result String WorkerSettings → WorkerState → WorkerState × Result Refusal String
unfolding start_task
post_message body settings s =
    if s.busy
    then refuse 409 "Worker is busy" s
    else if not (truthy (strip body))
    then refuse 400 "text is required" s
    else start_task settings s

-- `text.isdigit()` and `int(text)`, for the digits of ASCII
digits_from : ℕ → String → Option ℕ
digits_from n String.[] = some n
digits_from n (String.◌∷◌ c s) =
    let rest = digits_from (10 * n + (code c - 48)) s in
    if leb 48 (code c) && leb (code c) 57 then rest else none

unfoldable pub last_event_id : Option String → Option ℕ
unfolding digits_from
last_event_id none = none
last_event_id (some header) = if truthy header then digits_from 0 header else none

module _ (dumps : Fields → String) where
  abbrev pub pack : WorkerEvent → String
  pack e = sse_pack dumps e.event e.payload (some e.id)

  unfoldable pub pack_all : List WorkerEvent → List String
  pack_all [] = []
  pack_all (e ∷ events) = pack e ∷ pack_all events

  -- The live part: a round for each time at which the wait for the queue would end.
  live : List ℕ → List WorkerEvent → List String × List WorkerEvent
  live [] queue = ([], queue)
  live (ts ∷ rounds) [] =
      let (frames, queue) = live rounds [] in
      (sse_pack dumps "ping" (field "ts" (num ts) end) none ∷ frames, queue)
  live (ts ∷ rounds) (e ∷ queue) = let (frames, rest) = live rounds queue in (pack e ∷ frames, rest)

  abbrev replayed : Option ℕ → List WorkerEvent → List WorkerEvent × Bool
  replayed none log = ([], false)
  replayed (some last_id) log = replay last_id log

  -- `_event_stream`
  unfoldable pub event_stream : Option String → List ℕ → WorkerState → List String × WorkerState
  unfolding pack_all live
  event_stream header rounds s =
      let (events, returned) = replayed (last_event_id header) s.event_log in
      let ready = sse_pack dumps "ready" (field "ok" (bool true) end) none in
      let (frames, queue) = live rounds s.queue in
      if returned
      then (ready ∷ pack_all events, s)
      else (ready ∷ (pack_all events ++ frames), record s { queue = queue })
