-- ===== src/Harness/Traces.antt =====
-- harness/traces.py: the raw trace of a session, and the store that keeps one file per session.
-- The directory is a function from file names to contents, and a file holds a whole trace:
-- `json.dumps` and `json.loads` are inverse on the traces that the program builds.
use computer_use_orchestrato.Prelude.{
  String, ◌<>◌, ◌≡◌, refl, Option, none, some, List, [], ◌∷◌, ◌++◌, ◌==◌, if◌then◌else◌,
  replace_slash, eq_refl,
}
use computer_use_orchestrato.Json.{Fields, end}

pub record RawTrace : Type 0 where
  pub session_id : String
  pub goal : String
  pub actions : List Fields
  pub observations : List Fields
  pub tool_events : List Fields
  pub budget_usage : Fields
  pub final_status : String
  pub failure_reason : Option String
  pub evidence_paths : List String

-- `RawTrace(session_id=…, goal=…)`
unfoldable pub new_trace : String → String → RawTrace
new_trace session_id goal = record {
  session_id = session_id;
  goal = goal;
  actions = [];
  observations = [];
  tool_events = [];
  budget_usage = end;
  final_status = "created";
  failure_reason = none;
  evidence_paths = [];
}

unfoldable pub trace_action : RawTrace → Fields → RawTrace
trace_action t item = record t { actions = t.actions ++ item ∷ [] }

unfoldable pub trace_observation : RawTrace → Fields → RawTrace
trace_observation t item = record t { observations = t.observations ++ item ∷ [] }

unfoldable pub trace_tool_event : RawTrace → Fields → RawTrace
trace_tool_event t item = record t { tool_events = t.tool_events ++ item ∷ [] }

unfoldable pub finish : RawTrace → String → Option String → RawTrace
finish t status failure_reason = record t { final_status = status; failure_reason = failure_reason }

-- `root_dir` as a text, and the files below it by name.
pub record TraceStore : Type 0 where
  pub root_dir : String
  pub files : String → Option RawTrace

-- The name of the file under `root_dir`.
unfoldable pub trace_path : String → String
unfolding replace_slash
trace_path session_id = replace_slash session_id <> ".json"

-- `str(store.trace_path(session_id))`
unfoldable pub full_path : TraceStore → String → String
unfolding trace_path
full_path store session_id = store.root_dir <> ("/" <> trace_path session_id)

unfoldable pub write : TraceStore → RawTrace → TraceStore
write store trace =
    let path = trace_path trace.session_id in
    record store { files = λ name. if path == name then some trace else store.files name }

-- `none` is the `FileNotFoundError`.
unfoldable pub read : TraceStore → String → Option RawTrace
read store session_id = store.files (trace_path session_id)

-- After a write, reading gives the new trace under every id with the same file name, and what was
-- there before under any other id.
pub read-write :
    (store : TraceStore) (trace : RawTrace) (session_id : String)
    → read (write store trace) session_id ≡ (
        if trace_path trace.session_id == trace_path session_id
        then some trace
        else read store session_id)
unfolding read write
read-write store trace session_id = refl

-- A slash and an underscore are not told apart: two ids that differ so share one file, and the
-- second write is read back under the first id.
read-write_shared :
    (store : TraceStore) (first second : RawTrace)
    → replace_slash first.session_id ≡ replace_slash second.session_id
    → read (write (write store first) second) first.session_id ≡ some second
unfolding read write trace_path
read-write_shared store first second h = simp (h, eq_refl)
