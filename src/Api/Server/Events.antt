-- ===== src/Api/Server/Events.antt =====
-- api/main.py: `_persist_worker_event`, and the stop of a session. Its errors are logged and
-- swallowed there; the statements on the tables do not fail in the model.
use computer_use_orchestrato.Prelude.{
  ℕ, String, ◌<>◌, ◌==◌, true, false, not, ◌&&◌, Option, none, some, [], ◌∷◌, ◌++◌, leb, nat_eq,
  truthy, strip, if◌then◌else◌,
}
use computer_use_orchestrato.Json.{
  Json, null, num, str, Fields, end, field, get_or_null, ◌or◌, py_str,
}
use computer_use_orchestrato.Harness.Traces.{TraceStore}
use computer_use_orchestrato.Harness.Session.{SessionHarness, on_worker_event}
use computer_use_orchestrato.Api.Db.{
  Db, StatusChange, count_session_events, insert_event, insert_message, update_session_status,
}
use computer_use_orchestrato.Api.Artifacts.{create_screenshot_artifact}
use computer_use_orchestrato.Api.Server.{
  WorkerInfo, SessionState, Server, Env, on_db, find_session, set_session, pop_session,
}

abbrev pub quota_event : ℕ → Fields
quota_event limit = field "limit" (num limit) (
    field "quota" (str "max_events_per_session")
      (field "message" (str "Session event retention limit exceeded") end))

abbrev pub completed_change : StatusChange
completed_change = record {
  status = "completed";
  error = none;
  completed = true;
  stop_reason = none;
  deleted = false;
}

module _ (env : Env) where
  -- The event row, and the artifact of a screenshot.
  unfoldable pub store_event : String → String → Fields → Db → Db
  unfolding insert_event create_screenshot_artifact
  store_event session_id name d db =
      let (db', event_id) = insert_event session_id name d env.now db in
      let settings = env.settings in
      if name == "screenshot"
      then (create_screenshot_artifact env.codec env.second settings.screenshot_retention_days
          settings.artifact_storage_dir env.artifact_id session_id event_id d env.now db').0
      else db'

  -- The harness of one session, on the trace files as they are.
  run_harness : String → Fields → SessionHarness → TraceStore → SessionHarness
  unfolding on_worker_event
  run_harness name d h traces = on_worker_event env.repr (record h { trace_store = traces }) name d

  unfoldable pub feed_one : String → String → Fields → Option SessionHarness → Server → Server
  unfolding run_harness
  feed_one session_id name d none s = s
  feed_one session_id name d (some h) s =
      let h' = run_harness name d h s.traces in
      set_session session_id (λ x. record x { harness = some h' })
        (record s { traces = h'.trace_store })

  unfoldable pub feed_session : String → Fields → Option SessionState → Server → Server
  unfolding feed_one
  feed_session name d none s = s
  feed_session name d (some x) s = feed_one x.session_id name d x.harness s

  unfoldable pub feed_harness : String → String → Fields → Server → Server
  unfolding feed_session
  feed_harness session_id name d s = feed_session name d (find_session session_id s) s

  text_of : Json → String
  unfolding py_str
  text_of v = py_str env.repr v

  -- `session.completion_event.set()`
  abbrev complete : String → Server → Server
  complete session_id s = set_session session_id (λ x. record x { completion = true }) s

  failed_change : Fields → StatusChange
  unfolding text_of strip
  failed_change d =
      let stage = strip (text_of (get_or_null "stage" d or str "")) in
      record {
        status = "failed";
        error =
            some (text_of (get_or_null "message" d or get_or_null "error" d or str "Worker error"));
        completed = true;
        stop_reason = some (if truthy stage then stage <> "_failed" else "worker_error");
        deleted = false;
      }

  -- The last `if` of the function: what an event does to the messages and to the status.
  unfoldable pub settle_event : String → String → Fields → Server → Server
  unfolding failed_change text_of insert_message update_session_status
  settle_event session_id name d s =
      let text = text_of (get_or_null "text" d or str "") in
      if name == "assistant_block"
      then (if truthy text then on_db (insert_message session_id "assistant" text env.now) s else s)
      else if name == "error"
      then complete session_id
          (on_db (update_session_status session_id (failed_change d) env.now) s)
      else if name == "done"
      then complete session_id (on_db (update_session_status session_id completed_change env.now) s)
      else s

  unfoldable pub persist_worker_event : String → String → Fields → Server → Server
  persist_worker_event session_id name d s =
      let limit = env.settings.max_events_per_session in
      let count = count_session_events session_id s.db in
      let noted =
        if nat_eq count limit
        then on_db
            (λ db. (insert_event session_id "quota_exceeded" (quota_event limit) env.now db).0) s
        else s in
      let stored = on_db (store_event session_id name d) s in
      if not (name == "quota_exceeded") && leb limit count
      then noted
      else settle_event session_id name d (feed_harness session_id name d stored)

  abbrev worker_name : Option WorkerInfo → Json
  worker_name none = null
  worker_name (some w) = str w.name

  abbrev pub stop_worker_of : Option WorkerInfo → Server → Server
  stop_worker_of none s = s
  stop_worker_of (some w) s = record s { stopped = s.stopped ++ w.name ∷ [] }

  -- `_stop_session_worker`, always with `remove_from_memory`. The task that it cancels belongs to
  -- the session that it removes.
  unfoldable pub stop_session_worker :
      String → SessionState → String → String → String → String → Server → Server
  stop_session_worker session_id x status event_name message stop_reason s =
      let payload =
        field "message" (str message)
          (field "reason" (str stop_reason) (field "worker" (worker_name x.worker) end)) in
      let change : StatusChange = record {
        status = status;
        error = none;
        completed = true;
        stop_reason = some stop_reason;
        deleted = status == "deleted";
      } in
      pop_session session_id (
        on_db (update_session_status session_id change env.now)
          (persist_worker_event session_id event_name payload (stop_worker_of x.worker s)))

  -- `_expire_session`
  unfoldable pub expire_session : String → SessionState → String → String → Server → Server
  expire_session session_id x stop_reason message s =
      stop_session_worker session_id x "expired" "session_expired" message stop_reason s
