-- ===== src/Api/Server/Requests.antt =====
-- api/main.py: the handlers that create, delete, read and feed a session, and the task that waits
-- for the worker.
use computer_use_orchestrato.Prelude.{
  String, true, false, not, Option, none, some, [], ◌∷◌, ◌++◌, truthy, strip, is_some,
}
use computer_use_orchestrato.Json.{num, str, Fields, end, field}
use computer_use_orchestrato.Harness.Budgets.{SessionBudgets}
use computer_use_orchestrato.Harness.Session.Creation
use computer_use_orchestrato.Api.Db.{
  StatusChange, plain_status, History, get_session_history, insert_session, insert_message,
  update_session_status,
}
use computer_use_orchestrato.Api.Server.{
  WorkerInfo, new_session, Server, Settings, Env, Request, ◌>>=◌, ◌>>◌, pure, raise, reject_if,
  modify, gets, on_db, set_session, touch, get_session, DevIdentity,
}
use computer_use_orchestrato.Api.Server.Events.{persist_worker_event, stop_session_worker}
use computer_use_orchestrato.Api.Server.Limits.{
  authorize_session, reject_if_platform_disabled, enforce_concurrent_session_limits,
  enforce_session_message_limits,
}

-- `_session_harness_budgets`
abbrev pub session_harness_budgets : Settings → SessionBudgets
session_harness_budgets settings = record {
  runtime_seconds = settings.runtime_seconds;
  idle_seconds = settings.idle_seconds;
  max_messages = settings.max_messages_per_session;
  max_events = settings.max_events_per_session;
  max_tokens = some settings.max_tokens;
  max_cost_usd = none;
}

abbrev pub failed_with : String → String → StatusChange
failed_with error stop_reason = record {
  status = "failed";
  error = some error;
  completed = true;
  stop_reason = some stop_reason;
  deleted = false;
}

-- What the worker launcher does for a new session: it fails, or the worker that it started becomes
-- ready, or does not, with the error's text.
pub data Launch : Type 0 where
  not_started : Launch
  not_ready : WorkerInfo → String → Launch
  ready : WorkerInfo → Launch

module _ (env : Env) where
  -- The two failures of the launcher end in the same status, error and all.
  fail_session : String → Fields → StatusChange → String → Request String
  fail_session session_id payload change detail = do
    modify (persist_worker_event env session_id "error" payload)
    modify (on_db (update_session_status session_id change env.now))
    raise 500 detail

  launch_worker : String → Launch → Request String
  unfolding fail_session
  launch_worker session_id not_started =
      fail_session session_id
        (field "message" (str "Failed to start worker") (field "stage" (str "worker_startup") end))
        (failed_with "Failed to start worker" "worker_startup_failed") "Failed to start worker"
  launch_worker session_id (not_ready w error) = do
    modify (λ s. record s { stopped = s.stopped ++ w.name ∷ [] })
    fail_session session_id
        (field "message" (str error) (
          field "stage" (str "worker_readiness") (
            field "worker" (str w.name)
              (field "http_port" (num w.http) (field "novnc_port" (num w.novnc) end)))))
        (failed_with "Worker did not become ready in time" "worker_readiness_failed")
        "Worker did not become ready in time"
  launch_worker session_id (ready w) = do
    modify (λ s. record s {
      sessions = s.sessions ++ record (new_session session_id env.now) { worker = some w } ∷ [];
    })
    modify (on_db (update_session_status session_id (plain_status "ready") env.now))
    pure session_id

  -- `create_session`; `session_id` is the new `uuid4`. A session whose worker does not become ready
  -- enters `SESSIONS` and leaves it again before its error is stored.
  unfoldable pub create_session : String → Launch → DevIdentity → Request String
  unfolding launch_worker
  create_session session_id launch identity = do
    reject_if_platform_disabled env.settings identity
    enforce_concurrent_session_limits env.settings identity
    reject_if (not (truthy env.settings.anthropic_api_key)) 500
        "ANTHROPIC_API_KEY not set in orchestrator"
    modify (on_db (insert_session session_id identity.user_id identity.organization_id env.now))
    modify (on_db (update_session_status session_id (plain_status "starting") env.now))
    launch_worker session_id launch

  unfoldable pub delete_session : String → DevIdentity → Request (Unit {0})
  delete_session session_id identity = do
    authorize_session session_id identity
    x ← get_session session_id
    modify (
        stop_session_worker env session_id x "deleted" "session_deleted"
          "Session deleted; worker stopped" "user_deleted")

  -- `session_history`
  unfoldable pub session_history : String → DevIdentity → Request (Option History)
  session_history session_id identity = do
    authorize_session session_id identity
    get_session session_id
    history ← gets (λ s. get_session_history session_id s.db)
    reject_if (not (is_some history)) 404 "Session not found"
    pure history

  -- The part of `post_message` after its checks.
  start_message : String → String → Server → Server
  start_message session_id text s =
      let touched = touch env.now session_id s in
      let noted = on_db (insert_message session_id "user" text env.now) touched in
      let h =
        Creation.create session_id text (some (session_harness_budgets env.settings))
          noted.traces in
      let running =
        on_db (update_session_status session_id (plain_status "running") env.now)
          (record noted { traces = h.trace_store }) in
      set_session session_id (λ x. record x { harness = some h; completion = false; busy = true })
        running

  -- `post_message`; the lock makes one request of the part from the limits on.
  unfoldable pub post_message : String → String → DevIdentity → Request String
  unfolding start_message
  post_message session_id body identity = do
    authorize_session session_id identity
    reject_if_platform_disabled env.settings identity
    x ← get_session session_id
    let text = strip body
    reject_if (not (truthy text)) 400 "text is required"
    enforce_session_message_limits env session_id x
    reject_if x.busy 409 "Session is busy"
    reject_if (not (is_some x.worker)) 500 "Worker not started"
    modify (start_message session_id text)
    pure "running"
