-- ===== src/Api/Server/Tasks.antt =====
-- api/main.py: the background work, the task that waits for a worker and the cleanup of sessions.
use computer_use_orchestrato.Prelude.{
  ◌+◌, String, ◌==◌, true, false, not, ◌&&◌, ◌||◌, Option, none, some, List, [], ◌∷◌, ltb, is_some,
  or_text, or_default, if◌then◌else◌,
}
use computer_use_orchestrato.Api.Db.{StatusChange, update_session_status}
use computer_use_orchestrato.Api.Server.{
  SessionState, Server, Env, on_db, find_session, set_session, touch,
}
use computer_use_orchestrato.Api.Server.Events.{completed_change, expire_session}
use computer_use_orchestrato.Api.Server.Requests.{failed_with}

-- How the wait of `_run_worker_message` ends: an event of the worker settled the session, or the
-- worker's own status did, with its error, or the call to the worker raised.
pub data RunOutcome : Type 0 where
  signalled : RunOutcome
  polled : String → Option String → RunOutcome
  failed_call : String → RunOutcome

module _ (env : Env) where
  finish_run : String → RunOutcome → Server → Server
  unfolding update_session_status
  finish_run session_id signalled s = s
  finish_run session_id (polled worker_status error) s =
      let status = or_text worker_status "idle" in
      let change : StatusChange =
        if status == "error"
        then failed_with (or_default error "Worker task failed") "worker_error"
        else if status == "done" || status == "idle"
        then completed_change
        else record {
          status = status;
          error = none;
          completed = true;
          stop_reason = none;
          deleted = false;
        } in
      on_db (update_session_status session_id change env.now) s
  finish_run session_id (failed_call error) s =
      on_db (update_session_status session_id (failed_with error "worker_error") env.now) s

  -- `_run_worker_message`, and the end of its task. Without a worker it returns before the wait.
  unfoldable pub run_worker_message : String → SessionState → RunOutcome → Server → Server
  unfolding finish_run
  run_worker_message session_id x outcome s =
      let done = λ (t : Server). set_session session_id (λ y. record y { busy = false }) t in
      if is_some x.worker
      then done (touch env.now session_id (finish_run session_id outcome s))
      else done (
          on_db
            (update_session_status session_id (failed_with "Worker not started" "worker_missing")
              env.now)
            s)

  -- The reason and the message, if the session is over a limit.
  unfoldable pub overdue : SessionState → Option (String × String)
  overdue x =
      if ltb (x.created_at + env.settings.max_session_runtime) env.now
      then some ("runtime_limit_exceeded", "Session runtime limit exceeded; worker stopped")
      else if not x.busy && ltb (x.last_activity + env.settings.max_idle_session) env.now
      then some ("idle_limit_exceeded", "Session idle limit exceeded; worker stopped")
      else none

  -- The first loop of a pass.
  unfoldable pub expired_of : List SessionState → List (String × String × String)
  unfolding overdue
  expired_of [] = []
  expired_of (x ∷ xs) =
      let rest = expired_of xs in
      elim (overdue x) [
        | none ↦ rest
        | some (reason, message) ↦ (x.session_id, reason, message) ∷ rest
      ]

  unfoldable pub expire_found : String → String → String → Option SessionState → Server → Server
  expire_found session_id reason message none s = s
  expire_found session_id reason message (some x) s =
      expire_session env session_id x reason message s

  -- The second loop.
  unfoldable pub expire_all : List (String × String × String) → Server → Server
  unfolding expire_found
  expire_all [] s = s
  expire_all ((session_id, reason, message) ∷ rest) s =
      expire_all rest (expire_found session_id reason message (find_session session_id s) s)

  -- One pass of `_cleanup_sessions_loop`.
  unfoldable pub cleanup_sessions : Server → Server
  unfolding expired_of expire_all
  cleanup_sessions s = expire_all (expired_of s.sessions) s
