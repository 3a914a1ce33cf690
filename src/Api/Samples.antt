-- ===== src/Api/Samples.antt =====
-- The theorems on the orchestrator at concrete inputs.
use computer_use_orchestrato.Prelude.{
  ◌+◌, ◌≤◌, ◌<◌, String, ◌==◌, ◌≡◌, refl, true, false, not, ◌&&◌, none, some, List, [], ◌∷◌, arith,
  any, select, leb, if◌then◌else◌, ok,
}
use computer_use_orchestrato.Json.{str, Fields, end, field}
use computer_use_orchestrato.Api.Db.{
  Db, empty_db, plain_status, update_session_status, count_session_messages, insert_session,
  insert_message, get_session_record,
}
use computer_use_orchestrato.Api.Artifacts.{Codec}
use computer_use_orchestrato.Api.Retention.{Periods, cleanup_retention}
use computer_use_orchestrato.Api.Retention.DryRun.{cleanup_retention_dry}
use computer_use_orchestrato.Api.Retention.Purge.{is_purged, cleanup_retention_keeps}
use computer_use_orchestrato.Api.Server.{
  WorkerInfo, SessionState, new_session, Server, Settings, Env, get_session, DevIdentity,
}
use computer_use_orchestrato.Api.Server.Events.{persist_worker_event}
use computer_use_orchestrato.Api.Server.Limits.{
  authorize_session, status_of, enforce_session_message_limits,
}
use computer_use_orchestrato.Api.Server.Limits.Accepted.{
  user_messages, accepts, began, enforce_session_message_limits-ok,
}
use computer_use_orchestrato.Api.Server.Requests.{delete_session, session_history, post_message}
use computer_use_orchestrato.Api.Server.Tasks.{cleanup_sessions}
use computer_use_orchestrato.Api.Server.Access.{
  owns, not_found, requests-stranger, delete_session-requests,
}
use computer_use_orchestrato.Api.Server.Quota.{
  worker_events, persist_events, worker_events-persist_events,
}
use computer_use_orchestrato.Api.Server.Cleanup.{ids, is_overdue, ids-cleanup_sessions}
use computer_use_orchestrato.Api.Server.Status.{
  session_row, events_of, change_found, get_session_record-done,
}

abbrev pub settings : Settings
settings = record {
  max_concurrent_sessions_per_user = 3;
  max_concurrent_sessions_per_org = 10;
  max_session_runtime = 3600;
  max_idle_session = 600;
  runtime_seconds = 3600;
  idle_seconds = 600;
  max_messages_per_session = 20;
  max_events_per_session = 2;
  max_tokens = 4096;
  global_kill_switch = false;
  platform_disable_new_sessions = false;
  org_disable_new_sessions = [];
  anthropic_api_key = "key";
  orchestrator_api_token = "";
  protect_session_ui = false;
  screenshot_retention_days = 7;
  artifact_storage_dir = "data/artifacts";
}

abbrev pub codec : Codec
codec = record { decode = λ text. none; checksum = λ bytes. "" }

abbrev pub env : Env
env = record {
  settings = settings;
  now = 5000;
  second = 1;
  artifact_id = "artifact-1";
  codec = codec;
  repr = λ v. "";
}

abbrev pub owner : DevIdentity
owner = record { user_id = "user-1"; organization_id = "org-1" }

abbrev stranger : DevIdentity
stranger = record { user_id = "user-2"; organization_id = "org-1" }

abbrev pub worker : WorkerInfo
worker = record { name = "w"; host = "w"; vnc = 1; novnc = 2; streamlit = 3; http = 4 }

-- One old session and one recent one.
abbrev pub server : Server
server = record {
  db =
      insert_session "s-2" "user-1" "org-1" 4900
        (insert_session "s-1" "user-1" "org-1" 100 empty_db);
  sessions =
      record (new_session "s-1" 100) { worker = some worker }
      ∷ record (new_session "s-2" 4900) { worker = some worker }
      ∷ [];
  traces = record { root_dir = "data/traces"; files = λ name. none };
  stopped = [];
}

not_owned : owns stranger "s-1" server ≡ false
unfolding owns insert_session
not_owned = refl

requests-stranger_example :
    (delete_session env "s-1" stranger server ≡ not_found server)
    × (session_history env "s-1" stranger server ≡ not_found server)
    × (post_message env "s-1" "hello" stranger server ≡ not_found server)
requests-stranger_example = requests-stranger env stranger "s-1" "hello" server not_owned

abbrev deleted_server : Server
deleted_server = (delete_session env "s-2" owner server).0

deletes : delete_session env "s-2" owner server ≡ (deleted_server, ok tt)
unfolding delete_session authorize_session insert_session get_session
deletes = refl

delete_session-requests_example :
    (delete_session env "s-2" owner deleted_server ≡ not_found deleted_server)
    × (session_history env "s-2" owner deleted_server ≡ not_found deleted_server)
    × (post_message env "s-2" "hello" owner deleted_server ≡ not_found deleted_server)
delete_session-requests_example =
    delete_session-requests env owner owner "s-2" "hello" server deleted_server deletes

abbrev three_events : List (String × String × Fields)
three_events =
    ("s-1", "assistant_block", field "text" (str "one") end)
    ∷ ("s-2", "tool_result", end)
    ∷ ("s-1", "assistant_block", field "text" (str "two") end)
    ∷ ("s-1", "assistant_block", field "text" (str "three") end)
    ∷ []

worker_events-persist_events_example :
    worker_events "s-1" (persist_events env three_events server) ≤ 2
unfolding insert_session
worker_events-persist_events_example =
    worker_events-persist_events env three_events "s-1" server (omega arith)

ids-cleanup_sessions_example :
    ids (cleanup_sessions env server)
    ≡ select
        (λ id.
          not (any (λ (x : SessionState). id == x.session_id && is_overdue env x) server.sessions))
        ("s-1" ∷ "s-2" ∷ [])
ids-cleanup_sessions_example = ids-cleanup_sessions env server

get_session_record-done_example :
    get_session_record "s-1" (persist_worker_event env "s-1" "done" end server).db ≡ (
      if leb 2 (events_of "s-1" server.db)
      then session_row "s-1" server.db
      else change_found
          (λ row. record row { status = "completed"; error = none; completed_at = some 5000 })
          (session_row "s-1" server.db))
get_session_record-done_example = get_session_record-done env "s-1" end server

abbrev periods : Periods
periods = record { message = 1000; event = 1000; deleted_session = 10000 }

abbrev used_db : Db
used_db = insert_message "s-1" "user" "hello" 200 server.db

cleanup_retention_keeps_example :
    let after = (cleanup_retention periods false 5000 used_db).0 in
    (after.messages
      ≡ select
          (λ m. not (leb (m.ts + 1000) 5000) && not (is_purged periods 5000 used_db m.session_id))
          used_db.messages)
    × (after.events
        ≡ select
            (λ e. not (leb (e.ts + 1000) 5000) && not (is_purged periods 5000 used_db e.session_id))
            used_db.events)
    × (after.sessions ≡ select (λ s. not (is_purged periods 5000 used_db s.id)) used_db.sessions)
cleanup_retention_keeps_example = cleanup_retention_keeps periods 5000 used_db

cleanup_retention_dry_example :
    ((cleanup_retention periods true 5000 used_db).0 ≡ used_db)
    × ((cleanup_retention periods true 5000 used_db).1
        ≡ record ((cleanup_retention periods false 5000 used_db).1) { dry_run = true })
cleanup_retention_dry_example = cleanup_retention_dry periods 5000 used_db

abbrev ready_session : SessionState
ready_session = record (new_session "s-2" 4900) { worker = some worker }

abbrev ready_server : Server
ready_server = record server {
  db = update_session_status "s-2" (plain_status "ready") 4950 server.db;
}

lets_through :
    enforce_session_message_limits env "s-2" ready_session ready_server ≡ (ready_server, ok tt)
unfolding enforce_session_message_limits get_session_record update_session_status insert_session
    count_session_messages
lets_through = refl

enforce_session_message_limits-ok_example :
    let row = get_session_record "s-2" ready_server.db in
    (ready_server ≡ ready_server)
    × (accepts (status_of row) ≡ true)
    × (5000 ≤ began ready_session row + 3600)
    × (user_messages "s-2" ready_server.db < 20)
enforce_session_message_limits-ok_example =
    enforce_session_message_limits-ok env "s-2" ready_session ready_server ready_server lets_through
