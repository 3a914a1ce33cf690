-- ===== src/Api/Server/Limits.antt =====
-- api/main.py: who may do what, and how much of it.
pub mod Accepted
use computer_use_orchestrato.Prelude.{
  ℕ, suc, ◌+◌, String, ◌<>◌, ◌==◌, Bool, true, false, not, ◌&&◌, ◌||◌, Option, none, some, List, [],
  ◌∷◌, leb, ltb, truthy, contains, show, if◌then◌else◌,
}
use computer_use_orchestrato.Json.{num, str, end, field}
use computer_use_orchestrato.Api.Db.{
  Db, SessionRow, get_session_owner, get_session_record, count_session_messages,
}
use computer_use_orchestrato.Api.Server.{
  SessionState, Server, Settings, Env, Request, ◌>>=◌, ◌>>◌, pure, raise, reject_if, modify, gets,
  DevIdentity, is_terminal_status,
}
use computer_use_orchestrato.Api.Server.Events.{persist_worker_event, expire_session}

-- The column has this text.
abbrev pub has_text : Option String → String → Bool
has_text none text = false
has_text (some s) text = s == text

abbrev pub is_owner : DevIdentity → SessionRow → Bool
is_owner identity row =
    has_text row.user_id identity.user_id && has_text row.organization_id identity.organization_id

abbrev check_owner : DevIdentity → Option SessionRow → Request (Unit {0})
check_owner identity none = raise 404 "Session not found"
check_owner identity (some row) =
    if is_owner identity row then pure tt else raise 404 "Session not found"

-- `_authorize_session`
unfoldable pub authorize_session : String → DevIdentity → Request (Unit {0})
unfolding get_session_owner
authorize_session session_id identity s = check_owner identity (get_session_owner session_id s.db) s

-- A session in memory that is not deleted and not in a terminal status, with its owners.
unfoldable pub live_owner : Db → SessionState → Option SessionRow
unfolding get_session_owner get_session_record
live_owner db x = elim (get_session_owner x.session_id db) [
  | none ↦ none
  | some owner ↦
      if is_terminal_status (get_session_record x.session_id db) then none else some owner
]

abbrev count_row : (SessionRow → Bool) → Option SessionRow → ℕ → ℕ
count_row test none n = n
count_row test (some row) n = if test row then suc n else n

-- The loop of `_active_session_counts` for one of the two counts.
unfoldable pub count_active : (SessionRow → Bool) → Db → List SessionState → ℕ
count_active test db [] = 0
count_active test db (x ∷ xs) = count_row test (live_owner db x) (count_active test db xs)

abbrev pub user_sessions : DevIdentity → Server → ℕ
user_sessions identity s =
    count_active (λ row. has_text row.user_id identity.user_id) s.db s.sessions

abbrev pub org_sessions : DevIdentity → Server → ℕ
org_sessions identity s =
    count_active (λ row. has_text row.organization_id identity.organization_id) s.db s.sessions

-- `_reject_if_platform_disabled`
unfoldable pub reject_if_platform_disabled : Settings → DevIdentity → Request (Unit {0})
reject_if_platform_disabled settings identity = do
  reject_if settings.global_kill_switch 403 "Global kill switch is enabled"
  reject_if settings.platform_disable_new_sessions 403 "New sessions and messages are disabled"
  reject_if (contains settings.org_disable_new_sessions identity.organization_id) 403
      "New sessions and messages are disabled for this organization"

-- `_enforce_concurrent_session_limits`
unfoldable pub enforce_concurrent_session_limits : Settings → DevIdentity → Request (Unit {0})
enforce_concurrent_session_limits settings identity = do
  users ← gets (user_sessions identity)
  orgs ← gets (org_sessions identity)
  reject_if (leb settings.max_concurrent_sessions_per_user users) 429 (
      "User concurrent session limit exceeded limit="
      <> show settings.max_concurrent_sessions_per_user)
  reject_if (leb settings.max_concurrent_sessions_per_org orgs) 429 (
      "Organization concurrent session limit exceeded limit="
      <> show settings.max_concurrent_sessions_per_org)

-- `_session_runtime_seconds(s, record) > limit`
abbrev pub runtime_over : ℕ → ℕ → SessionState → Option SessionRow → Bool
runtime_over now limit x none = ltb (x.created_at + limit) now
runtime_over now limit x (some row) = ltb (row.created_at + limit) now

abbrev pub status_of : Option SessionRow → String
status_of none = ""
status_of (some row) = row.status

-- The statuses that end the request before any limit is looked at.
check_status : String → Request (Unit {0})
check_status status = do
  reject_if (status == "expired") 429 "Session has expired"
  reject_if (status == "killed") 403 "Session has been killed"
  reject_if (status == "deleted") 409 "Session has been deleted"
  reject_if (status == "failed") 409 "Session has failed"
  reject_if
      (truthy status
        && not (status == "ready" || status == "completed")
        && not (status == "running"))
      409 ("Session is not ready: " <> status)

module _ (env : Env) where
  check_runtime : String → SessionState → Bool → Request (Unit {0})
  check_runtime session_id x false = pure tt
  check_runtime session_id x true = do
    modify (
        expire_session env session_id x "runtime_limit_exceeded"
          "Session runtime limit exceeded; worker stopped")
    raise 429 "Session runtime limit exceeded"

  check_messages : String → Bool → Request (Unit {0})
  check_messages session_id false = pure tt
  check_messages session_id true = do
    modify (
        persist_worker_event env session_id "quota_exceeded" (
          field "limit" (num env.settings.max_messages_per_session) (
            field "quota" (str "max_messages_per_session")
              (field "message" (str "Session message limit exceeded") end))))
    raise 429 "Session message limit exceeded"

  -- `_enforce_session_message_limits`
  unfoldable pub enforce_session_message_limits : String → SessionState → Request (Unit {0})
  unfolding check_status check_runtime check_messages
  enforce_session_message_limits session_id x = do
    row ← gets (λ s. get_session_record session_id s.db)
    check_status (status_of row)
    check_runtime session_id x (runtime_over env.now env.settings.max_session_runtime x row)
    users ← gets (λ s. count_session_messages session_id (some "user") s.db)
    check_messages session_id (leb env.settings.max_messages_per_session users)
