-- ===== src/Api/Server.antt =====
-- api/main.py: the state of the orchestrator process, and what its settings and the outside give.
-- A request runs at one instant, `now`.
pub mod Events
pub mod Limits
pub mod Stream
pub mod Requests
pub mod UiTokens
pub mod Tasks
pub mod Quota
pub mod Cleanup
pub mod Access
pub mod Status
use computer_use_orchestrato.Prelude.{
  ℕ, String, ◌==◌, Bool, true, false, not, Option, none, some, List, [], ◌∷◌, map, find, select,
  contains, if◌then◌else◌, Result, ok, err,
}
use computer_use_orchestrato.Json.{Json}
use computer_use_orchestrato.Harness.Traces.{TraceStore}
use computer_use_orchestrato.Harness.Session.{SessionHarness}
use computer_use_orchestrato.Api.Db.{Db, SessionRow, update_session_activity}
use computer_use_orchestrato.Api.Artifacts.{Codec}

pub record WorkerInfo : Type 0 where
  pub name : String
  pub host : String
  pub vnc : ℕ
  pub novnc : ℕ
  pub streamlit : ℕ
  pub http : ℕ

-- `busy` is a task that is not done, and `completion` the event that the task waits for.
pub record SessionState : Type 0 where
  pub session_id : String
  pub busy : Bool
  pub completion : Bool
  pub created_at : ℕ
  pub last_activity : ℕ
  pub worker : Option WorkerInfo
  pub harness : Option SessionHarness

-- `SessionState(session_id=…)`
abbrev pub new_session : String → ℕ → SessionState
new_session session_id now = record {
  session_id = session_id;
  busy = false;
  completion = false;
  created_at = now;
  last_activity = now;
  worker = none;
  harness = none;
}

-- The database, `SESSIONS` in the order of insertion, the trace files, and the names of the
-- workers that were told to stop.
pub record Server : Type 0 where
  pub db : Db
  pub sessions : List SessionState
  pub traces : TraceStore
  pub stopped : List String

-- Limits on time are in the unit of the clock, and the budgets of the harness in seconds.
pub record Settings : Type 0 where
  pub max_concurrent_sessions_per_user : ℕ
  pub max_concurrent_sessions_per_org : ℕ
  pub max_session_runtime : ℕ
  pub max_idle_session : ℕ
  pub runtime_seconds : ℕ
  pub idle_seconds : ℕ
  pub max_messages_per_session : ℕ
  pub max_events_per_session : ℕ
  pub max_tokens : ℕ
  pub global_kill_switch : Bool
  pub platform_disable_new_sessions : Bool
  pub org_disable_new_sessions : List String
  pub anthropic_api_key : String
  pub orchestrator_api_token : String
  pub protect_session_ui : Bool
  pub screenshot_retention_days : ℕ
  pub artifact_storage_dir : String

-- The settings, the clock, the next `uuid4` for an artifact, and the library functions used.
pub record Env : Type 0 where
  pub settings : Settings
  pub now : ℕ
  pub second : ℕ
  pub artifact_id : String
  pub codec : Codec
  pub repr : Json → String

pub record HttpException : Type 0 where
  pub status_code : ℕ
  pub detail : String

-- A request changes the server's state and returns or raises; what it did before it raised stays.
abbrev pub Request : Type 0 → Type 0
Request A = Server → Server × Result HttpException A

infixl 5 ◌>>=◌ ◌>>◌
abbrev pub ◌>>=◌ : {A B : Type 0} → Request A → (A → Request B) → Request B
◌>>=◌ m f s = let (s', r) = m s in elim r [ ok a ↦ f a s' | err e ↦ (s', err e) ]

abbrev pub ◌>>◌ : {A B : Type 0} → Request A → Request B → Request B
m >> k = m >>= λ _. k

abbrev pub pure : {A : Type 0} → A → Request A
pure a s = (s, ok a)

abbrev pub raise : {A : Type 0} → ℕ → String → Request A
raise status_code detail s = (s, err (record { status_code = status_code; detail = detail }))

abbrev pub reject_if : Bool → ℕ → String → Request (Unit {0})
reject_if true status_code detail = raise status_code detail
reject_if false status_code detail = pure tt

abbrev pub modify : (Server → Server) → Request (Unit {0})
modify f s = (f s, ok tt)

abbrev pub gets : {A : Type 0} → (Server → A) → Request A
gets f s = (s, ok (f s))

abbrev pub on_db : (Db → Db) → Server → Server
on_db f s = record s { db = f s.db }

-- `SESSIONS.get(session_id)`
unfoldable pub find_session : String → Server → Option SessionState
find_session session_id s = find (λ (x : SessionState). x.session_id == session_id) s.sessions

-- A change of the session object, which is there under its id.
abbrev pub set_session : String → (SessionState → SessionState) → Server → Server
set_session session_id change s = record s {
  sessions = map (λ x. if x.session_id == session_id then change x else x) s.sessions;
}

-- `SESSIONS.pop(session_id, None)`
abbrev pub pop_session : String → Server → Server
pop_session session_id s = record s {
  sessions = select (λ x. not (x.session_id == session_id)) s.sessions;
}

-- `_touch`
unfoldable pub touch : ℕ → String → Server → Server
unfolding update_session_activity
touch now session_id s =
    on_db (update_session_activity session_id now)
      (set_session session_id (λ x. record x { last_activity = now }) s)

-- `_get_session`
unfoldable pub get_session : String → Request SessionState
unfolding find_session
get_session session_id s = elim (find_session session_id s) [
  | none ↦ (s, err (record { status_code = 404; detail = "Session not found" }))
  | some x ↦ (s, ok x)
]

pub record DevIdentity : Type 0 where
  pub user_id : String
  pub organization_id : String

-- `TERMINAL_SESSION_STATUSES`
abbrev pub terminal_session_statuses : List String
terminal_session_statuses = "failed" ∷ "stopped" ∷ "expired" ∷ "deleted" ∷ "killed" ∷ "error" ∷ []

-- `_is_terminal_status`, of the status of a row, or of no row
abbrev pub is_terminal_status : Option SessionRow → Bool
is_terminal_status none = false
is_terminal_status (some row) = contains terminal_session_statuses row.status
