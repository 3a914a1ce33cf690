-- ===== src/Api/Db.antt =====
-- api/db.py: the tables of the orchestrator and the statements on them. A call is one transaction
-- at the time `now`. Times are in a fixed unit, `second` of them to the second.
use computer_use_orchestrato.Prelude.{
  ℕ, ◌+◌, String, ◌==◌, Bool, false, not, ◌&&◌, Option, none, some, List, [], ◌∷◌, ◌++◌, map, any,
  find, select, count_if, is_some, if◌then◌else◌,
}
use computer_use_orchestrato.Json.{Fields}

pub record SessionRow : Type 0 where
  pub id : String
  pub user_id : Option String
  pub organization_id : Option String
  pub created_at : ℕ
  pub last_activity : ℕ
  pub status : String
  pub error : Option String
  pub stop_reason : Option String
  pub completed_at : Option ℕ
  pub deleted_at : Option ℕ

pub record MessageRow : Type 0 where
  pub id : ℕ
  pub session_id : String
  pub role : String
  pub text : String
  pub ts : ℕ

pub record EventRow : Type 0 where
  pub id : ℕ
  pub session_id : String
  pub event : String
  pub payload : Fields
  pub ts : ℕ

pub record ArtifactRow : Type 0 where
  pub artifact_id : String
  pub session_id : String
  pub user_id : Option String
  pub organization_id : Option String
  pub event_id : Option ℕ
  pub message_id : Option ℕ
  pub artifact_type : String
  pub media_type : String
  pub storage_path : Option String
  pub size_bytes : Option ℕ
  pub checksum : Option String
  pub created_at : ℕ
  pub expires_at : Option ℕ
  pub deleted_at : Option ℕ

pub record Membership : Type 0 where
  pub user_id : String
  pub organization_id : String
  pub role : String

-- The tables, the last ids given to messages and events, and the artifact files on disk.
pub record Db : Type 0 where
  pub users : List String
  pub organizations : List String
  pub memberships : List Membership
  pub sessions : List SessionRow
  pub messages : List MessageRow
  pub last_message : ℕ
  pub events : List EventRow
  pub last_event : ℕ
  pub artifacts : List ArtifactRow
  pub stored_files : List String

abbrev pub empty_db : Db
empty_db = record {
  users = [];
  organizations = [];
  memberships = [];
  sessions = [];
  messages = [];
  last_message = 0;
  events = [];
  last_event = 0;
  artifacts = [];
  stored_files = [];
}

-- `INSERT OR IGNORE`, `ON CONFLICT DO NOTHING`
abbrev insert_or_ignore : String → List String → List String
insert_or_ignore id ids = if any (λ other. other == id) ids then ids else ids ++ id ∷ []

unfoldable pub ensure_identity : String → String → Db → Db
ensure_identity user_id organization_id db =
    let known =
      any (λ m. m.user_id == user_id && m.organization_id == organization_id) db.memberships in
    let member : Membership = record {
      user_id = user_id;
      organization_id = organization_id;
      role = "member";
    } in
    record db {
      users = insert_or_ignore user_id db.users;
      organizations = insert_or_ignore organization_id db.organizations;
      memberships = if known then db.memberships else db.memberships ++ member ∷ [];
    }

-- The id is new, as `uuid4` gives it; a repeated id would be an error of the primary key.
unfoldable pub insert_session : String → String → String → ℕ → Db → Db
unfolding ensure_identity
insert_session session_id user_id organization_id now db =
    let db' = ensure_identity user_id organization_id db in
    let row : SessionRow = record {
      id = session_id;
      user_id = some user_id;
      organization_id = some organization_id;
      created_at = now;
      last_activity = now;
      status = "created";
      error = none;
      stop_reason = none;
      completed_at = none;
      deleted_at = none;
    } in
    record db' { sessions = db'.sessions ++ row ∷ [] }

-- `UPDATE sessions SET … WHERE id = ?`
abbrev pub update_session : String → (SessionRow → SessionRow) → List SessionRow → List SessionRow
update_session id change rows = map (λ row. if row.id == id then change row else row) rows

unfoldable pub get_session_record : String → Db → Option SessionRow
get_session_record session_id db = find (λ row. row.id == session_id) db.sessions

-- The row of a session that is not deleted, of which the program reads the two owners.
unfoldable pub get_session_owner : String → Db → Option SessionRow
get_session_owner session_id db =
    find (λ row. row.id == session_id && not (is_some row.deleted_at)) db.sessions

unfoldable pub update_session_activity : String → ℕ → Db → Db
update_session_activity session_id now db = record db {
  sessions = update_session session_id (λ row. record row { last_activity = now }) db.sessions;
}

-- `COALESCE(new, old)`
abbrev pub coalesce : Option String → Option String → Option String
coalesce none old = old
coalesce (some new) old = some new

-- The keyword arguments of `update_session_status`.
pub record StatusChange : Type 0 where
  pub status : String
  pub error : Option String
  pub completed : Bool
  pub stop_reason : Option String
  pub deleted : Bool

abbrev pub plain_status : String → StatusChange
plain_status status = record {
  status = status;
  error = none;
  completed = false;
  stop_reason = none;
  deleted = false;
}

abbrev pub change_status : StatusChange → ℕ → SessionRow → SessionRow
change_status c now row = record row {
  status = c.status;
  error = c.error;
  stop_reason = coalesce c.stop_reason row.stop_reason;
  completed_at = if c.completed then some now else row.completed_at;
  deleted_at = if c.deleted then some now else row.deleted_at;
}

unfoldable pub update_session_status : String → StatusChange → ℕ → Db → Db
update_session_status session_id c now db = record db {
  sessions = update_session session_id (change_status c now) db.sessions;
}

unfoldable pub insert_message : String → String → String → ℕ → Db → Db
insert_message session_id role text now db =
    let id = db.last_message + 1 in
    let row : MessageRow = record {
      id = id;
      session_id = session_id;
      role = role;
      text = text;
      ts = now;
    } in
    record db { messages = db.messages ++ row ∷ []; last_message = id }

unfoldable pub count_session_messages : String → Option String → Db → ℕ
count_session_messages session_id none db =
    count_if (λ (m : MessageRow). m.session_id == session_id) db.messages
count_session_messages session_id (some role) db =
    count_if (λ (m : MessageRow). m.session_id == session_id && m.role == role) db.messages

unfoldable pub count_session_events : String → Db → ℕ
count_session_events session_id db =
    count_if (λ (e : EventRow). e.session_id == session_id) db.events

-- The new table and the id of the event.
unfoldable pub insert_event : String → String → Fields → ℕ → Db → Db × ℕ
insert_event session_id event payload now db =
    let id = db.last_event + 1 in
    let row : EventRow = record {
      id = id;
      session_id = session_id;
      event = event;
      payload = payload;
      ts = now;
    } in
    (record db { events = db.events ++ row ∷ []; last_event = id }, id)

pub record History : Type 0 where
  pub session : SessionRow
  pub messages : List MessageRow
  pub events : List EventRow

-- Rows are stored in the order of their ids.
unfoldable pub get_session_history : String → Db → Option History
unfolding get_session_record
get_session_history session_id db = elim (get_session_record session_id db) [
  | none ↦ none
  | some row ↦ some (record {
    session = row;
    messages = select (λ (m : MessageRow). m.session_id == session_id) db.messages;
    events = select (λ (e : EventRow). e.session_id == session_id) db.events;
  })
]
