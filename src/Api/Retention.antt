-- ===== src/Api/Retention.antt =====
-- api/db.py: the retention cleanup. A row is old when its time and the retention period are not
-- after `now`, which is `ts <= now - days * 86400` without a negative number.
pub mod DryRun
pub mod Purge
use computer_use_orchestrato.Prelude.{
  ℕ, ◌+◌, String, ◌==◌, Bool, true, false, not, ◌&&◌, Option, none, some, List, [], ◌∷◌, map,
  select, count_if, leb, is_some, truthy, nat_eq, length, contains, if◌then◌else◌,
}
use computer_use_orchestrato.Api.Db.{Db, SessionRow, MessageRow, EventRow, ArtifactRow}

-- The retention periods, in the unit of the times.
pub record Periods : Type 0 where
  pub message : ℕ
  pub event : ℕ
  pub deleted_session : ℕ

abbrev pub old_message : Periods → ℕ → MessageRow → Bool
old_message p now m = leb (m.ts + p.message) now

abbrev pub old_event : Periods → ℕ → EventRow → Bool
old_event p now e = leb (e.ts + p.event) now

-- `column IS NOT NULL AND column <= limit`
abbrev reached_by : ℕ → Option ℕ → Bool
reached_by limit none = false
reached_by limit (some at) = leb at limit

abbrev pub expired_artifact : ℕ → ArtifactRow → Bool
expired_artifact now a = reached_by now a.expires_at && not (is_some a.deleted_at)

abbrev past_deletion : ℕ → ℕ → Option ℕ → Bool
past_deletion period now none = false
past_deletion period now (some at) = leb (at + period) now

abbrev pub purgeable : Periods → ℕ → SessionRow → Bool
purgeable p now s = past_deletion p.deleted_session now s.deleted_at

pub record Report : Type 0 where
  pub dry_run : Bool
  pub messages : ℕ
  pub events : ℕ
  pub artifacts : ℕ
  pub deleted_sessions : ℕ

-- The paths of the rows that have one.
abbrev pub paths_of : List ArtifactRow → List String
paths_of [] = []
paths_of (a ∷ rest) =
    let more = paths_of rest in
    elim a.storage_path [ none ↦ more | some path ↦ if truthy path then path ∷ more else more ]

-- `Path(path).unlink(missing_ok=True)` for each path
abbrev unlink_all : List String → List String → List String
unlink_all paths files = select (λ file. not (contains paths file)) files

unfoldable pub soft_delete_expired_artifacts : ℕ → Bool → Db → Db × ℕ
soft_delete_expired_artifacts now dry_run db =
    let count = count_if (expired_artifact now) db.artifacts in
    let marked = record db {
      artifacts =
          map (λ a. if expired_artifact now a then record a { deleted_at = some now } else a)
            db.artifacts;
      stored_files =
          unlink_all (paths_of (select (expired_artifact now) db.artifacts)) db.stored_files;
    } in
    if dry_run then (db, count) else if nat_eq count 0 then (db, count) else (marked, count)

-- The statements of the loop for one deleted session.
purge_session : String → Db → Db
purge_session id db = record db {
  stored_files =
      unlink_all (paths_of (select (λ a. a.session_id == id) db.artifacts)) db.stored_files;
  artifacts = select (λ a. not (a.session_id == id)) db.artifacts;
  messages = select (λ m. not (m.session_id == id)) db.messages;
  events = select (λ e. not (e.session_id == id)) db.events;
  sessions = select (λ s. not (s.id == id)) db.sessions;
}

unfoldable pub purge_sessions : List SessionRow → Db → Db
unfolding purge_session
purge_sessions [] db = db
purge_sessions (row ∷ rest) db = purge_sessions rest (purge_session row.id db)

count_report : Periods → ℕ → Bool → Db → Report
count_report p now dry_run db = record {
  dry_run = dry_run;
  messages = count_if (old_message p now) db.messages;
  events = count_if (old_event p now) db.events;
  artifacts = count_if (expired_artifact now) db.artifacts;
  deleted_sessions = count_if (purgeable p now) db.sessions;
}

pub cleanup_now : Periods → ℕ → Db → Db × Report
cleanup_now p now db =
    let messages = count_if (old_message p now) db.messages in
    let db₁ = record db { messages = select (λ m. not (old_message p now m)) db.messages } in
    let events = count_if (old_event p now) db₁.events in
    let db₂ = record db₁ { events = select (λ e. not (old_event p now e)) db₁.events } in
    let (db₃, artifacts) = soft_delete_expired_artifacts now false db₂ in
    let deleted = select (purgeable p now) db₃.sessions in
    (
      purge_sessions deleted db₃,
      record {
        dry_run = false;
        messages = messages;
        events = events;
        artifacts = artifacts;
        deleted_sessions = length deleted;
      },
    )

-- The cutoff times in the report are left out.
unfoldable pub cleanup_retention : Periods → Bool → ℕ → Db → Db × Report
unfolding count_report cleanup_now
cleanup_retention p true now db = (db, count_report p now true db)
cleanup_retention p false now db = cleanup_now p now db
