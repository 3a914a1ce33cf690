-- ===== src/Api/Server/Status.antt =====
-- The status that a `done` event of a worker leaves.
use computer_use_orchestrato.Prelude.{
  count_if, ℕ, String, ◌==◌, ◌≡◌, refl, ap, ◌∙◌, Bool, true, false, Option, none, some, List, [],
  ◌∷◌, arith, Bool-cases, inl, inr, find, leb, nat_eq, if◌then◌else◌,
}
use computer_use_orchestrato.Json.{Fields}
use computer_use_orchestrato.Api.Db.{
  Db, SessionRow, EventRow, update_session, change_status, get_session_record, count_session_events,
  insert_event, update_session_status,
}
use computer_use_orchestrato.Api.Server.{Server, Env, on_db}
use computer_use_orchestrato.Api.Server.Events.{
  completed_change, quota_event, store_event, feed_harness, settle_event, persist_worker_event,
}
use computer_use_orchestrato.Api.Server.Quota.{db-feed_harness}

abbrev pub change_found : (SessionRow → SessionRow) → Option SessionRow → Option SessionRow
change_found change none = none
change_found change (some row) = some (change row)

find-update_session :
    (id : String) (change : SessionRow → SessionRow) (rows : List SessionRow)
    → ((row : SessionRow) → (change row).id ≡ row.id)
    → find (λ (row : SessionRow). row.id == id) (update_session id change rows)
      ≡ change_found change (find (λ (row : SessionRow). row.id == id) rows)
find-update_session id change [] h = refl
find-update_session id change (row ∷ rows) h =
    ground (arith, h row, find-update_session id change rows h)

-- The session's row, and the number of its stored events.
abbrev pub session_row : String → Db → Option SessionRow
session_row id db = find (λ (row : SessionRow). row.id == id) db.sessions

abbrev pub events_of : String → Db → ℕ
events_of id db = count_if (λ (e : EventRow). e.session_id == id) db.events

module _ (env : Env) where
  sessions-settle_done :
      (session_id : String) (d : Fields) (s : Server)
      → (settle_event env session_id "done" d s).db.sessions
        ≡ update_session session_id (change_status completed_change env.now) s.db.sessions
  unfolding settle_event update_session_status
  sessions-settle_done session_id d s = refl

  sessions-store_done :
      (session_id : String) (d : Fields) (db : Db)
      → (store_event env session_id "done" d db).sessions ≡ db.sessions
  unfolding store_event insert_event
  sessions-store_done session_id d db = refl

  -- The notice of the quota leaves the sessions alone.
  sessions-noted :
      (session_id : String) (limit : ℕ) (s : Server) (b : Bool)
      → (if b
          then on_db
              (λ db. (insert_event session_id "quota_exceeded" (quota_event limit) env.now db).0)
              s
          else s).db.sessions
        ≡ s.db.sessions
  unfolding insert_event
  sessions-noted session_id limit s true = refl
  sessions-noted session_id limit s false = refl

  -- A `done` event sets the status of its session's row to "completed", its error to none and its
  -- time of completion to now, whatever the status was, the terminal ones included, and keeps the
  -- rest of the row, its stop reason and its deletion included; but if the session has its quota
  -- of events or more, the event leaves the row as it was.
  pub get_session_record-done :
      (session_id : String) (d : Fields) (s : Server)
      → get_session_record session_id (persist_worker_event env session_id "done" d s).db ≡ (
          if leb env.settings.max_events_per_session (events_of session_id s.db)
          then session_row session_id s.db
          else change_found
              (λ row. record row {
                status = "completed";
                error = none;
                completed_at = some env.now;
              })
              (session_row session_id s.db))
  unfolding persist_worker_event count_session_events get_session_record
  get_session_record-done session_id d s =
      let limit = env.settings.max_events_per_session in
      let count = count_session_events session_id s.db in
      let stored = on_db (store_event env session_id "done" d) s in
      elim (Bool-cases (leb limit count)) [
        | inl full ↦ rw full (
            ap (find (λ (row : SessionRow). row.id == session_id))
              (sessions-noted session_id limit s (nat_eq count limit)))
        | inr room ↦ rw room (
            ap (find (λ (row : SessionRow). row.id == session_id)) (
              sessions-settle_done session_id d (feed_harness env session_id "done" d stored)
              ∙ ap
                  (λ (db : Db).
                    update_session session_id (change_status completed_change env.now) db.sessions)
                  (db-feed_harness env session_id "done" d stored)
              ∙ ap (update_session session_id (change_status completed_change env.now))
                  (sessions-store_done session_id d s.db))
            ∙ find-update_session session_id _ s.db.sessions (λ row. refl))
      ]
