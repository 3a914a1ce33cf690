-- ===== src/Api/Retention/Purge.antt =====
-- What is left after a real cleanup.
use computer_use_orchestrato.Prelude.{
  leb, ◌+◌, Option, none, some, ℕ, String, ◌==◌, ◌≡◌, ap, ap₂, sym, ◌∙◌, Bool, false, not, ◌&&◌,
  ◌||◌, arith, List, [], ◌∷◌, any, select, select-cong, select-select, select-true, any-select,
}
use computer_use_orchestrato.Api.Db.{Db, SessionRow, MessageRow, EventRow}
use computer_use_orchestrato.Api.Retention.{
  Periods, purgeable, old_message, old_event, soft_delete_expired_artifacts, purge_session,
  purge_sessions, cleanup_retention,
}

-- The id is that of one of the sessions.
abbrev named_by : List SessionRow → String → Bool
named_by rows id = any (λ s. id == s.id) rows

-- There is a time of deletion, and the period since then is over.
abbrev pub is_gone : Periods → ℕ → Option ℕ → Bool
is_gone p now none = false
is_gone p now (some at) = leb (at + p.deleted_session) now

-- The id is that of a session whose deletion is long enough ago.
abbrev pub is_purged : Periods → ℕ → Db → String → Bool
is_purged p now db id = any (λ s. is_gone p now s.deleted_at && id == s.id) db.sessions

keep_step : (x y : Bool) → (not x && not y) ≡ not (x || y)
keep_step x y = ground arith

module _ {A : Type 0} (key : A → String) where
  -- One more session in the list is one more filter.
  select-named_by :
      (row : SessionRow) (rest : List SessionRow) (xs : List A)
      → select (λ x. not (named_by rest (key x))) (select (λ x. not (key x == row.id)) xs)
        ≡ select (λ x. not (named_by (row ∷ rest) (key x))) xs
  select-named_by row rest xs =
      select-select (λ x. not (named_by rest (key x))) (λ x. not (key x == row.id)) xs
      ∙ select-cong _ _ xs (λ x. keep_step (key x == row.id) (named_by rest (key x)))

purge_sessions_tables :
    (rows : List SessionRow) (db : Db)
    → let db' = purge_sessions rows db in
      (db'.messages ≡ select (λ (m : MessageRow). not (named_by rows m.session_id)) db.messages)
      × (db'.events ≡ select (λ (e : EventRow). not (named_by rows e.session_id)) db.events)
      × (db'.sessions ≡ select (λ (s : SessionRow). not (named_by rows s.id)) db.sessions)
unfolding purge_sessions
purge_sessions_tables [] db =
    (sym (select-true db.messages), sym (select-true db.events), sym (select-true db.sessions))
purge_sessions_tables (row ∷ rest) db =
    let (m, e, s) = purge_sessions_tables rest (purge_session row.id db) in
    unfold purge_session in
    (
      m ∙ select-named_by (λ (x : MessageRow). x.session_id) row rest db.messages,
      e ∙ select-named_by (λ (x : EventRow). x.session_id) row rest db.events,
      s ∙ select-named_by (λ (x : SessionRow). x.id) row rest db.sessions,
    )

soft_delete_keeps :
    (now : ℕ) (db : Db)
    → let db' = (soft_delete_expired_artifacts now false db).0 in
      (db'.messages ≡ db.messages) × (db'.events ≡ db.events) × (db'.sessions ≡ db.sessions)
unfolding soft_delete_expired_artifacts
soft_delete_keeps now db = ground arith

select-purged :
    {A : Type 0} (key : A → String) (old : A → Bool) (p : Periods) (now : ℕ) (db : Db) (xs : List A)
    → select
        (λ x. not (named_by (select (purgeable p now) db.sessions) (key x)))
        (select (λ x. not (old x)) xs)
      ≡ select (λ x. not (old x) && not (is_purged p now db (key x))) xs
select-purged key old p now db xs =
    select-select (λ x. not (named_by (select (purgeable p now) db.sessions) (key x)))
      (λ x. not (old x)) xs
    ∙ select-cong _ _ xs (λ x.
      ap (λ b. not (old x) && not b)
        (any-select (λ (s : SessionRow). key x == s.id) (purgeable p now) db.sessions))

-- A real cleanup keeps exactly the messages and events that are younger than their retention
-- period and whose session is not purged, and exactly the sessions that are not purged: those that
-- are not deleted, or not for as long as the period. What is kept keeps its order.
pub cleanup_retention_keeps :
    (p : Periods) (now : ℕ) (db : Db)
    → let db' = (cleanup_retention p false now db).0 in
      (db'.messages
        ≡ select
            (λ m. not (leb (m.ts + p.message) now) && not (is_purged p now db m.session_id))
            db.messages)
      × (db'.events
          ≡ select
              (λ e. not (leb (e.ts + p.event) now) && not (is_purged p now db e.session_id))
              db.events)
      × (db'.sessions ≡ select (λ s. not (is_purged p now db s.id)) db.sessions)
unfolding cleanup_retention
cleanup_retention_keeps p now db =
    let db₁ = record db { messages = select (λ m. not (old_message p now m)) db.messages } in
    let db₂ = record db₁ { events = select (λ e. not (old_event p now e)) db₁.events } in
    let db₃ = (soft_delete_expired_artifacts now false db₂).0 in
    let (same_messages, same_events, same_sessions) = soft_delete_keeps now db₂ in
    let gone = λ (rows : List SessionRow). select (purgeable p now) rows in
    let (m, e, s) = purge_sessions_tables (gone db₃.sessions) db₃ in
    (
      m
          ∙ ap₂ (λ rows xs. select (λ (x : MessageRow). not (named_by (gone rows) x.session_id)) xs)
              same_sessions same_messages
          ∙ select-purged (λ (x : MessageRow). x.session_id) (old_message p now) p now db
              db.messages,
      e
          ∙ ap₂ (λ rows xs. select (λ (x : EventRow). not (named_by (gone rows) x.session_id)) xs)
              same_sessions same_events
          ∙ select-purged (λ (x : EventRow). x.session_id) (old_event p now) p now db db.events,
      s
          ∙ ap (λ rows. select (λ (x : SessionRow). not (named_by (gone rows) x.id)) rows)
              same_sessions
          ∙ select-cong _ _ db.sessions (λ x.
            ap not (any-select (λ (r : SessionRow). x.id == r.id) (purgeable p now) db.sessions)),
    )
