-- ===== src/Api/Server/Quota.antt =====
-- The quota of stored events, over every way to store one.
use computer_use_orchestrato.Prelude.{
  ℕ, ◌+◌, ◌≤◌, String, ◌==◌, ◌≡◌, refl, ap, ◌∙◌, Bool, true, false, not, ◌&&◌, Option, none, some,
  List, [], ◌∷◌, arith, count_if, count_if-append, nat_eq, leb, Bool-cases, inl, inr, if◌then◌else◌,
  eq_iff,
}
use computer_use_orchestrato.Json.{Fields}
use computer_use_orchestrato.Harness.Session.{SessionHarness}
use computer_use_orchestrato.Api.Db.{
  Db, EventRow, count_session_events, insert_event, insert_message, update_session_status,
}
use computer_use_orchestrato.Api.Artifacts.{create_screenshot_artifact, create_artifact_metadata}
use computer_use_orchestrato.Api.Server.{Server, SessionState, Env, on_db, find_session}
use computer_use_orchestrato.Api.Server.Events.{
  store_event, feed_harness, feed_session, feed_one, settle_event, persist_worker_event,
  quota_event,
}

-- The stored events of a session that are no notice of a quota.
abbrev pub worker_events : String → Server → ℕ
worker_events session_id s =
    count_if (λ (e : EventRow). e.session_id == session_id && not (e.event == "quota_exceeded"))
      s.db.events

count_if-and :
    {A : Type 0} (p q : A → Bool) (xs : List A) → count_if (λ x. p x && q x) xs ≤ count_if p xs
count_if-and p q [] = omega arith
count_if-and p q (x ∷ xs) = ground (arith, count_if-and p q xs)

module _ (env : Env) where
  events-store_event :
      (session_id name : String) (d : Fields) (db : Db)
      → (store_event env session_id name d db).events
        ≡ (insert_event session_id name d env.now db).0.events
  unfolding store_event create_screenshot_artifact create_artifact_metadata
  events-store_event session_id name d db = ground arith

  db-feed_one :
      (session_id name : String) (d : Fields) (h : Option SessionHarness) (s : Server)
      → (feed_one env session_id name d h s).db ≡ s.db
  unfolding feed_one
  db-feed_one session_id name d none s = refl
  db-feed_one session_id name d (some h) s = refl

  db-feed_session :
      (name : String) (d : Fields) (x : Option SessionState) (s : Server)
      → (feed_session env name d x s).db ≡ s.db
  unfolding feed_session
  db-feed_session name d none s = refl
  db-feed_session name d (some x) s = db-feed_one x.session_id name d x.harness s

  pub db-feed_harness :
      (session_id name : String) (d : Fields) (s : Server)
      → (feed_harness env session_id name d s).db ≡ s.db
  unfolding feed_harness
  db-feed_harness session_id name d s = db-feed_session name d (find_session session_id s) s

  events-settle_event :
      (session_id name : String) (d : Fields) (s : Server)
      → (settle_event env session_id name d s).db.events ≡ s.db.events
  unfolding settle_event insert_message update_session_status
  events-settle_event session_id name d s = ground arith

  -- `insert_event` adds one event to its session.
  worker_events-insert_event :
      (session_id other name : String) (d : Fields) (s : Server)
      → worker_events other (on_db (λ db. (insert_event session_id name d env.now db).0) s)
        ≡ worker_events other s
          + (if session_id == other && not (name == "quota_exceeded") then 1 else 0)
  unfolding insert_event
  worker_events-insert_event session_id other name d s = ground (
    arith,
    count_if-append (λ (e : EventRow). e.session_id == other && not (e.event == "quota_exceeded"))
        s.db.events
        (record {
          id = s.db.last_event + 1;
          session_id = session_id;
          event = name;
          payload = d;
          ts = env.now;
        }
          ∷ []),
  )

  -- What a call does to the table of events, dropped or not.
  events-persist_worker_event :
      (session_id name : String) (d : Fields) (s : Server)
      → let limit = env.settings.max_events_per_session in
        let count = count_session_events session_id s.db in
        (persist_worker_event env session_id name d s).db.events ≡ (
          if not (name == "quota_exceeded") && leb limit count
          then (if nat_eq count limit
              then (insert_event session_id "quota_exceeded"
                  (quota_event limit)
                  env.now
                  s.db).0.events
              else s.db.events)
          else (insert_event session_id name d env.now s.db).0.events)
  unfolding persist_worker_event
  events-persist_worker_event session_id name d s =
      elim (Bool-cases (
        not (name == "quota_exceeded")
        && leb env.settings.max_events_per_session (count_session_events session_id s.db))) [
          | inl dropped ↦ rw dropped (ground arith)
          | inr kept ↦
              let stored = on_db (store_event env session_id name d) s in
              rw kept (
                events-settle_event session_id name d (feed_harness env session_id name d stored)
                ∙ ap (λ (db : Db). db.events) (db-feed_harness session_id name d stored)
                ∙ events-store_event session_id name d s.db)
        ]

  worker_events-le-count :
      (session_id : String) (s : Server)
      → worker_events session_id s ≤ count_session_events session_id s.db
  unfolding count_session_events
  worker_events-le-count session_id s =
      count_if-and (λ (e : EventRow). e.session_id == session_id)
        (λ e. not (e.event == "quota_exceeded")) s.db.events

  -- Two tables with the same events have the same count.
  worker_events-same :
      (other : String) {xs ys : List EventRow}
      → xs ≡ ys
      → count_if (λ (e : EventRow). e.session_id == other && not (e.event == "quota_exceeded")) xs
        ≡ count_if (λ (e : EventRow). e.session_id == other && not (e.event == "quota_exceeded")) ys
  worker_events-same other same = ap (count_if _) same

  -- A session that is below the limit on stored events has room for one more.
  worker_events-below :
      (session_id other : String) (s : Server)
      → session_id == other ≡ true
      → leb env.settings.max_events_per_session (count_session_events session_id s.db) ≡ false
      → worker_events other s + 1 ≤ env.settings.max_events_per_session
  worker_events-below session_id other s eq below =
      let same : session_id ≡ other = (eq_iff session_id other).0 eq in
      let counted = worker_events-le-count other s in let below' = rw same at below in ground arith

  -- One event: its session's count stays within the limit, and so does every other session's.
  worker_events-persist_le :
      (session_id other name : String) (d : Fields) (s : Server)
      → worker_events other s ≤ env.settings.max_events_per_session
      → worker_events other (persist_worker_event env session_id name d s)
        ≤ env.settings.max_events_per_session
  worker_events-persist_le session_id other name d s h =
      let limit = env.settings.max_events_per_session in
      let count = count_session_events session_id s.db in
      let events = events-persist_worker_event session_id name d s in
      elim (Bool-cases (not (name == "quota_exceeded") && leb limit count)) [
        | inl dropped ↦ elim (Bool-cases (nat_eq count limit)) [
          | inl full ↦
              let same =
                worker_events-same other (rw (dropped, full) at events)
                ∙ worker_events-insert_event session_id other "quota_exceeded" (quota_event limit)
                    s in
              rw same (ground arith)
          | inr over ↦ rw (worker_events-same other (rw (dropped, over) at events)) h
        ]
        | inr kept ↦
            let same =
              worker_events-same other (rw kept at events)
              ∙ worker_events-insert_event session_id other name d s in
            rw same (elim (Bool-cases (name == "quota_exceeded")) [
              | inl notice ↦ rw notice (ground arith)
              | inr event ↦ elim (Bool-cases (session_id == other)) [
                | inl eq ↦
                    rw (event, eq) (worker_events-below session_id other s eq (rw event at kept))
                | inr apart ↦ rw (event, apart) (ground arith)
              ]
            ])
      ]

  -- Events of any sessions, stored one after the other.
  unfoldable pub persist_events : List (String × String × Fields) → Server → Server
  persist_events [] s = s
  persist_events ((session_id, name, d) ∷ rest) s =
      persist_events rest (persist_worker_event env session_id name d s)

  -- If a session has at most `max_events_per_session` stored events that are no quota notices, then
  -- after any sequence of calls of `persist_worker_event`, for this session and for others, it
  -- still has.
  pub worker_events-persist_events :
      (events : List (String × String × Fields)) (other : String) (s : Server)
      → worker_events other s ≤ env.settings.max_events_per_session
      → worker_events other (persist_events events s) ≤ env.settings.max_events_per_session
  unfolding persist_events
  worker_events-persist_events [] other s h = h
  worker_events-persist_events ((session_id, name, d) ∷ rest) other s h =
      worker_events-persist_events rest other (persist_worker_event env session_id name d s)
        (worker_events-persist_le session_id other name d s h)
