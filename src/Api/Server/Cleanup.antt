-- ===== src/Api/Server/Cleanup.antt =====
-- What a pass of the cleanup leaves in `SESSIONS`.
use computer_use_orchestrato.Prelude.{
  ◌+◌, String, ◌==◌, ◌≡◌, refl, sym, ap, ◌∙◌, Bool, true, not, ◌&&◌, ◌||◌, ltb, Option, none, some,
  List, [], ◌∷◌, arith, find, map, any, select, select-select, select-cong, select-true,
  if◌then◌else◌,
}
use computer_use_orchestrato.Json.{Fields}
use computer_use_orchestrato.Harness.Session.{SessionHarness}
use computer_use_orchestrato.Api.Server.{WorkerInfo, SessionState, Server, Env, find_session, on_db}
use computer_use_orchestrato.Api.Server.Events.{
  feed_session, feed_harness, feed_one, settle_event, stop_worker_of, persist_worker_event,
  stop_session_worker, expire_session, store_event,
}
use computer_use_orchestrato.Api.Server.Tasks.{
  overdue, expired_of, expire_found, expire_all, cleanup_sessions,
}

-- The session is older than `max_session_runtime`, or idle for longer than `max_idle_session`.
abbrev pub is_overdue : Env → SessionState → Bool
is_overdue env x =
    ltb (x.created_at + env.settings.max_session_runtime) env.now
    || (not x.busy && ltb (x.last_activity + env.settings.max_idle_session) env.now)

-- The keys of `SESSIONS`.
abbrev pub ids : Server → List String
ids s = map (λ (x : SessionState). x.session_id) s.sessions

ids-set_session :
    (session_id : String) (change : SessionState → SessionState) (xs : List SessionState)
    → ((x : SessionState) → (change x).session_id ≡ x.session_id)
    → map
        (λ (x : SessionState). x.session_id)
        (map (λ (x : SessionState). if x.session_id == session_id then change x else x) xs)
      ≡ map (λ x. x.session_id) xs
ids-set_session session_id change [] h = refl
ids-set_session session_id change (x ∷ xs) h =
    ground (arith, h x, ids-set_session session_id change xs h)

map-select :
    (id : String) (xs : List SessionState)
    → map
        (λ (x : SessionState). x.session_id)
        (select (λ (x : SessionState). not (x.session_id == id)) xs)
      ≡ select (λ (y : String). not (y == id)) (map (λ x. x.session_id) xs)
map-select id [] = refl
map-select id (x ∷ xs) = ground (arith, map-select id xs)

select-absent :
    (id : String) (xs : List SessionState)
    → find (λ (x : SessionState). x.session_id == id) xs ≡ none
    → select (λ (y : String). not (y == id)) (map (λ (x : SessionState). x.session_id) xs)
      ≡ map (λ x. x.session_id) xs
select-absent id [] h = refl
select-absent id (x ∷ xs) h = ground (arith, select-absent id xs)

module _ (env : Env) where
  ids-feed_one :
      (session_id name : String) (d : Fields) (h : Option SessionHarness) (s : Server)
      → ids (feed_one env session_id name d h s) ≡ ids s
  unfolding feed_one
  ids-feed_one session_id name d none s = refl
  ids-feed_one session_id name d (some h) s = ids-set_session session_id _ s.sessions (λ y. refl)

  ids-feed_session :
      (name : String) (d : Fields) (x : Option SessionState) (s : Server)
      → ids (feed_session env name d x s) ≡ ids s
  unfolding feed_session
  ids-feed_session name d none s = refl
  ids-feed_session name d (some x) s = ids-feed_one x.session_id name d x.harness s

  ids-settle_event :
      (session_id name : String) (d : Fields) (s : Server)
      → ids (settle_event env session_id name d s) ≡ ids s
  unfolding settle_event
  ids-settle_event session_id name d s =
      let completed =
        ids-set_session session_id (λ x. record x { completion = true }) s.sessions (λ y. refl) in
      ground (arith, completed)

  ids-persist_worker_event :
      (session_id name : String) (d : Fields) (s : Server)
      → ids (persist_worker_event env session_id name d s) ≡ ids s
  unfolding persist_worker_event feed_harness
  ids-persist_worker_event session_id name d s =
      let stored = on_db (store_event env session_id name d) s in
      let fed = feed_session env name d (find_session session_id stored) stored in
      let settled =
        ids-settle_event session_id name d fed
        ∙ ids-feed_session name d (find_session session_id stored) stored in
      ground (arith, settled)

  ids-stop_worker_of : (w : Option WorkerInfo) (s : Server) → ids (stop_worker_of env w s) ≡ ids s
  ids-stop_worker_of none s = refl
  ids-stop_worker_of (some w) s = refl

  ids-stop_session_worker :
      (session_id status name message stop_reason : String) (x : SessionState) (s : Server)
      → ids (stop_session_worker env session_id x status name message stop_reason s)
        ≡ select (λ y. not (y == session_id)) (ids s)
  unfolding stop_session_worker
  ids-stop_session_worker session_id status name message stop_reason x s =
      map-select session_id _
      ∙ ap (select (λ y. not (y == session_id))) (
          ids-persist_worker_event session_id name _ (stop_worker_of env x.worker s)
          ∙ ids-stop_worker_of x.worker s)

  ids-expire_found :
      (session_id reason message : String) (x : Option SessionState) (s : Server)
      → find_session session_id s ≡ x
      → ids (expire_found env session_id reason message x s)
        ≡ select (λ y. not (y == session_id)) (ids s)
  unfolding find_session expire_found expire_session
  ids-expire_found session_id reason message none s absent =
      sym (select-absent session_id s.sessions absent)
  ids-expire_found session_id reason message (some x) s found =
      ids-stop_session_worker session_id "expired" "session_expired" message reason x s

  -- The ids that the first loop found.
  listed : List (String × String × String) → String → Bool
  listed entries id = any (λ (e : String × String × String). id == e.0) entries

  ids-expire_all :
      (entries : List (String × String × String)) (s : Server)
      → ids (expire_all env entries s) ≡ select (λ id. not (listed entries id)) (ids s)
  unfolding expire_all listed
  ids-expire_all [] s = sym (select-true (ids s))
  ids-expire_all ((id, reason, message) ∷ rest) s =
      let t = expire_found env id reason message (find_session id s) s in
      ids-expire_all rest t
      ∙ ap (select (λ id. not (listed rest id)))
          (ids-expire_found id reason message (find_session id s) s refl)
      ∙ select-select (λ y. not (listed rest y)) (λ y. not (y == id)) (ids s)
      ∙ select-cong _ _ (ids s) (λ y. ground arith)

  listed-expired_of :
      (xs : List SessionState) (id : String)
      → listed (expired_of env xs) id
        ≡ any (λ (x : SessionState). id == x.session_id && is_overdue env x) xs
  unfolding listed expired_of overdue
  listed-expired_of [] id = refl
  listed-expired_of (x ∷ xs) id = ground (arith, listed-expired_of xs id)

  -- A pass of the cleanup removes from `SESSIONS` exactly the sessions that are over a limit, on
  -- their age or, unless busy, on their idle time, and keeps the others in their order.
  pub ids-cleanup_sessions :
      (s : Server)
      → ids (cleanup_sessions env s)
        ≡ select
            (λ id.
              not (any (λ (x : SessionState). id == x.session_id && is_overdue env x) s.sessions))
            (ids s)
  unfolding cleanup_sessions
  ids-cleanup_sessions s =
      ids-expire_all (expired_of env s.sessions) s
      ∙ select-cong _ _ (ids s) (λ id. ap not (listed-expired_of s.sessions id))
