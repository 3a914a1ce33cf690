-- ===== src/Api/Server/Access.antt =====
-- Who reaches a session: the owner, until it is deleted.
use computer_use_orchestrato.Prelude.{
  String, ◌==◌, ◌≡◌, refl, subst, ap, Bool, true, false, not, ◌&&◌, Option, none, some, List, [],
  ◌∷◌, arith, find, is_some, Result, ok, err,
}
use computer_use_orchestrato.Api.Db.{
  SessionRow, StatusChange, update_session, change_status, get_session_owner, update_session_status,
}
use computer_use_orchestrato.Api.Server.{
  SessionState, Server, Env, HttpException, Request, get_session, pop_session, modify, on_db, ◌>>=◌,
  DevIdentity,
}
use computer_use_orchestrato.Api.Server.Events.{stop_session_worker}
use computer_use_orchestrato.Api.Server.Limits.{has_text, authorize_session}
use computer_use_orchestrato.Api.Server.Requests.{delete_session, session_history, post_message}

-- The session's row has the identity's user and organization, and is not deleted.
abbrev owns_row : DevIdentity → Option SessionRow → Bool
owns_row identity none = false
owns_row identity (some row) =
    has_text row.user_id identity.user_id && has_text row.organization_id identity.organization_id

unfoldable pub owns : DevIdentity → String → Server → Bool
unfolding get_session_owner
owns identity session_id s = owns_row identity (get_session_owner session_id s.db)

-- The answer 404 to a request, with the server as it was.
abbrev pub not_found : {A : Type 0} → Server → Server × Result HttpException A
not_found s = (s, err (record { status_code = 404; detail = "Session not found" }))

authorize_session-stranger :
    (identity : DevIdentity) (session_id : String) (s : Server)
    → owns identity session_id s ≡ false
    → authorize_session session_id identity s ≡ not_found s
unfolding authorize_session owns
authorize_session-stranger identity session_id s h = ground arith

-- What a sequence that returns went through.
returned :
    {A B : Type 0} (f : A → Request B) (p : Server × Result HttpException A) (s : Server) (b : B)
    → (let (t, r) = p in elim r [ ok a ↦ f a t | err e ↦ (t, err e) ]) ≡ (s, ok b)
    → (a : A) × (t : Server) × (f a t ≡ (s, ok b))
returned f (t, ok a) s b h = (a, t, h)
returned f (t, err e) s b h = ground arith

module _ (env : Env) where
  -- To delete a session, to read its history and to send it a message each answer 404 and change
  -- nothing, if the session has no row that is not deleted with the identity's user and
  -- organization.
  pub requests-stranger :
      (identity : DevIdentity) (session_id body : String) (s : Server)
      → owns identity session_id s ≡ false
      → (delete_session env session_id identity s ≡ not_found s)
        × (session_history env session_id identity s ≡ not_found s)
        × (post_message env session_id body identity s ≡ not_found s)
  unfolding delete_session session_history post_message
  requests-stranger identity session_id body s h =
      let refused = authorize_session-stranger identity session_id s h in
      (grind (arith, refused), grind (arith, refused), grind (arith, refused))

  find-deleted :
      (session_id : String) (c : StatusChange) (rows : List SessionRow)
      → c.deleted ≡ true
      → find
          (λ row. row.id == session_id && not (is_some row.deleted_at))
          (update_session session_id (change_status c env.now) rows)
        ≡ none
  find-deleted session_id c [] h = refl
  find-deleted session_id c (row ∷ rows) h = ground (arith, find-deleted session_id c rows h)

  owns-deleted_status :
      (identity : DevIdentity) (session_id : String) (c : StatusChange) (s : Server)
      → c.deleted ≡ true
      → owns identity session_id
          (pop_session session_id (on_db (update_session_status session_id c env.now) s))
        ≡ false
  unfolding owns update_session_status get_session_owner
  owns-deleted_status identity session_id c s h =
      ap (owns_row identity) (find-deleted session_id c s.db.sessions h)

  abbrev deletion : String → SessionState → Server → Server
  deletion session_id x s =
      stop_session_worker env session_id x "deleted" "session_deleted"
        "Session deleted; worker stopped" "user_deleted" s

  owns-deletion :
      (identity : DevIdentity) (session_id : String) (x : SessionState) (s : Server)
      → owns identity session_id (deletion session_id x s) ≡ false
  unfolding stop_session_worker
  owns-deletion identity session_id x s = owns-deleted_status identity session_id _ _ refl

  -- After a deletion that returns, to delete the session, to read its history and to send it a
  -- message answer 404 to any identity, the owner included, and change nothing.
  pub delete_session-requests :
      (identity other : DevIdentity) (session_id body : String) (s s' : Server)
      → delete_session env session_id identity s ≡ (s', ok tt)
      → (delete_session env session_id other s' ≡ not_found s')
        × (session_history env session_id other s' ≡ not_found s')
        × (post_message env session_id body other s' ≡ not_found s')
  unfolding delete_session
  delete_session-requests identity other session_id body s s' h =
      let remove = λ (x : SessionState). modify (deletion session_id x) in
      let (_, t, h₁) =
        returned (λ _. get_session session_id >>= remove) (authorize_session session_id identity s)
          s' tt h in
      let (x, t', h₂) = returned remove (get_session session_id t) s' tt h₁ in
      let stopped = ap (λ (p : Server × Result HttpException (Unit {0})). p.0) h₂ in
      requests-stranger other session_id body s'
        (subst (λ t. owns other session_id t ≡ false) stopped (owns-deletion other session_id x t'))
