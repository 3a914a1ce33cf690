-- ===== src/Api/Server/Limits/Accepted.antt =====
-- What a message has passed when the limits let it through.
use computer_use_orchestrato.Prelude.{
  ℕ, count_if, ◌&&◌, ◌+◌, ◌≤◌, Option, none, ◌<◌, String, ◌==◌, ◌≡◌, refl, Bool, true, false, not,
  ◌||◌, some, arith, leb, truthy, Result, ok, err, ◌∙◌, subst,
}
use computer_use_orchestrato.Api.Db.{
  Db, MessageRow, SessionRow, get_session_record, count_session_messages,
}
use computer_use_orchestrato.Api.Server.{
  SessionState, Server, Env, HttpException, Request, ◌>>◌, reject_if,
}
use computer_use_orchestrato.Api.Server.Limits.{
  runtime_over, status_of, check_status, check_runtime, check_messages,
  enforce_session_message_limits,
}

reject_if-ok :
    (b : Bool) (code : ℕ) (detail : String) (s s' : Server)
    → reject_if b code detail s ≡ (s', ok tt)
    → (b ≡ false) × (s' ≡ s)
reject_if-ok true code detail s s' h = ground arith
reject_if-ok false code detail s s' h = (refl, ground arith)

chain-ok :
    (p : Server × Result HttpException (Unit {0})) (k : Request (Unit {0})) (s' : Server)
    → (let (t, r) = p in elim r [ ok a ↦ k t | err e ↦ (t, err e) ]) ≡ (s', ok tt)
    → (t : Server) × (p ≡ (t, ok tt)) × (k t ≡ (s', ok tt))
chain-ok (t, ok tt) k s' h = (t, refl, h)
chain-ok (t, err e) k s' h = ground arith

below : (a b : ℕ) → leb a b ≡ false → b < a
below a b h = ground arith

module _ (env : Env) where
  check_runtime-ok :
      (session_id : String) (x : SessionState) (over : Bool) (s s' : Server)
      → check_runtime env session_id x over s ≡ (s', ok tt)
      → (over ≡ false) × (s' ≡ s)
  unfolding check_runtime
  check_runtime-ok session_id x true s s' h = ground arith
  check_runtime-ok session_id x false s s' h = (refl, ground arith)

  check_messages-ok :
      (session_id : String) (over : Bool) (s s' : Server)
      → check_messages env session_id over s ≡ (s', ok tt)
      → (over ≡ false) × (s' ≡ s)
  unfolding check_messages
  check_messages-ok session_id true s s' h = ground arith
  check_messages-ok session_id false s s' h = (refl, ground arith)

-- The statuses in which a session takes a message; a session without a row has none.
abbrev pub accepts : String → Bool
accepts status =
    not (truthy status) || status == "ready" || status == "completed" || status == "running"

check_status-ok :
    (status : String) (s s' : Server)
    → check_status status s ≡ (s', ok tt)
    → (accepts status ≡ true) × (s' ≡ s)
unfolding check_status
check_status-ok status s s' h = ground arith

-- When the session began: what its row says, if it has one.
abbrev pub began : SessionState → Option SessionRow → ℕ
began x none = x.created_at
began x (some row) = row.created_at

abbrev pub user_messages : String → Db → ℕ
user_messages id db =
    count_if (λ (m : MessageRow). m.session_id == id && m.role == "user") db.messages

in_time :
    (now limit : ℕ) (x : SessionState) (row : Option SessionRow)
    → runtime_over now limit x row ≡ false
    → now ≤ began x row + limit
in_time now limit x none h = ground arith
in_time now limit x (some row) h = ground arith

module _ (env : Env) where
  -- If `_enforce_session_message_limits` returns, it changed nothing, the session's status is one
  -- that takes messages, no more time than the runtime limit has passed since the session's row
  -- was created, or the session where it has no row, and it has fewer messages of the user than
  -- the limit.
  pub enforce_session_message_limits-ok :
      (session_id : String) (x : SessionState) (s s' : Server)
      → enforce_session_message_limits env session_id x s ≡ (s', ok tt)
      → let row = get_session_record session_id s.db in
        (s' ≡ s)
        × (accepts (status_of row) ≡ true)
        × (env.now ≤ began x row + env.settings.max_session_runtime)
        × (user_messages session_id s.db < env.settings.max_messages_per_session)
  unfolding enforce_session_message_limits count_session_messages
  enforce_session_message_limits-ok session_id x s s' h =
      let row = get_session_record session_id s.db in
      let over = runtime_over env.now env.settings.max_session_runtime x row in
      let full = λ (t : Server).
        leb env.settings.max_messages_per_session
          (count_session_messages session_id (some "user") t.db) in
      let check = λ (t : Server). check_messages env session_id (full t) t in
      let (t₁, h₁, k₁) =
        chain-ok (check_status (status_of row) s) (check_runtime env session_id x over >> check) s'
          h in
      let (t₂, h₂, k₂) = chain-ok (check_runtime env session_id x over t₁) check s' k₁ in
      let (good, e₁) = check_status-ok (status_of row) s t₁ h₁ in
      let (young, e₂) = check_runtime-ok env session_id x over t₁ t₂ h₂ in
      let (room, e₃) = check_messages-ok env session_id (full t₂) t₂ s' k₂ in
      let same = e₂ ∙ e₁ in
      (
        e₃ ∙ same,
        good,
        in_time env.now env.settings.max_session_runtime x row young,
        below _ _ (subst (λ t. full t ≡ false) same room),
      )
