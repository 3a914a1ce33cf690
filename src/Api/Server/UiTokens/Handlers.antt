-- ===== src/Api/Server/UiTokens/Handlers.antt =====
-- api/main.py: the handlers that make a UI token and that show the user interface of a session.
use computer_use_orchestrato.Prelude.{
  ℕ, String, ◌<>◌, ◌==◌, Bool, false, not, ◌&&◌, Option, none, some, truthy, if◌then◌else◌,
}
use computer_use_orchestrato.Api.Server.{
  WorkerInfo, Settings, Env, Request, ◌>>=◌, ◌>>◌, pure, raise, reject_if, get_session, DevIdentity,
}
use computer_use_orchestrato.Api.Server.Limits.{authorize_session}
use computer_use_orchestrato.Api.Server.UiTokens.{
  UiTokens, Checked, make_ui_token, validate_ui_token,
}

-- `HTTPAuthorizationCredentials`, with its scheme in lower case
pub record Credentials : Type 0 where
  pub scheme : String
  pub credentials : String

pub record UiToken : Type 0 where
  pub token : String
  pub expires_at : ℕ
  pub ui_url : String

-- The two values in the page that `session_ui` returns
pub record UiPage : Type 0 where
  pub session_id : String
  pub novnc_url : String

abbrev is_bearer : String → Option Credentials → Bool
is_bearer token none = false
is_bearer token (some c) = c.scheme == "bearer" && c.credentials == token

-- `require_orchestrator_token`
unfoldable pub require_orchestrator_token : Settings → Option Credentials → Request (Unit {0})
require_orchestrator_token settings credentials =
    reject_if
      (truthy settings.orchestrator_api_token
        && not (is_bearer settings.orchestrator_api_token credentials))
      401 "Invalid or missing bearer token"

abbrev checked : {A : Type 0} → Checked A → Request A
checked r s = (s, r)

abbrev pub has_worker : Option WorkerInfo → Request WorkerInfo
has_worker none = raise 500 "Worker not started for session"
has_worker (some worker) = pure worker

module _ {B : Type 0} (env : Env) (ui : UiTokens B) where
  abbrev with_url : String → String × ℕ → UiToken
  with_url session_id (token, expires_at) = record {
    token = token;
    expires_at = expires_at;
    ui_url =
        "http://"
        <> (ui.public_host <> (":9000/sessions/" <> (session_id <> ("/ui?token=" <> token))));
  }

  -- `create_ui_token`
  unfoldable pub create_ui_token : String → DevIdentity → Request UiToken
  unfolding authorize_session get_session make_ui_token
  create_ui_token session_id identity = do
    authorize_session session_id identity
    session ← get_session session_id
    made ← checked (make_ui_token env ui session_id identity)
    pure (with_url session_id made)

  abbrev without_token : String → Option Credentials → DevIdentity → Request (Unit {0})
  without_token session_id credentials identity = do
    require_orchestrator_token env.settings credentials
    authorize_session session_id identity
    reject_if env.settings.protect_session_ui 403 "UI token is required"

  abbrev with_token : String → String → Request (Unit {0})
  with_token session_id token = do identity ← validate_ui_token env ui session_id token; pure tt

  abbrev opened_by : String → String → Option Credentials → DevIdentity → Request (Unit {0})
  opened_by session_id token credentials identity =
      if truthy token
      then with_token session_id token
      else without_token session_id credentials identity

  -- `session_ui`; a token that is not given is the empty text. `novnc_url` is what the launcher tells of a
  -- worker.
  unfoldable pub session_ui :
      (WorkerInfo → String) → String → String → Option Credentials → DevIdentity → Request UiPage
  unfolding require_orchestrator_token authorize_session validate_ui_token get_session
  session_ui novnc_url session_id token credentials identity = do
    opened_by session_id token credentials identity
    session ← get_session session_id
    worker ← has_worker session.worker
    pure (record { session_id = session_id; novnc_url = novnc_url worker })
