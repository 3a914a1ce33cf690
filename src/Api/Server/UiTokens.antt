-- ===== src/Api/Server/UiTokens.antt =====
-- api/main.py: the signed tokens that open the user interface of a session, and the handlers that make
-- and take them. B is the type of bytes.
pub mod Checked
pub mod Accepted
pub mod Handlers
use Prim.Native.Char.{code}
use Prim.Native.String.{count}
use computer_use_orchestrato.Prelude.{
  ℕ, zero, suc, ◌+◌, ◌-◌, ◌%◌, String, ◌<>◌, ◌==◌, Bool, true, false, not, ◌||◌, Option, none, some,
  ltb, nat_eq, truthy, if◌then◌else◌, Result, ok, err, ◌>>=◌,
}
use computer_use_orchestrato.Json.{
  Json, float, str, obj, Fields, end, field, get_or_null, py_str, ◌or◌,
}
use computer_use_orchestrato.Tools.Text.{cut}
use computer_use_orchestrato.Api.Server.{Server, Env, HttpException, Request, DevIdentity}
use computer_use_orchestrato.Api.Server.Limits.{authorize_session}

-- The settings for tokens; `json.dumps` with sorted keys and no spaces, and `json.loads`, of
-- bytes; `float(value)`, which is not negative; the base64 of the library, whose alphabet is that
-- of URLs; and the hashes. `hmac` is the SHA-256 HMAC of a text's ASCII bytes, if it has such.
pub record UiTokens (B : Type 0) : Type 0 where
  pub ui_token_secret : String
  pub ui_token_ttl : ℕ
  pub public_host : String
  pub dumps : Fields → B
  pub loads : B → Option Json
  pub as_float : Json → Option ℕ
  pub urlsafe_b64encode : B → String
  pub urlsafe_b64decode : String → Option B
  pub utf8 : String → B
  pub sha256 : B → B
  pub hmac : B → String → Option B
  pub compare_digest : B → B → Bool

-- A check that returns, or raises an HTTP error, and leaves the server as it is.
abbrev pub Checked : Type 0 → Type 0
Checked A = Result HttpException A

abbrev pub refuse : {A : Type 0} → String → Checked A
refuse detail = err (record { status_code = 403; detail = detail })

abbrev pub or_refuse : {A : Type 0} → String → Option A → Checked A
or_refuse detail none = refuse detail
or_refuse detail (some a) = ok a

-- The text without the "=" at its end
unfoldable pub without_padding : String → String
without_padding String.[] = ""
without_padding (String.◌∷◌ c s) =
    let rest = without_padding s in
    if nat_eq (code c) 61 then (if rest == "" then "" else String.◌∷◌ c rest) else String.◌∷◌ c rest

abbrev pub padding : ℕ → String
padding zero = ""
padding (suc n) = "=" <> padding n

abbrev pub is_text : Json → String → Bool
is_text (str s) text = s == text
is_text v text = false

module _ {B : Type 0} (env : Env) (ui : UiTokens B) where
  open ui use {
    ui_token_secret, ui_token_ttl, public_host, dumps, loads, as_float, urlsafe_b64encode,
    urlsafe_b64decode, utf8, sha256, hmac, compare_digest,
  }

  -- `_b64url_encode`
  unfoldable pub b64url_encode : B → String
  unfolding without_padding
  b64url_encode raw = without_padding (urlsafe_b64encode raw)

  -- `_b64url_decode`, with as much padding as `-len(raw) % 4`
  unfoldable pub b64url_decode : String → Option B
  b64url_decode raw = urlsafe_b64decode (raw <> padding ((4 - count raw % 4) % 4))

  -- `_ui_token_secret`
  unfoldable pub secret : Checked B
  secret =
      if truthy ui_token_secret
      then ok (utf8 ui_token_secret)
      else if truthy env.settings.orchestrator_api_token
      then ok (sha256 (utf8 ("computer-use-ui-token:" <> env.settings.orchestrator_api_token)))
      else if env.settings.protect_session_ui
      then err (record {
        status_code = 500;
        detail =
            "UI_TOKEN_SECRET or ORCHESTRATOR_API_TOKEN is required when PROTECT_SESSION_UI=true";
      })
      else ok (sha256 (utf8 "computer-use-local-dev-ui-token"))

  -- `_sign_ui_payload`; base64 is ASCII, so what is signed has an HMAC.
  abbrev pub signed : String → Option B → Checked String
  signed payload_part (some signature) = ok (payload_part <> ("." <> b64url_encode signature))
  signed payload_part none = err (record { status_code = 500; detail = "Internal Server Error" })

  abbrev pub token_payload : String → DevIdentity → Fields
  token_payload session_id identity = field "session_id" (str session_id) (
      field "user_id" (str identity.user_id) (
        field "organization_id" (str identity.organization_id)
          (field "exp" (float (env.now + ui_token_ttl)) end)))

  -- `_make_ui_token`
  unfoldable pub make_ui_token : String → DevIdentity → Checked (String × ℕ)
  unfolding secret b64url_encode
  make_ui_token session_id identity = do
    key ← secret
    let payload_part = b64url_encode (dumps (token_payload session_id identity))
    token ← signed payload_part (hmac key payload_part)
    ok (token, env.now + ui_token_ttl)

  -- The payload behind a signature that is right
  abbrev pub verified : String → Option B → Option B → Option Json
  verified payload_part (some expected) (some actual) =
      if compare_digest expected actual
      then (elim (b64url_decode payload_part) [ none ↦ none | some bytes ↦ loads bytes ])
      else none
  verified payload_part expected actual = none

  -- The `try` of `_validate_ui_token`, which makes one error of all that is raised in it
  abbrev pub opened_parts : Checked B → Option (String × String) → Option Json
  opened_parts (ok key) (some (payload_part, signature_part)) =
      verified payload_part (hmac key payload_part) (b64url_decode signature_part)
  opened_parts key parts = none

  unfoldable pub opened : String → Option Json
  unfolding secret b64url_decode cut
  opened token = opened_parts secret (cut "." token)

  abbrev pub identity_in : Fields → DevIdentity
  identity_in d = record {
    user_id = py_str env.repr (get_or_null "user_id" d or str "");
    organization_id = py_str env.repr (get_or_null "organization_id" d or str "");
  }

  abbrev pub check_identity : DevIdentity → Checked DevIdentity
  check_identity identity =
      if not (truthy identity.user_id) || not (truthy identity.organization_id)
      then refuse "Invalid UI token identity"
      else ok identity

  abbrev pub check_expiry : Fields → Option ℕ → Checked DevIdentity
  check_expiry d none = refuse "Invalid UI token expiration"
  check_expiry d (some expires_at) =
      if ltb expires_at env.now
      then refuse "UI token has expired"
      else check_identity (identity_in d)

  abbrev pub check_fields : String → Fields → Checked DevIdentity
  check_fields session_id d =
      if not (is_text (get_or_null "session_id" d) session_id)
      then refuse "UI token does not match this session"
      else check_expiry d (as_float (get_or_null "exp" d))

  -- The checks of `_validate_ui_token` on the payload; one that is no object has no `get`, and nothing
  -- catches that error.
  unfoldable pub check_payload : String → Json → Checked DevIdentity
  check_payload session_id (obj d) = check_fields session_id d
  check_payload session_id payload =
      err (record { status_code = 500; detail = "Internal Server Error" })

  abbrev pub authorized : String → Checked DevIdentity → Request DevIdentity
  authorized session_id (err e) s = (s, err e)
  authorized session_id (ok identity) s =
      let (s', r) = authorize_session session_id identity s in
      elim r [ ok done ↦ (s', ok identity) | err e ↦ (s', err e) ]

  -- `_validate_ui_token`
  unfoldable pub validate_ui_token : String → String → Request DevIdentity
  unfolding opened check_payload authorize_session
  validate_ui_token session_id token =
      authorized session_id
        (or_refuse "Invalid UI token" (opened token) >>= check_payload session_id)
