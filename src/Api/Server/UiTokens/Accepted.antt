-- ===== src/Api/Server/UiTokens/Accepted.antt =====
-- A UI token that `_make_ui_token` made is taken by `_validate_ui_token`.
use Prim.Native.Char.{Char, code}
use Prim.Native.String.{count}
use text.Mathlib.TextLemmas.{nil-append, cons-append}
use computer_use_orchestrato.Prelude.{
  ℕ, zero, suc, ◌+◌, ◌-◌, ◌%◌, ◌≤◌, ◌<◌, String, ◌<>◌, eq_refl, ◌≡◌, refl, sym, ap, ◌∙◌, Bool, true,
  false, none, some, nat_eq, truthy, ltb, Lacks, after_prefix, arith, Result, ok, err,
}
use computer_use_orchestrato.Json.{obj, float, Fields, py_str}
use computer_use_orchestrato.Tools.Text.{push, cut}
use computer_use_orchestrato.Api.Server.{Server, Env, HttpException, DevIdentity}
use computer_use_orchestrato.Api.Server.Limits.{authorize_session}
use computer_use_orchestrato.Api.Server.UiTokens.{
  UiTokens, without_padding, padding, b64url_encode, b64url_decode, secret, token_payload,
  make_ui_token, verified, opened, check_payload, check_identity, authorized, validate_ui_token,
}

abbrev is_equals : ℕ → Bool
is_equals c = nat_eq c 61

abbrev is_dot : ℕ → Bool
is_dot c = nat_eq c 46

cons-of : (c : Char) (s : String) → String.◌∷◌ c "" <> s ≡ String.◌∷◌ c s
cons-of c s = cons-append c "" s ∙ ap (String.◌∷◌ c) (nil-append s)

without_padding-padding : (k : ℕ) → without_padding (padding k) ≡ ""
unfolding without_padding
without_padding-padding zero = refl
without_padding-padding (suc k) =
    ap without_padding (cons-of "=" (padding k))
    ∙ rw (without_padding-padding k, without_padding) refl

-- The padding is taken off, and nothing else.
without_padding-append :
    (body : String) (k : ℕ) → Lacks is_equals body → without_padding (body <> padding k) ≡ body
unfolding without_padding
without_padding-append String.[] k h =
    ap without_padding (nil-append (padding k)) ∙ without_padding-padding k
without_padding-append (String.◌∷◌ c s) k (h, hs) =
    ap without_padding (cons-append c s (padding k))
    ∙ rw (h, without_padding) (ap (String.◌∷◌ c) (without_padding-append s k hs))

other_first :
    (c : Char) (s : String) → is_dot (code c) ≡ false → after_prefix "." (String.◌∷◌ c s) ≡ none
unfolding after_prefix
other_first c s h = ground arith

-- A text without a "." is what stands before the first one.
cut-dot :
    (part behind : String)
    → Lacks is_dot part
    → cut "." (part <> ("." <> behind)) ≡ some (part, behind)
unfolding cut after_prefix
cut-dot String.[] behind h = ap (cut ".") (nil-append ("." <> behind) ∙ cons-of "." behind) ∙ refl
cut-dot (String.◌∷◌ c s) behind (h, hs) =
    ap (cut ".") (cons-append c s ("." <> behind))
    ∙ rw (other_first c (s <> ("." <> behind)) h, cut) (ap (push c) (cut-dot s behind hs))

-- What base64 does with these bytes: they are read back, and their text is one without "=" and "." and
-- a padding that makes its length a multiple of four.
pub record IsEncoded {B : Type 0} (ui : UiTokens B) (b : B) : Type 0 where
  pub body : String
  pub rest : ℕ
  pub decodes : ui.urlsafe_b64decode (ui.urlsafe_b64encode b) ≡ some b
  pub shape : ui.urlsafe_b64encode b ≡ body <> padding rest
  pub no_padding : Lacks is_equals body
  pub no_dot : Lacks is_dot body
  pub short : rest < 4
  pub fours : (count body + rest) % 4 ≡ 0

-- What the library does for the token with this payload: base64, an HMAC that compares as equal to
-- itself, and JSON that is read back, the time too.
pub record Works {B : Type 0} (ui : UiTokens B) (key : B) (d : Fields) (exp : ℕ) : Type 0 where
  pub mac : B
  pub part : IsEncoded ui (ui.dumps d)
  pub signature : IsEncoded ui mac
  pub signs : ui.hmac key part.body ≡ some mac
  pub same : ui.compare_digest mac mac ≡ true
  pub reads : ui.loads (ui.dumps d) ≡ some (obj d)
  pub reads_time : ui.as_float (float exp) ≡ some exp

module _ {B : Type 0} (env : Env) (ui : UiTokens B) where
  encode-body : {b : B} (e : IsEncoded ui b) → b64url_encode env ui b ≡ e.body
  unfolding b64url_encode
  encode-body e = ap without_padding e.shape ∙ without_padding-append e.body e.rest e.no_padding

  decode-body : {b : B} (e : IsEncoded ui b) → b64url_decode env ui e.body ≡ some b
  unfolding b64url_decode
  decode-body e =
      let added : (4 - count e.body % 4) % 4 ≡ e.rest = omega (arith, e.short, e.fours) in
      ap (λ k. ui.urlsafe_b64decode (e.body <> padding k)) added
      ∙ ap ui.urlsafe_b64decode (sym e.shape)
      ∙ e.decodes

  opened-signed :
      {key : B} {d : Fields} {exp : ℕ} (w : Works ui key d exp)
      → secret env ui ≡ ok key
      → opened env ui (w.part.body <> ("." <> w.signature.body)) ≡ some (obj d)
  unfolding opened
  opened-signed w k =
      rw (k, cut-dot w.part.body w.signature.body w.part.no_dot, opened)
        (rw (w.signs, decode-body w.signature, w.same, decode-body w.part, verified) w.reads)

  -- The clock takes no part in the signature.
  opened-now :
      (later : ℕ) (token : String)
      → opened (record env { now = later }) ui token ≡ opened env ui token
  unfolding opened
  opened-now later token = refl

  check_payload-token :
      (session_id : String) (identity : DevIdentity) (later : ℕ)
      → ui.as_float (float (env.now + ui.ui_token_ttl)) ≡ some (env.now + ui.ui_token_ttl)
      → truthy identity.user_id ≡ true
      → truthy identity.organization_id ≡ true
      → later ≤ env.now + ui.ui_token_ttl
      → check_payload
          (record env { now = later })
          ui
          session_id
          (obj (token_payload env ui session_id identity))
        ≡ ok identity
  unfolding check_payload py_str
  check_payload-token session_id identity later reads_time user org in_time =
      let fresh : ltb (env.now + ui.ui_token_ttl) later ≡ false = ground arith in
      rw (eq_refl session_id, reads_time, check_payload)
        (rw (fresh, check_payload)
          (rw (user, org, check_payload) (rw (user, org, check_identity) refl)))

  abbrev after_check :
      DevIdentity
      → Server × Result HttpException (Unit {0})
      → Server × Result HttpException DevIdentity
  after_check identity (s, ok done) = (s, ok identity)
  after_check identity (s, err e) = (s, err e)

  authorized-owner :
      (session_id : String) (identity : DevIdentity) (s : Server)
      → authorize_session session_id identity s ≡ (s, ok tt)
      → authorized env ui session_id (ok identity) s ≡ (s, ok identity)
  authorized-owner session_id identity s owns = ap (after_check identity) owns

  -- If there is a key, and base64, HMAC and JSON do what they are for at the payload: the token that an
  -- identity with a user and an organization is given for a session is taken for that session, as this
  -- identity's, as long as it has not expired and the identity owns the session; nothing is changed.
  pub validate_ui_token-make :
      (session_id : String) (identity : DevIdentity) (key : B) (later : ℕ) (s : Server)
      → secret env ui ≡ ok key
      → Works ui key (token_payload env ui session_id identity) (env.now + ui.ui_token_ttl)
      → truthy identity.user_id ≡ true
      → truthy identity.organization_id ≡ true
      → later ≤ env.now + ui.ui_token_ttl
      → authorize_session session_id identity s ≡ (s, ok tt)
      → (token : String) × (make_ui_token env ui session_id identity
          ≡ ok (token, env.now + ui.ui_token_ttl))
        × (validate_ui_token (record env { now = later }) ui session_id token s ≡ (s, ok identity))
  unfolding make_ui_token validate_ui_token
  validate_ui_token-make session_id identity key later s k w user org in_time owns =
      let token = w.part.body <> ("." <> w.signature.body) in
      let checked = check_payload-token session_id identity later w.reads_time user org in_time in
      (
        token,
        rw (k, encode-body w.part, w.signs, encode-body w.signature, make_ui_token) refl,
        rw (opened-now later token, opened-signed w k, validate_ui_token)
            (rw checked (authorized-owner session_id identity s owns)),
      )
