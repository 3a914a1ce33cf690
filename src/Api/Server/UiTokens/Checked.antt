-- ===== src/Api/Server/UiTokens/Checked.antt =====
-- What a UI token that is taken was checked for: `_validate_ui_token`.
use computer_use_orchestrato.Prelude.{
  ℕ, ◌≤◌, String, ◌<>◌, ◌≡◌, refl, sym, ap, subst, ◌∙◌, ◌⊎◌, Bool, true, false, not, Option, none,
  some, Option-cases, Bool-cases, inl, inr, ltb, arith, ok, err, ◌>>=◌, if◌then◌else◌,
}
use computer_use_orchestrato.Json.{Json, null, bool, num, float, str, arr, obj, Fields, get_or_null}
use computer_use_orchestrato.Tools.Text.{cut}
use computer_use_orchestrato.Tools.Text.Pieces.{cut-some}
use computer_use_orchestrato.Api.Server.{Server, Env, HttpException, DevIdentity}
use computer_use_orchestrato.Api.Db.{get_session_owner}
use computer_use_orchestrato.Api.Server.Limits.{authorize_session, is_owner}
use computer_use_orchestrato.Api.Server.UiTokens.{
  UiTokens, Checked, or_refuse, is_text, b64url_decode, secret, verified, opened_parts, opened,
  identity_in, check_identity, check_expiry, check_fields, check_payload, authorized,
  validate_ui_token,
}

-- What a chain of checks that returns went through.
bind-ok :
    {A C : Type 0} (m : Checked A) (f : A → Checked C) (c : C)
    → m >>= f ≡ ok c
    → (a : A) × (m ≡ ok a) × (f a ≡ ok c)
bind-ok (ok a) f c h = (a, refl, h)
bind-ok (err e) f c h = ground arith

if-ok :
    {C : Type 0} (b : Bool) (e : HttpException) (r : Checked C) (c : C)
    → (if b then err e else r) ≡ ok c
    → (b ≡ false) × (r ≡ ok c)
if-ok true e r c h = ground arith
if-ok false e r c h = (refl, h)

abbrev value : {A : Type 0} → A → Checked A → A
value default (ok a) = a
value default (err e) = default

or_refuse-ok :
    {A : Type 0} (detail : String) (o : Option A) (a : A) → or_refuse detail o ≡ ok a → o ≡ some a
or_refuse-ok detail none a h = ground arith
or_refuse-ok detail (some b) a h = ap (λ r. some (value b r)) h

abbrev not_there : HttpException
not_there = record { status_code = 404; detail = "Session not found" }

module _ {B : Type 0} (env : Env) (ui : UiTokens B) where
  -- The token has the payload, behind a signature that the secret gives its first part.
  abbrev pub IsSigned : String → Json → Type 0
  IsSigned token payload =
      (part : String) × (signature : String) × (key : B) × (mac : B) × (given : B) × (bytes : B)
      × (token ≡ part <> ("." <> signature))
      × (secret env ui ≡ ok key)
      × (ui.hmac key part ≡ some mac)
      × (b64url_decode env ui signature ≡ some given)
      × (ui.compare_digest mac given ≡ true)
      × (b64url_decode env ui part ≡ some bytes)
      × (ui.loads bytes ≡ some payload)

  -- The payload names the session, has not expired, and names the identity.
  abbrev pub IsFor : String → DevIdentity → Json → Type 0
  IsFor session_id identity payload =
      (d : Fields) × (expires_at : ℕ) × (payload ≡ obj d)
      × (is_text (get_or_null "session_id" d) session_id ≡ true)
      × (ui.as_float (get_or_null "exp" d) ≡ some expires_at)
      × (env.now ≤ expires_at)
      × (identity_in env ui d ≡ identity)

  check_fields-IsFor :
      (session_id : String) (d : Fields) (identity : DevIdentity)
      → check_fields env ui session_id d ≡ ok identity
      → IsFor session_id identity (obj d)
  check_fields-IsFor session_id d identity h =
      let (names, h1) =
        if-ok (not (is_text (get_or_null "session_id" d) session_id)) _
          (check_expiry env ui d (ui.as_float (get_or_null "exp" d))) identity h in
      elim (Option-cases (ui.as_float (get_or_null "exp" d))) [
        | inl no_time ↦ let bad = rw (no_time, check_expiry) at h1 in ground arith
        | inr (expires_at, read) ↦
            let (fresh, h2) =
              if-ok (ltb expires_at env.now) _ (check_identity env ui (identity_in env ui d))
                identity (rw (read, check_expiry) at h1) in
            let (_, h3) = if-ok _ _ (ok (identity_in env ui d)) identity h2 in
            (d, expires_at, refl, ground arith, read, ground arith, ap (value identity) h3)
      ]

  check_payload-IsFor :
      (session_id : String) (payload : Json) (identity : DevIdentity)
      → check_payload env ui session_id payload ≡ ok identity
      → IsFor session_id identity payload
  unfolding check_payload
  check_payload-IsFor session_id (obj d) identity h = check_fields-IsFor session_id d identity h
  check_payload-IsFor session_id null identity h = ground arith
  check_payload-IsFor session_id (bool b) identity h = ground arith
  check_payload-IsFor session_id (num n) identity h = ground arith
  check_payload-IsFor session_id (float n) identity h = ground arith
  check_payload-IsFor session_id (str s) identity h = ground arith
  check_payload-IsFor session_id (arr v) identity h = ground arith

  verified-some :
      (part : String) (mac given : B) (payload : Json)
      → verified env ui part (some mac) (some given) ≡ some payload
      → (ui.compare_digest mac given ≡ true)
        × ((bytes : B) × (b64url_decode env ui part ≡ some bytes) × (ui.loads bytes ≡ some payload))
  verified-some part mac given payload h = elim (Bool-cases (ui.compare_digest mac given)) [
    | inr differs ↦ let bad = rw (differs, verified) at h in ground arith
    | inl same ↦ elim (Option-cases (b64url_decode env ui part)) [
      | inl garbled ↦ let bad = rw (same, garbled, verified) at h in ground arith
      | inr (bytes, decoded) ↦ (same, (bytes, decoded, rw (same, decoded, verified) at h))
    ]
  ]

  mac-IsSigned :
      (token part signature : String) (key : B) (payload : Json) (expected actual : Option B)
      → token ≡ part <> ("." <> signature)
      → secret env ui ≡ ok key
      → ui.hmac key part ≡ expected
      → b64url_decode env ui signature ≡ actual
      → verified env ui part expected actual ≡ some payload
      → IsSigned token payload
  mac-IsSigned token part signature key payload none actual t k e a h = ground arith
  mac-IsSigned token part signature key payload (some mac) none t k e a h = ground arith
  mac-IsSigned token part signature key payload (some mac) (some given) t k e a h =
      let (same, (bytes, decoded, loaded)) = verified-some part mac given payload h in
      (part, signature, key, mac, given, bytes, t, k, e, a, same, decoded, loaded)

  opened_parts-IsSigned :
      (token : String) (payload : Json) (key : Checked B) (parts : Option (String × String))
      → secret env ui ≡ key
      → cut "." token ≡ parts
      → opened_parts env ui key parts ≡ some payload
      → IsSigned token payload
  opened_parts-IsSigned token payload (ok key) (some (part, signature)) k c h =
      mac-IsSigned token part signature key payload (ui.hmac key part)
        (b64url_decode env ui signature) (cut-some "." token part signature c) k refl refl h
  opened_parts-IsSigned token payload (ok key) none k c h = ground arith
  opened_parts-IsSigned token payload (err e) (some parts) k c h = ground arith
  opened_parts-IsSigned token payload (err e) none k c h = ground arith

  opened-IsSigned :
      (token : String) (payload : Json)
      → opened env ui token ≡ some payload
      → IsSigned token payload
  unfolding opened
  opened-IsSigned token payload h =
      opened_parts-IsSigned token payload (secret env ui) (cut "." token) refl refl h

  authorize_session_cases :
      (session_id : String) (identity : DevIdentity) (s : Server)
      → (authorize_session session_id identity s ≡ (s, ok tt))
        ⊎ ((e : HttpException) × (authorize_session session_id identity s ≡ (s, err e)))
  unfolding authorize_session
  authorize_session_cases session_id identity s =
      elim (Option-cases (get_session_owner session_id s.db)) [
        | inl missing ↦ inr (not_there, rw (missing, authorize_session) refl)
        | inr (row, found) ↦ elim (Bool-cases (is_owner identity row)) [
          | inl owner ↦ inl (rw (found, owner, authorize_session) refl)
          | inr stranger ↦ inr (not_there, rw (found, stranger, authorize_session) refl)
        ]
      ]

  authorized-ok :
      (session_id : String) (identity : DevIdentity) (s s' : Server) (r : Checked DevIdentity)
      → authorized env ui session_id r s ≡ (s', ok identity)
      → (r ≡ ok identity) × (s' ≡ s) × (authorize_session session_id identity s ≡ (s, ok tt))
  authorized-ok session_id identity s s' (err e) h = ground arith
  authorized-ok session_id identity s s' (ok i) h = elim (authorize_session_cases session_id i s) [
    | inr (e, fails) ↦ let bad = rw (fails, authorized) at h in ground arith
    | inl passes ↦
        let done = rw (passes, authorized) at h in
        let same : i ≡ identity = ap (λ p. value i p.1) done in
        (
          ap ok same,
          sym (ap (λ p. p.0) done) ∙ ap (λ p. p.0) passes,
          subst (λ x. authorize_session session_id x s ≡ (s, ok tt)) same passes,
        )
  ]

  -- A token that is taken for a session is the token of an identity that owns it: it is two texts with
  -- a "." between, the second is the signature that the secret gives the first, and the payload in the
  -- first names this session, a time that has not passed, and this identity, whom the session belongs
  -- to. Nothing is changed.
  pub validate_ui_token-ok :
      (session_id token : String) (identity : DevIdentity) (s s' : Server)
      → validate_ui_token env ui session_id token s ≡ (s', ok identity)
      → ((payload : Json) × IsSigned token payload × IsFor session_id identity payload)
        × (s' ≡ s)
        × (authorize_session session_id identity s ≡ (s, ok tt))
  unfolding validate_ui_token
  validate_ui_token-ok session_id token identity s s' h =
      let (checked, same, authorised) = authorized-ok session_id identity s s' _ h in
      let (payload, is_opened, named) =
        bind-ok (or_refuse "Invalid UI token" (opened env ui token))
          (check_payload env ui session_id) identity checked in
      let signed =
        opened-IsSigned token payload (or_refuse-ok _ (opened env ui token) payload is_opened) in
      ((payload, signed, check_payload-IsFor session_id payload identity named), same, authorised)
