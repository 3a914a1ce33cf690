-- ===== src/Api/UiSamples.antt =====
-- The theorems on the tokens of the user interface at concrete inputs.
use computer_use_orchestrato.Prelude.{
  ℕ, String, ◌<>◌, ◌==◌, ◌≡◌, refl, Option, none, some, ok, arith, after_prefix,
}
use computer_use_orchestrato.Json.{Json, Fields, float, obj, end, field, str, py_str}
use computer_use_orchestrato.Api.Db.{insert_session}
use computer_use_orchestrato.Api.Server.Limits.{authorize_session}
use computer_use_orchestrato.Api.Server.UiTokens.{
  UiTokens, secret, token_payload, make_ui_token, validate_ui_token,
}
use computer_use_orchestrato.Api.Server.UiTokens.Accepted.{IsEncoded, Works, validate_ui_token-make}
use computer_use_orchestrato.Api.Server.UiTokens.Checked.{IsSigned, IsFor, validate_ui_token-ok}
use computer_use_orchestrato.Api.Samples.{env, server, owner}

abbrev read_float : Json → Option ℕ
read_float (float n) = some n
read_float v = none

-- Bytes are texts, and a signature tells the key and what is signed.
abbrev ui : UiTokens String
ui = record {
  ui_token_secret = "key1";
  ui_token_ttl = 300;
  public_host = "127.0.0.1";
  dumps = λ d. "body";
  loads = λ bytes. some (
      obj (
        field "session_id" (str "s-2") (
          field "user_id" (str "user-1")
            (field "organization_id" (str "org-1") (field "exp" (float 5300) end)))));
  as_float = read_float;
  urlsafe_b64encode = λ bytes. bytes;
  urlsafe_b64decode = λ text. some text;
  utf8 = λ text. text;
  sha256 = λ bytes. bytes;
  hmac = λ key text. some (key <> text);
  compare_digest = λ a b. a == b;
}

is_taken : validate_ui_token env ui "s-2" "body.key1body" server ≡ (server, ok owner)
unfolding validate_ui_token insert_session after_prefix py_str
is_taken = refl

validate_ui_token-ok_example :
    ((payload : Json) × IsSigned env ui "body.key1body" payload × IsFor env ui "s-2" owner payload)
    × (server ≡ server)
    × (authorize_session "s-2" owner server ≡ (server, ok tt))
validate_ui_token-ok_example =
    validate_ui_token-ok env ui "s-2" "body.key1body" owner server server is_taken

abbrev payload : Fields
payload = token_payload env ui "s-2" owner

part_IsEncoded : IsEncoded ui "body"
part_IsEncoded = record {
  body = "body";
  rest = 0;
  decodes = refl;
  shape = refl;
  no_padding = (refl, (refl, (refl, (refl, tt))));
  no_dot = (refl, (refl, (refl, (refl, tt))));
  short = omega arith;
  fours = refl;
}

mac_IsEncoded : IsEncoded ui "key1body"
mac_IsEncoded = record {
  body = "key1body";
  rest = 0;
  decodes = refl;
  shape = refl;
  no_padding = (refl, (refl, (refl, (refl, (refl, (refl, (refl, (refl, tt))))))));
  no_dot = (refl, (refl, (refl, (refl, (refl, (refl, (refl, (refl, tt))))))));
  short = omega arith;
  fours = refl;
}

token_Works : Works ui "key1" payload 5300
unfolding part_IsEncoded mac_IsEncoded
token_Works = record {
  mac = "key1body";
  part = part_IsEncoded;
  signature = mac_IsEncoded;
  signs = refl;
  same = refl;
  reads = refl;
  reads_time = refl;
}

key_is : secret env ui ≡ ok "key1"
unfolding secret
key_is = refl

owned : authorize_session "s-2" owner server ≡ (server, ok tt)
unfolding authorize_session insert_session
owned = refl

validate_ui_token-make_example :
    (token : String) × (make_ui_token env ui "s-2" owner ≡ ok (token, 5300))
    × (validate_ui_token (record env { now = 5200 }) ui "s-2" token server ≡ (server, ok owner))
validate_ui_token-make_example =
    validate_ui_token-make env ui "s-2" owner "key1" 5200 server key_is token_Works refl refl
      (omega arith) owned
