-- ===== src/Api/Artifacts.antt =====
-- api/db.py: the metadata of screenshots and their files. `Codec` is `base64.b64decode`, with
-- `none` where it raises, and the SHA-256 of `hashlib`; bytes are a list of numbers.
use text.Mathlib.Text.{starts_with}
use Prim.Native.Char.{code}
use computer_use_orchestrato.Prelude.{
  ℕ, ◌+◌, ◌*◌, String, ◌<>◌, ◌==◌, Bool, true, not, ◌&&◌, Option, none, some, List, [], ◌∷◌, ◌++◌,
  select, is_some, length, nat_eq, truthy, if◌then◌else◌,
}
use computer_use_orchestrato.Json.{Json, str, Fields, get_or_null, ◌or◌}
use computer_use_orchestrato.Api.Db.{Db, SessionRow, ArtifactRow, get_session_record}

pub record Codec : Type 0 where
  pub decode : String → Option (List ℕ)
  pub checksum : List ℕ → String

-- The arguments of `create_artifact_metadata`; `artifact_id` is given or a new `uuid4`.
pub record ArtifactSpec : Type 0 where
  pub artifact_id : String
  pub session_id : String
  pub event_id : Option ℕ
  pub message_id : Option ℕ
  pub artifact_type : String
  pub media_type : String
  pub storage_path : Option String
  pub size_bytes : Option ℕ
  pub checksum : Option String
  pub expires_at : Option ℕ

-- 86400 seconds
abbrev pub day : ℕ → ℕ
day second = 86400 * second

abbrev user_of : Option SessionRow → Option String
user_of none = none
user_of (some row) = row.user_id

abbrev organization_of : Option SessionRow → Option String
organization_of none = none
organization_of (some row) = row.organization_id

-- `_retention_expiry(now, settings.screenshot_retention_days)` where no expiry is given
abbrev expiry : Option ℕ → ℕ → ℕ → ℕ → ℕ
expiry none second days now = now + days * day second
expiry (some at) second days now = at

unfoldable pub create_artifact_metadata : ℕ → ℕ → ArtifactSpec → ℕ → Db → Db × ArtifactRow
unfolding get_session_record
create_artifact_metadata second retention_days spec now db =
    let owner = get_session_record spec.session_id db in
    let row : ArtifactRow = record {
      artifact_id = spec.artifact_id;
      session_id = spec.session_id;
      user_id = user_of owner;
      organization_id = organization_of owner;
      event_id = spec.event_id;
      message_id = spec.message_id;
      artifact_type = spec.artifact_type;
      media_type = spec.media_type;
      storage_path = spec.storage_path;
      size_bytes = spec.size_bytes;
      checksum = spec.checksum;
      created_at = now;
      expires_at = some (expiry spec.expires_at second retention_days now);
      deleted_at = none;
    } in
    (record db { artifacts = db.artifacts ++ row ∷ [] }, row)

-- Whether the text holds a comma, and what follows the first one.
unfoldable pub after_comma : String → Option String
after_comma String.[] = none
after_comma (String.◌∷◌ c rest) = if nat_eq (code c) b',' then some rest else after_comma rest

-- `raw.split(",", 1)[1]` of a data URL, and `raw` itself otherwise
abbrev strip_data_url : String → Option String → String
strip_data_url raw none = raw
strip_data_url raw (some rest) = if starts_with raw "data:" then rest else raw

unfoldable pub decode_base64_image : Codec → Json → Option (List ℕ)
unfolding after_comma
decode_base64_image codec (str raw) =
    if truthy raw then codec.decode (strip_data_url raw (after_comma raw)) else none
decode_base64_image codec _ = none

-- The file that a screenshot is written to.
abbrev artifact_path : String → String → String → String
artifact_path root session_id artifact_id =
    root <> ("/" <> (session_id <> ("/" <> (artifact_id <> ".png"))))

screenshot_spec : Codec → String → String → String → ℕ → Option (List ℕ) → ArtifactSpec
screenshot_spec codec root artifact_id session_id event_id none = record {
  artifact_id = artifact_id;
  session_id = session_id;
  event_id = some event_id;
  message_id = none;
  artifact_type = "screenshot";
  media_type = "image/png";
  storage_path = none;
  size_bytes = none;
  checksum = none;
  expires_at = none;
}
screenshot_spec codec root artifact_id session_id event_id (some image) = record {
  artifact_id = artifact_id;
  session_id = session_id;
  event_id = some event_id;
  message_id = none;
  artifact_type = "screenshot";
  media_type = "image/png";
  storage_path = some (artifact_path root session_id artifact_id);
  size_bytes = some (length image);
  checksum = some (codec.checksum image);
  expires_at = none;
}

-- `if image_bytes`
abbrev nonempty : Option (List ℕ) → Option (List ℕ)
nonempty none = none
nonempty (some []) = none
nonempty (some (b ∷ bs)) = some (b ∷ bs)

abbrev files_of : Option String → List String
files_of none = []
files_of (some path) = path ∷ []

-- `root` is `artifact_storage_dir`, and `artifact_id` the new `uuid4`.
unfoldable pub create_screenshot_artifact :
    Codec → ℕ → ℕ → String → String → String → ℕ → Fields → ℕ → Db → Db × ArtifactRow
unfolding create_artifact_metadata decode_base64_image screenshot_spec
create_screenshot_artifact codec second days root artifact_id session_id event_id d now db =
    let image =
      get_or_null "image_base64" d
      or get_or_null "screenshot_base64" d
      or get_or_null "screenshot" d in
    let spec =
      screenshot_spec codec root artifact_id session_id event_id
        (nonempty (decode_base64_image codec image)) in
    create_artifact_metadata second days spec now
      (record db { stored_files = db.stored_files ++ files_of spec.storage_path })

abbrev in_session : Option String → ArtifactRow → Bool
in_session none row = true
in_session (some id) row = row.session_id == id

-- `session_id` is `none` for all sessions. Rows are stored in the order of their creation.
unfoldable pub list_artifacts : Option String → Bool → Db → List ArtifactRow
list_artifacts session_id include_deleted db =
    select
      (λ row.
        in_session session_id row
        && (if include_deleted then true else not (is_some row.deleted_at)))
      db.artifacts
