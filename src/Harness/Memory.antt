-- ===== src/Harness/Memory.antt =====
-- harness/memory.py: the file-backed memory, and the memory of the harness that falls back to it.
-- The file is missing or blank, is no JSON, or holds a list of records; the lock makes one step of
-- a call. `dumps` is `json.dumps` with sorted keys. The mem0 client is not part of the repository:
-- a call of it returns, or raises with a text.
pub mod Once
pub mod Search
pub mod Start
use computer_use_orchestrato.Prelude.{
  ℕ, zero, suc, ◌+◌, String, ◌<>◌, ◌==◌, Bool, true, false, ◌&&◌, Option, none, some, List, [], ◌∷◌,
  ◌++◌, find, length, show, truthy, if◌then◌else◌,
}
use computer_use_orchestrato.Json.{Json, null, float, str, Fields, end, field, get}
use computer_use_orchestrato.Harness.Loop.{Goal, Evidence}

-- `text` and `memory` hold the same text.
pub record MemoryRow : Type 0 where
  pub id : String
  pub user_id : String
  pub text : String
  pub metadata : Fields
  pub created_at : String

pub data MemoryFile : Type 0 where
  blank : MemoryFile
  corrupt : MemoryFile
  memories : List MemoryRow → MemoryFile

-- `_read_records_locked`
abbrev pub read_records : MemoryFile → List MemoryRow
read_records blank = []
read_records corrupt = []
read_records (memories rows) = rows

-- `metadata.get("memory_signature") == signature`
abbrev pub same_signature : String → Option Json → Bool
same_signature signature (some (str s)) = s == signature
same_signature signature _ = false

abbrev pub is_known : String → String → MemoryRow → Bool
is_known user_id signature row =
    row.user_id == user_id && same_signature signature (get "memory_signature" row.metadata)

pub record Added : Type 0 where
  pub id : String
  pub deduped : Bool

abbrev pub new_memory : String → String → Fields → String → List MemoryRow → MemoryRow
new_memory text user_id metadata now rows = record {
  id = "memory-" <> show (length rows + 1);
  user_id = user_id;
  text = text;
  metadata = metadata;
  created_at = now;
}

-- The row that makes the call a repetition, if the signature is not empty.
find_known : String → String → List MemoryRow → Option MemoryRow
find_known user_id signature rows =
    if truthy signature then find (is_known user_id signature) rows else none

add_unless : Option MemoryRow → String → String → Fields → String → MemoryFile → MemoryFile × Added
add_unless (some row) text user_id metadata now file =
    (file, record { id = row.id; deduped = true })
add_unless none text user_id metadata now file =
    let rows = read_records file in
    let row = new_memory text user_id metadata now rows in
    (memories (rows ++ row ∷ []), record { id = row.id; deduped = false })

abbrev pub signature_of : Option Json → String
signature_of (some (str s)) = s
signature_of _ = ""

-- `FileBackedMemory.add`
unfoldable pub add : String → String → Fields → String → MemoryFile → MemoryFile × Added
unfolding find_known add_unless
add text user_id metadata now file =
    add_unless
      (find_known user_id (signature_of (get "memory_signature" metadata)) (read_records file)) text
      user_id metadata now file

pub data Backend : Type 0 where
  file_backed mem0 : Backend

pub record HarnessMemory : Type 0 where
  pub memory_user_id : String
  pub using_fallback : Bool
  pub fallback_reason : Option String
  pub backend : Backend
  pub file : MemoryFile

-- `_degrade_to_fallback`
unfoldable pub degrade_to_fallback : String → HarnessMemory → HarnessMemory
degrade_to_fallback reason h = record h {
  using_fallback = true;
  fallback_reason = some reason;
  backend = file_backed;
}

-- What `recall_related` does to the memory: a search that raises ends in the fallback.
unfoldable pub recall_with : Backend → Option String → HarnessMemory → HarnessMemory
unfolding degrade_to_fallback
recall_with mem0 (some reason) h = degrade_to_fallback ("mem0 search failed: " <> reason) h
recall_with _ _ h = h

unfoldable pub recall_related : Option String → ℕ → HarnessMemory → HarnessMemory
unfolding recall_with
recall_related failure zero h = h
recall_related failure (suc n) h = recall_with h.backend failure h

opt_json : Option String → Json
opt_json none = null
opt_json (some s) = str s

module _ (dumps : Fields → String) where
  unfoldable pub evidence_signature : Goal → Evidence → String
  unfolding opt_json
  evidence_signature g e = dumps (
      field "goal_id" (str g.goal_id) (
        field "goal_text" (str g.text) (
          field "kind" (str e.kind) (
            field "summary" (str e.summary) (
              field "artifact_id" (opt_json e.artifact_id)
                (field "confidence" (float e.confidence) end))))))

  unfoldable pub memory_metadata : Goal → Evidence → Fields
  unfolding opt_json
  memory_metadata g e = field "goal_id" (str g.goal_id) (
      field "goal_text" (str g.text) (
        field "evidence_id" (str e.evidence_id) (
          field "evidence_kind" (str e.kind) (
            field "artifact_id" (opt_json e.artifact_id) (
              field "confidence" (float e.confidence)
                (field "memory_signature" (str (evidence_signature g e)) end))))))

  abbrev pub memory_text : Goal → Evidence → String
  memory_text g e =
      "Goal "
      <> (g.goal_id
          <> (": "
              <> (g.text
                  <> ("\nEvidence "
                      <> (e.evidence_id <> (" (" <> (e.kind <> ("): " <> e.summary))))))))

  unfoldable pub add_evidence : Goal → Evidence → String → HarnessMemory → HarnessMemory
  unfolding add
  add_evidence g e now h = record h {
    file = (add (memory_text g e) h.memory_user_id (memory_metadata g e) now h.file).0;
  }

  unfoldable pub remember_with :
      Backend → Option String → Goal → Evidence → String → HarnessMemory → HarnessMemory
  unfolding add_evidence degrade_to_fallback
  remember_with file_backed failure g e now h = add_evidence g e now h
  remember_with mem0 none g e now h = h
  remember_with mem0 (some reason) g e now h =
      add_evidence g e now (degrade_to_fallback ("mem0 add failed: " <> reason) h)

  -- `record_evidence`; `failure` is what the client raises when it is asked.
  unfoldable pub remember_evidence :
      Option String → Goal → Evidence → String → HarnessMemory → HarnessMemory
  unfolding remember_with
  remember_evidence failure g e now h = remember_with h.backend failure g e now h
