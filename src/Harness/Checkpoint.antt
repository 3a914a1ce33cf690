-- ===== src/Harness/Checkpoint.antt =====
-- harness/runner.py: the checkpoint files. A file holds JSON, or text that is not JSON. Asdict and
-- Decoding are the two translations of a loop state.
pub mod Asdict
pub mod Decoding
pub mod RoundTrip
pub mod Crash
use computer_use_orchestrato.Prelude.{
  ℕ, zero, suc, String, ◌<>◌, Option, none, some, ◌==◌, if◌then◌else◌, ok, err, ◌>>=◌,
}
use computer_use_orchestrato.Json.{Json, str, obj, end, field}
use computer_use_orchestrato.Harness.Loop.{goal, AgentLoopState}
use computer_use_orchestrato.Harness.Runner.{checkpoint_name}
use computer_use_orchestrato.Harness.Checkpoint.Asdict.{state_to_json}
use computer_use_orchestrato.Harness.Checkpoint.Decoding.{
  Failure, key_error, type_error, attribute_error, untyped, Decoded, state_from_dict,
}

-- A file of the checkpoint directory.
pub data Content : Type 0 where
  json : Json → Content
  not_json : Content

-- The files of the checkpoint directory, by name.
abbrev pub Files : Type 0
Files = String → Option Content

abbrev pub write_file : String → Content → Files → Files
write_file name content files other = if name == other then some content else files other

-- `os.replace(source, target)`, `path.replace(target)`
abbrev pub replace_file : String → String → Files → Files
replace_file source target files other =
    if target == other then files source else if source == other then none else files other

abbrev pub temporary_name : String → String
temporary_name name = "." <> (name <> ".tmp")

-- What `save_checkpoint` writes.
abbrev pub checkpoint_payload : String → AgentLoopState → Json
checkpoint_payload now s =
    obj (field "checkpointed_at" (str now) (field "state" (state_to_json s) end))

-- `save_checkpoint` cut off after so many of its two effects, the write and the rename.
unfoldable pub save_interrupted : ℕ → String → AgentLoopState → Files → Files
unfolding checkpoint_name
save_interrupted zero now s files = files
save_interrupted (suc zero) now s files =
    let name = checkpoint_name s.goal.goal_id in
    write_file (temporary_name name) (json (checkpoint_payload now s)) files
save_interrupted (suc (suc n)) now s files =
    let name = checkpoint_name s.goal.goal_id in
    replace_file (temporary_name name) name
      (write_file (temporary_name name) (json (checkpoint_payload now s)) files)

unfoldable pub save_checkpoint : String → AgentLoopState → Files → Files
unfolding save_interrupted
save_checkpoint now s files = save_interrupted 2 now s files

pub data Loaded : Type 0 where
  absent : Loaded
  loaded : AgentLoopState → Loaded
  corrupted : Loaded
  raised : Failure → Loaded

-- `stamp` is the UTC time in the name that a corrupt file is moved to.
abbrev set_aside : String → String → Files → Files × Loaded
set_aside name stamp files = (replace_file name (name <> (".corrupted-" <> stamp)) files, corrupted)

-- The handler of `load_checkpoint`.
load_decoded : String → String → Decoded AgentLoopState → Files → Files × Loaded
load_decoded name stamp (ok s) files = (files, loaded s)
load_decoded name stamp (err key_error) files = set_aside name stamp files
load_decoded name stamp (err type_error) files = set_aside name stamp files
load_decoded name stamp (err attribute_error) files = (files, raised attribute_error)
load_decoded name stamp (err untyped) files = (files, raised untyped)

load_content : String → String → Option Content → Files → Files × Loaded
unfolding load_decoded
load_content name stamp none files = (files, absent)
load_content name stamp (some not_json) files = set_aside name stamp files
load_content name stamp (some (json payload)) files =
    load_decoded name stamp (state_from_dict payload) files

unfoldable pub load_checkpoint : String → String → Files → Files × Loaded
unfolding load_content checkpoint_name
load_checkpoint goal_id stamp files =
    let name = checkpoint_name goal_id in load_content name stamp (files name) files
