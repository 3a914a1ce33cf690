-- ===== src/Harness/Memory/Start.antt =====
-- harness/memory.py: the memory that `HarnessMemory` starts with. What building the mem0 client raises is
-- an argument, as are the environment's values and the file at the fallback path.
use computer_use_orchestrato.Prelude.{
  String, ◌<>◌, Bool, false, not, ◌&&◌, Option, none, some, truthy, strip, after_prefix, is_some,
  or_default, if◌then◌else◌,
}
use computer_use_orchestrato.Harness.Memory.{MemoryFile, mem0, HarnessMemory, degrade_to_fallback}

abbrev default_memory_user_id : String
default_memory_user_id = "harness-demo"

-- `has_valid_openai_key`; a key that is absent is the empty text.
unfoldable pub has_valid_openai_key : String → Bool
unfolding strip after_prefix
has_valid_openai_key value =
    let api_key = strip value in truthy api_key && not (is_some (after_prefix "sk-ant-" api_key))

abbrev with_user : Option String → Option String → MemoryFile → HarnessMemory
with_user user_id env_user_id file = record {
  memory_user_id = or_default user_id (or_default env_user_id default_memory_user_id);
  using_fallback = false;
  fallback_reason = none;
  backend = mem0;
  file = file;
}

-- `_create_backend`
unfoldable pub create_backend : String → Option String → HarnessMemory → HarnessMemory
unfolding has_valid_openai_key degrade_to_fallback
create_backend api_key failure h =
    if not (has_valid_openai_key api_key)
    then degrade_to_fallback "OPENAI_API_KEY is absent or not valid for mem0" h
    else elim failure [
      | none ↦ h
      | some reason ↦ degrade_to_fallback ("mem0 unavailable: " <> reason) h
    ]

-- `HarnessMemory`, with whether a client is given
unfoldable pub new_memory_layer :
    Bool → Option String → Option String → String → Option String → MemoryFile → HarnessMemory
unfolding create_backend
new_memory_layer client_given user_id env_user_id api_key failure file =
    let h = with_user user_id env_user_id file in
    if client_given then h else create_backend api_key failure h
