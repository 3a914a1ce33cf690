-- ===== src/Tools/Base.antt =====
-- computer_use_demo/tools/base.py, collection.py and run.py: the result of a tool, its sum, the
-- dispatch of a tool call, and the clipping of long texts.
use Prim.Native.String.{count}
use computer_use_orchestrato.Prelude.{
  ℕ, String, ◌<>◌, ◌==◌, Bool, false, ◌&&◌, ◌||◌, Option, none, some, List, [], ◌∷◌, leb, nat_eq,
  truthy, prefix, if◌then◌else◌, Result, ok, err,
}
use computer_use_orchestrato.Json.{Fields}

pub record ToolResult : Type 0 where
  pub output : Option String
  pub error : Option String
  pub base64_image : Option String
  pub system : Option String

abbrev pub no_result : ToolResult
no_result = record { output = none; error = none; base64_image = none; system = none }

-- `bool(text)` for a text that may be `None`
abbrev pub filled : Option String → Bool
filled none = false
filled (some s) = truthy s

-- `__bool__`
unfoldable pub has_result : ToolResult → Bool
has_result r = filled r.output || filled r.error || filled r.base64_image || filled r.system

-- `a or b`
abbrev or_field : Option String → Option String → Option String
or_field a b = if filled a then a else b

abbrev join_fields : Option String → Option String → Option String
join_fields (some a) (some b) = some (a <> b)
join_fields a b = or_field a b

abbrev combine_texts : Option String → Option String → Option String
combine_texts a b = if filled a && filled b then join_fields a b else or_field a b

pub data CombineError : Type 0 where
  cannot_combine : CombineError

-- `__add__`; two images are a `ValueError`.
unfoldable pub add_results : ToolResult → ToolResult → Result CombineError ToolResult
add_results a b =
    if filled a.base64_image && filled b.base64_image
    then err cannot_combine
    else ok (record {
      output = combine_texts a.output b.output;
      error = combine_texts a.error b.error;
      base64_image = or_field a.base64_image b.base64_image;
      system = combine_texts a.system b.system;
    })

abbrev pub truncated_message : String
truncated_message =
    "<response clipped><NOTE>To save on context only part of this file has been shown to you. You should retry this tool after you have searched inside the file with `grep -n` in order to find the line numbers of what you are looking for.</NOTE>"

abbrev pub max_response_len : ℕ
max_response_len = 16000

-- `maybe_truncate`, where no limit and the limit 0 are the same
unfoldable pub maybe_truncate : String → ℕ → String
maybe_truncate content truncate_after =
    if nat_eq truncate_after 0 || leb (count content) truncate_after
    then content
    else prefix truncate_after content <> truncated_message

-- What calling a tool ends in: a result, a `ToolError`, or another exception, by its text.
pub data Outcome : Type 0 where
  returned : ToolResult → Outcome
  tool_error : String → Outcome
  raised : String → Outcome

-- A tool changes the state `W` of the machine, also when it raises.
pub record Tool (W : Type 0) : Type 0 where
  pub name : String
  pub call : Fields → W → W × Outcome

abbrev pub tool_failure : String → ToolResult
tool_failure message = record {
  output = none;
  error = some message;
  base64_image = none;
  system = none;
}

module _ {W : Type 0} where
  -- `tool_map`: of two tools with one name the last is there.
  unfoldable pub find_tool : String → List (Tool W) → Option (Tool W)
  find_tool name [] = none
  find_tool name (t ∷ tools) = elim (find_tool name tools) [
    | some later ↦ some later
    | none ↦ if t.name == name then some t else none
  ]

  abbrev caught : W × Outcome → W × Outcome
  caught (w, tool_error message) = (w, returned (tool_failure message))
  caught (w, other) = (w, other)

  -- `ToolCollection.run`
  unfoldable pub run_tool : List (Tool W) → String → Fields → W → W × Outcome
  unfolding find_tool
  run_tool tools name tool_input w = elim (find_tool name tools) [
    | none ↦ (w, returned (tool_failure ("Tool " <> (name <> " is invalid"))))
    | some tool ↦ caught (tool.call tool_input w)
  ]
