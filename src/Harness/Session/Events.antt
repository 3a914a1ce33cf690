-- ===== src/Harness/Session/Events.antt =====
-- harness/session_harness.py: which worker events the harness tells apart, and how it sums one up.
-- `repr` is how Python prints a float, a list or a dict.
use computer_use_orchestrato.Prelude.{String, ◌<>◌, ◌==◌, strip, prefix, if◌then◌else◌}
use computer_use_orchestrato.Json.{Json, str, Fields, get_or_null, ◌or◌, py_str}

-- The worker events that the harness tells apart.
pub data EventKind : Type 0 where
  watched done error other : EventKind

abbrev pub kind_of : String → EventKind
kind_of name =
    if name == "assistant_block"
    then watched
    else if name == "tool_result"
    then watched
    else if name == "screenshot"
    then watched
    else if name == "user_message"
    then watched
    else if name == "done"
    then done
    else if name == "error"
    then error
    else other

-- `text[:500] if text else default`
abbrev clip : String → String → String
clip text default = if text == "" then default else prefix 500 text

unfoldable pub summarize_event : (Json → String) → String → Fields → String
unfolding py_str strip prefix
summarize_event repr name d =
    if name == "assistant_block"
    then clip (strip (py_str repr (get_or_null "text" d or get_or_null "content" d or str "")))
        "Assistant block received"
    else if name == "tool_result"
    then clip
        (strip (
          py_str repr
            (get_or_null "output" d or get_or_null "text" d or get_or_null "result" d or str "")))
        "Tool result received"
    else if name == "screenshot"
    then "Screenshot observation received"
    else if name == "done"
    then "Worker completed task"
    else if name == "error"
    then py_str repr (get_or_null "message" d or get_or_null "error" d or str "Worker error")
    else "Worker event received: " <> name
