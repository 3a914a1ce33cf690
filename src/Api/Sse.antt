-- ===== src/Api/Sse.antt =====
-- api/main.py: `_parse_sse_block`. `loads` is `json.loads`, with `none` where it raises.
pub mod Tokens
pub mod RoundTrip
use computer_use_orchestrato.Prelude.{
  String, Option, none, some, List, [], ◌∷◌, ◌++◌, truthy, strip, lstrip, join, split_lines,
  after_prefix, if◌then◌else◌,
}
use computer_use_orchestrato.Json.{Json, obj, str, Fields, end, field}

-- What the loop over the lines has found so far.
pub record SseFields : Type 0 where
  pub event_name : Option String
  pub data_lines : List String
  pub event_id : Option String

abbrev pub no_fields : SseFields
no_fields = record { event_name = none; data_lines = []; event_id = none }

-- The first branch that applies: `id:`, `event:`, `data:`, or none.
unfoldable pub read_field : Option String → Option String → Option String → SseFields → SseFields
unfolding strip lstrip
read_field (some id) _ _ f = record f { event_id = some (strip id) }
read_field none (some name) _ f = record f { event_name = some (strip name) }
read_field none none (some text) f = record f { data_lines = f.data_lines ++ lstrip text ∷ [] }
read_field none none none f = f

unfoldable pub read_line : String → SseFields → SseFields
unfolding after_prefix read_field
read_line line f =
    read_field (after_prefix "id:" line) (after_prefix "event:" line) (after_prefix "data:" line) f

unfoldable pub read_lines : List String → SseFields → SseFields
unfolding read_line
read_lines [] f = f
read_lines (line ∷ lines) f = read_lines lines (read_line line f)

-- The name, the data and the id of an event.
abbrev pub SseEvent : Type 0
SseEvent = Option String × Option Fields × Option String

abbrev data_of : Option Json → String → Fields
data_of (some (obj d)) raw = d
data_of (some value) raw = field "value" value end
data_of none raw = field "raw" (str raw) end

module _ (loads : String → Option Json) where
  read_data : String → Fields
  read_data raw = if truthy raw then data_of (loads raw) raw else end

  named_event : Option String → SseFields → SseEvent
  unfolding read_data strip
  named_event none f = (none, none, f.event_id)
  named_event (some name) f =
      if truthy name
      then (some name, some (read_data (strip (join "\n" f.data_lines))), f.event_id)
      else (none, none, f.event_id)

  unfoldable pub parse_sse_block : String → SseEvent
  unfolding named_event read_lines split_lines
  parse_sse_block block =
      let f = read_lines (split_lines block) no_fields in named_event f.event_name f
