-- ===== src/Tools/Edit/Commands.antt =====
-- tools/edit.py: the commands that change files, and the call of the tool.
pub mod Returns
pub mod Refusals
pub mod Undo
pub mod Changes
pub mod Lines
use computer_use_orchestrato.Prelude.{
  ℕ, ◌+◌, ◌-◌, String, ◌<>◌, ◌==◌, not, Option, none, some, List, [], ◌∷◌, ◌++◌, length, take, drop,
  ltb, nat_eq, join, show, split_newline, if◌then◌else◌, ok, err,
}
use computer_use_orchestrato.Tools.Base.{Outcome, tool_error, raised}
use computer_use_orchestrato.Tools.Text.{expandtabs, occurrences, is_in, replace, pieces}
use computer_use_orchestrato.Tools.Edit.{
  ℤ, pos, negsuc, Item, EditState, Os, Edit, snippet_lines, show_int, show_range, at_key,
  validate_path, make_output, output_of, slice, range_of, read_file, written, view,
}

-- `_file_history[path].append(text)`
abbrev pub remember : String → String → EditState → EditState
remember path text st = record st {
  history = at_key path (st.history path ++ text ∷ []) st.history;
}

-- The numbers of the lines that contain a text.
unfoldable pub lines_with : String → ℕ → List String → List String
lines_with old n [] = []
lines_with old n (line ∷ lines) =
    let rest = lines_with old (n + 1) lines in if is_in old line then show n ∷ rest else rest

-- `text.count("\n")`
abbrev pub newlines : String → ℕ
newlines text = occurrences "\n" text

abbrev first_piece : List String → String
first_piece [] = ""
first_piece (x ∷ xs) = x

abbrev edited : String → String → String → Outcome
edited path shown review =
    output_of ("The file " <> (path <> (" has been edited. " <> (shown <> review))))

-- The answer of `str_replace`; `split` with an empty separator raises.
unfoldable pub replaced_output : String → String → String → String → String → Outcome
replaced_output path old new content new_content =
    let line = newlines (first_piece (pieces old content)) in
    let start = line - snippet_lines in
    let last = line + snippet_lines + newlines new in
    let snippet = join "\n" (slice start (last + 1) (split_newline new_content)) in
    if old == ""
    then raised "empty separator"
    else edited path (make_output snippet ("a snippet of " <> path) (start + 1))
        "Review the changes and make sure they are as expected. Edit the file again if necessary."

abbrev inserted_output : String → ℕ → List String → List String → Outcome
inserted_output path n lines new_lines =
    let snippet =
      slice (n - snippet_lines) n lines ++ (new_lines ++ slice n (n + snippet_lines) lines) in
    let start = if ltb 1 (n + 1 - snippet_lines) then n + 1 - snippet_lines else 1 in
    edited path (make_output (join "\n" snippet) "a snippet of the edited file" start)
      "Review the changes and make sure they are as expected (correct indentation, no duplicate lines, etc). Edit the file again if necessary."

-- The lines with others after the first `n`.
unfoldable pub insert_at : ℕ → List String → List String → List String
insert_at n new_lines lines = take n lines ++ (new_lines ++ drop n lines)

abbrev line_error : ℤ → ℕ → Outcome
line_error line n = tool_error (
    "Invalid `insert_line` parameter: "
    <> (show_int line
        <> (". It should be within the range of lines of the file: "
            <> show_range ("0" ∷ show n ∷ []))))

abbrev pub text_or_empty : Option String → String
text_or_empty none = ""
text_or_empty (some s) = s

unfoldable pub pop_last : String → List String → List String × String
pop_last x [] = ([], x)
pop_last x (y ∷ rest) = let (front, last) = pop_last y rest in (x ∷ front, last)

-- `list.pop()` of a list that is not empty
abbrev pub pop : List String → Option (List String × String)
pop [] = none
pop (x ∷ rest) = some (pop_last x rest)

-- `EditTool20250124` and the classes that inherit from it.
pub data ToolVersion : Type 0 where
  edit_20250124 edit_20250728 edit_20241022 : ToolVersion

abbrev pub tool_name : ToolVersion → String
tool_name edit_20250728 = "str_replace_based_edit_tool"
tool_name edit_20250124 = "str_replace_editor"
tool_name edit_20241022 = "str_replace_editor"

abbrev pub api_type : ToolVersion → String
api_type edit_20250124 = "text_editor_20250124"
api_type edit_20250728 = "text_editor_20250728"
api_type edit_20241022 = "text_editor_20250429"

-- The arguments of a call.
pub record EditInput : Type 0 where
  pub command : String
  pub path : String
  pub file_text : Option String
  pub view_range : Option (List Item)
  pub old_str : Option String
  pub new_str : Option String
  pub insert_line : Option ℤ

module _ (os : Os) where
  -- The rest of `str_replace` for a text that occurs once.
  unfoldable pub replace_once : String → String → String → String → Edit
  unfolding replaced_output
  replace_once path old new content st =
      let new_content = replace old new content in
      written os path new_content
        (λ (s : EditState).
          (remember path content s, replaced_output path old new content new_content))
        st

  unfoldable pub replace_in : String → String → String → String → Edit
  replace_in path old new content st =
      let found = occurrences old content in
      let lines = show_range (lines_with old 1 (split_newline content)) in
      if nat_eq found 0
      then (
        st,
        tool_error (
            "No replacement was performed, old_str `"
            <> (old <> ("` did not appear verbatim in " <> (path <> ".")))),
      )
      else if ltb 1 found
      then (
        st,
        tool_error (
            "No replacement was performed. Multiple occurrences of old_str `"
            <> (old <> ("` in lines " <> (lines <> ". Please ensure it is unique")))),
      )
      else replace_once path old new content st

  -- `str_replace`
  unfoldable pub str_replace : String → String → Option String → Edit
  str_replace path old new st = elim (read_file os path st) [
    | err e ↦ (st, tool_error e)
    | ok text ↦
        replace_in path (expandtabs old) (expandtabs (text_or_empty new)) (expandtabs text) st
  ]

  unfoldable pub insert_in : String → ℤ → String → String → Edit
  insert_in path (negsuc k) new content st =
      (st, line_error (negsuc k) (length (split_newline content)))
  insert_in path (pos n) new content st =
      let lines = split_newline content in
      let new_lines = split_newline new in
      if ltb (length lines) n
      then (st, line_error (pos n) (length lines))
      else written os path (join "\n" (insert_at n new_lines lines))
          (λ (s : EditState). (remember path content s, inserted_output path n lines new_lines)) st

  -- `insert`
  unfoldable pub insert : String → ℤ → String → Edit
  insert path line new st = elim (read_file os path st) [
    | err e ↦ (st, tool_error e)
    | ok text ↦ insert_in path line (expandtabs new) (expandtabs text) st
  ]

  -- `undo_edit`
  unfoldable pub undo_edit : String → Edit
  undo_edit path st = elim (pop (st.history path)) [
    | none ↦ (st, tool_error ("No edit history found for " <> (path <> ".")))
    | some (rest, old_text) ↦
        written os path old_text
          (λ (s : EditState). (
            s,
            output_of (
                "Last edit to "
                <> (path <> (" undone successfully. " <> make_output old_text path 1))),
          ))
          (record st { history = at_key path rest st.history })
  ]

  -- `create`
  unfoldable pub create : String → String → Edit
  create path text st =
      written os path text
        (λ (s : EditState).
          (remember path text s, output_of ("File created successfully at: " <> path)))
        st

  required : String → String → EditState → EditState × Outcome
  required parameter command st =
      (st, tool_error ("Parameter `" <> (parameter <> ("` is required for command: " <> command))))

  unfoldable pub create_command : Option String → String → Edit
  unfolding required
  create_command none path st = required "file_text" "create" st
  create_command (some text) path st = create path text st

  unfoldable pub replace_command : Option String → Option String → String → Edit
  unfolding required
  replace_command none new path st = required "old_str" "str_replace" st
  replace_command (some old) new path st = str_replace path old new st

  unfoldable pub insert_command : Option ℤ → Option String → String → Edit
  unfolding required
  insert_command none new path st = required "insert_line" "insert" st
  insert_command (some line) none path st = required "new_str" "insert" st
  insert_command (some line) (some new) path st = insert path line new st

  abbrev unrecognized : ToolVersion → String → Outcome
  unrecognized version command = tool_error (
      "Unrecognized command "
      <> (command
          <> (". The allowed commands for the "
              <> (tool_name version <> " tool are: view, create, str_replace, insert, undo_edit"))))

  -- The command of a call whose path is valid.
  unfoldable pub run_command : ToolVersion → EditInput → Edit
  unfolding create_command replace_command insert_command
  run_command version i st =
      if i.command == "view"
      then (st, view os i.path (range_of i.view_range) st)
      else if i.command == "create"
      then create_command i.file_text i.path st
      else if i.command == "str_replace"
      then replace_command i.old_str i.new_str i.path st
      else if i.command == "insert"
      then insert_command i.insert_line i.new_str i.path st
      else if i.command == "undo_edit"
      then undo_edit i.path st
      else (st, unrecognized version i.command)

  -- `__call__`
  unfoldable pub call : ToolVersion → EditInput → Edit
  call version i st = elim (validate_path i.command i.path st) [
    | some e ↦ (st, tool_error e)
    | none ↦ run_command version i st
  ]
