-- ===== src/Tools/Samples.antt =====
-- The theorems on the edit tool at concrete inputs.
use Prim.Native.String.{count}
use computer_use_orchestrato.Prelude.{
  ℕ, ◌≤◌, String, ◌<>◌, ◌==◌, ◌≡◌, ◌≢◌, refl, true, false, none, some, [], ◌++◌, length, take, drop,
  split_newline, after_prefix, if◌then◌else◌,
}
use computer_use_orchestrato.Tools.Text.{
  expandtabs, universal_newlines, cut, pieces, pieces_from, occurrences,
}
use computer_use_orchestrato.Tools.Edit.{
  pos, file, absent, EditState, Os, at_key, read_file, write_file, written, validate_path, exists,
  is_dir,
}
use computer_use_orchestrato.Tools.Edit.Commands.{
  EditInput, edit_20250728, text_or_empty, str_replace, insert, undo_edit, call, replace_in,
  replace_once, insert_in, insert_at, run_command, replace_command,
}
use computer_use_orchestrato.Tools.Edit.Commands.Returns.{is_returned, after_edit}
use computer_use_orchestrato.Tools.Edit.Commands.Changes.{str_replace-once}
use computer_use_orchestrato.Tools.Edit.Commands.Lines.{insert-lines}
use computer_use_orchestrato.Tools.Edit.Commands.Refusals.{is_tool_error, call-tool_error}
use computer_use_orchestrato.Tools.Edit.Commands.Undo.{replacement, undo_edit-make}

-- A system on which nothing fails.
abbrev os : Os
os = record {
  read_failure = λ path. none;
  no_file = λ path. "no such file";
  write_failure = λ path text. none;
  find_output = λ path. none;
}

abbrev state : EditState
state = record {
  disk = λ path. if path == "/a" then file "one\ntwo\nthree" else absent;
  history = λ path. [];
}

replaces : is_returned (str_replace os "/a" "two" (some "2") state).1 ≡ true
unfolding str_replace replace_in replace_once read_file written write_file occurrences pieces
    pieces_from cut expandtabs universal_newlines after_prefix
replaces = refl

filled : (expandtabs "two" == "") ≡ false
unfolding expandtabs
filled = refl

str_replace-once_example :
    let content = expandtabs (universal_newlines "one\ntwo\nthree") in
    let part = expandtabs "two" in
    (before : String) × (behind : String) × (content ≡ before <> (part <> behind))
    × ((x y : String) → content ≡ x <> (part <> y) → count before ≤ count x)
    × ((x y : String) → behind ≢ x <> (part <> y))
    × ((str_replace os "/a" "two" (some "2") state).0
        ≡ after_edit "/a" content
            (before <> (expandtabs (text_or_empty (some "2")) <> behind))
            state)
str_replace-once_example =
    str_replace-once os "/a" "two" "one\ntwo\nthree" (some "2") state refl refl filled replaces

inserts : is_returned (insert os "/a" (pos 1) "new" state).1 ≡ true
unfolding insert insert_in insert_at read_file written write_file split_newline expandtabs
    universal_newlines
inserts = refl

insert-lines_example :
    let content = expandtabs (universal_newlines "one\ntwo\nthree") in
    let lines = split_newline content in
    (n : ℕ) × (new_content : String) × (pos 1 ≡ pos n)
    × (n ≤ length lines)
    × (split_newline new_content
        ≡ take n lines ++ (split_newline (expandtabs "new") ++ drop n lines))
    × ((insert os "/a" (pos 1) "new" state).0 ≡ after_edit "/a" content new_content state)
insert-lines_example = insert-lines os "/a" (pos 1) "new" "one\ntwo\nthree" state refl refl inserts

undo_edit-make_example :
    let end = undo_edit os "/a" (str_replace os "/a" "two" (some "2") state).0 in
    (is_returned end.1 ≡ true)
    × ((k : String)
        → end.0.disk k
          ≡ at_key "/a" (file (expandtabs (universal_newlines "one\ntwo\nthree"))) state.disk k)
    × ((k : String) → end.0.history k ≡ state.history k)
undo_edit-make_example =
    undo_edit-make os (replacement "two" (some "2")) "/a" "one\ntwo\nthree" state refl refl refl
      replaces

abbrev ambiguous : EditInput
ambiguous = record {
  command = "str_replace";
  path = "/a";
  file_text = none;
  view_range = none;
  old_str = some "t";
  new_str = some "T";
  insert_line = none;
}

refuses : is_tool_error (call os edit_20250728 ambiguous state).1 ≡ true
unfolding call run_command validate_path exists is_dir replace_command str_replace replace_in
    read_file occurrences pieces pieces_from cut expandtabs universal_newlines after_prefix
refuses = refl

call-tool_error_example : (call os edit_20250728 ambiguous state).0 ≡ state
call-tool_error_example = call-tool_error os edit_20250728 ambiguous state (λ text. refl) refuses
