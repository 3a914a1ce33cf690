-- ===== src/Tools/Edit.antt =====
-- tools/edit.py: the tool that views and edits files, with its history of the texts before each edit.
-- A path is the text of its `Path`. What the system gives, `find`'s output included, is a parameter.
pub mod Commands
use Prim.Native.Char.{code}
use computer_use_orchestrato.Prelude.{
  ℕ, zero, suc, ◌+◌, ◌-◌, String, ◌<>◌, ◌==◌, Bool, true, false, not, ◌&&◌, ◌||◌, Option, none,
  some, List, [], ◌∷◌, length, take, drop, ltb, nat_eq, truthy, join, show, split_newline, is_empty,
  if◌then◌else◌, Result, ok, err,
}
use computer_use_orchestrato.Tools.Base.{
  ToolResult, no_result, Outcome, returned, tool_error, raised, maybe_truncate, max_response_len,
}
use computer_use_orchestrato.Tools.Text.{expandtabs, universal_newlines, pad}

pub data ℤ : Type 0 where
  pos : ℕ → ℤ
  negsuc : ℕ → ℤ

-- An item of `view_range`.
pub data Item : Type 0 where
  int : ℤ → Item
  no_int : String → Item

pub data Entry : Type 0 where
  absent directory : Entry
  file : String → Entry

-- `_file_history` and the files.
pub record EditState : Type 0 where
  pub disk : String → Entry
  pub history : String → List String

-- What the system does: the text of an error where reading fails; the text of an error and what is
-- left at the path where writing a text fails; the output of `find`, or no output in time.
pub record Os : Type 0 where
  pub read_failure : String → Option String
  pub no_file : String → String
  pub write_failure : String → String → Option (String × Entry)
  pub find_output : String → Option (String × String)

abbrev pub Edit : Type 0
Edit = EditState → EditState × Outcome

abbrev pub snippet_lines : ℕ
snippet_lines = 4

-- `f"{text}"` for numbers and lists of numbers
abbrev pub show_int : ℤ → String
show_int (pos n) = show n
show_int (negsuc n) = "-" <> show (n + 1)

abbrev pub show_item : Item → String
show_item (int i) = show_int i
show_item (no_int text) = text

abbrev pub show_items : List Item → List String
show_items [] = []
show_items (i ∷ items) = show_item i ∷ show_items items

abbrev pub show_range : List String → String
show_range items = "[" <> (join ", " items <> "]")

-- A key of a mapping, set.
abbrev pub at_key {ℓ} : {A : Type ℓ} → String → A → (String → A) → String → A
at_key key value f k = if key == k then value else f k

unfoldable pub exists : Entry → Bool
exists absent = false
exists directory = true
exists (file text) = true

unfoldable pub is_dir : Entry → Bool
is_dir directory = true
is_dir absent = false
is_dir (file text) = false

abbrev pub is_absolute : String → Bool
is_absolute String.[] = false
is_absolute (String.◌∷◌ c s) = nat_eq (code c) b'/'

-- `validate_path`: the text of the error. `Path("") / path` is the path itself.
unfoldable pub validate_path : String → String → EditState → Option String
validate_path command path st =
    let entry = st.disk path in
    if not (is_absolute path)
    then some (
        "The path "
        <> (path
            <> (" is not an absolute path, it should start with `/`. Maybe you meant "
                <> (path <> "?"))))
    else if not (exists entry) && not (command == "create")
    then some ("The path " <> (path <> " does not exist. Please provide a valid path."))
    else if exists entry && command == "create"
    then some
        ("File already exists at: " <> (path <> ". Cannot overwrite files using command `create`."))
    else if is_dir entry && not (command == "view")
    then some (
        "The path "
        <> (path <> " is a directory and only the `view` command can be used on directories"))
    else none

-- The lines with their numbers, from `n` on.
unfoldable pub numbered : ℕ → List String → List String
numbered n [] = []
numbered n (line ∷ lines) = (pad n <> ("\t" <> line)) ∷ numbered (n + 1) lines

-- `_make_output`
unfoldable pub make_output : String → String → ℕ → String
make_output content descriptor init_line =
    let shown = expandtabs (maybe_truncate content max_response_len) in
    "Here's the result of running `cat -n` on "
    <> (descriptor <> (":\n" <> (join "\n" (numbered init_line (split_newline shown)) <> "\n")))

abbrev pub output_of : String → Outcome
output_of text = returned (record no_result { output = some text })

-- `xs[a:b]`
abbrev pub slice {ℓ} : {A : Type ℓ} → ℕ → ℕ → List A → List A
slice a b xs = take (b - a) (drop a xs)

abbrev last_line_error : String → String → ℕ → String → String
last_line_error range final n more =
    "Invalid `view_range`: "
    <> (range <> (". Its second element `" <> (final <> ("` should be " <> more))))

abbrev above_lines : String → ℤ → ℕ → String
above_lines range final n =
    last_line_error range (show_int final) n
      ("smaller than the number of lines in the file: `" <> (show n <> "`"))

abbrev below_first : String → ℤ → ℕ → ℕ → String
below_first range final first n =
    last_line_error range (show_int final) n
      ("larger or equal than its first `" <> (show first <> "`"))

-- The tests of the last line, and the lines that are shown.
unfoldable pub lines_to : String → ℕ → ℤ → List String → Result String (List String)
lines_to range first (pos final) lines =
    let n = length lines in
    if ltb n final
    then err (above_lines range (pos final) n)
    else if ltb final first
    then err (below_first range (pos final) first n)
    else ok (slice (first - 1) final lines)
lines_to range first (negsuc zero) lines = ok (drop (first - 1) lines)
lines_to range first (negsuc (suc k)) lines =
    err (below_first range (negsuc (suc k)) first (length lines))

abbrev first_line_error : String → ℤ → ℕ → String
first_line_error range first n =
    "Invalid `view_range`: "
    <> (range
        <> (". Its first element `"
            <> (show_int first
                <> ("` should be within the range of lines of the file: "
                    <> show_range ("1" ∷ show n ∷ [])))))

-- The part of a text that a `view_range` shows, and the number of its first line.
unfoldable pub view_lines : List Item → String → Result String (String × ℕ)
view_lines [] text = ok (text, 1)
view_lines (int (pos first) ∷ int final ∷ []) text =
    let lines = split_newline text in
    let range = show_range (show_items (int (pos first) ∷ int final ∷ [])) in
    if ltb first 1 || ltb (length lines) first
    then err (first_line_error range (pos first) (length lines))
    else elim (lines_to range first final lines) [
      | ok shown ↦ ok (join "\n" shown, first)
      | err e ↦ err e
    ]
view_lines (int (negsuc k) ∷ int final ∷ []) text =
    let range = show_range (show_items (int (negsuc k) ∷ int final ∷ [])) in
    err (first_line_error range (negsuc k) (length (split_newline text)))
view_lines _ text = err "Invalid `view_range`. It should be a list of two integers."

abbrev pub range_of : Option (List Item) → List Item
range_of none = []
range_of (some items) = items

abbrev pub after_write :
    (EditState → EditState × Outcome) → EditState × Option String → EditState × Outcome
after_write next (st, none) = next st
after_write next (st, some e) = (st, tool_error e)

module _ (os : Os) where
  -- `read_file`
  unfoldable pub read_file : String → EditState → Result String String
  read_file path st =
      let failed = λ (e : String). err ("Ran into " <> (e <> (" while trying to read " <> path))) in
      elim (st.disk path) [
        | file text ↦ elim (os.read_failure path) [
          | some e ↦ failed e
          | none ↦ ok (universal_newlines text)
        ]
        | absent ↦ failed (os.no_file path)
        | directory ↦ failed (os.no_file path)
      ]

  -- `write_file`, with what is left where writing fails.
  unfoldable pub write_file : String → String → EditState → EditState × Option String
  write_file path text st = elim (os.write_failure path text) [
    | none ↦ (record st { disk = at_key path (file text) st.disk }, none)
    | some (e, left) ↦ (
      record st { disk = at_key path left st.disk },
      some ("Ran into " <> (e <> (" while trying to write to " <> path))),
    )
  ]

  -- A write, and what follows it.
  unfoldable pub written : String → String → (EditState → EditState × Outcome) → Edit
  written path text next st = after_write next (write_file path text st)

  view_file : String → List Item → EditState → Outcome
  view_file path range st = elim (read_file path st) [
    | err e ↦ tool_error e
    | ok text ↦ elim (view_lines range text) [
      | err e ↦ tool_error e
      | ok (shown, first) ↦ output_of (make_output shown path first)
    ]
  ]

  abbrev listing : String → String → String → ToolResult
  listing path stdout stderr =
      let titled =
        "Here's the files and directories up to 2 levels deep in "
        <> (path <> (", excluding hidden items:\n" <> (stdout <> "\n"))) in
      record no_result {
        output = some (if truthy stderr then stdout else titled);
        error = some stderr;
      }

  view_directory : String → Outcome
  view_directory path = elim (os.find_output path) [
    | none ↦ raised (
        "Command 'find "
        <> (path <> " -maxdepth 2 -not -path '*/\\.*'' timed out after 120.0 seconds"))
    | some (out, errors) ↦ returned (
        listing path (maybe_truncate out max_response_len) (maybe_truncate errors max_response_len))
  ]

  -- `view`
  unfoldable pub view : String → List Item → EditState → Outcome
  unfolding view_file view_directory
  view path range st =
      if not (is_dir (st.disk path))
      then view_file path range st
      else if not (is_empty range)
      then tool_error "The `view_range` parameter is not allowed when `path` points to a directory."
      else view_directory path
