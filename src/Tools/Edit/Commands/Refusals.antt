-- ===== src/Tools/Edit/Commands/Refusals.antt =====
-- A call of tools/edit.py that ends in a `ToolError`.
use computer_use_orchestrato.Prelude.{
  String, ◌==◌, ◌≡◌, refl, ap, ◌∙◌, Bool, true, false, Option, none, some, arith, length, ltb,
  nat_eq, split_newline, Option-cases, inl, inr, if◌then◌else◌, Result, ok, err,
}
use computer_use_orchestrato.Tools.Base.{Outcome, returned, tool_error, raised}
use computer_use_orchestrato.Tools.Text.{expandtabs, occurrences}
use computer_use_orchestrato.Tools.Edit.{
  ℤ, pos, negsuc, EditState, Os, output_of, read_file, written, validate_path,
}
use computer_use_orchestrato.Tools.Edit.Commands.{
  text_or_empty, replaced_output, replace_in, replace_once, str_replace, insert_in, insert, pop,
  undo_edit, create, create_command, replace_command, insert_command, ToolVersion, EditInput,
  run_command, call,
}
use computer_use_orchestrato.Tools.Edit.Commands.Returns.{written-fine}

abbrev pub is_tool_error : Outcome → Bool
is_tool_error (tool_error e) = true
is_tool_error (returned r) = false
is_tool_error (raised e) = false

-- A refusal leaves the state as it was.
abbrev Safe : EditState → EditState × Outcome → Type 0
Safe st r = is_tool_error r.1 ≡ true → r.0 ≡ st

if-Safe :
    (test : Bool) (st : EditState) (a b : EditState × Outcome)
    → Safe st a
    → Safe st b
    → Safe st (if test then a else b)
if-Safe true st a b h k = h
if-Safe false st a b h k = k

-- A command that may meet an error before.
checked-Safe :
    (r : Result String String) (st : EditState) (next : String → EditState × Outcome)
    → ((a : String) → Safe st (next a))
    → Safe st (elim r [ err e ↦ (st, tool_error e) | ok a ↦ next a ])
checked-Safe (err e) st next h = λ t. refl
checked-Safe (ok a) st next h = h a

valid-Safe :
    (o : Option String) (st : EditState) (next : EditState × Outcome)
    → Safe st next
    → Safe st (elim o [ some e ↦ (st, tool_error e) | none ↦ next ])
valid-Safe (some e) st next h = λ t. refl
valid-Safe none st next h = h

raised_or_returned :
    (test : Bool) (e text : String)
    → is_tool_error (if test then raised e else output_of text) ≡ false
raised_or_returned true e text = refl
raised_or_returned false e text = refl

module _ (os : Os) where
  written-Safe :
      (path text : String) (next : EditState → EditState × Outcome) (st start : EditState)
      → os.write_failure path text ≡ none
      → ((s : EditState) → is_tool_error (next s).1 ≡ false)
      → Safe start (written os path text next st)
  written-Safe path text next st start fine h refused =
      let same = written-fine os path text next st fine in
      let no_error = ap (λ r. is_tool_error r.1) same ∙ h _ in absurd (ground arith)

  replace_in-Safe :
      (path old new content : String) (st : EditState)
      → ((text : String) → os.write_failure path text ≡ none)
      → Safe st (replace_in os path old new content st)
  unfolding replace_in replace_once replaced_output
  replace_in-Safe path old new content st fine =
      if-Safe (nat_eq (occurrences old content) 0) st _ _ (λ t. refl)
        (if-Safe (ltb 1 (occurrences old content)) st _ _ (λ t. refl)
          (written-Safe path _ _ st st (fine _) (λ s. raised_or_returned (old == "") _ _)))

  str_replace-Safe :
      (path old : String) (new : Option String) (st : EditState)
      → ((text : String) → os.write_failure path text ≡ none)
      → Safe st (str_replace os path old new st)
  unfolding str_replace
  str_replace-Safe path old new st fine =
      checked-Safe (read_file os path st) st
        (λ (text : String).
          replace_in os path (expandtabs old) (expandtabs (text_or_empty new)) (expandtabs text) st)
        (λ text. replace_in-Safe path _ _ _ st fine)

  insert_in-Safe :
      (path : String) (line : ℤ) (new content : String) (st : EditState)
      → ((text : String) → os.write_failure path text ≡ none)
      → Safe st (insert_in os path line new content st)
  unfolding insert_in
  insert_in-Safe path (negsuc k) new content st fine = λ t. refl
  insert_in-Safe path (pos n) new content st fine =
      if-Safe (ltb (length (split_newline content)) n) st _ _ (λ t. refl)
        (written-Safe path _ _ st st (fine _) (λ s. refl))

  insert-Safe :
      (path : String) (line : ℤ) (new : String) (st : EditState)
      → ((text : String) → os.write_failure path text ≡ none)
      → Safe st (insert os path line new st)
  unfolding insert
  insert-Safe path line new st fine =
      checked-Safe (read_file os path st) st
        (λ (text : String). insert_in os path line (expandtabs new) (expandtabs text) st)
        (λ text. insert_in-Safe path line _ _ st fine)

  undo_edit-Safe :
      (path : String) (st : EditState)
      → ((text : String) → os.write_failure path text ≡ none)
      → Safe st (undo_edit os path st)
  unfolding undo_edit
  undo_edit-Safe path st fine = elim (Option-cases (pop (st.history path))) [
    | inl no_edit ↦ rw (no_edit, undo_edit) (λ t. refl)
    | inr ((rest, old_text), last) ↦
        rw (last, undo_edit) (written-Safe path old_text _ _ st (fine old_text) (λ s. refl))
  ]

  create_command-Safe :
      (text : Option String) (path : String) (st : EditState)
      → ((text : String) → os.write_failure path text ≡ none)
      → Safe st (create_command os text path st)
  unfolding create_command create
  create_command-Safe none path st fine = λ t. refl
  create_command-Safe (some text) path st fine =
      written-Safe path text _ st st (fine text) (λ s. refl)

  replace_command-Safe :
      (old new : Option String) (path : String) (st : EditState)
      → ((text : String) → os.write_failure path text ≡ none)
      → Safe st (replace_command os old new path st)
  unfolding replace_command
  replace_command-Safe none new path st fine = λ t. refl
  replace_command-Safe (some old) new path st fine = str_replace-Safe path old new st fine

  insert_command-Safe :
      (line : Option ℤ) (new : Option String) (path : String) (st : EditState)
      → ((text : String) → os.write_failure path text ≡ none)
      → Safe st (insert_command os line new path st)
  unfolding insert_command
  insert_command-Safe none new path st fine = λ t. refl
  insert_command-Safe (some line) none path st fine = λ t. refl
  insert_command-Safe (some line) (some new) path st fine = insert-Safe path line new st fine

  -- A call of the edit tool that ends in a `ToolError` leaves every file and every history as it was,
  -- if writing at the path of the call does not fail.
  pub call-tool_error :
      (version : ToolVersion) (i : EditInput) (st : EditState)
      → ((text : String) → os.write_failure i.path text ≡ none)
      → is_tool_error (call os version i st).1 ≡ true
      → (call os version i st).0 ≡ st
  unfolding call run_command
  call-tool_error version i st fine =
      let path = i.path in
      let command : Safe st (run_command os version i st) =
        if-Safe (i.command == "view") st _ _ (λ t. refl)
          (if-Safe (i.command == "create") st _ _ (create_command-Safe i.file_text path st fine) (
            if-Safe (i.command == "str_replace") st _ _
              (replace_command-Safe i.old_str i.new_str path st fine)
              (if-Safe (i.command == "insert") st _ _
                (insert_command-Safe i.insert_line i.new_str path st fine)
                (if-Safe (i.command == "undo_edit") st _ _ (undo_edit-Safe path st fine)
                  (λ t. refl))))) in
      valid-Safe (validate_path i.command path st) st (run_command os version i st) command
