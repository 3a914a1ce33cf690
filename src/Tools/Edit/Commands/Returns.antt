-- ===== src/Tools/Edit/Commands/Returns.antt =====
-- What `insert` and `str_replace` of tools/edit.py have done where they return.
use computer_use_orchestrato.Prelude.{
  ℕ, ◌≤◌, ◌<>◌, String, ◌≡◌, refl, ap, subst, ◌∙◌, Bool, true, false, Option, none, some, length,
  arith, ltb, nat_eq, join, split_newline, Option-cases, inl, inr, if◌then◌else◌, ok,
}
use computer_use_orchestrato.Tools.Base.{Outcome, returned, tool_error, raised}
use computer_use_orchestrato.Tools.Text.{expandtabs, universal_newlines, occurrences, replace}
use computer_use_orchestrato.Tools.Edit.{
  ℤ, pos, negsuc, Entry, file, EditState, Os, at_key, read_file, write_file, after_write, written,
}
use computer_use_orchestrato.Tools.Edit.Commands.{
  remember, insert_at, text_or_empty, replace_once, replace_in, str_replace, insert_in, insert,
}

abbrev pub is_returned : Outcome → Bool
is_returned (returned r) = true
is_returned (tool_error e) = false
is_returned (raised e) = false

-- The state after an edit of a text.
abbrev pub after_edit : String → String → String → EditState → EditState
after_edit path content new_content st =
    remember path content (record st { disk = at_key path (file new_content) st.disk })

-- Behind a guard that did not refuse.
past_guard :
    (test : Bool) (e : Outcome) (st : EditState) (next : EditState × Outcome)
    → is_returned (if test then (st, e) else next).1 ≡ true
    → is_returned e ≡ false
    → (test ≡ false) × (is_returned next.1 ≡ true) × ((if test then (st, e) else next) ≡ next)
past_guard true e st next h k = absurd (ground arith)
past_guard false e st next h k = (refl, h, refl)

module _ (os : Os) where
  write_file-fine :
      (path text : String) (st : EditState)
      → os.write_failure path text ≡ none
      → write_file os path text st ≡ (record st { disk = at_key path (file text) st.disk }, none)
  unfolding write_file
  write_file-fine path text st h = rw (h, write_file)

  write_file-fails :
      (path text e : String) (left : Entry) (st : EditState)
      → os.write_failure path text ≡ some (e, left)
      → write_file os path text st ≡ (
        record st { disk = at_key path left st.disk },
        some ("Ran into " <> (e <> (" while trying to write to " <> path))),
      )
  unfolding write_file
  write_file-fails path text e left st h = rw (h, write_file)

  pub written-fine :
      (path text : String) (next : EditState → EditState × Outcome) (st : EditState)
      → os.write_failure path text ≡ none
      → written os path text next st ≡ next (record st { disk = at_key path (file text) st.disk })
  unfolding written
  written-fine path text next st h = ap (after_write next) (write_file-fine path text st h)

  written-fails :
      (path text e : String) (left : Entry) (next : EditState → EditState × Outcome)
      (st : EditState)
      → os.write_failure path text ≡ some (e, left)
      → is_returned (written os path text next st).1 ≡ false
  unfolding written
  written-fails path text e left next st h =
      ap (λ w. is_returned (after_write next w).1) (write_file-fails path text e left st h)

  pub written-returned :
      (path text : String) (next : EditState → EditState × Outcome) (st : EditState)
      → is_returned (written os path text next st).1 ≡ true
      → written os path text next st ≡ next (record st { disk = at_key path (file text) st.disk })
  written-returned path text next st h = elim (Option-cases (os.write_failure path text)) [
    | inl fine ↦ written-fine path text next st fine
    | inr ((e, left), fails) ↦
        let no_return = written-fails path text e left next st fails in absurd (ground arith)
  ]

  -- A readable file, and what it reads as.
  pub read_file-file :
      (path text : String) (st : EditState)
      → st.disk path ≡ file text
      → os.read_failure path ≡ none
      → read_file os path st ≡ ok (universal_newlines text)
  unfolding read_file
  read_file-file path text st h readable = rw (h, readable, read_file)

  replace_in-returned :
      (path old new content : String) (st : EditState)
      → is_returned (replace_in os path old new content st).1 ≡ true
      → (occurrences old content ≡ 1)
        × ((replace_in os path old new content st).0
            ≡ after_edit path content (replace old new content) st)
  unfolding replace_in replace_once
  replace_in-returned path old new content st h =
      let found = occurrences old content in
      let (some_found, h2, first) = past_guard (nat_eq found 0) _ st _ h refl in
      let (not_more, h3, second) = past_guard (ltb 1 found) _ st _ h2 refl in
      let once : found ≡ 1 = ground arith in
      (
        once,
        ap (λ r. r.0) (first ∙ second ∙ written-returned path (replace old new content) _ st h3),
      )

  insert_in-returned :
      (path : String) (line : ℤ) (new content : String) (st : EditState)
      → is_returned (insert_in os path line new content st).1 ≡ true
      → (n : ℕ) × (line ≡ pos n)
        × (n ≤ length (split_newline content))
        × ((insert_in os path line new content st).0
            ≡ after_edit path content
                (join "\n" (insert_at n (split_newline new) (split_newline content)))
                st)
  unfolding insert_in
  insert_in-returned path (negsuc k) new content st h = absurd (ground arith)
  insert_in-returned path (pos n) new content st h =
      let lines = split_newline content in
      let (within, h2, first) = past_guard (ltb (length lines) n) _ st _ h refl in
      (
        n,
        refl,
        ground arith,
        ap (λ r. r.0)
            (first
              ∙ written-returned path (join "\n" (insert_at n (split_newline new) lines)) _ st h2),
      )

  -- `insert` returns on a readable file only if the line is one of the file's, and the text that it
  -- writes then is that of the lines with the new ones behind that line.
  pub insert-returned :
      (path : String) (line : ℤ) (new text : String) (st : EditState)
      → st.disk path ≡ file text
      → os.read_failure path ≡ none
      → is_returned (insert os path line new st).1 ≡ true
      → let content = expandtabs (universal_newlines text) in
        (n : ℕ) × (line ≡ pos n)
        × (n ≤ length (split_newline content))
        × ((insert os path line new st).0
            ≡ after_edit path content
                (join "\n" (insert_at n (split_newline (expandtabs new)) (split_newline content)))
                st)
  unfolding insert
  insert-returned path line new text st is_file readable h =
      let read = read_file-file path text st is_file readable in
      let same : insert os path line new st
          ≡ insert_in os path line (expandtabs new) (expandtabs (universal_newlines text)) st =
        rw (read, insert) in
      let h2 = subst (λ r. is_returned r.1 ≡ true) same h in
      let (n, is_pos, within, edit) =
        insert_in-returned path line (expandtabs new) (expandtabs (universal_newlines text)) st
          h2 in
      (n, is_pos, within, ap (λ r. r.0) same ∙ edit)

  pub str_replace-returned :
      (path old text : String) (new : Option String) (st : EditState)
      → st.disk path ≡ file text
      → os.read_failure path ≡ none
      → is_returned (str_replace os path old new st).1 ≡ true
      → let content = expandtabs (universal_newlines text) in
        (occurrences (expandtabs old) content ≡ 1)
        × ((str_replace os path old new st).0
            ≡ after_edit path content
                (replace (expandtabs old) (expandtabs (text_or_empty new)) content)
                st)
  unfolding str_replace
  str_replace-returned path old text new st is_file readable h =
      let read = read_file-file path text st is_file readable in
      let content = expandtabs (universal_newlines text) in
      let same : str_replace os path old new st
          ≡ replace_in os path (expandtabs old) (expandtabs (text_or_empty new)) content st =
        rw (read, str_replace) in
      let h2 = subst (λ r. is_returned r.1 ≡ true) same h in
      let (once, edit) =
        replace_in-returned path (expandtabs old) (expandtabs (text_or_empty new)) content st h2 in
      (once, ap (λ r. r.0) same ∙ edit)
