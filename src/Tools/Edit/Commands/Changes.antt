-- ===== src/Tools/Edit/Commands/Changes.antt =====
-- What `str_replace` of tools/edit.py makes of a file.
use Prim.Native.String.{count}
use computer_use_orchestrato.Prelude.{
  ◌≤◌, String, ◌<>◌, ◌==◌, ◌≡◌, ◌≢◌, ap, ◌∙◌, true, false, Option, none,
}
use computer_use_orchestrato.Tools.Text.{expandtabs, universal_newlines}
use computer_use_orchestrato.Tools.Text.Pieces.{
  cut-some, cut-first, cut-none, occurs_once, replace-once,
}
use computer_use_orchestrato.Tools.Edit.{file, EditState, Os}
use computer_use_orchestrato.Tools.Edit.Commands.{text_or_empty, str_replace}
use computer_use_orchestrato.Tools.Edit.Commands.Returns.{
  is_returned, after_edit, str_replace-returned,
}

-- Where `str_replace` returns for a readable file and a text that is not empty, the text stands in
-- the file, none of it starts before the place that is taken and none is left behind that place, and
-- what the file has then is what was before the place, the new text and what was behind it; the
-- text of before is the last of the file's history, and no other file or history changes. Tabs count
-- as their spaces.
pub str_replace-once :
    (os : Os) (path old text : String) (new : Option String) (st : EditState)
    → st.disk path ≡ file text
    → os.read_failure path ≡ none
    → (expandtabs old == "") ≡ false
    → is_returned (str_replace os path old new st).1 ≡ true
    → let content = expandtabs (universal_newlines text) in
      let part = expandtabs old in
      (before : String) × (behind : String) × (content ≡ before <> (part <> behind))
      × ((x y : String) → content ≡ x <> (part <> y) → count before ≤ count x)
      × ((x y : String) → behind ≢ x <> (part <> y))
      × ((str_replace os path old new st).0
          ≡ after_edit path content (before <> (expandtabs (text_or_empty new) <> behind)) st)
str_replace-once os path old text new st is_file readable filled h =
    let content = expandtabs (universal_newlines text) in
    let part = expandtabs old in
    let (once, edit) = str_replace-returned os path old text new st is_file readable h in
    let (b, r, found, rest, two) = occurs_once part content filled once in
    (
      b,
      r,
      cut-some part content b r found,
      λ (x y : String) (k : content ≡ x <> (part <> y)). cut-first part content b r x y found k,
      λ (x y : String) (k : r ≡ x <> (part <> y)). cut-none part r x y filled rest k,
      edit
          ∙ ap (λ t. after_edit path content t st)
              (replace-once part (expandtabs (text_or_empty new)) content b r filled two),
    )
