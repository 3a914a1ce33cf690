-- ===== src/Tools/Edit/Commands/Undo.antt =====
-- `undo_edit` of tools/edit.py after another command.
use computer_use_orchestrato.Prelude.{
  String, ◌<>◌, ◌==◌, ◌≡◌, refl, ap, ◌∙◌, true, Option, none, some, List, [], ◌∷◌, ◌++◌, eq_iff,
  eq_refl, Bool-cases, inl, inr,
}
use computer_use_orchestrato.Tools.Text.{expandtabs, universal_newlines}
use computer_use_orchestrato.Tools.Edit.{
  ℤ, file, EditState, Os, Edit, at_key, make_output, output_of,
}
use computer_use_orchestrato.Tools.Edit.Commands.{pop_last, pop, str_replace, insert, undo_edit}
use computer_use_orchestrato.Tools.Edit.Commands.Returns.{
  is_returned, after_edit, written-fine, insert-returned, str_replace-returned,
}

pop_last-snoc :
    (x : String) (xs : List String) (y : String) → pop_last x (xs ++ y ∷ []) ≡ (x ∷ xs, y)
unfolding pop_last
pop_last-snoc x [] y = refl
pop_last-snoc x (z ∷ xs) y = ap (λ p. (x ∷ p.0, p.1)) (pop_last-snoc z xs y)

pop-snoc : (xs : List String) (y : String) → pop (xs ++ y ∷ []) ≡ some (xs, y)
unfolding pop_last
pop-snoc [] y = refl
pop-snoc (x ∷ xs) y = ap some (pop_last-snoc x xs y)

at_key-at_key {ℓ} :
    {A : Type ℓ} (key : String) (a b : A) (f : String → A) (k : String)
    → at_key key a (at_key key b f) k ≡ at_key key a f k
at_key-at_key key a b f k = elim (Bool-cases (key == k)) [
  | inl same ↦ rw same
  | inr other ↦ rw other
]

at_key-own {ℓ} :
    {A : Type ℓ} (key : String) (b : A) (f : String → A) (k : String)
    → at_key key (f key) (at_key key b f) k ≡ f k
at_key-own key b f k = elim (Bool-cases (key == k)) [
  | inl same ↦ rw same (ap f ((eq_iff key k).0 same))
  | inr other ↦ rw other
]

-- A command that changes a file and notes its text before.
pub data Change : Type 0 where
  insertion : ℤ → String → Change
  replacement : String → Option String → Change

module _ (os : Os) where
  abbrev pub make : Change → String → Edit
  make (insertion line new) path = insert os path line new
  make (replacement old new) path = str_replace os path old new

  -- The state after an edit and its undoing.
  abbrev undone : String → String → String → EditState → EditState
  undone path content new_content st =
      let edited = after_edit path content new_content st in
      record {
        disk = at_key path (file content) edited.disk;
        history = at_key path (st.history path) edited.history;
      }

  undo_edit-after_edit :
      (path content new_content : String) (st : EditState)
      → os.write_failure path content ≡ none
      → undo_edit os path (after_edit path content new_content st) ≡ (
        undone path content new_content st,
        output_of
            ("Last edit to " <> (path <> (" undone successfully. " <> make_output content path 1))),
      )
  unfolding undo_edit
  undo_edit-after_edit path content new_content st fine =
      let noted : (after_edit path content new_content st).history path
          ≡ st.history path ++ content ∷ [] =
        rw eq_refl in
      rw (noted, pop-snoc (st.history path) content, undo_edit)
        (written-fine os path content _ _ fine)

  make-returned :
      (change : Change) (path text : String) (st : EditState)
      → st.disk path ≡ file text
      → os.read_failure path ≡ none
      → is_returned (make change path st).1 ≡ true
      → (new_content : String) × ((make change path st).0
          ≡ after_edit path (expandtabs (universal_newlines text)) new_content st)
  make-returned (insertion line new) path text st is_file readable h =
      let (n, is_pos, within, edit) = insert-returned os path line new text st is_file readable h in
      (_, edit)
  make-returned (replacement old new) path text st is_file readable h =
      let (once, edit) = str_replace-returned os path old text new st is_file readable h in
      (_, edit)

  -- `undo_edit` after an `insert` or a `str_replace` that returned returns too, and gives back every
  -- file and the history of every path, but that the file has the spaces for its tabs and the newlines
  -- that it was read with, if writing that text does not fail.
  pub undo_edit-make :
      (change : Change) (path text : String) (st : EditState)
      → st.disk path ≡ file text
      → os.read_failure path ≡ none
      → os.write_failure path (expandtabs (universal_newlines text)) ≡ none
      → is_returned (make change path st).1 ≡ true
      → let end = undo_edit os path (make change path st).0 in
        (is_returned end.1 ≡ true)
        × ((k : String)
            → end.0.disk k ≡ at_key path (file (expandtabs (universal_newlines text))) st.disk k)
        × ((k : String) → end.0.history k ≡ st.history k)
  undo_edit-make change path text st is_file readable fine h =
      let content = expandtabs (universal_newlines text) in
      let (new_content, edit) = make-returned change path text st is_file readable h in
      let whole =
        ap (undo_edit os path) edit ∙ undo_edit-after_edit path content new_content st fine in
      (
        ap (λ r. is_returned r.1) whole,
        λ (k : String).
            ap (λ r. r.0.disk k) whole
            ∙ at_key-at_key path (file content) (file new_content) st.disk k,
        λ (k : String).
            ap (λ r. r.0.history k) whole
            ∙ at_key-own path (st.history path ++ content ∷ []) st.history k,
      )
