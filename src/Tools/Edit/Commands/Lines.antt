-- ===== src/Tools/Edit/Commands/Lines.antt =====
-- The lines of a file after `insert` of tools/edit.py.
use Prim.Native.Char.{Char, code}
use text.Mathlib.TextLemmas.{nil-append, cons-append}
use computer_use_orchestrato.Prelude.{
  ℕ, zero, suc, ◌≤◌, String, ◌<>◌, ◌≡◌, refl, sym, ap, subst, ◌∙◌, Bool, true, false, none, List,
  [], ◌∷◌, ◌++◌, length, take, drop, join, split_newline, cons_first, Lacks, nat_eq, Bool-cases,
  inl, inr,
}
use computer_use_orchestrato.Tools.Text.{expandtabs, universal_newlines}
use computer_use_orchestrato.Tools.Edit.{ℤ, pos, file, EditState, Os}
use computer_use_orchestrato.Tools.Edit.Commands.{insert, insert_at}
use computer_use_orchestrato.Tools.Edit.Commands.Returns.{is_returned, after_edit, insert-returned}

abbrev is_newline : ℕ → Bool
is_newline c = nat_eq c 10

-- Texts without a newline.
abbrev Lines : List String → Type 0
Lines [] = Unit
Lines (line ∷ lines) = Lacks is_newline line × Lines lines

Lines-append : (xs ys : List String) → Lines xs → Lines ys → Lines (xs ++ ys)
Lines-append [] ys h k = k
Lines-append (x ∷ xs) ys (h, hs) k = (h, Lines-append xs ys hs k)

Lines-take : (n : ℕ) (xs : List String) → Lines xs → Lines (take n xs)
Lines-take zero xs h = tt
Lines-take (suc n) [] h = tt
Lines-take (suc n) (x ∷ xs) (h, hs) = (h, Lines-take n xs hs)

Lines-drop : (n : ℕ) (xs : List String) → Lines xs → Lines (drop n xs)
Lines-drop zero xs h = h
Lines-drop (suc n) [] h = tt
Lines-drop (suc n) (x ∷ xs) (h, hs) = Lines-drop n xs hs

Lines-cons_first :
    (c : Char) (xs : List String) → is_newline (code c) ≡ false → Lines xs → Lines (cons_first c xs)
Lines-cons_first c [] h k = ((h, tt), tt)
Lines-cons_first c (x ∷ xs) h (k, ks) = ((h, k), ks)

split_newline-Lines : (text : String) → Lines (split_newline text)
unfolding split_newline
split_newline-Lines String.[] = (tt, tt)
split_newline-Lines (String.◌∷◌ c s) = elim (Bool-cases (is_newline (code c))) [
  | inl newline ↦ rw newline (tt, split_newline-Lines s)
  | inr other ↦ rw other (Lines-cons_first c (split_newline s) other (split_newline-Lines s))
]

split_newline-last : (line : String) → Lacks is_newline line → split_newline line ≡ line ∷ []
unfolding split_newline
split_newline-last String.[] h = refl
split_newline-last (String.◌∷◌ c s) (h, hs) = rw h (ap (cons_first c) (split_newline-last s hs))

split_newline-newline :
    (line rest : String)
    → Lacks is_newline line
    → split_newline (line <> ("\n" <> rest)) ≡ line ∷ split_newline rest
unfolding split_newline
split_newline-newline String.[] rest h =
    rw (nil-append ("\n" <> rest), cons-append "\n" "" rest, nil-append rest)
split_newline-newline (String.◌∷◌ c s) rest (h, hs) =
    rw (cons-append c s ("\n" <> rest), h) (ap (cons_first c) (split_newline-newline s rest hs))

-- The lines of joined lines.
split_newline-join :
    (line : String) (lines : List String)
    → Lines (line ∷ lines)
    → split_newline (join "\n" (line ∷ lines)) ≡ line ∷ lines
unfolding join
split_newline-join line [] (h, hs) = split_newline-last line h
split_newline-join line (next ∷ lines) (h, hs) =
    split_newline-newline line (join "\n" (next ∷ lines)) h
    ∙ ap (λ l. line ∷ l) (split_newline-join next lines hs)

cons_first-filled :
    (c : Char) (parts : List String)
    → (line : String) × (lines : List String) × (cons_first c parts ≡ line ∷ lines)
cons_first-filled c [] = (_, _, refl)
cons_first-filled c (x ∷ xs) = (_, _, refl)

split_newline-filled :
    (text : String) → (line : String) × (lines : List String) × (split_newline text ≡ line ∷ lines)
unfolding split_newline
split_newline-filled String.[] = ("", [], refl)
split_newline-filled (String.◌∷◌ c s) = elim (Bool-cases (is_newline (code c))) [
  | inl newline ↦ ("", split_newline s, rw newline)
  | inr other ↦
      let (line, lines, same) = cons_first-filled c (split_newline s) in
      (line, lines, rw other same)
]

joined :
    (front lines : List String) (x : String) (xs : List String)
    → lines ≡ x ∷ xs
    → Lines (front ++ lines)
    → split_newline (join "\n" (front ++ lines)) ≡ front ++ lines
joined [] lines x xs h k =
    subst (λ l. split_newline (join "\n" l) ≡ l) (sym h) (split_newline-join x xs (subst Lines h k))
joined (y ∷ front) lines x xs h k = split_newline-join y (front ++ lines) k

-- `insert` of a readable file returns only for a line number of the file, from 0 on, and the lines
-- of the file are then the lines up to that one, those of the new text and the others, in this
-- order; the text of before is the last of the file's history, and no other file or history changes.
-- Tabs count as their spaces.
pub insert-lines :
    (os : Os) (path : String) (line : ℤ) (new text : String) (st : EditState)
    → st.disk path ≡ file text
    → os.read_failure path ≡ none
    → is_returned (insert os path line new st).1 ≡ true
    → let content = expandtabs (universal_newlines text) in
      let lines = split_newline content in
      (n : ℕ) × (new_content : String) × (line ≡ pos n)
      × (n ≤ length lines)
      × (split_newline new_content
          ≡ take n lines ++ (split_newline (expandtabs new) ++ drop n lines))
      × ((insert os path line new st).0 ≡ after_edit path content new_content st)
unfolding insert_at
insert-lines os path line new text st is_file readable h =
    let content = expandtabs (universal_newlines text) in
    let lines = split_newline content in
    let new_lines = split_newline (expandtabs new) in
    let (n, is_pos, within, edit) = insert-returned os path line new text st is_file readable h in
    let (x, xs, filled) = split_newline-filled (expandtabs new) in
    let all =
      Lines-append (take n lines) (new_lines ++ drop n lines)
        (Lines-take n lines (split_newline-Lines content))
        (Lines-append new_lines (drop n lines) (split_newline-Lines (expandtabs new))
          (Lines-drop n lines (split_newline-Lines content))) in
    (
      n,
      join "\n" (insert_at n new_lines lines),
      is_pos,
      within,
      joined (take n lines) (new_lines ++ drop n lines) x (xs ++ drop n lines)
          (ap (λ l. l ++ drop n lines) filled) all,
      edit,
    )
