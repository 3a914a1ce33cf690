-- ===== src/Tools/Text.antt =====
-- What tools/edit.py uses of `str`: `expandtabs`, `count`, `replace`, `split` and padding, and the
-- newlines of `read_text`.
pub mod Pieces
use Prim.Native.Char.{Char, code}
use Prim.Native.String.{count}
use computer_use_orchestrato.Prelude.{
  ℕ, zero, suc, ◌+◌, ◌-◌, ◌%◌, String, ◌<>◌, ◌==◌, Bool, false, ◌||◌, Option, none, some, List, [],
  ◌∷◌, length, nat_eq, join, show, after_prefix, is_some, if◌then◌else◌,
}

abbrev pub spaces : ℕ → String
spaces zero = ""
spaces (suc n) = " " <> spaces n

-- The column after a character that is no tab.
abbrev next_column : ℕ → ℕ → ℕ
next_column c column = if nat_eq c 10 || nat_eq c 13 then 0 else column + 1

expandtabs_from : ℕ → String → String
expandtabs_from column String.[] = ""
expandtabs_from column (String.◌∷◌ c s) =
    let width = 8 - column % 8 in
    let tab = spaces width <> expandtabs_from (column + width) s in
    let other = String.◌∷◌ c (expandtabs_from (next_column (code c) column) s) in
    if nat_eq (code c) 9 then tab else other

-- `text.expandtabs()`
unfoldable pub expandtabs : String → String
unfolding expandtabs_from
expandtabs text = expandtabs_from 0 text

-- `after_cr`: the character before was "\r", so that "\n" belongs to it.
universal_from : Bool → String → String
universal_from after_cr String.[] = ""
universal_from after_cr (String.◌∷◌ c s) =
    let rest = universal_from (nat_eq (code c) 13) s in
    if nat_eq (code c) 13
    then "\n" <> rest
    else if after_cr
    then (if nat_eq (code c) 10 then rest else String.◌∷◌ c rest)
    else String.◌∷◌ c rest

-- The newlines of a text that is read in text mode.
unfoldable pub universal_newlines : String → String
unfolding universal_from
universal_newlines text = universal_from false text

abbrev pub push : Char → Option (String × String) → Option (String × String)
push c none = none
push c (some (before, behind)) = some (String.◌∷◌ c before, behind)

-- The texts before and behind the first occurrence of a text that is not empty.
unfoldable pub cut : String → String → Option (String × String)
cut sub String.[] = none
cut sub (String.◌∷◌ c s) =
    let more = push c (cut sub s) in
    elim (after_prefix sub (String.◌∷◌ c s)) [ some behind ↦ some ("", behind) | none ↦ more ]

unfoldable pub pieces_from : ℕ → String → String → List String
pieces_from zero sub text = text ∷ []
pieces_from (suc fuel) sub text = elim (cut sub text) [
  | none ↦ text ∷ []
  | some (before, behind) ↦ before ∷ pieces_from fuel sub behind
]

-- `text.split(sub)`, for a `sub` that is not empty; each piece but the last takes a character of
-- the text, so this fuel is enough.
unfoldable pub pieces : String → String → List String
pieces sub text = pieces_from (suc (count text)) sub text

-- `text.count(sub)`
unfoldable pub occurrences : String → String → ℕ
occurrences sub text = if sub == "" then count text + 1 else length (pieces sub text) - 1

-- `sub in text`
abbrev pub is_in : String → String → Bool
is_in sub text = sub == "" || is_some (cut sub text)

spread : String → String → String
spread new String.[] = ""
spread new (String.◌∷◌ c s) = String.◌∷◌ c (new <> spread new s)

-- `text.replace(sub, new)`
unfoldable pub replace : String → String → String → String
unfolding spread
replace sub new text = if sub == "" then new <> spread new text else join new (pieces sub text)

-- `f"{n:6}"`
abbrev pub pad : ℕ → String
pad n = spaces (6 - count (show n)) <> show n
