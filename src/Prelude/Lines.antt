-- ===== src/Prelude/Lines.antt =====
-- Lines of a text: `str.split("\n")`, `str.splitlines()`, and texts without some characters.
use Prim.Native.Nat.{ℕ}
use Prim.Native.Char.{Char, code}
use Prim.Native.String.{String, ◌++◌}
use mathlib.Core.Path.{◌≡◌, refl, sym, ap, ap₂, ◌∙◌}
use mathlib.Core.Logic.{◌≢◌, inl, inr}
use mathlib.Core.Bool.{Bool, false, ◌&&◌, ◌||◌}
use mathlib.Core.Option.{Option, none, some}
use mathlib.Core.List.{List, [], ◌∷◌}
use text.Mathlib.TextEquality.{Char-path}
use native.Mathlib.Omega.{arith}
use text.Mathlib.TextLemmas.{nil-append, cons-append, cons-ne-nil}
use computer_use_orchestrato.Prelude.Tests.{leb, nat_eq, Bool-cases, if◌then◌else◌}
use computer_use_orchestrato.Prelude.Text.{after_prefix}

-- The character in front of the first part.
abbrev pub cons_first : Char → List String → List String
cons_first c [] = String.◌∷◌ c "" ∷ []
cons_first c (x ∷ xs) = String.◌∷◌ c x ∷ xs

-- `text.split("\n")`
unfoldable pub split_newline : String → List String
split_newline String.[] = "" ∷ []
split_newline (String.◌∷◌ c s) =
    let rest = split_newline s in if nat_eq (code c) 10 then "" ∷ rest else cons_first c rest

-- The characters at which `splitlines` breaks, besides the pair "\r\n".
abbrev pub is_break : ℕ → Bool
is_break c =
    (leb 10 c && leb c 13) || (leb 28 c && leb c 30) || nat_eq c 133 || (leb 8232 c && leb c 8233)

-- `after_cr`: the character before was "\r", so that "\n" belongs to it.
unfoldable pub lines_from : Bool → String → List String
lines_from after_cr String.[] = []
lines_from after_cr (String.◌∷◌ c s) =
    let rest = lines_from (nat_eq (code c) 13) s in
    if after_cr && nat_eq (code c) 10
    then rest
    else if is_break (code c)
    then "" ∷ rest
    else cons_first c rest

-- `text.splitlines()`
unfoldable pub split_lines : String → List String
unfolding lines_from
split_lines text = lines_from false text

-- No character of the text passes the test.
abbrev pub Lacks : (ℕ → Bool) → String → Type 0
Lacks test String.[] = Unit
Lacks test (String.◌∷◌ c s) = (test (code c) ≡ false) × Lacks test s

not_break-not_cr : (c : ℕ) → is_break c ≡ false → nat_eq c 13 ≡ false
not_break-not_cr c h = ground arith

-- A text without a break, and a newline: one line.
pub lines_from-newline :
    (line rest : String)
    → Lacks is_break line
    → lines_from false (line ++ ("\n" ++ rest)) ≡ line ∷ lines_from false rest
unfolding lines_from
lines_from-newline String.[] rest h =
    rw (nil-append ("\n" ++ rest), cons-append "\n" "" rest, nil-append rest)
lines_from-newline (String.◌∷◌ c s) rest (h, hs) =
    rw
      (cons-append c s ("\n" ++ rest), not_break-not_cr (code c) h, h, lines_from-newline s rest hs)

pub lines_from-last :
    (line : String) → Lacks is_break line → line ≢ "" → lines_from false line ≡ line ∷ []
unfolding lines_from
lines_from-last String.[] h ne = absurd (ne refl)
lines_from-last (String.◌∷◌ c String.[]) (h, hs) ne = rw h
lines_from-last (String.◌∷◌ c (String.◌∷◌ d s)) (h, hs) ne =
    rw
      (not_break-not_cr (code c) h, h, lines_from-last (String.◌∷◌ d s) hs (λ e. cons-ne-nil d s e))

pub Lacks-append :
    (test : ℕ → Bool) (s t : String) → Lacks test s → Lacks test t → Lacks test (s ++ t)
Lacks-append test String.[] t h k = rw (nil-append t) k
Lacks-append test (String.◌∷◌ c s) t (h, hs) k =
    rw (cons-append c s t) (h, Lacks-append test s t hs k)

pub after_prefix-append : (p text : String) → after_prefix p (p ++ text) ≡ some text
unfolding after_prefix
after_prefix-append String.[] text = ap some (nil-append text)
after_prefix-append (String.◌∷◌ c p) text =
    rw (cons-append c p text) (ground (arith, after_prefix-append p text))

abbrev value_or : String → Option String → String
value_or default none = default
value_or default (some s) = s

pub after_prefix-some : (p text rest : String) → after_prefix p text ≡ some rest → text ≡ p ++ rest
unfolding after_prefix
after_prefix-some String.[] text rest h = ap (λ o. value_or text o) h ∙ sym (nil-append rest)
after_prefix-some (String.◌∷◌ c p) String.[] rest h = ground arith
after_prefix-some (String.◌∷◌ c p) (String.◌∷◌ d s) rest h =
    elim (Bool-cases (nat_eq (code c) (code d))) [
      | inl same ↦
          let more = rw same at h in
          let char : d ≡ c = Char-path d c (ground arith) in
          ap₂ String.◌∷◌ char (after_prefix-some p s rest more) ∙ sym (cons-append c p rest)
      | inr other ↦ let bad = rw other at h in absurd (ground arith)
    ]
