-- ===== src/Prelude/Text.antt =====
-- Texts: decimal numbers, `str.join`, `str.replace` of one character, truth of a text.
use Prim.Native.Nat.{ℕ, zero, suc, ◌/◌, ◌%◌}
use Prim.Native.Char.{code}
use Prim.Native.String.{String, ◌++◌}
use mathlib.Core.Bool.{Bool, true, false, not, ◌&&◌, ◌||◌}
use mathlib.Core.Option.{Option, none, some}
use mathlib.Core.List.{List, [], ◌∷◌}
use text.Mathlib.Text.{◌==◌}
use computer_use_orchestrato.Prelude.Tests.{ltb, leb, nat_eq, if◌then◌else◌}

abbrev pub digit : ℕ → String
digit zero = "0"
digit (suc zero) = "1"
digit (suc (suc zero)) = "2"
digit (suc (suc (suc zero))) = "3"
digit (suc (suc (suc (suc zero)))) = "4"
digit (suc (suc (suc (suc (suc zero))))) = "5"
digit (suc (suc (suc (suc (suc (suc zero)))))) = "6"
digit (suc (suc (suc (suc (suc (suc (suc zero))))))) = "7"
digit (suc (suc (suc (suc (suc (suc (suc (suc zero)))))))) = "8"
digit _ = "9"

unfoldable pub show_from : ℕ → ℕ → String
show_from zero n = ""
show_from (suc fuel) n =
    let more = show_from fuel (n / 10) ++ digit (n % 10) in if ltb n 10 then digit n else more

-- `str(n)`; the fuel n + 1 is more than n has digits.
unfoldable pub show : ℕ → String
unfolding show_from
show n = show_from (suc n) n

-- `sep.join(parts)`
unfoldable pub join : String → List String → String
join sep [] = ""
join sep (x ∷ []) = x
join sep (x ∷ y ∷ rest) = x ++ (sep ++ join sep (y ∷ rest))

-- `text.replace("/", "_")`
unfoldable pub replace_slash : String → String
replace_slash String.[] = ""
replace_slash (String.◌∷◌ c rest) =
    (if nat_eq (code c) b'/' then "_" else String.◌∷◌ c "") ++ replace_slash rest

-- `bool(text)`
abbrev pub truthy : String → Bool
truthy s = not (s == "")

-- `text or default`
abbrev pub or_text : String → String → String
or_text s default = if truthy s then s else default

-- `text or default` where the text may be `None`
abbrev pub or_default : Option String → String → String
or_default none default = default
or_default (some s) default = or_text s default

-- `"text" in list`
abbrev pub contains : List String → String → Bool
contains [] s = false
contains (x ∷ xs) s = if x == s then true else contains xs s

-- `c.isspace()` for the character with code `c`
abbrev pub is_space : ℕ → Bool
is_space c =
    (leb 9 c && leb c 13)
    || (leb 28 c && leb c 32)
    || nat_eq c 133
    || nat_eq c 160
    || nat_eq c 5760
    || (leb 8192 c && leb c 8202)
    || (leb 8232 c && leb c 8233)
    || nat_eq c 8239
    || nat_eq c 8287
    || nat_eq c 12288

unfoldable pub lstrip : String → String
lstrip String.[] = ""
lstrip (String.◌∷◌ c rest) =
    let more = lstrip rest in if is_space (code c) then more else String.◌∷◌ c rest

unfoldable pub rstrip : String → String
rstrip String.[] = ""
rstrip (String.◌∷◌ c rest) =
    let kept = rstrip rest in if is_space (code c) && kept == "" then "" else String.◌∷◌ c kept

-- `text.strip()`
unfoldable pub strip : String → String
unfolding lstrip rstrip
strip text = rstrip (lstrip text)

-- `text[:n]`
unfoldable pub prefix : ℕ → String → String
prefix zero text = ""
prefix (suc n) String.[] = ""
prefix (suc n) (String.◌∷◌ c rest) = String.◌∷◌ c (prefix n rest)

-- The text behind a prefix.
unfoldable pub after_prefix : String → String → Option String
after_prefix String.[] text = some text
after_prefix (String.◌∷◌ p ps) String.[] = none
after_prefix (String.◌∷◌ p ps) (String.◌∷◌ c text) =
    let more = after_prefix ps text in if nat_eq (code p) (code c) then more else none
