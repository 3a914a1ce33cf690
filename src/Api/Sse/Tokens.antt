-- ===== src/Api/Sse/Tokens.antt =====
-- Texts that a field of an event can carry on one line, and decimal numbers as such texts.
use text.Mathlib.TextLemmas.{nil-append, cons-append, cons-ne-nil}
use Prim.Native.Char.{Char, code}
use computer_use_orchestrato.Prelude.{
  ℕ, zero, suc, ◌/◌, ◌%◌, String, ◌<>◌, ◌==◌, ◌≡◌, refl, ap, ◌∙◌, Bool, true, false, not, ◌&&◌,
  arith, leb, truthy, strip, lstrip, rstrip, show, show_from, digit, Bool-cases, inl, inr, eq_iff,
  Lacks, Lacks-append, is_break, is_space,
}

-- A text of one line that starts and ends with no space and is not empty.
pub record IsToken (text : String) : Type 0 where
  pub one_line : Lacks is_break text
  pub stripped : strip text ≡ text
  pub filled : truthy text ≡ true

-- The code of a character that is no digit.
abbrev is_other : ℕ → Bool
is_other c = not (leb 48 c && leb c 57)

digit_lem : (n : ℕ) → Lacks is_other (digit n)
digit_lem zero = (refl, tt)
digit_lem (suc zero) = (refl, tt)
digit_lem (suc (suc zero)) = (refl, tt)
digit_lem (suc (suc (suc zero))) = (refl, tt)
digit_lem (suc (suc (suc (suc zero)))) = (refl, tt)
digit_lem (suc (suc (suc (suc (suc zero))))) = (refl, tt)
digit_lem (suc (suc (suc (suc (suc (suc zero)))))) = (refl, tt)
digit_lem (suc (suc (suc (suc (suc (suc (suc zero))))))) = (refl, tt)
digit_lem (suc (suc (suc (suc (suc (suc (suc (suc zero)))))))) = (refl, tt)
digit_lem (suc (suc (suc (suc (suc (suc (suc (suc (suc n))))))))) = (refl, tt)

digit-filled : (n : ℕ) → truthy (digit n) ≡ true
digit-filled zero = refl
digit-filled (suc zero) = refl
digit-filled (suc (suc zero)) = refl
digit-filled (suc (suc (suc zero))) = refl
digit-filled (suc (suc (suc (suc zero)))) = refl
digit-filled (suc (suc (suc (suc (suc zero))))) = refl
digit-filled (suc (suc (suc (suc (suc (suc zero)))))) = refl
digit-filled (suc (suc (suc (suc (suc (suc (suc zero))))))) = refl
digit-filled (suc (suc (suc (suc (suc (suc (suc (suc zero)))))))) = refl
digit-filled (suc (suc (suc (suc (suc (suc (suc (suc (suc n))))))))) = refl

pub cons-filled : (c : Char) (s : String) → truthy (String.◌∷◌ c s) ≡ true
cons-filled c s = elim (Bool-cases (String.◌∷◌ c s == "")) [
  | inl same ↦ absurd (cons-ne-nil c s ((eq_iff (String.◌∷◌ c s) "").0 same))
  | inr other ↦ ap not other
]

append-filled : (s t : String) → truthy t ≡ true → truthy (s <> t) ≡ true
append-filled String.[] t h = rw (nil-append t) h
append-filled (String.◌∷◌ c s) t h = rw (cons-append c s t) (cons-filled c (s <> t))

show_from-digits : (fuel n : ℕ) → Lacks is_other (show_from fuel n)
unfolding show_from
show_from-digits zero n = tt
show_from-digits (suc fuel) n =
    let more =
      Lacks-append is_other (show_from fuel (n / 10)) (digit (n % 10))
        (show_from-digits fuel (n / 10)) (digit_lem (n % 10)) in
    ground (arith, more, digit_lem n)

show-filled : (n : ℕ) → truthy (show n) ≡ true
unfolding show show_from
show-filled n = ground (
  arith,
  digit-filled n,
  append-filled (show_from n (n / 10)) (digit (n % 10)) (digit-filled (n % 10)),
)

digits-one_line : (s : String) → Lacks is_other s → Lacks is_break s
digits-one_line String.[] h = tt
digits-one_line (String.◌∷◌ c s) (h, hs) =
    let no_break : is_break (code c) ≡ false = ground arith in (no_break, digits-one_line s hs)

not_other-not_space : (c : ℕ) → is_other c ≡ false → is_space c ≡ false
not_other-not_space c h = ground arith

digits-rstrip : (s : String) → Lacks is_other s → rstrip s ≡ s
unfolding rstrip
digits-rstrip String.[] h = refl
digits-rstrip (String.◌∷◌ c s) (h, hs) = rw (not_other-not_space (code c) h, digits-rstrip s hs)

digits-lstrip : (s : String) → Lacks is_other s → lstrip s ≡ s
unfolding lstrip
digits-lstrip String.[] h = refl
digits-lstrip (String.◌∷◌ c s) (h, hs) = rw (not_other-not_space (code c) h)

pub show-IsToken : (n : ℕ) → IsToken (show n)
unfolding show strip
show-IsToken n =
    let digits = show_from-digits (suc n) n in
    record {
      one_line = digits-one_line (show n) digits;
      stripped = ap rstrip (digits-lstrip (show n) digits) ∙ digits-rstrip (show n) digits;
      filled = show-filled n;
    }
