-- ===== src/Tools/Text/Pieces.antt =====
-- The first occurrence of a text in another, and a text that occurs once.
use Prim.Native.Char.{Char}
use Prim.Native.String.{count}
use text.Mathlib.TextLemmas.{
  nil-append, cons-append, length-cons, length-append, tail-eq_of_cons-eq,
}
use computer_use_orchestrato.Prelude.{
  ℕ, zero, suc, ◌-◌, ◌≤◌, ◌<◌, String, ◌<>◌, ◌==◌, ◌≡◌, ◌≢◌, refl, sym, ap, ◌∙◌, false, Option,
  none, some, [], ◌∷◌, length, arith, join, after_prefix, after_prefix-append, after_prefix-some,
  Option-cases, inl, inr,
}
use computer_use_orchestrato.Tools.Text.{push, cut, pieces_from, pieces, occurrences, replace}

push-some :
    (c : Char) (o : Option (String × String)) (b r : String)
    → push c o ≡ some (b, r)
    → (before : String) × (o ≡ some (before, r)) × (b ≡ String.◌∷◌ c before)
push-some c none b r h = ground arith
push-some c (some (before, behind)) b r h = (before, ground arith, ground arith)

push-none : (c : Char) (o : Option (String × String)) → push c o ≡ none → o ≡ none
push-none c none h = refl
push-none c (some (before, behind)) h = ground arith

-- The text starts with the part, or the search goes on behind its first character.
cut-here :
    (sub : String) (c : Char) (s behind : String)
    → after_prefix sub (String.◌∷◌ c s) ≡ some behind
    → cut sub (String.◌∷◌ c s) ≡ some ("", behind)
unfolding cut
cut-here sub c s behind h = rw (h, cut)

cut-later :
    (sub : String) (c : Char) (s : String)
    → after_prefix sub (String.◌∷◌ c s) ≡ none
    → cut sub (String.◌∷◌ c s) ≡ push c (cut sub s)
unfolding cut
cut-later sub c s h = rw (h, cut)

abbrev before_of : Option (String × String) → String
before_of none = ""
before_of (some (before, behind)) = before

abbrev behind_of : Option (String × String) → String
behind_of none = ""
behind_of (some (before, behind)) = behind

pub cut-some : (sub text b r : String) → cut sub text ≡ some (b, r) → text ≡ b <> (sub <> r)
cut-some sub String.[] b r h = unfold cut in ground arith
cut-some sub (String.◌∷◌ c s) b r h = elim (Option-cases (after_prefix sub (String.◌∷◌ c s))) [
  | inr (behind, here) ↦
      let same = sym (cut-here sub c s behind here) ∙ h in
      let before_is : "" ≡ b = ap before_of same in
      let behind_is : behind ≡ r = ap behind_of same in
      after_prefix-some sub (String.◌∷◌ c s) behind here
      ∙ ap (λ x. sub <> x) behind_is
      ∙ sym (nil-append (sub <> r))
      ∙ ap (λ x. x <> (sub <> r)) before_is
  | inl later ↦
      let (before, found, b_is) = push-some c _ b r (sym (cut-later sub c s later) ∙ h) in
      ap (String.◌∷◌ c) (cut-some sub s before r found)
      ∙ sym (cons-append c before (sub <> r))
      ∙ ap (λ x. x <> (sub <> r)) (sym b_is)
]

-- A text that starts with the part.
starts_here : (sub text b : String) → text ≡ "" <> (sub <> b) → after_prefix sub text ≡ some b
starts_here sub text b h =
    ap (after_prefix sub) (h ∙ nil-append (sub <> b)) ∙ after_prefix-append sub b

tail_is : (c d : Char) (s x part : String) → String.◌∷◌ c s ≡ String.◌∷◌ d x <> part → s ≡ x <> part
tail_is c d s x part h = tail-eq_of_cons-eq (h ∙ cons-append d x part)

-- No occurrence starts before the first one.
pub cut-first :
    (sub text b r x y : String)
    → cut sub text ≡ some (b, r)
    → text ≡ x <> (sub <> y)
    → count b ≤ count x
cut-first sub String.[] b r x y h k = unfold cut in ground arith
cut-first sub (String.◌∷◌ c s) b r String.[] y h k =
    let same = sym (cut-here sub c s y (starts_here sub (String.◌∷◌ c s) y k)) ∙ h in
    let before_is : "" ≡ b = ap before_of same in omega (arith, ap count before_is)
cut-first sub (String.◌∷◌ c s) b r (String.◌∷◌ d x) y h k =
    elim (Option-cases (after_prefix sub (String.◌∷◌ c s))) [
      | inr (behind, here) ↦
          let before_is : "" ≡ b = ap before_of (sym (cut-here sub c s behind here) ∙ h) in
          omega (arith, ap count before_is)
      | inl later ↦
          let (before, found, b_is) = push-some c _ b r (sym (cut-later sub c s later) ∙ h) in
          let ih : count before ≤ count x =
            cut-first sub s before r x y found (tail_is c d s x (sub <> y) k) in
          omega (arith, length-cons d x, ap count b_is, length-cons c before)
    ]

filled-count : (sub : String) → (sub == "") ≡ false → 0 < count sub
filled-count String.[] h = absurd (ground arith)
filled-count (String.◌∷◌ c p) h = omega (arith, length-cons c p)

-- A text in which the part is not found does not have it anywhere.
pub cut-none :
    (sub text x y : String) → (sub == "") ≡ false → cut sub text ≡ none → text ≢ x <> (sub <> y)
cut-none sub String.[] x y filled h k =
    let size : 0 ≡ count (x <> (sub <> y)) = ap count k in
    absurd (omega (arith, filled-count sub filled, length-append x (sub <> y), length-append sub y))
cut-none sub (String.◌∷◌ c s) String.[] y filled h k =
    let bad = sym (cut-here sub c s y (starts_here sub (String.◌∷◌ c s) y k)) ∙ h in ground arith
cut-none sub (String.◌∷◌ c s) (String.◌∷◌ d x) y filled h k =
    elim (Option-cases (after_prefix sub (String.◌∷◌ c s))) [
      | inr (behind, here) ↦ let bad = sym (cut-here sub c s behind here) ∙ h in ground arith
      | inl later ↦
          cut-none sub s x y filled (push-none c _ (sym (cut-later sub c s later) ∙ h))
            (tail_is c d s x (sub <> y) k)
    ]

pieces_from-pos : (fuel : ℕ) (sub text : String) → 0 < length (pieces_from fuel sub text)
unfolding pieces_from
pieces_from-pos zero sub text = omega arith
pieces_from-pos (suc fuel) sub text = elim (Option-cases (cut sub text)) [
  | inl not_in ↦ rw (not_in, pieces_from) (omega arith)
  | inr ((b, r), found) ↦ rw (found, pieces_from) (omega arith)
]

pieces_from-some :
    (fuel : ℕ) (sub text b r : String)
    → cut sub text ≡ some (b, r)
    → pieces_from (suc fuel) sub text ≡ b ∷ pieces_from fuel sub r
unfolding pieces_from
pieces_from-some fuel sub text b r h = rw (h, pieces_from)

pieces_from-none :
    (fuel : ℕ) (sub text : String) → cut sub text ≡ none → pieces_from fuel sub text ≡ text ∷ []
unfolding pieces_from
pieces_from-none zero sub text h = refl
pieces_from-none (suc fuel) sub text h = rw (h, pieces_from)

-- One piece: the text does not have the part.
pieces_from-single :
    (fuel : ℕ) (sub text : String)
    → 0 < fuel
    → length (pieces_from fuel sub text) ≡ 1
    → cut sub text ≡ none
pieces_from-single zero sub text pos h = absurd (omega arith)
pieces_from-single (suc fuel) sub text pos h = elim (Option-cases (cut sub text)) [
  | inl not_in ↦ not_in
  | inr ((b, r), found) ↦ absurd (
      omega
        (arith, ap length (pieces_from-some fuel sub text b r found), pieces_from-pos fuel sub r))
]

-- A text that occurs once: what is before and behind it.
pub occurs_once :
    (sub text : String)
    → (sub == "") ≡ false
    → occurrences sub text ≡ 1
    → (b : String) × (r : String) × (cut sub text ≡ some (b, r))
      × (cut sub r ≡ none)
      × (pieces sub text ≡ b ∷ r ∷ [])
unfolding occurrences pieces
occurs_once sub text filled h = elim (Option-cases (cut sub text)) [
  | inl not_in ↦
      let one = pieces_from-none (suc (count text)) sub text not_in in
      let none_found : occurrences sub text ≡ 0 = rw filled (omega (arith, ap length one)) in
      absurd (omega arith)
  | inr ((b, r), found) ↦
      let two = pieces_from-some (count text) sub text b r found in
      let whole = cut-some sub text b r found in
      let pos : 0 < count text = omega (
        arith,
        ap count whole,
        length-append b (sub <> r),
        length-append sub r,
        filled-count sub filled,
      ) in
      let number : length (pieces_from (suc (count text)) sub text) - 1 ≡ 1 = rw filled at h in
      let rest = pieces_from-single (count text) sub r pos (omega (arith, ap length two)) in
      (b, r, found, rest, two ∙ ap (λ l. b ∷ l) (pieces_from-none (count text) sub r rest))
]

pub replace-once :
    (sub new text b r : String)
    → (sub == "") ≡ false
    → pieces sub text ≡ b ∷ r ∷ []
    → replace sub new text ≡ b <> (new <> r)
unfolding replace join
replace-once sub new text b r filled h = rw filled (ap (join new) h)
