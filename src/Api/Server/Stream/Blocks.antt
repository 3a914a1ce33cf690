-- ===== src/Api/Server/Stream/Blocks.antt =====
-- `buffer.split("\n\n", 1)` on a buffer to which more text is added.
use Prim.Native.Char.{Char}
use Prim.Native.String.{count}
use text.Mathlib.TextLemmas.{cons-append, length-cons}
use computer_use_orchestrato.Prelude.{
  ℕ, zero, suc, ◌<◌, String, ◌<>◌, ◌≡◌, refl, sym, ap, ◌∙◌, true, false, ◌&&◌, Option, none, some,
  List, [], ◌∷◌, ◌++◌, arith, Bool-cases, Option-cases, inl, inr,
}
use computer_use_orchestrato.Api.Server.Stream.{is_newline, push_char, cut_block, drain_from, drain}

-- The same block, with more text behind the rest.
abbrev extend : String → Option (String × String) → Option (String × String)
extend y none = none
extend y (some (block, rest)) = some (block, rest <> y)

abbrev rest_of : Option (String × String) → String
rest_of none = ""
rest_of (some (block, rest)) = rest

pub cut_block-blank :
    (c d : Char) (s : String)
    → is_newline c && is_newline d ≡ true
    → cut_block (String.◌∷◌ c (String.◌∷◌ d s)) ≡ some ("", s)
unfolding cut_block
cut_block-blank c d s h = rw h

pub cut_block-push :
    (c d : Char) (s : String)
    → is_newline c && is_newline d ≡ false
    → cut_block (String.◌∷◌ c (String.◌∷◌ d s)) ≡ push_char c (cut_block (String.◌∷◌ d s))
unfolding cut_block
cut_block-push c d s h = rw h

push_char-some :
    (c : Char) (o : Option (String × String)) (b r : String)
    → push_char c o ≡ some (b, r)
    → (block : String) × (o ≡ some (block, r)) × (String.◌∷◌ c block ≡ b)
push_char-some c none b r h = ground arith
push_char-some c (some (block, rest)) b r h = (block, ground arith, ground arith)

pub cut_block-append :
    (x y b r : String) → cut_block x ≡ some (b, r) → cut_block (x <> y) ≡ some (b, r <> y)
cut_block-append String.[] y b r h = unfold cut_block in ground arith
cut_block-append (String.◌∷◌ c String.[]) y b r h = unfold cut_block in ground arith
cut_block-append (String.◌∷◌ c (String.◌∷◌ d s)) y b r h =
    let flat : String.◌∷◌ c (String.◌∷◌ d s) <> y ≡ String.◌∷◌ c (String.◌∷◌ d (s <> y)) =
      cons-append c (String.◌∷◌ d s) y ∙ ap (String.◌∷◌ c) (cons-append d s y) in
    elim (Bool-cases (is_newline c && is_newline d)) [
      | inl blank ↦
          ap cut_block flat
          ∙ cut_block-blank c d (s <> y) blank
          ∙ ap (extend y) (sym (cut_block-blank c d s blank) ∙ h)
      | inr other ↦
          let (block, cut, whole) = push_char-some c _ b r (sym (cut_block-push c d s other) ∙ h) in
          let ih = cut_block-append (String.◌∷◌ d s) y block r cut in
          ap cut_block flat
          ∙ cut_block-push c d (s <> y) other
          ∙ ap (λ t. push_char c (cut_block t)) (sym (cons-append d s y))
          ∙ ap (push_char c) ih
          ∙ ap (λ t. some (t, r <> y)) whole
    ]

cut_block-count : (x b r : String) → cut_block x ≡ some (b, r) → count r < count x
cut_block-count String.[] b r h = unfold cut_block in ground arith
cut_block-count (String.◌∷◌ c String.[]) b r h = unfold cut_block in ground arith
cut_block-count (String.◌∷◌ c (String.◌∷◌ d s)) b r h =
    let longer = length-cons c (String.◌∷◌ d s) in
    elim (Bool-cases (is_newline c && is_newline d)) [
      | inl blank ↦
          let same : s ≡ r = ap rest_of (sym (cut_block-blank c d s blank) ∙ h) in
          omega (arith, ap count same, longer, length-cons d s)
      | inr other ↦
          let (block, cut, whole) = push_char-some c _ b r (sym (cut_block-push c d s other) ∙ h) in
          let ih : count r < count (String.◌∷◌ d s) =
            cut_block-count (String.◌∷◌ d s) block r cut in
          omega (arith, longer)
    ]

abbrev pub before : String → List String × String → List String × String
before block (blocks, left) = (block ∷ blocks, left)

drain_from-none : (fuel : ℕ) (x : String) → cut_block x ≡ none → drain_from fuel x ≡ ([], x)
unfolding drain_from
drain_from-none zero x h = refl
drain_from-none (suc fuel) x h = rw (h, drain_from)

drain_from-some :
    (fuel : ℕ) (x b r : String)
    → cut_block x ≡ some (b, r)
    → drain_from (suc fuel) x ≡ before b (drain_from fuel r)
unfolding drain_from
drain_from-some fuel x b r h = rw (h, drain_from)

drain_from-fuel :
    (f g : ℕ) (x : String) → count x < f → count x < g → drain_from f x ≡ drain_from g x
drain_from-fuel zero g x h k = absurd (omega arith)
drain_from-fuel (suc f) zero x h k = absurd (omega arith)
drain_from-fuel (suc f) (suc g) x h k = elim (Option-cases (cut_block x)) [
  | inl none_left ↦ drain_from-none (suc f) x none_left ∙ sym (drain_from-none (suc g) x none_left)
  | inr ((b, r), cut) ↦
      let shorter = cut_block-count x b r cut in
      drain_from-some f x b r cut
      ∙ ap (before b) (drain_from-fuel f g r (omega arith) (omega arith))
      ∙ sym (drain_from-some g x b r cut)
]

-- The blocks of what is left with more text behind it, after some blocks.
unfoldable pub after : List String × String → String → List String × String
after (blocks, left) y = (blocks ++ (drain (left <> y)).0, (drain (left <> y)).1)

drain_from-append :
    (f g : ℕ) (x y : String)
    → count x < f
    → count (x <> y) < g
    → drain_from g (x <> y) ≡ after (drain_from f x) y
drain_from-append zero g x y h k = absurd (omega arith)
drain_from-append (suc f) zero x y h k = absurd (omega arith)
drain_from-append (suc f) (suc g) x y h k = elim (Option-cases (cut_block x)) [
  | inl none_left ↦
      let whole : drain_from (suc g) (x <> y) ≡ drain (x <> y) =
        unfold drain in drain_from-fuel (suc g) (suc (count (x <> y))) (x <> y) k (omega arith) in
      unfold after in whole ∙ ap (λ d. after d y) (sym (drain_from-none (suc f) x none_left))
  | inr ((b, r), cut) ↦
      let more = cut_block-append x y b r cut in
      let shorter = cut_block-count x b r cut in
      let shorter_too = cut_block-count (x <> y) b (r <> y) more in
      drain_from-some g (x <> y) b (r <> y) more
      ∙ ap (before b) (drain_from-append f g r y (omega arith) (omega arith))
      ∙ unfold after in ap (λ d. after d y) (sym (drain_from-some f x b r cut))
]

pub drain-append : (x y : String) → drain (x <> y) ≡ after (drain x) y
unfolding drain
drain-append x y =
    drain_from-append (suc (count x)) (suc (count (x <> y))) x y (omega arith) (omega arith)

pub drain-none : (x : String) → cut_block x ≡ none → drain x ≡ ([], x)
unfolding drain
drain-none x h = drain_from-none (suc (count x)) x h

pub drain-some : (x b r : String) → cut_block x ≡ some (b, r) → drain x ≡ before b (drain r)
unfolding drain
drain-some x b r h =
    let shorter = cut_block-count x b r h in
    drain_from-some (count x) x b r h
    ∙ ap (before b) (drain_from-fuel (count x) (suc (count r)) r shorter (omega arith))
