-- ===== src/Sampling/Cache/Marks.antt =====
-- The cache marks in the messages: `_inject_prompt_caching` of computer_use_demo/loop.py.
use mathlib.Core.List.{reverse, reverse-cons, reverse-reverse, reverse-append}
use computer_use_orchestrato.Prelude.{
  ℕ, zero, suc, ◌+◌, ◌≤◌, ◌≡◌, refl, sym, ap, subst, ◌∙◌, Bool, true, false, Option, none, some,
  List, [], ◌∷◌, ◌++◌, arith, Option-cases, inl, inr, if◌then◌else◌,
}
use computer_use_orchestrato.Sampling.{
  user, assistant, Block, Item, Content, plain, items, Message, fresh,
}
use computer_use_orchestrato.Sampling.Cache.{
  mark_last, turn_items, with_items, items_of, reversed, inject_from, inject_prompt_caching,
}
use computer_use_orchestrato.Sampling.Cache.Steps.{
  value_or, mark_last-cons, items_of-some, Injects, stops, passes, clears, marks, injects,
}

abbrev mark_of : Item → ℕ
mark_of i = if i.cached then 1 else 0

abbrev item_marks : List Item → ℕ
item_marks [] = 0
item_marks (i ∷ rest) = mark_of i + item_marks rest

abbrev content_marks : Content → ℕ
content_marks (plain text) = 0
content_marks (items is) = item_marks is

-- The items of the messages that have a `cache_control`.
abbrev pub total_marks : List Message → ℕ
total_marks [] = 0
total_marks (m ∷ rest) = content_marks m.content + total_marks rest

-- The marks before the last item.
abbrev front_marks : List Item → ℕ
front_marks [] = 0
front_marks (i ∷ []) = 0
front_marks (i ∷ j ∷ rest) = mark_of i + front_marks (j ∷ rest)

-- Messages, from the last to the first, in which only the last items of the first `n` turns of the
-- user may be marked.
pub data Tidy : ℕ → List Message → Type 0 where
  all_seen : (n : ℕ) → Tidy n []
  no_turn :
      (n : ℕ) (m : Message) (rest : List Message)
      → turn_items m ≡ none
      → content_marks m.content ≡ 0
      → Tidy n rest
      → Tidy n (m ∷ rest)
  within :
      (n : ℕ) (m : Message) (rest : List Message) (is : List Item)
      → turn_items m ≡ some is
      → front_marks is ≡ 0
      → Tidy n rest
      → Tidy (suc n) (m ∷ rest)
  beyond :
      (m : Message) (rest : List Message) (is : List Item)
      → turn_items m ≡ some is
      → item_marks is ≡ 0
      → Tidy zero rest
      → Tidy zero (m ∷ rest)

front-le : (is : List Item) → item_marks is ≤ front_marks is + 1
front-le [] = omega arith
front-le (i ∷ []) = ground arith
front-le (i ∷ j ∷ rest) = omega (arith, front-le (j ∷ rest))

turn-marks :
    (m : Message) (is : List Item)
    → turn_items m ≡ some is
    → content_marks m.content ≡ item_marks is
turn-marks m is h =
    let (role_is, content_is) = items_of-some m.role m.content is h in ap content_marks content_is

Tidy-total : (n : ℕ) (ms : List Message) → Tidy n ms → total_marks ms ≤ n
Tidy-total n ms (all_seen k) = omega arith
Tidy-total n ms (no_turn k m rest turn unmarked t) = omega (arith, Tidy-total k rest t)
Tidy-total n ms (within k m rest is turn front t) =
    omega (arith, Tidy-total k rest t, front-le is, turn-marks m is turn)
Tidy-total n ms (beyond m rest is turn unmarked t) =
    omega (arith, Tidy-total zero rest t, turn-marks m is turn)

mark_last-single :
    (mark : Bool) (i : Item) (out : List Item)
    → mark_last mark (i ∷ []) ≡ some out
    → record i { cached = mark } ∷ [] ≡ out
unfolding mark_last
mark_last-single mark i out h = ap (value_or []) h

mark_last-filled :
    (mark : Bool) (j : Item) (rest out : List Item)
    → mark_last mark (j ∷ rest) ≡ some out
    → (k : Item) × (ks : List Item) × (k ∷ ks ≡ out)
mark_last-filled mark j [] out h = (_, _, mark_last-single mark j out h)
mark_last-filled mark j (x ∷ rest) out h =
    let (marked, is_marked, same) = mark_last-cons mark j x rest out h in (j, marked, same)

front-cons :
    (i k : Item) (ks marked : List Item)
    → k ∷ ks ≡ marked
    → front_marks (i ∷ marked) ≡ mark_of i + front_marks marked
front-cons i k ks marked h = subst (λ l. front_marks (i ∷ l) ≡ mark_of i + front_marks l) h refl

marked-front :
    (mark : Bool) (is out : List Item)
    → mark_last mark is ≡ some out
    → front_marks out ≡ front_marks is
marked-front mark [] out h = unfold mark_last in ground arith
marked-front mark (i ∷ []) out h = ap front_marks (sym (mark_last-single mark i out h))
marked-front mark (i ∷ j ∷ rest) out h =
    let (marked, is_marked, same) = mark_last-cons mark i j rest out h in
    let (k, ks, filled) = mark_last-filled mark j rest marked is_marked in
    ap front_marks (sym same)
    ∙ front-cons i k ks marked filled
    ∙ ap (λ n. mark_of i + n) (marked-front mark (j ∷ rest) marked is_marked)

cleared-marks :
    (is out : List Item) → mark_last false is ≡ some out → item_marks out ≡ front_marks is
cleared-marks [] out h = unfold mark_last in ground arith
cleared-marks (i ∷ []) out h = ap item_marks (sym (mark_last-single false i out h))
cleared-marks (i ∷ j ∷ rest) out h =
    let (marked, is_marked, same) = mark_last-cons false i j rest out h in
    ap item_marks (sym same) ∙ ap (λ n. mark_of i + n) (cleared-marks (j ∷ rest) marked is_marked)

with_items-turn :
    (m : Message) (is out : List Item)
    → turn_items m ≡ some is
    → turn_items (with_items m out) ≡ some out
with_items-turn m is out h =
    let (role_is, content_is) = items_of-some m.role m.content is h in
    ap (λ r. items_of r (items out)) role_is

none-some {ℓ} : {A : Type ℓ} (B : Type 0) (o : Option A) (a : A) → o ≡ none → o ≡ some a → B
none-some B o a h k = let bad = sym h ∙ k in ground arith

-- A pass marks one turn less than might be marked before.
Injects-Tidy : (n : ℕ) (ms out : List Message) → Injects n ms out → Tidy (suc n) ms → Tidy n out
Injects-Tidy n ms out (stops k) t = all_seen k
Injects-Tidy n ms out (passes k m rest more other steps) (no_turn _ _ _ turn unmarked t) =
    no_turn k m more turn unmarked (Injects-Tidy k rest more steps t)
Injects-Tidy n ms out (passes k m rest more other steps) (within _ _ _ is turn front t) =
    none-some _ (turn_items m) is other turn
Injects-Tidy n ms out (clears m rest is cleared turn clear) (no_turn _ _ _ other unmarked t) =
    none-some _ (turn_items m) is other turn
Injects-Tidy n ms out (clears m rest is cleared turn clear) (within _ _ _ js turn_too front t) =
    let same : is ≡ js = ap (value_or []) (sym turn ∙ turn_too) in
    beyond (with_items m cleared) rest cleared (with_items-turn m is cleared turn)
      (cleared-marks is cleared clear ∙ ap front_marks same ∙ front) t
Injects-Tidy n ms out (marks k m rest more is marked turn mark steps)
      (no_turn _ _ _ other unmarked t) =
    none-some _ (turn_items m) is other turn
Injects-Tidy n ms out (marks k m rest more is marked turn mark steps)
      (within _ _ _ js turn_too front t) =
    let same : is ≡ js = ap (value_or []) (sym turn ∙ turn_too) in
    within k (with_items m marked) more marked (with_items-turn m is marked turn)
      (marked-front true is marked mark ∙ ap front_marks same ∙ front)
      (Injects-Tidy k rest more steps t)

-- The messages of the loop at the start of a round: none is marked at first, and a round marks them
-- and adds an answer and its results.
pub data Reached : List Message → Type 0 where
  start : (ms : List Message) → total_marks ms ≡ 0 → Reached ms
  next :
      (ms out : List Message) (answer results : List Block)
      → Reached ms
      → inject_prompt_caching ms ≡ some out
      → Reached (
          out
          ++ record { role = assistant; content = items (fresh answer) }
            ∷ record { role = user; content = items (fresh results) }
            ∷ [])

fresh-marks : (blocks : List Block) → item_marks (fresh blocks) ≡ 0
fresh-marks [] = refl
fresh-marks (b ∷ blocks) = omega (arith, fresh-marks blocks)

front-marks_le : (is : List Item) → front_marks is ≤ item_marks is
front-marks_le [] = omega arith
front-marks_le (i ∷ []) = ground arith
front-marks_le (i ∷ j ∷ rest) = omega (arith, front-marks_le (j ∷ rest))

unmarked-turn :
    (n : ℕ) (m : Message) (rest : List Message) (is : List Item)
    → turn_items m ≡ some is
    → content_marks m.content ≡ 0
    → ((k : ℕ) → Tidy k rest)
    → Tidy n (m ∷ rest)
unmarked-turn zero m rest is turn unmarked t =
    beyond m rest is turn (sym (turn-marks m is turn) ∙ unmarked) (t zero)
unmarked-turn (suc n) m rest is turn unmarked t =
    within n m rest is turn (omega (arith, turn-marks m is turn, front-marks_le is)) (t n)

unmarked-Tidy : (ms : List Message) (n : ℕ) → total_marks ms ≡ 0 → Tidy n ms
unmarked-Tidy [] n h = all_seen n
unmarked-Tidy (m ∷ rest) n h =
    let first : content_marks m.content ≡ 0 = omega arith in
    let others : total_marks rest ≡ 0 = omega arith in
    elim (Option-cases (turn_items m)) [
      | inl other ↦ no_turn n m rest other first (unmarked-Tidy rest n others)
      | inr (is, turn) ↦ unmarked-turn n m rest is turn first (λ k. unmarked-Tidy rest k others)
    ]

total_marks-append :
    (xs ys : List Message) → total_marks (xs ++ ys) ≡ total_marks xs + total_marks ys
total_marks-append [] ys = omega arith
total_marks-append (m ∷ rest) ys = omega (arith, total_marks-append rest ys)

total_marks-reverse : (ms : List Message) → total_marks (reverse ms) ≡ total_marks ms
total_marks-reverse [] = refl
total_marks-reverse (m ∷ rest) =
    ap total_marks (reverse-cons m rest)
    ∙ omega (arith, total_marks-append (reverse rest) (m ∷ []), total_marks-reverse rest)

-- What the marking of tidy messages gives.
inject_prompt_caching-Tidy :
    (ms out : List Message)
    → Tidy 4 (reverse ms)
    → inject_prompt_caching ms ≡ some out
    → Tidy 3 (reverse out)
unfolding inject_prompt_caching
inject_prompt_caching-Tidy ms out t h = elim (Option-cases (inject_from 3 (reverse ms))) [
  | inl fails ↦ let bad = ap reversed (sym fails) ∙ h in ground arith
  | inr (found, from) ↦
      let same : reverse found ≡ out = ap (value_or []) (ap reversed (sym from) ∙ h) in
      subst (Tidy 3) (sym (reverse-reverse found) ∙ ap reverse same)
        (Injects-Tidy 3 (reverse ms) found (injects 3 (reverse ms) found from) t)
]

Reached-Tidy : (ms : List Message) → Reached ms → Tidy 4 (reverse ms)
Reached-Tidy ms (start same h) = unmarked-Tidy (reverse ms) 4 (total_marks-reverse ms ∙ h)
Reached-Tidy ms (next before out answer results r h) =
    let a : Message = record { role = assistant; content = items (fresh answer) } in
    let u : Message = record { role = user; content = items (fresh results) } in
    let t = inject_prompt_caching-Tidy before out (Reached-Tidy before r) h in
    subst (Tidy 4) (sym (reverse-append out (a ∷ u ∷ []))) (
      within 3 u (a ∷ reverse out) (fresh results) refl
        (omega (arith, front-marks_le (fresh results), fresh-marks results))
        (no_turn 3 a (reverse out) refl (fresh-marks answer) t))

-- In every round of a loop that started with no mark, at most three items are marked for the cache
-- after the marking.
pub total_marks-Reached :
    (ms out : List Message) → Reached ms → inject_prompt_caching ms ≡ some out → total_marks out ≤ 3
total_marks-Reached ms out r h =
    let t = inject_prompt_caching-Tidy ms out (Reached-Tidy ms r) h in
    omega (arith, Tidy-total 3 (reverse out) t, total_marks-reverse out)
