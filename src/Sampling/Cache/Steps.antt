-- ===== src/Sampling/Cache/Steps.antt =====
-- The steps of the loop of `_inject_prompt_caching` in computer_use_demo/loop.py.
use computer_use_orchestrato.Prelude.{
  ℕ, zero, suc, ◌≡◌, refl, sym, ap, subst, ◌∙◌, Bool, true, false, Option, none, some, List, [],
  ◌∷◌, arith, Option-cases, inl, inr,
}
use computer_use_orchestrato.Sampling.{Role, user, assistant, Item, Content, plain, items, Message}
use computer_use_orchestrato.Sampling.Cache.{
  mark_last, turn_items, with_items, cons_some, items_of, inject_from,
}

abbrev pub value_or {ℓ} : {A : Type ℓ} → A → Option A → A
value_or default none = default
value_or default (some a) = a

pub mark_last-cons :
    (mark : Bool) (i j : Item) (rest out : List Item)
    → mark_last mark (i ∷ j ∷ rest) ≡ some out
    → (marked : List Item) × (mark_last mark (j ∷ rest) ≡ some marked) × (i ∷ marked ≡ out)
unfolding mark_last
mark_last-cons mark i j rest out h = elim (Option-cases (mark_last mark (j ∷ rest))) [
  | inl fails ↦ let bad = rw (fails, mark_last) at h in ground arith
  | inr (marked, marks) ↦
      let same : some (i ∷ marked) ≡ some out = rw (marks, mark_last) at h in
      (marked, marks, ap (value_or []) same)
]

pub items_of-some :
    (role : Role) (c : Content) (is : List Item)
    → items_of role c ≡ some is
    → (role ≡ user) × (c ≡ items is)
items_of-some user (items js) is h = (refl, ap (λ o. items (value_or [] o)) h)
items_of-some user (plain text) is h = ground arith
items_of-some assistant c is h = ground arith

cons_some-some :
    (m : Message) (o : Option (List Message)) (out : List Message)
    → cons_some m o ≡ some out
    → (rest : List Message) × (o ≡ some rest) × (m ∷ rest ≡ out)
cons_some-some m none out h = ground arith
cons_some-some m (some rest) out h = (rest, refl, ap (value_or []) h)

-- What the loop does with the messages: it is through; it passes over a message; it clears the last
-- item of a message and stops; it marks the last item of a message.
pub data Injects : ℕ → List Message → List Message → Type 0 where
  stops : (n : ℕ) → Injects n [] []
  passes :
      (n : ℕ) (m : Message) (rest more : List Message)
      → turn_items m ≡ none
      → Injects n rest more
      → Injects n (m ∷ rest) (m ∷ more)
  clears :
      (m : Message) (rest : List Message) (is cleared : List Item)
      → turn_items m ≡ some is
      → mark_last false is ≡ some cleared
      → Injects zero (m ∷ rest) (with_items m cleared ∷ rest)
  marks :
      (n : ℕ) (m : Message) (rest more : List Message) (is marked : List Item)
      → turn_items m ≡ some is
      → mark_last true is ≡ some marked
      → Injects n rest more
      → Injects (suc n) (m ∷ rest) (with_items m marked ∷ more)

inject_from-pass :
    (n : ℕ) (m : Message) (rest : List Message)
    → turn_items m ≡ none
    → inject_from n (m ∷ rest) ≡ cons_some m (inject_from n rest)
unfolding inject_from
inject_from-pass zero m rest h = rw (h, inject_from)
inject_from-pass (suc n) m rest h = rw (h, inject_from)

-- What the loop does with the items of a message.
abbrev cleared_turn : Message → List Message → Option (List Item) → Option (List Message)
cleared_turn m rest none = none
cleared_turn m rest (some cleared) = some (with_items m cleared ∷ rest)

abbrev marked_turn : Message → Option (List Message) → Option (List Item) → Option (List Message)
marked_turn m rest none = none
marked_turn m rest (some marked) = cons_some (with_items m marked) rest

inject_from-zero :
    (m : Message) (rest : List Message) (is : List Item)
    → turn_items m ≡ some is
    → inject_from zero (m ∷ rest) ≡ cleared_turn m rest (mark_last false is)
unfolding inject_from
inject_from-zero m rest is h = elim (Option-cases (mark_last false is)) [
  | inl fails ↦ rw (h, fails, inject_from)
  | inr (cleared, clear) ↦ rw (h, clear, inject_from)
]

inject_from-suc :
    (n : ℕ) (m : Message) (rest : List Message) (is : List Item)
    → turn_items m ≡ some is
    → inject_from (suc n) (m ∷ rest) ≡ marked_turn m (inject_from n rest) (mark_last true is)
unfolding inject_from
inject_from-suc n m rest is h = elim (Option-cases (mark_last true is)) [
  | inl fails ↦ rw (h, fails, inject_from)
  | inr (marked, mark) ↦ rw (h, mark, inject_from)
]

-- The messages that the loop leaves are those of its steps.
pub injects : (n : ℕ) (ms out : List Message) → inject_from n ms ≡ some out → Injects n ms out
injects n [] out h =
    let same : some [] ≡ some out = unfold inject_from in h in
    subst (Injects n []) (ap (value_or []) same) (stops n)
injects zero (m ∷ rest) out h = elim (Option-cases (turn_items m)) [
  | inl other ↦
      let (more, from, same) =
        cons_some-some m _ out (sym (inject_from-pass zero m rest other) ∙ h) in
      subst (Injects zero (m ∷ rest)) same
        (passes zero m rest more other (injects zero rest more from))
  | inr (is, turn) ↦
      let whole = sym (inject_from-zero m rest is turn) ∙ h in
      elim (Option-cases (mark_last false is)) [
        | inl fails ↦ let bad = rw fails at whole in ground arith
        | inr (cleared, clear) ↦
            let same : some (with_items m cleared ∷ rest) ≡ some out = rw clear at whole in
            subst (Injects zero (m ∷ rest)) (ap (value_or []) same)
              (clears m rest is cleared turn clear)
      ]
]
injects (suc n) (m ∷ rest) out h = elim (Option-cases (turn_items m)) [
  | inl other ↦
      let (more, from, same) =
        cons_some-some m _ out (sym (inject_from-pass (suc n) m rest other) ∙ h) in
      subst (Injects (suc n) (m ∷ rest)) same
        (passes (suc n) m rest more other (injects (suc n) rest more from))
  | inr (is, turn) ↦
      let whole = sym (inject_from-suc n m rest is turn) ∙ h in
      elim (Option-cases (mark_last true is)) [
        | inl fails ↦ let bad = rw fails at whole in ground arith
        | inr (marked, mark) ↦
            let cons : cons_some (with_items m marked) (inject_from n rest) ≡ some out =
              rw mark at whole in
            let (more, from, same) = cons_some-some (with_items m marked) _ out cons in
            subst (Injects (suc n) (m ∷ rest)) same
              (marks n m rest more is marked turn mark (injects n rest more from))
      ]
]
