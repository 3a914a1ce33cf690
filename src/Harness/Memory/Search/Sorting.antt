-- ===== src/Harness/Memory/Search/Sorting.antt =====
-- The sort of harness/memory.py: its order, what it keeps, and its stability.
use mathlib.Core.List.{Perm}
use mathlib.Core.List.Perm
use computer_use_orchestrato.Prelude.{
  ap, ◌∙◌, ◌==◌, eq_iff, Bool, ◌&&◌, nat_eq, if◌then◌else◌, select, ℕ, String, ◌≡◌, refl, true,
  false, Bool-cases, List, [], ◌∷◌, arith, inl, inr,
}
use computer_use_orchestrato.Harness.Memory.Search.{text_ltb, Scored, is_before, insert, sort}

text_ltb_asym : (a b : String) → text_ltb a b ≡ true → text_ltb b a ≡ false
unfolding text_ltb
text_ltb_asym String.[] String.[] h = refl
text_ltb_asym String.[] (String.◌∷◌ d t) h = refl
text_ltb_asym (String.◌∷◌ c s) String.[] h = absurd (ground arith)
text_ltb_asym (String.◌∷◌ c s) (String.◌∷◌ d t) h = ground (arith, text_ltb_asym s t)

is_before_asym : (a b : Scored) → is_before a b ≡ true → is_before b a ≡ false
unfolding is_before
is_before_asym a b h = ground (arith, text_ltb_asym a.row.created_at b.row.created_at)

-- No neighbour has to go before the other: a higher score comes first, and of equal scores the
-- earlier time.
abbrev pub IsSorted : List Scored → Type 0
IsSorted [] = Unit
IsSorted (x ∷ []) = Unit
IsSorted (x ∷ y ∷ rest) = (is_before y x ≡ false) × IsSorted (y ∷ rest)

IsSorted-insert :
    (x y : Scored) (ys : List Scored)
    → IsSorted (y ∷ ys)
    → is_before x y ≡ false
    → IsSorted (y ∷ insert x ys)
unfolding insert
IsSorted-insert x y [] h after = (after, tt)
IsSorted-insert x y (z ∷ zs) (first, h) after = elim (Bool-cases (is_before z x)) [
  | inl earlier ↦
      rw (earlier, insert) (first, IsSorted-insert x z zs h (is_before_asym z x earlier))
  | inr later ↦ rw (later, insert) (after, (later, h))
]

insert-IsSorted : (x : Scored) (xs : List Scored) → IsSorted xs → IsSorted (insert x xs)
unfolding insert
insert-IsSorted x [] h = tt
insert-IsSorted x (y ∷ ys) h = elim (Bool-cases (is_before y x)) [
  | inl earlier ↦ rw (earlier, insert) (IsSorted-insert x y ys h (is_before_asym y x earlier))
  | inr later ↦ rw (later, insert) (later, h)
]

insert-perm : (x : Scored) (xs : List Scored) → Perm (insert x xs) (x ∷ xs)
unfolding insert
insert-perm x [] = Perm.rfl
insert-perm x (y ∷ ys) = elim (Bool-cases (is_before y x)) [
  | inl earlier ↦
      rw (earlier, insert) (Perm.trans (Perm.cons y (insert-perm x ys)) (Perm.swap x y ys))
  | inr later ↦ rw (later, insert) Perm.rfl
]

pub sort-IsSorted : (xs : List Scored) → IsSorted (sort xs)
unfolding sort
sort-IsSorted [] = tt
sort-IsSorted (x ∷ xs) = insert-IsSorted x (sort xs) (sort-IsSorted xs)

pub sort-perm : (xs : List Scored) → Perm (sort xs) xs
unfolding sort
sort-perm [] = Perm.rfl
sort-perm (x ∷ xs) = Perm.trans (insert-perm x (sort xs)) (Perm.cons x (sort-perm xs))

-- Equal keys keep their order: an element goes past another only if that one's key is less.
abbrev pub has_key : ℕ → String → Scored → Bool
has_key n time s = nat_eq s.score n && s.row.created_at == time

text_ltb_irrefl : (a : String) → text_ltb a a ≡ false
text_ltb_irrefl a = elim (Bool-cases (text_ltb a a)) [
  | inl less ↦ text_ltb_asym a a less
  | inr same ↦ same
]

has_key-score : (n : ℕ) (time : String) (s : Scored) → has_key n time s ≡ true → s.score ≡ n
has_key-score n time s h = ground arith

has_key-time :
    (n : ℕ) (time : String) (s : Scored) → has_key n time s ≡ true → s.row.created_at ≡ time
has_key-time n time s h = ground (arith, eq_iff s.row.created_at time)

keys_differ :
    (n : ℕ) (time : String) (x y : Scored)
    → is_before y x ≡ true
    → has_key n time y ≡ true
    → has_key n time x ≡ false
unfolding is_before
keys_differ n time x y before hy = elim (Bool-cases (has_key n time x)) [
  | inl hx ↦
      let same : text_ltb y.row.created_at x.row.created_at ≡ false =
        rw (has_key-time n time y hy, has_key-time n time x hx) (text_ltb_irrefl time) in
      absurd (ground (arith, has_key-score n time x hx, has_key-score n time y hy))
  | inr other ↦ other
]

select-insert :
    (n : ℕ) (time : String) (x : Scored) (xs : List Scored)
    → select (has_key n time) (insert x xs) ≡ select (has_key n time) (x ∷ xs)
unfolding insert
select-insert n time x [] = refl
select-insert n time x (y ∷ ys) = elim (Bool-cases (is_before y x)) [
  | inl earlier ↦ elim (Bool-cases (has_key n time y)) [
    | inl hy ↦
        rw (earlier, insert)
          (rw (hy, keys_differ n time x y earlier hy)
            (ap (λ l. y ∷ l)
              (select-insert n time x ys ∙ rw (keys_differ n time x y earlier hy) refl)))
    | inr other ↦ rw (earlier, insert) (rw other (select-insert n time x ys))
  ]
  | inr later ↦ rw (later, insert) refl
]

pub select-sort :
    (n : ℕ) (time : String) (xs : List Scored)
    → select (has_key n time) (sort xs) ≡ select (has_key n time) xs
unfolding sort
select-sort n time [] = refl
select-sort n time (x ∷ xs) =
    select-insert n time x (sort xs)
    ∙ ap (λ l. if has_key n time x then x ∷ l else l) (select-sort n time xs)
