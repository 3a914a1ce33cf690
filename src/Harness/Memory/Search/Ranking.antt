-- ===== src/Harness/Memory/Search/Ranking.antt =====
-- The order of what a search of harness/memory.py returns.
use mathlib.Core.List.{Perm}
use mathlib.Core.List.Perm
use computer_use_orchestrato.Prelude.{
  sym, ap, ◌∙◌, subst, ◌==◌, Bool, ◌&&◌, ◌||◌, ◌⊎◌, nat_eq, ltb, if◌then◌else◌, select, count_if,
  contains, length-select, ℕ, zero, suc, ◌≤◌, ◌<◌, String, ◌≡◌, refl, true, false, Bool-cases,
  Option, none, some, List, [], ◌∷◌, map, take, length, length-take_le, ◌<>◌, arith, inl, inr,
  Result, ok, err,
}
use computer_use_orchestrato.Json.{Fields}
use computer_use_orchestrato.Harness.Memory.{
  MemoryRow, MemoryFile, read_records, Backend, file_backed, mem0, HarnessMemory, recall_related,
  recall_with, degrade_to_fallback,
}
use computer_use_orchestrato.Harness.Memory.Search.{
  tokens, haystack, score_of, text_ltb, Scored, is_before, insert, sort, row_of, scored, search,
  Answer, listed, keyed, unusable, or_value, value_items, answer_items, search_items, recall,
  recall_from,
}
use computer_use_orchestrato.Harness.Memory.Search.Sorting.{
  IsSorted, has_key, sort-IsSorted, sort-perm, select-sort,
}

not_before :
    (m n : ℕ) (b : Bool) → ltb m n || (nat_eq n m && b) ≡ false → (n < m) ⊎ ((n ≡ m) × (b ≡ false))
not_before m n b h = elim (Bool-cases (nat_eq n m)) [
  | inl same ↦ inr (ground arith, ground arith)
  | inr differ ↦ inl (ground arith)
]

not_zero : (n : ℕ) → nat_eq (suc n) 0 ≡ false
not_zero n = ground arith

map-take : (n : ℕ) (xs : List Scored) → map row_of (take n xs) ≡ take n (map row_of xs)
map-take zero xs = refl
map-take (suc n) [] = refl
map-take (suc n) (x ∷ xs) = ap (λ l. x.row ∷ l) (map-take n xs)

taken :
    (limit : ℕ) (xs : List Scored)
    → (if nat_eq limit 0 then [] else map row_of (take limit xs)) ≡ take limit (map row_of xs)
taken zero xs = refl
taken (suc n) xs = rw (not_zero n) (map-take (suc n) xs)

module _ (lower : String → String) (dumps : Fields → String) (query : String) where
  -- The tokens of the query that the row has in its text or its metadata
  abbrev pub shared : MemoryRow → ℕ
  shared row =
      count_if (λ w. contains (tokens (lower (row.text <> (" " <> dumps row.metadata)))) w)
        (tokens (lower query))

  -- The rows of the user that share a token with the query, in the order of the file
  abbrev pub matching : String → List MemoryRow → List MemoryRow
  matching user_id rows = select (λ row. row.user_id == user_id && ltb 0 (shared row)) rows

  abbrev pub has_shared : ℕ → String → MemoryRow → Bool
  has_shared n time row = nat_eq (shared row) n && row.created_at == time

  -- Of neighbours the first shares more tokens, or as many and was not created later.
  abbrev pub IsRanked : List MemoryRow → Type 0
  IsRanked [] = Unit
  IsRanked (x ∷ []) = Unit
  IsRanked (x ∷ y ∷ rest) =
      ((shared y < shared x)
        ⊎ ((shared y ≡ shared x) × (text_ltb y.created_at x.created_at ≡ false)))
      × IsRanked (y ∷ rest)

  -- Every score is the number of tokens that its row shares.
  abbrev IsScored : List Scored → Type 0
  IsScored [] = Unit
  IsScored (s ∷ rest) = (s.score ≡ shared s.row) × IsScored rest

  insert-IsScored :
      (x : Scored) (xs : List Scored)
      → x.score ≡ shared x.row
      → IsScored xs
      → IsScored (insert x xs)
  unfolding insert
  insert-IsScored x [] e h = (e, tt)
  insert-IsScored x (y ∷ ys) e (hy, h) = elim (Bool-cases (is_before y x)) [
    | inl earlier ↦ rw (earlier, insert) (hy, insert-IsScored x ys e h)
    | inr later ↦ rw (later, insert) (e, (hy, h))
  ]

  sort-IsScored : (xs : List Scored) → IsScored xs → IsScored (sort xs)
  unfolding sort
  sort-IsScored [] h = tt
  sort-IsScored (x ∷ xs) (e, h) = insert-IsScored x (sort xs) e (sort-IsScored xs h)

  score_of-shared : (row : MemoryRow) → score_of lower dumps query row ≡ shared row
  unfolding score_of
  score_of-shared row =
      length-select (contains (tokens (lower (haystack lower dumps row)))) (tokens (lower query))

  scored-IsScored :
      (user_id : String) (rows : List MemoryRow) → IsScored (scored lower dumps query user_id rows)
  unfolding scored
  scored-IsScored user_id [] = tt
  scored-IsScored user_id (row ∷ rows) =
      elim (Bool-cases (row.user_id == user_id && ltb 0 (score_of lower dumps query row))) [
        | inl kept ↦ rw (kept, scored) (score_of-shared row, scored-IsScored user_id rows)
        | inr left ↦ rw (left, scored) (scored-IsScored user_id rows)
      ]

  scored-matching :
      (user_id : String) (rows : List MemoryRow)
      → map row_of (scored lower dumps query user_id rows) ≡ matching user_id rows
  unfolding scored
  scored-matching user_id [] = refl
  scored-matching user_id (row ∷ rows) =
      elim (Bool-cases (row.user_id == user_id && ltb 0 (shared row))) [
        | inl kept ↦
            rw (score_of-shared row, kept) (ap (λ l. row ∷ l) (scored-matching user_id rows))
        | inr left ↦ rw (score_of-shared row, left) (scored-matching user_id rows)
      ]

  rows-IsRanked : (xs : List Scored) → IsSorted xs → IsScored xs → IsRanked (map row_of xs)
  unfolding is_before
  rows-IsRanked [] h e = tt
  rows-IsRanked (x ∷ []) h e = tt
  rows-IsRanked (x ∷ y ∷ rest) (h, hs) (ex, (ey, es)) = (
    not_before (shared x.row) (shared y.row) _ (rw (sym ex, sym ey) h),
    rows-IsRanked (y ∷ rest) hs (ey, es),
  )

  select-rows :
      (n : ℕ) (time : String) (xs : List Scored)
      → IsScored xs
      → select (has_shared n time) (map row_of xs) ≡ map row_of (select (has_key n time) xs)
  select-rows n time [] e = refl
  select-rows n time (x ∷ xs) (e, es) = elim (Bool-cases (has_key n time x)) [
    | inl hx ↦
        let there : has_shared n time x.row ≡ true = rw (sym e) hx in
        rw (hx, there) (ap (λ l. x.row ∷ l) (select-rows n time xs es))
    | inr no_key ↦
        let missing : has_shared n time x.row ≡ false = rw (sym e) no_key in
        rw (no_key, missing) (select-rows n time xs es)
  ]

module _ (lower : String → String) (dumps : Fields → String) where
  -- A search returns the first rows, up to the limit, of a ranking of the user's rows that share a
  -- token with the query in their text or metadata: the ranking lists each of them as often as the
  -- file does; a row that shares more tokens comes before one that shares fewer, and of those that
  -- share equally many the earlier first; and rows that share equally many and are of one time
  -- keep the order of the file.
  pub search-IsRanked :
      (query user_id : String) (limit : ℕ) (file : MemoryFile)
      → (ranking : List MemoryRow) × (search lower dumps query user_id limit file
          ≡ take limit ranking)
        × Perm ranking (matching lower dumps query user_id (read_records file))
        × IsRanked lower dumps query ranking
        × ((n : ℕ) (time : String)
            → select (has_shared lower dumps query n time) ranking
              ≡ select
                  (has_shared lower dumps query n time)
                  (matching lower dumps query user_id (read_records file)))
  unfolding search
  search-IsRanked query user_id limit file =
      let found = scored lower dumps query user_id (read_records file) in
      let tagged = scored-IsScored lower dumps query user_id (read_records file) in
      let tagged_sort = sort-IsScored lower dumps query found tagged in
      let rows = scored-matching lower dumps query user_id (read_records file) in
      (
        map row_of (sort found),
        taken limit (sort found),
        subst (Perm (map row_of (sort found))) rows (Perm.map row_of (sort-perm found)),
        rows-IsRanked lower dumps query (sort found) (sort-IsSorted found) tagged_sort,
        λ n time.
            select-rows lower dumps query n time (sort found) tagged_sort
            ∙ ap (map row_of) (select-sort n time found)
            ∙ sym (select-rows lower dumps query n time found tagged)
            ∙ ap (select (has_shared lower dumps query n time)) rows,
      )

-- What the client raises when it is asked.
abbrev pub failure_of : {A : Type 0} → Result String (Answer A) → Option String
failure_of (ok _) = none
failure_of (err reason) = some reason

module _ {A : Type 0} where
  length-answer_items : (limit : ℕ) (answer : Answer A) → length (answer_items limit answer) ≤ limit
  length-answer_items limit (listed xs) = length-take_le limit xs
  length-answer_items limit (keyed a b c) =
      length-take_le limit (value_items (or_value (or_value a b) c))
  length-answer_items limit unusable = omega arith

module _ (lower : String → String) (dumps : Fields → String) {A : Type 0}
    (as_item : MemoryRow → A) where
  abbrev Recalled : Option String → ℕ → HarnessMemory → HarnessMemory × List A → Type 0
  Recalled failure limit h r = (r.0 ≡ recall_related failure limit h) × (length r.1 ≤ limit)

  recall_from-Recalled :
      (b : Backend) (answer : Result String (Answer A)) (goal_text : String) (n : ℕ)
      (h : HarnessMemory)
      → let r = recall_from lower dumps as_item b answer goal_text (suc n) h in
        (r.0 ≡ recall_with b (failure_of answer) h) × (length r.1 ≤ suc n)
  unfolding recall_from recall_with
  recall_from-Recalled file_backed answer goal_text n h =
      (refl, length-answer_items (suc n) (search_items lower dumps as_item goal_text (suc n) h))
  recall_from-Recalled mem0 (ok answer) goal_text n h = (refl, length-answer_items (suc n) answer)
  recall_from-Recalled mem0 (err reason) goal_text n h =
      let h' = degrade_to_fallback ("mem0 search failed: " <> reason) h in
      (refl, length-answer_items (suc n) (search_items lower dumps as_item goal_text (suc n) h'))

  -- `recall_related` returns no more memories than it is asked for, whatever the client answers, and
  -- what it does to the memory depends on the client only by whether it raises, and with what text.
  pub recall-recall_related :
      (answer : Result String (Answer A)) (goal_text : String) (limit : ℕ) (h : HarnessMemory)
      → Recalled (failure_of answer) limit h (recall lower dumps as_item answer goal_text limit h)
  unfolding recall recall_related
  recall-recall_related answer goal_text zero h = (refl, omega arith)
  recall-recall_related answer goal_text (suc n) h =
      recall_from-Recalled h.backend answer goal_text n h
