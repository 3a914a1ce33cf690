-- ===== src/Harness/Memory/Search.antt =====
-- harness/memory.py: the search in the memory, and what `recall_related` returns. `lower` is
-- `str.lower` and `dumps` is `json.dumps` with sorted keys. A is the type of what the mem0 client
-- returns for a memory.
pub mod Sorting
pub mod Ranking
use Prim.Native.Char.{Char, code}
use Prim.Native.String.{count}
use computer_use_orchestrato.Prelude.{
  ℕ, zero, suc, String, ◌<>◌, ◌==◌, Bool, true, false, ◌&&◌, ◌||◌, List, [], ◌∷◌, map, select,
  length, take, contains, ltb, leb, nat_eq, if◌then◌else◌, Result, ok, err,
}
use computer_use_orchestrato.Json.{Fields}
use computer_use_orchestrato.Harness.Memory.{
  MemoryRow, MemoryFile, read_records, Backend, file_backed, mem0, HarnessMemory,
  degrade_to_fallback,
}

-- `[a-zA-Z0-9]`
abbrev pub is_word : Char → Bool
is_word c =
    let n = code c in (leb 97 n && leb n 122) || ((leb 65 n && leb n 90) || (leb 48 n && leb n 57))

abbrev pub extend : Char → String × List String → String × List String
extend c (first, rest) = if is_word c then (String.◌∷◌ c first, rest) else ("", first ∷ rest)

-- The runs of word characters, the first of which stands at the start of the text; some are empty.
unfoldable pub runs : String → String × List String
runs String.[] = ("", [])
runs (String.◌∷◌ c s) = extend c (runs s)

abbrev pub distinct : List String → List String
distinct [] = []
distinct (x ∷ xs) = let rest = distinct xs in if contains rest x then rest else x ∷ rest

-- `tokenize` of a text in lower case
unfoldable pub tokens : String → List String
unfolding runs
tokens text =
    let (first, rest) = runs text in distinct (select (λ w. ltb 2 (count w)) (first ∷ rest))

-- `a < b` for texts
unfoldable pub text_ltb : String → String → Bool
text_ltb a String.[] = false
text_ltb String.[] (String.◌∷◌ d t) = true
text_ltb (String.◌∷◌ c s) (String.◌∷◌ d t) =
    let rest = text_ltb s t in
    if ltb (code c) (code d) then true else if ltb (code d) (code c) then false else rest

pub record Scored : Type 0 where
  pub score : ℕ
  pub row : MemoryRow

-- The order of the keys `(-score, created_at)`
unfoldable pub is_before : Scored → Scored → Bool
unfolding text_ltb
is_before a b =
    ltb b.score a.score || (nat_eq a.score b.score && text_ltb a.row.created_at b.row.created_at)

unfoldable pub insert : Scored → List Scored → List Scored
unfolding is_before
insert x [] = x ∷ []
insert x (y ∷ ys) = let rest = insert x ys in if is_before y x then y ∷ rest else x ∷ y ∷ ys

-- `sort` by these keys; equal keys keep their order.
unfoldable pub sort : List Scored → List Scored
unfolding insert
sort [] = []
sort (x ∷ xs) = insert x (sort xs)

abbrev pub row_of : Scored → MemoryRow
row_of s = s.row

-- What the client returns under a key: nothing, a list, or a value that is true and no list.
pub data Value (A : Type 0) : Type 0 where
  nothing other : Value A
  items : List A → Value A

-- What a search returns: a list, a dict with its three keys, or another value.
pub data Answer (A : Type 0) : Type 0 where
  listed : List A → Answer A
  keyed : (results memories data_key : Value A) → Answer A
  unusable : Answer A

module _ {A : Type 0} where
  -- `a or b`
  abbrev pub or_value : Value A → Value A → Value A
  or_value nothing v = v
  or_value (items []) v = v
  or_value (items (x ∷ xs)) v = items (x ∷ xs)
  or_value other v = other

  abbrev pub value_items : Value A → List A
  value_items (items xs) = xs
  value_items nothing = []
  value_items other = []

  -- The end of `recall_related`
  abbrev pub answer_items : ℕ → Answer A → List A
  answer_items limit (listed xs) = take limit xs
  answer_items limit (keyed a b c) = take limit (value_items (or_value (or_value a b) c))
  answer_items limit unusable = []

module _ (lower : String → String) (dumps : Fields → String) where
  abbrev pub haystack : MemoryRow → String
  haystack row = row.text <> (" " <> dumps row.metadata)

  -- The number of tokens that a query shares with a row
  unfoldable pub score_of : String → MemoryRow → ℕ
  unfolding tokens
  score_of query row =
      length (select (contains (tokens (lower (haystack row)))) (tokens (lower query)))

  -- The rows of the user that share a token with the query
  unfoldable pub scored : String → String → List MemoryRow → List Scored
  unfolding score_of
  scored query user_id [] = []
  scored query user_id (row ∷ rows) =
      let rest = scored query user_id rows in
      let score = score_of query row in
      if row.user_id == user_id && ltb 0 score
      then record { score = score; row = row } ∷ rest
      else rest

  -- `FileBackedMemory.search`
  unfoldable pub search : String → String → ℕ → MemoryFile → List MemoryRow
  unfolding sort scored
  search query user_id limit file =
      if nat_eq limit 0
      then []
      else map row_of (take limit (sort (scored query user_id (read_records file))))

  module _ {A : Type 0} (as_item : MemoryRow → A) where
    abbrev pub search_items : String → ℕ → HarnessMemory → Answer A
    search_items goal_text limit h =
        listed (map as_item (search goal_text h.memory_user_id limit h.file))

    unfoldable pub recall_from :
        Backend → Result String (Answer A) → String → ℕ → HarnessMemory → HarnessMemory × List A
    unfolding search degrade_to_fallback
    recall_from file_backed answer goal_text limit h =
        (h, answer_items limit (search_items goal_text limit h))
    recall_from mem0 (ok answer) goal_text limit h = (h, answer_items limit answer)
    recall_from mem0 (err reason) goal_text limit h =
        let h' = degrade_to_fallback ("mem0 search failed: " <> reason) h in
        (h', answer_items limit (search_items goal_text limit h'))

    -- `recall_related`, with what the client answers when it is asked
    unfoldable pub recall :
        Result String (Answer A) → String → ℕ → HarnessMemory → HarnessMemory × List A
    unfolding recall_from
    recall answer goal_text zero h = (h, [])
    recall answer goal_text (suc n) h = recall_from h.backend answer goal_text (suc n) h
