-- ===== src/Harness/Memory/Once.antt =====
-- Evidence is stored once, however often it is recorded.
use computer_use_orchestrato.Prelude.{
  ℕ, ◌≤◌, String, ◌<>◌, ◌==◌, ◌≡◌, refl, Bool, true, false, ◌&&◌, Option, none, some, List, [], ◌∷◌,
  arith, find, count_if, count_if-append, truthy, Bool-cases, inl, inr, eq_iff, eq_refl,
}
use computer_use_orchestrato.Json.{Json, str, Fields, get}
use computer_use_orchestrato.Harness.Loop.{Goal, Evidence}
use computer_use_orchestrato.Harness.Memory.{
  MemoryRow, MemoryFile, read_records, same_signature, is_known, new_memory, find_known, add_unless,
  signature_of, add, file_backed, mem0, HarnessMemory, evidence_signature, memory_metadata,
  add_evidence, remember_evidence, remember_with, degrade_to_fallback, Backend,
}

-- How many records of a user have a signature.
abbrev pub stored : String → String → MemoryFile → ℕ
stored user_id signature file = count_if (is_known user_id signature) (read_records file)

module _ {A : Type 0} (p : A → Bool) where
  count_if-absent : (xs : List A) → find p xs ≡ none → count_if p xs ≡ 0
  count_if-absent [] h = refl
  count_if-absent (x ∷ xs) h = ground (arith, count_if-absent xs)

  count_if-found : (xs : List A) (x : A) → find p xs ≡ some x → 1 ≤ count_if p xs
  count_if-found [] x h = cc
  count_if-found (y ∷ ys) x h = ground (arith, count_if-found ys x)

-- A record that is known under a signature carries it.
same_signature-signature_of :
    (signature : String) (v : Option Json)
    → truthy signature ≡ true
    → same_signature signature v ≡ true
    → signature_of v ≡ signature
same_signature-signature_of signature (some (str s)) t h = (eq_iff s signature).0 h
same_signature-signature_of signature _ t h = ground arith

both : (a b : Bool) → a && b ≡ true → (a ≡ true) × (b ≡ true)
both true true h = (refl, refl)
both true false h = ground arith
both false b h = ground arith

find_known-none :
    (user_id signature : String) (rows : List MemoryRow)
    → truthy signature ≡ true
    → find_known user_id signature rows ≡ none
    → count_if (is_known user_id signature) rows ≡ 0
unfolding find_known
find_known-none user_id signature rows t h =
    count_if-absent (is_known user_id signature) rows (rw t at h)

-- The records that a new one of another user or signature does not count with, or none.
find_known-new :
    (user_id signature owner : String) (metadata : Fields) (rows : List MemoryRow)
    → truthy signature ≡ true
    → find_known owner (signature_of (get "memory_signature" metadata)) rows ≡ none
    → (owner == user_id) && same_signature signature (get "memory_signature" metadata) ≡ true
    → count_if (is_known user_id signature) rows ≡ 0
find_known-new user_id signature owner metadata rows t k same =
    let (o, s) = both _ _ same in
    let owned = (eq_iff owner user_id).0 o in
    let signed = same_signature-signature_of signature (get "memory_signature" metadata) t s in
    find_known-none user_id signature rows t (rw (owned, signed) at k)

stored-add_unless :
    (user_id signature : String) (text owner : String) (metadata : Fields) (now : String)
    (file : MemoryFile) (known : Option MemoryRow)
    → truthy signature ≡ true
    → find_known owner (signature_of (get "memory_signature" metadata)) (read_records file) ≡ known
    → stored user_id signature file ≤ 1
    → stored user_id signature (add_unless known text owner metadata now file).0 ≤ 1
unfolding add_unless
stored-add_unless user_id signature text owner metadata now file (some row) t k h = h
stored-add_unless user_id signature text owner metadata now file none t k h =
    let rows = read_records file in
    let row = new_memory text owner metadata now rows in
    let counted = count_if-append (is_known user_id signature) rows (row ∷ []) in
    elim (Bool-cases (is_known user_id signature row)) [
      | inl same ↦
          let none_yet = find_known-new user_id signature owner metadata rows t k same in
          rw (counted, none_yet, same) (omega arith)
      | inr other ↦ rw (counted, other) (omega arith)
    ]

find_known-some :
    (user_id signature : String) (rows : List MemoryRow) (row : MemoryRow)
    → find_known user_id signature rows ≡ some row
    → 1 ≤ count_if (is_known user_id signature) rows
unfolding find_known
find_known-some user_id signature rows row h = elim (Bool-cases (truthy signature)) [
  | inl t ↦ count_if-found (is_known user_id signature) rows row (rw t at h)
  | inr e ↦ let impossible = rw e at h in cc
]

-- A call leaves a record with its own signature in the file.
stored-add_unless_new :
    (owner signature text : String) (metadata : Fields) (now : String) (file : MemoryFile)
    (known : Option MemoryRow)
    → find_known owner signature (read_records file) ≡ known
    → get "memory_signature" metadata ≡ some (str signature)
    → 1 ≤ stored owner signature (add_unless known text owner metadata now file).0
unfolding add_unless
stored-add_unless_new owner signature text metadata now file (some row) k own =
    find_known-some owner signature (read_records file) row k
stored-add_unless_new owner signature text metadata now file none k own =
    let rows = read_records file in
    let row = new_memory text owner metadata now rows in
    let counted = count_if-append (is_known owner signature) rows (row ∷ []) in
    rw (counted, own, eq_refl owner, eq_refl signature) (omega arith)

-- A run of calls, each with what the client raises.
abbrev pub Calls : Type 0
Calls = List (Option String × Goal × Evidence × String)

module _ (dumps : Fields → String) where
  unfoldable pub remember_all : Calls → HarnessMemory → HarnessMemory
  remember_all [] h = h
  remember_all ((failure, g, e, now) ∷ rest) h =
      remember_all rest (remember_evidence dumps failure g e now h)

  stored-add_evidence :
      (user_id signature : String) (g : Goal) (e : Evidence) (now : String) (h : HarnessMemory)
      → truthy signature ≡ true
      → stored user_id signature h.file ≤ 1
      → stored user_id signature (add_evidence dumps g e now h).file ≤ 1
  unfolding add_evidence add
  stored-add_evidence user_id signature g e now h t le =
      stored-add_unless user_id signature _ h.memory_user_id (memory_metadata dumps g e) now h.file
        _ t refl le

  pub stored-remember_with :
      (user_id signature : String) (b : Backend) (failure : Option String) (g : Goal) (e : Evidence)
      (now : String) (h : HarnessMemory)
      → truthy signature ≡ true
      → stored user_id signature h.file ≤ 1
      → stored user_id signature (remember_with dumps b failure g e now h).file ≤ 1
  unfolding remember_with degrade_to_fallback
  stored-remember_with user_id signature file_backed failure g e now h t le =
      stored-add_evidence user_id signature g e now h t le
  stored-remember_with user_id signature mem0 none g e now h t le = le
  stored-remember_with user_id signature mem0 (some reason) g e now h t le =
      stored-add_evidence user_id signature g e now
        (degrade_to_fallback ("mem0 add failed: " <> reason) h) t le

  stored-added :
      (g : Goal) (e : Evidence) (now : String) (h : HarnessMemory)
      → 1
        ≤ stored h.memory_user_id (evidence_signature dumps g e) (add_evidence dumps g e now h).file
  unfolding add_evidence add memory_metadata
  stored-added g e now h =
      stored-add_unless_new h.memory_user_id (evidence_signature dumps g e) _
        (memory_metadata dumps g e) now h.file _ refl refl

  remember_with-stored :
      (b : Backend) (reason : String) (g : Goal) (e : Evidence) (now : String) (h : HarnessMemory)
      → let h' = remember_with dumps b (some reason) g e now h in
        (h.backend ≡ b)
        → (1 ≤ stored h.memory_user_id (evidence_signature dumps g e) h'.file)
          × (h'.backend ≡ file_backed)
  unfolding remember_with degrade_to_fallback add_evidence
  remember_with-stored file_backed reason g e now h b = (stored-added g e now h, b)
  remember_with-stored mem0 reason g e now h b =
      (stored-added g e now (degrade_to_fallback ("mem0 add failed: " <> reason) h), refl)

  -- If the file holds at most one record of a user with a signature, which is not empty, then after
  -- any calls of `record_evidence`, whether the client raises in them or not, it still does.
  stored-remember_all :
      (calls : Calls) (user_id signature : String) (h : HarnessMemory)
      → truthy signature ≡ true
      → stored user_id signature h.file ≤ 1
      → stored user_id signature (remember_all calls h).file ≤ 1
  unfolding remember_all remember_evidence
  stored-remember_all [] user_id signature h t le = le
  stored-remember_all ((failure, g, e, now) ∷ rest) user_id signature h t le =
      stored-remember_all rest user_id signature (remember_evidence dumps failure g e now h) t
        (stored-remember_with user_id signature h.backend failure g e now h t le)

  -- When the client raises, or is not in use, the evidence is in the file afterwards, and the
  -- memory is file-backed from then on.
  remember_evidence-stored :
      (reason : String) (g : Goal) (e : Evidence) (now : String) (h : HarnessMemory)
      → let h' = remember_evidence dumps (some reason) g e now h in
        (1 ≤ stored h.memory_user_id (evidence_signature dumps g e) h'.file)
        × (h'.backend ≡ file_backed)
  unfolding remember_evidence
  remember_evidence-stored reason g e now h = remember_with-stored h.backend reason g e now h refl
