-- ===== src/Sampling/Loop/Shapes.antt =====
-- The tool calls and the results in the messages of computer_use_demo/loop.py, by their ids.
use mathlib.Core.List.{reverse, map-append, reverse-cons, reverse-reverse}
use computer_use_orchestrato.Prelude.{
  ℕ, String, ◌≡◌, refl, sym, ap, ap₂, ◌∙◌, Bool, true, false, some, List, [], ◌∷◌, ◌++◌, map, arith,
  Option-cases, inl, inr,
}
use computer_use_orchestrato.Sampling.{
  Role, user, assistant, Block, text_block, tool_use, tool_result, other_block, ResultContent,
  as_text, parts, Item, Content, plain, items, Message, drop_images, filter_block, filter_items,
  filter_content, filter_messages, filter_to_recent, images_to_remove, total_images,
}
use computer_use_orchestrato.Sampling.Cache.Steps.{
  value_or, mark_last-cons, items_of-some, Injects, stops, passes, clears, marks, injects,
}
use computer_use_orchestrato.Sampling.Cache.{
  mark_last, turn_items, with_items, reversed, inject_from, inject_prompt_caching,
}

-- The id of a tool call in a message of the assistant, and of a result in a message of the user.
abbrev pub block_ids : Role → Block → List String
block_ids assistant (tool_use id name tool_input) = id ∷ []
block_ids user (tool_result id is_error content) = id ∷ []
block_ids role other = []

abbrev pub item_ids : Role → List Item → List String
item_ids role [] = []
item_ids role (i ∷ rest) = block_ids role i.block ++ item_ids role rest

abbrev pub content_ids : Role → Content → List String
content_ids role (plain text) = []
content_ids role (items is) = item_ids role is

abbrev pub Shape : Type 0
Shape = Role × List String

abbrev pub shape : Message → Shape
shape m = (m.role, content_ids m.role m.content)

id_only :
    (role : Role) (id : String) (is_error : Bool) (c d : ResultContent)
    → block_ids role (tool_result id is_error c) ≡ block_ids role (tool_result id is_error d)
id_only user id is_error c d = refl
id_only assistant id is_error c d = refl

filter_block-ids :
    (role : Role) (n : ℕ) (b : Block) → block_ids role (filter_block n b).1 ≡ block_ids role b
unfolding filter_block
filter_block-ids role n (tool_result id is_error (parts ps)) =
    id_only role id is_error (parts (drop_images n ps).1) (parts ps)
filter_block-ids role n (tool_result id is_error (as_text text)) = refl
filter_block-ids role n (text_block text) = refl
filter_block-ids role n (tool_use id name tool_input) = refl
filter_block-ids role n (other_block value) = refl

filter_items-ids :
    (role : Role) (n : ℕ) (is : List Item) → item_ids role (filter_items n is).1 ≡ item_ids role is
unfolding filter_items
filter_items-ids role n [] = refl
filter_items-ids role n (i ∷ rest) =
    ap₂ ◌++◌ (filter_block-ids role n i.block)
      (filter_items-ids role (filter_block n i.block).0 rest)

filter_content-ids :
    (role : Role) (n : ℕ) (c : Content)
    → content_ids role (filter_content n c).1 ≡ content_ids role c
unfolding filter_content
filter_content-ids role n (plain text) = refl
filter_content-ids role n (items is) = filter_items-ids role n is

filter_messages-shapes :
    (n : ℕ) (ms : List Message) → map shape (filter_messages n ms) ≡ map shape ms
unfolding filter_messages
filter_messages-shapes n [] = refl
filter_messages-shapes n (m ∷ rest) =
    ap₂ (λ ids l. (m.role, ids) ∷ l) (filter_content-ids m.role n m.content)
      (filter_messages-shapes (filter_content n m.content).0 rest)

pub filter_to_recent-shapes :
    (ms out : List Message) (keep threshold : ℕ)
    → filter_to_recent ms keep threshold ≡ some out
    → map shape out ≡ map shape ms
unfolding filter_to_recent
filter_to_recent-shapes ms out keep threshold h =
    elim (Option-cases (images_to_remove (total_images ms) keep threshold)) [
      | inl fails ↦ let bad = rw (fails, filter_to_recent) at h in ground arith
      | inr (n, removes) ↦
          let same : some (filter_messages n ms) ≡ some out = rw (removes, filter_to_recent) at h in
          ap (λ o. map shape (value_or [] o)) (sym same) ∙ filter_messages-shapes n ms
    ]

mark_last-ids :
    (role : Role) (mark : Bool) (is out : List Item)
    → mark_last mark is ≡ some out
    → item_ids role out ≡ item_ids role is
mark_last-ids role mark [] out h = unfold mark_last in ground arith
mark_last-ids role mark (i ∷ []) out h =
    let same : some (record i { cached = mark } ∷ []) ≡ some out = (unfold mark_last in h) in
    ap (λ o. item_ids role (value_or [] o)) (sym same)
mark_last-ids role mark (i ∷ j ∷ rest) out h =
    let (marked, is_marked, same) = mark_last-cons mark i j rest out h in
    ap (item_ids role) (sym same)
    ∙ ap (λ ids. block_ids role i.block ++ ids)
        (mark_last-ids role mark (j ∷ rest) marked is_marked)

marked-shape :
    (m : Message) (mark : Bool) (is out : List Item)
    → turn_items m ≡ some is
    → mark_last mark is ≡ some out
    → shape (with_items m out) ≡ shape m
marked-shape m mark is out h k =
    let (role_is, content_is) = items_of-some m.role m.content is h in
    ap (λ ids. (m.role, ids))
      (mark_last-ids m.role mark is out k ∙ ap (content_ids m.role) (sym content_is))

Injects-shapes : (n : ℕ) (ms out : List Message) → Injects n ms out → map shape out ≡ map shape ms
Injects-shapes n ms out (stops k) = refl
Injects-shapes n ms out (passes k m rest more h steps) =
    ap (λ l. shape m ∷ l) (Injects-shapes k rest more steps)
Injects-shapes n ms out (clears m rest is cleared h j) =
    ap (λ x. x ∷ map shape rest) (marked-shape m false is cleared h j)
Injects-shapes n ms out (marks k m rest more is marked h j steps) =
    ap₂ (λ x l. x ∷ l) (marked-shape m true is marked h j) (Injects-shapes k rest more steps)

map-reverse : (ms : List Message) → map shape (reverse ms) ≡ reverse (map shape ms)
map-reverse [] = refl
map-reverse (m ∷ rest) =
    ap (map shape) (reverse-cons m rest)
    ∙ map-append shape (reverse rest) (m ∷ [])
    ∙ ap (λ l. l ++ shape m ∷ []) (map-reverse rest)
    ∙ sym (reverse-cons (shape m) (map shape rest))

pub inject_prompt_caching-shapes :
    (ms out : List Message) → inject_prompt_caching ms ≡ some out → map shape out ≡ map shape ms
unfolding inject_prompt_caching
inject_prompt_caching-shapes ms out h = elim (Option-cases (inject_from 3 (reverse ms))) [
  | inl fails ↦ let bad = ap reversed (sym fails) ∙ h in ground arith
  | inr (found, from) ↦
      let same : some (reverse found) ≡ some out = ap reversed (sym from) ∙ h in
      ap (λ o. map shape (value_or [] o)) (sym same)
      ∙ map-reverse found
      ∙ ap reverse
          (Injects-shapes 3 (reverse ms) found (injects 3 (reverse ms) found from) ∙ map-reverse ms)
      ∙ reverse-reverse (map shape ms)
]
