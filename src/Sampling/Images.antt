-- ===== src/Sampling/Images.antt =====
-- The images that are left in the messages: `_maybe_filter_to_n_most_recent_images` of
-- computer_use_demo/loop.py.
use native.Mathlib.Omega.{div_fact, mod_fact}
use computer_use_orchestrato.Prelude.{
  ℕ, zero, suc, ◌+◌, ◌-◌, ◌*◌, ◌/◌, ◌%◌, ◌≤◌, ◌<◌, String, ◌≡◌, refl, sym, ap, ap₂, ◌∙◌, some, List,
  [], ◌∷◌, ◌++◌, arith, length, length-append, drop, drop_nil, length-drop,
}
use computer_use_orchestrato.Sampling.{
  Part, text_part, image_part, as_text, parts, Block, text_block, tool_use, tool_result,
  other_block, Item, Content, plain, items, Message, count_images, block_images, items_images,
  content_images, total_images, drop_images, filter_block, filter_items, filter_content,
  filter_messages, filter_to_recent, images_to_remove,
}

-- The images of parts, of a block, of items, of a content and of messages, in their order.
abbrev part_images : List Part → List String
part_images [] = []
part_images (text_part text ∷ rest) = part_images rest
part_images (image_part image ∷ rest) = image ∷ part_images rest

abbrev images_of : Block → List String
images_of (tool_result id is_error (parts ps)) = part_images ps
images_of other = []

abbrev item_images : List Item → List String
item_images [] = []
item_images (i ∷ rest) = images_of i.block ++ item_images rest

abbrev images_in : Content → List String
images_in (plain text) = []
images_in (items is) = item_images is

abbrev pub all_images : List Message → List String
all_images [] = []
all_images (m ∷ rest) = images_in m.content ++ all_images rest

-- The same without the images.
abbrev part_texts : List Part → List Part
part_texts [] = []
part_texts (text_part text ∷ rest) = text_part text ∷ part_texts rest
part_texts (image_part image ∷ rest) = part_texts rest

abbrev bare_block : Block → Block
bare_block (tool_result id is_error (parts ps)) = tool_result id is_error (parts (part_texts ps))
bare_block other = other

abbrev bare_items : List Item → List Item
bare_items [] = []
bare_items (i ∷ rest) = record i { block = bare_block i.block } ∷ bare_items rest

abbrev bare_content : Content → Content
bare_content (plain text) = plain text
bare_content (items is) = items (bare_items is)

abbrev pub bare : List Message → List Message
bare [] = []
bare (m ∷ rest) = record m { content = bare_content m.content } ∷ bare rest

drop-over : (n : ℕ) (xs ys : List String) → drop n (xs ++ ys) ≡ drop n xs ++ drop (n - length xs) ys
drop-over n [] ys =
    let same : n ≡ n - 0 = omega arith in
    ap (λ i. drop i ys) same ∙ ap (λ l. l ++ drop (n - 0) ys) (sym (drop_nil n))
drop-over zero (x ∷ xs) ys =
    let same : 0 ≡ 0 - suc (length xs) = omega arith in ap (λ i. x ∷ (xs ++ drop i ys)) same
drop-over (suc n) (x ∷ xs) ys =
    let same : n - length xs ≡ suc n - suc (length xs) = omega arith in
    drop-over n xs ys ∙ ap (λ i. drop n xs ++ drop i ys) same

-- A pass that is to remove the first `n` images: how many are still to be removed behind it, and
-- the images that are left.
record Passed (n more : ℕ) (before after : List String) : Type 0 where
  left : more ≡ n - length before
  images : after ≡ drop n before

drop_images-Passed :
    (n : ℕ) (ps : List Part)
    → Passed n (drop_images n ps).0 (part_images ps) (part_images (drop_images n ps).1)
unfolding drop_images
drop_images-Passed n [] = record { left = omega arith; images = sym (drop_nil n) }
drop_images-Passed n (text_part text ∷ rest) = drop_images-Passed n rest
drop_images-Passed zero (image_part image ∷ rest) =
    let ih = drop_images-Passed zero rest in
    record { left = omega (arith, ih.left); images = ap (λ l. image ∷ l) ih.images }
drop_images-Passed (suc n) (image_part image ∷ rest) =
    let ih = drop_images-Passed n rest in
    record { left = omega (arith, ih.left); images = ih.images }

drop_images-texts : (n : ℕ) (ps : List Part) → part_texts (drop_images n ps).1 ≡ part_texts ps
unfolding drop_images
drop_images-texts n [] = refl
drop_images-texts n (text_part text ∷ rest) =
    ap (λ l. text_part text ∷ l) (drop_images-texts n rest)
drop_images-texts zero (image_part image ∷ rest) = drop_images-texts zero rest
drop_images-texts (suc n) (image_part image ∷ rest) = drop_images-texts n rest

-- Two passes, one behind the other.
Passed-append :
    (n more rest : ℕ) (xs xs' ys ys' : List String)
    → Passed n more xs xs'
    → Passed more rest ys ys'
    → Passed n rest (xs ++ ys) (xs' ++ ys')
Passed-append n more rest xs xs' ys ys' p q = record {
  left = omega (arith, p.left, q.left, length-append xs ys);
  images = ap₂ ◌++◌ p.images (q.images ∙ ap (λ i. drop i ys) p.left) ∙ sym (drop-over n xs ys);
}

untouched : (n : ℕ) → Passed n n [] []
untouched n = record { left = omega arith; images = sym (drop_nil n) }

filter_block-Passed :
    (n : ℕ) (b : Block)
    → Passed n (filter_block n b).0 (images_of b) (images_of (filter_block n b).1)
unfolding filter_block
filter_block-Passed n (tool_result id is_error (parts ps)) = drop_images-Passed n ps
filter_block-Passed n (tool_result id is_error (as_text text)) = untouched n
filter_block-Passed n (text_block text) = untouched n
filter_block-Passed n (tool_use id name tool_input) = untouched n
filter_block-Passed n (other_block value) = untouched n

filter_items-Passed :
    (n : ℕ) (is : List Item)
    → Passed n (filter_items n is).0 (item_images is) (item_images (filter_items n is).1)
unfolding filter_items
filter_items-Passed n [] = untouched n
filter_items-Passed n (i ∷ rest) =
    let first = filter_block n i.block in
    Passed-append n first.0 (filter_items first.0 rest).0 (images_of i.block) (images_of first.1)
      (item_images rest) (item_images (filter_items first.0 rest).1) (filter_block-Passed n i.block)
      (filter_items-Passed first.0 rest)

filter_content-Passed :
    (n : ℕ) (c : Content)
    → Passed n (filter_content n c).0 (images_in c) (images_in (filter_content n c).1)
unfolding filter_content
filter_content-Passed n (plain text) = untouched n
filter_content-Passed n (items is) = filter_items-Passed n is

filter_messages-images :
    (n : ℕ) (ms : List Message) → all_images (filter_messages n ms) ≡ drop n (all_images ms)
unfolding filter_messages
filter_messages-images n [] = sym (drop_nil n)
filter_messages-images n (m ∷ rest) =
    let first = filter_content n m.content in
    let p = filter_content-Passed n m.content in
    ap₂ ◌++◌ p.images
      (filter_messages-images first.0 rest ∙ ap (λ i. drop i (all_images rest)) p.left)
    ∙ sym (drop-over n (images_in m.content) (all_images rest))

filter_block-bare : (n : ℕ) (b : Block) → bare_block (filter_block n b).1 ≡ bare_block b
unfolding filter_block
filter_block-bare n (tool_result id is_error (parts ps)) =
    ap (λ l. tool_result id is_error (parts l)) (drop_images-texts n ps)
filter_block-bare n (tool_result id is_error (as_text text)) = refl
filter_block-bare n (text_block text) = refl
filter_block-bare n (tool_use id name tool_input) = refl
filter_block-bare n (other_block value) = refl

filter_items-bare : (n : ℕ) (is : List Item) → bare_items (filter_items n is).1 ≡ bare_items is
unfolding filter_items
filter_items-bare n [] = refl
filter_items-bare n (i ∷ rest) =
    ap₂ (λ b l. record i { block = b } ∷ l) (filter_block-bare n i.block)
      (filter_items-bare (filter_block n i.block).0 rest)

filter_content-bare : (n : ℕ) (c : Content) → bare_content (filter_content n c).1 ≡ bare_content c
unfolding filter_content
filter_content-bare n (plain text) = refl
filter_content-bare n (items is) = ap items (filter_items-bare n is)

filter_messages-bare : (n : ℕ) (ms : List Message) → bare (filter_messages n ms) ≡ bare ms
unfolding filter_messages
filter_messages-bare n [] = refl
filter_messages-bare n (m ∷ rest) =
    ap₂ (λ c l. record m { content = c } ∷ l) (filter_content-bare n m.content)
      (filter_messages-bare (filter_content n m.content).0 rest)

part_images-count : (ps : List Part) → length (part_images ps) ≡ count_images ps
unfolding count_images
part_images-count [] = refl
part_images-count (text_part text ∷ rest) = part_images-count rest
part_images-count (image_part image ∷ rest) = ap suc (part_images-count rest)

block-count : (b : Block) → length (images_of b) ≡ block_images b
block-count (tool_result id is_error (parts ps)) = part_images-count ps
block-count (tool_result id is_error (as_text text)) = refl
block-count (text_block text) = refl
block-count (tool_use id name tool_input) = refl
block-count (other_block value) = refl

items-count : (is : List Item) → length (item_images is) ≡ items_images is
unfolding items_images
items-count [] = refl
items-count (i ∷ rest) = omega (
  arith,
  length-append (images_of i.block) (item_images rest),
  block-count i.block,
  items-count rest,
)

content-count : (c : Content) → length (images_in c) ≡ content_images c
unfolding content_images
content-count (plain text) = refl
content-count (items is) = items-count is

total-count : (ms : List Message) → length (all_images ms) ≡ total_images ms
unfolding total_images
total-count [] = refl
total-count (m ∷ rest) = omega (
  arith,
  length-append (images_in m.content) (all_images rest),
  content-count m.content,
  total-count rest,
)

-- For a threshold above 0 the filter returns. It removes the oldest images and nothing else: a
-- multiple of the threshold, and no more than there are above the number to keep; fewer than the
-- threshold are left above that number.
pub filter_to_recent-images :
    (ms : List Message) (keep threshold : ℕ)
    → 0 < threshold
    → (out : List Message) × (chunks : ℕ) × (filter_to_recent ms keep threshold ≡ some out)
      × (bare out ≡ bare ms)
      × (all_images out ≡ drop (threshold * chunks) (all_images ms))
      × (threshold * chunks ≤ length (all_images ms) - keep)
      × (length (all_images out) < keep + threshold)
unfolding filter_to_recent images_to_remove
filter_to_recent-images ms keep zero pos = absurd (omega arith)
filter_to_recent-images ms keep (suc t) pos =
    let d = total_images ms - keep in
    let n = d - d % suc t in
    let chunks = d / suc t in
    let removed : n ≡ suc t * chunks = omega (arith, div_fact d t) in
    let images = filter_messages-images n ms in
    let size : length (all_images (filter_messages n ms)) ≡ length (all_images ms) - n =
      ap length images ∙ length-drop n (all_images ms) in
    (
      filter_messages n ms,
      chunks,
      refl,
      filter_messages-bare n ms,
      images ∙ ap (λ i. drop i (all_images ms)) removed,
      omega (arith, removed, total-count ms),
      omega (arith, size, mod_fact d t, total-count ms),
    )
