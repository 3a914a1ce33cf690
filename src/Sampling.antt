-- ===== src/Sampling.antt =====
-- computer_use_demo/loop.py: the messages of the sampling loop, with their images and cache marks.
pub mod Images
pub mod Cache
pub mod Loop
mod Samples
use computer_use_orchestrato.Prelude.{
  ℕ, zero, suc, ◌+◌, ◌-◌, ◌%◌, String, ◌<>◌, Bool, true, false, Option, none, some, List, [], ◌∷◌,
  ◌++◌, truthy, if◌then◌else◌,
}
use computer_use_orchestrato.Json.{Json, Fields}
use computer_use_orchestrato.Tools.Base.{ToolResult, filled}

pub data Provider : Type 0 where
  anthropic bedrock vertex : Provider

pub data Role : Type 0 where
  user assistant : Role

pub data Part : Type 0 where
  text_part image_part : String → Part

-- The content of a tool result: a text where it is an error, else parts.
pub data ResultContent : Type 0 where
  as_text : String → ResultContent
  parts : List Part → ResultContent

pub data Block : Type 0 where
  text_block : String → Block
  tool_use : String → String → Fields → Block
  tool_result : String → Bool → ResultContent → Block
  other_block : Json → Block

-- A block, and whether it has a `cache_control`.
pub record Item : Type 0 where
  pub block : Block
  pub cached : Bool

pub data Content : Type 0 where
  plain : String → Content
  items : List Item → Content

pub record Message : Type 0 where
  pub role : Role
  pub content : Content

-- `_maybe_prepend_system_tool_result`
unfoldable pub prepend_system : ToolResult → String → String
prepend_system r text = elim r.system [
  | none ↦ text
  | some system ↦ if truthy system then "<system>" <> (system <> ("</system>\n" <> text)) else text
]

abbrev text_of : Option String → String
text_of none = ""
text_of (some s) = s

-- `_make_api_tool_result`
unfoldable pub make_api_tool_result : ToolResult → String → Block
make_api_tool_result r tool_use_id =
    let texts =
      if filled r.output then text_part (prepend_system r (text_of r.output)) ∷ [] else [] in
    let images = if filled r.base64_image then image_part (text_of r.base64_image) ∷ [] else [] in
    if filled r.error
    then tool_result tool_use_id true (as_text (prepend_system r (text_of r.error)))
    else tool_result tool_use_id false (parts (texts ++ images))

-- `_response_to_params`: an empty text is left out.
unfoldable pub response_to_params : List Block → List Block
response_to_params [] = []
response_to_params (text_block text ∷ blocks) =
    let rest = response_to_params blocks in if truthy text then text_block text ∷ rest else rest
response_to_params (block ∷ blocks) = block ∷ response_to_params blocks

-- Blocks with no `cache_control`.
abbrev pub fresh : List Block → List Item
fresh [] = []
fresh (b ∷ blocks) = record { block = b; cached = false } ∷ fresh blocks

-- The images among parts.
unfoldable pub count_images : List Part → ℕ
count_images [] = 0
count_images (text_part text ∷ rest) = count_images rest
count_images (image_part image ∷ rest) = suc (count_images rest)

abbrev pub block_images : Block → ℕ
block_images (tool_result id is_error (parts ps)) = count_images ps
block_images other = 0

unfoldable pub items_images : List Item → ℕ
items_images [] = 0
items_images (i ∷ rest) = block_images i.block + items_images rest

unfoldable pub content_images : Content → ℕ
content_images (plain text) = 0
content_images (items is) = items_images is

-- `total_images`
unfoldable pub total_images : List Message → ℕ
total_images [] = 0
total_images (m ∷ rest) = content_images m.content + total_images rest

-- `images_to_remove`, where a difference below 0 is 0; `none` where `% 0` raises.
unfoldable pub images_to_remove : ℕ → ℕ → ℕ → Option ℕ
images_to_remove total keep zero = none
images_to_remove total keep (suc t) = some ((total - keep) - (total - keep) % suc t)

-- The parts without the first images, and how many are still to be removed.
unfoldable pub drop_images : ℕ → List Part → ℕ × List Part
drop_images n [] = (n, [])
drop_images n (text_part text ∷ rest) =
    let (left, kept) = drop_images n rest in (left, text_part text ∷ kept)
drop_images zero (image_part image ∷ rest) =
    let (left, kept) = drop_images zero rest in (left, image_part image ∷ kept)
drop_images (suc n) (image_part image ∷ rest) = drop_images n rest

unfoldable pub filter_block : ℕ → Block → ℕ × Block
filter_block n (tool_result id is_error (parts ps)) =
    let (left, kept) = drop_images n ps in (left, tool_result id is_error (parts kept))
filter_block n other = (n, other)

unfoldable pub filter_items : ℕ → List Item → ℕ × List Item
filter_items n [] = (n, [])
filter_items n (i ∷ rest) =
    let (next, block) = filter_block n i.block in
    let (left, kept) = filter_items next rest in (left, record i { block = block } ∷ kept)

unfoldable pub filter_content : ℕ → Content → ℕ × Content
filter_content n (plain text) = (n, plain text)
filter_content n (items is) = let (left, kept) = filter_items n is in (left, items kept)

unfoldable pub filter_messages : ℕ → List Message → List Message
filter_messages n [] = []
filter_messages n (m ∷ rest) =
    let (left, content) = filter_content n m.content in
    record m { content = content } ∷ filter_messages left rest

-- `_maybe_filter_to_n_most_recent_images`
unfoldable pub filter_to_recent : List Message → ℕ → ℕ → Option (List Message)
filter_to_recent messages keep threshold =
    elim (images_to_remove (total_images messages) keep threshold) [
      | none ↦ none
      | some n ↦ some (filter_messages n messages)
    ]
