-- ===== src/Sampling/Cache.antt =====
-- computer_use_demo/loop.py: `_inject_prompt_caching`.
pub mod Steps
pub mod Marks
use mathlib.Core.List.{reverse}
use computer_use_orchestrato.Prelude.{
  ℕ, zero, suc, Bool, true, false, Option, none, some, List, [], ◌∷◌,
}
use computer_use_orchestrato.Sampling.{Role, user, assistant, Item, Content, plain, items, Message}

-- `content[-1]["cache_control"] = …`, or its removal; `none` for the `IndexError` of no item.
unfoldable pub mark_last : Bool → List Item → Option (List Item)
mark_last mark [] = none
mark_last mark (i ∷ []) = some (record i { cached = mark } ∷ [])
mark_last mark (i ∷ j ∷ rest) = elim (mark_last mark (j ∷ rest)) [
  | none ↦ none
  | some marked ↦ some (i ∷ marked)
]

abbrev pub cons_some : Message → Option (List Message) → Option (List Message)
cons_some m none = none
cons_some m (some rest) = some (m ∷ rest)

abbrev pub items_of : Role → Content → Option (List Item)
items_of user (items is) = some is
items_of user (plain text) = none
items_of assistant content = none

-- The items of a message of the user, if its content is a list.
abbrev pub turn_items : Message → Option (List Item)
turn_items m = items_of m.role m.content

abbrev pub with_items : Message → List Item → Message
with_items m is = record m { content = items is }

abbrev pub reversed : Option (List Message) → Option (List Message)
reversed none = none
reversed (some messages) = some (reverse messages)

-- The loop of `_inject_prompt_caching`, over the messages from the last to the first.
unfoldable pub inject_from : ℕ → List Message → Option (List Message)
inject_from n [] = some []
inject_from zero (m ∷ rest) = elim (turn_items m) [
  | none ↦ cons_some m (inject_from zero rest)
  | some is ↦ elim (mark_last false is) [
    | none ↦ none
    | some cleared ↦ some (with_items m cleared ∷ rest)
  ]
]
inject_from (suc n) (m ∷ rest) = elim (turn_items m) [
  | none ↦ cons_some m (inject_from (suc n) rest)
  | some is ↦ elim (mark_last true is) [
    | none ↦ none
    | some marked ↦ cons_some (with_items m marked) (inject_from n rest)
  ]
]

-- `_inject_prompt_caching`
unfoldable pub inject_prompt_caching : List Message → Option (List Message)
inject_prompt_caching messages = reversed (inject_from 3 (reverse messages))
