-- ===== src/Sampling/Loop.antt =====
-- computer_use_demo/loop.py: `sampling_loop`. The API is a parameter: its answer to the messages that
-- are sent in a round. `W` is what the tools act on.
pub mod Shapes
pub mod Answers
use computer_use_orchestrato.Prelude.{
  ℕ, zero, suc, ◌+◌, String, Bool, true, false, Option, none, some, List, [], ◌∷◌, ◌++◌,
  if◌then◌else◌,
}
use computer_use_orchestrato.Tools.Base.{
  ToolResult, Tool, Outcome, returned, tool_error, raised, run_tool,
}
use computer_use_orchestrato.Sampling.{
  Provider, anthropic, Role, user, assistant, Block, tool_use, items, Message, make_api_tool_result,
  response_to_params, fresh, filter_to_recent,
}
use computer_use_orchestrato.Sampling.Cache.{inject_prompt_caching}

-- The calls of the callbacks, in their order.
pub data Callback : Type 0 where
  output : Block → Callback
  tool_output : ToolResult → String → Callback
  api_response : Option String → Callback

-- The API raises an error, or answers with blocks.
pub data Answer : Type 0 where
  failed : String → Answer
  answered : List Block → Answer

pub record LoopState (W : Type 0) : Type 0 where
  pub messages : List Message
  pub world : W
  pub callbacks : List Callback

-- How the loop stands: it has returned, on an error of the API or without; it has raised; or it has
-- rounds to go.
pub data Progress : Type 0 where
  api_failed complete : Progress
  stopped : String → Progress
  running : Progress

unfoldable pub prepare : Provider → ℕ → List Message → Option (List Message)
prepare anthropic n messages = inject_prompt_caching messages
prepare other zero messages = some messages
prepare other (suc n) messages = filter_to_recent messages (suc n) (suc n)

abbrev pub is_running : Progress → Bool
is_running running = true
is_running complete = false
is_running api_failed = false
is_running (stopped e) = false

-- What the loop over the blocks of an answer has done.
pub record Work (W : Type 0) : Type 0 where
  pub state : LoopState W
  pub results : List Block
  pub failure : Option String

module _ {W : Type 0} where
  abbrev pub note : Callback → LoopState W → LoopState W
  note c s = record s { callbacks = s.callbacks ++ c ∷ [] }

  abbrev pub add_result : ToolResult → String → Work W → Work W
  add_result r id k = record k { results = make_api_tool_result r id ∷ k.results }

  abbrev pub broken : String → LoopState W → Work W
  broken e s = record { state = s; results = []; failure = some e }

  -- The state when a tool has run.
  abbrev pub acted : Block → W → LoopState W → LoopState W
  acted block w s = record (note (output block) s) { world = w }

  -- What follows a tool's outcome.
  abbrev pub after_tool : String → (ToolResult → Work W) → LoopState W → Outcome → Work W
  after_tool id next s (returned r) = add_result r id (next r)
  after_tool id next s (tool_error e) = broken e s
  after_tool id next s (raised e) = broken e s

  abbrev pub append_message : Role → List Block → LoopState W → LoopState W
  append_message role blocks s = record s {
    messages = s.messages ++ record { role = role; content = items (fresh blocks) } ∷ [];
  }

  abbrev pub close_after : List Block → LoopState W → Option String → LoopState W × Progress
  close_after results s (some e) = (s, stopped e)
  close_after [] s none = (s, complete)
  close_after (r ∷ results) s none = (append_message user (r ∷ results) s, running)

  -- The end of a round, behind the blocks of its answer.
  unfoldable pub close_round : Work W → LoopState W × Progress
  close_round k = close_after k.results k.state k.failure

  module _ (tools : List (Tool W)) where
    -- The loop over the blocks of an answer; the results come in the order of the calls.
    unfoldable pub run_blocks : List Block → LoopState W → Work W
    run_blocks [] s = record { state = s; results = []; failure = none }
    run_blocks (tool_use id name tool_input ∷ rest) s =
        let (w, outcome) = run_tool tools name tool_input s.world in
        let s' = acted (tool_use id name tool_input) w s in
        after_tool id (λ (r : ToolResult). run_blocks rest (note (tool_output r id) s')) s' outcome
    run_blocks (b ∷ rest) s = run_blocks rest (note (output b) s)

    -- What follows an answer of the API.
    unfoldable pub take_answer : Answer → LoopState W → LoopState W × Progress
    take_answer (failed e) s = (note (api_response (some e)) s, api_failed)
    take_answer (answered blocks) s =
        let params = response_to_params blocks in
        close_round
          (run_blocks params (append_message assistant params (note (api_response none) s)))

    module _ (provider : Provider) (only_n : ℕ) (api : List Message → Answer) where
      -- One round of the `while True`; a round with no item to mark raises.
      unfoldable pub round : LoopState W → LoopState W × Progress
      round s = elim (prepare provider only_n s.messages) [
        | none ↦ (s, stopped "list index out of range")
        | some messages ↦ take_answer (api messages) (record s { messages = messages })
      ]

      -- `sampling_loop`, for as many rounds as are given.
      unfoldable pub sampling_loop : ℕ → LoopState W → LoopState W × Progress
      sampling_loop zero s = (s, running)
      sampling_loop (suc rounds) s =
          let (s', progress) = round s in
          let rest = sampling_loop rounds s' in if is_running progress then rest else (s', progress)
