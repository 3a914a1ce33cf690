-- ===== src/Sampling/Loop/Answers.antt =====
-- The messages that `sampling_loop` of computer_use_demo/loop.py adds.
pub mod Marked
use mathlib.Core.List.{map-append, append_assoc, append-nil}
use computer_use_orchestrato.Prelude.{
  ℕ, zero, suc, String, ◌≡◌, refl, sym, ap, ap₂, subst, ◌∙◌, Bool, true, false, Option, none, some,
  List, [], ◌∷◌, ◌++◌, map, arith, Option-cases, inl, inr, if◌then◌else◌,
}
use computer_use_orchestrato.Json.{Fields}
use computer_use_orchestrato.Tools.Base.{
  ToolResult, Tool, Outcome, returned, tool_error, raised, run_tool,
}
use computer_use_orchestrato.Sampling.{
  Role, user, assistant, Provider, anthropic, bedrock, vertex, Block, text_block, tool_use,
  tool_result, other_block, items, Message, make_api_tool_result, fresh, response_to_params,
}
use computer_use_orchestrato.Sampling.Loop.{
  Answer, failed, answered, LoopState, Work, Progress, api_failed, complete, stopped, running,
  is_running, prepare, note, output, tool_output, api_response, acted, after_tool, append_message,
  close_after, close_round, run_blocks, take_answer, round, sampling_loop,
}
use computer_use_orchestrato.Sampling.Cache.Steps.{value_or}
use computer_use_orchestrato.Sampling.Loop.Shapes.{
  Shape, shape, block_ids, item_ids, content_ids, filter_to_recent-shapes,
  inject_prompt_caching-shapes,
}

-- The ids of blocks.
abbrev ids : Role → List Block → List String
ids role [] = []
ids role (b ∷ blocks) = block_ids role b ++ ids role blocks

fresh-ids : (role : Role) (blocks : List Block) → item_ids role (fresh blocks) ≡ ids role blocks
fresh-ids role [] = refl
fresh-ids role (b ∷ blocks) = ap (λ l. block_ids role b ++ l) (fresh-ids role blocks)

result-id : (r : ToolResult) (id : String) → block_ids user (make_api_tool_result r id) ≡ id ∷ []
unfolding make_api_tool_result
result-id r id = ground arith

-- The first block, if any, is a result.
abbrev Headed : List Block → Type 0
Headed [] = Unit
Headed (r ∷ results) = (id : String) × (block_ids user r ≡ id ∷ [])

module _ {W : Type 0} (tools : List (Tool W)) where
  -- If no tool raises, the results are those of the calls, in their order, and the messages stay.
  abbrev Finished : List Block → LoopState W → Work W → Type 0
  Finished blocks s k =
      k.failure ≡ none
      → (ids user k.results ≡ ids assistant blocks)
        × (k.state.messages ≡ s.messages)
        × Headed k.results

  after_tool-Finished :
      (id name : String) (d : Fields) (rest : List Block) (next : ToolResult → Work W)
      (start s : LoopState W) (outcome : Outcome)
      → s.messages ≡ start.messages
      → ((r : ToolResult) → Finished rest s (next r))
      → Finished (tool_use id name d ∷ rest) start (after_tool id next s outcome)
  after_tool-Finished id name d rest next start s (returned r) same go h =
      let (results, stay, headed) = go r h in
      (ap₂ ◌++◌ (result-id r id) results, stay ∙ same, (id, result-id r id))
  after_tool-Finished id name d rest next start s (tool_error e) same go h = ground arith
  after_tool-Finished id name d rest next start s (raised e) same go h = ground arith

  run_blocks-Finished :
      (blocks : List Block) (s : LoopState W) → Finished blocks s (run_blocks tools blocks s)
  unfolding run_blocks
  run_blocks-Finished [] s = λ h. (refl, refl, tt)
  run_blocks-Finished (text_block text ∷ rest) s =
      run_blocks-Finished rest (note (output (text_block text)) s)
  run_blocks-Finished (tool_result id is_error c ∷ rest) s =
      run_blocks-Finished rest (note (output (tool_result id is_error c)) s)
  run_blocks-Finished (other_block value ∷ rest) s =
      run_blocks-Finished rest (note (output (other_block value)) s)
  run_blocks-Finished (tool_use id name tool_input ∷ rest) s =
      let (w, outcome) = run_tool tools name tool_input s.world in
      let s' = acted (tool_use id name tool_input) w s in
      after_tool-Finished id name tool_input rest
        (λ (r : ToolResult). run_blocks tools rest (note (tool_output r id) s')) s s' outcome refl
        (λ r. run_blocks-Finished rest (note (tool_output r id) s'))

-- The messages that so many rounds add, by how the loop stands then: an answer with calls and then
-- their results, again and again; and at the end an answer without a call, or nothing where the API
-- failed or no round is left.
pub data Turns : Progress → ℕ → List Shape → Type 0 where
  failure : (rounds : ℕ) → Turns api_failed (suc rounds) []
  end : (rounds : ℕ) → Turns complete (suc rounds) ((assistant, []) ∷ [])
  out_of_rounds : Turns running zero []
  turn :
      (id : String) (more : List String) (p : Progress) (rounds : ℕ) (rest : List Shape)
      → Turns p rounds rest
      → Turns p (suc rounds) ((assistant, id ∷ more) ∷ (user, id ∷ more) ∷ rest)

-- A tool has raised, or a message had no item to mark.
abbrev pub has_raised : Progress → Bool
has_raised (stopped e) = true
has_raised api_failed = false
has_raised complete = false
has_raised running = false

-- What a round adds to the shapes.
abbrev Adds : List Shape → List Shape → Progress → Type 0
Adds before now api_failed = now ≡ before
Adds before now complete = now ≡ before ++ (assistant, []) ∷ []
Adds before now running =
    (id : String) × (more : List String) × (now
      ≡ before ++ (assistant, id ∷ more) ∷ (user, id ∷ more) ∷ [])
Adds before now (stopped e) = Unit

module _ {W : Type 0} (tools : List (Tool W)) where
  shapes : LoopState W → List Shape
  shapes s = map shape s.messages

  close_after-Adds :
      (before : List Shape) (called : List String) (results : List Block) (s : LoopState W)
      (e : Option String)
      → (e ≡ none
          → (ids user results ≡ called)
            × (shapes s ≡ before ++ (assistant, called) ∷ [])
            × Headed results)
      → let r = close_after results s e in Adds before (shapes r.0) r.1
  unfolding shapes
  close_after-Adds before called results s (some e) h = tt
  close_after-Adds before called [] s none h =
      let (called_is, now, headed) = h refl in
      now ∙ ap (λ l. before ++ (assistant, l) ∷ []) (sym called_is)
  close_after-Adds before called (r ∷ results) s none h =
      let (called_is, now, (id, is_result)) = h refl in
      let whole : called ≡ id ∷ ids user results =
        sym called_is ∙ ap (λ l. l ++ ids user results) is_result in
      let answer : content_ids user (items (fresh (r ∷ results))) ≡ called =
        fresh-ids user (r ∷ results) ∙ called_is in
      (
        id,
        ids user results,
        map-append shape s.messages _
            ∙ ap₂ (λ l c. l ++ (user, c) ∷ []) now answer
            ∙ append_assoc before ((assistant, called) ∷ []) ((user, called) ∷ [])
            ∙ ap (λ c. before ++ (assistant, c) ∷ (user, c) ∷ []) whole,
      )

  take_answer-Adds :
      (a : Answer) (s : LoopState W)
      → let r = take_answer tools a s in Adds (shapes s) (shapes r.0) r.1
  unfolding take_answer close_round shapes
  take_answer-Adds (failed e) s = refl
  take_answer-Adds (answered blocks) s =
      let params = response_to_params blocks in
      let asked = append_message assistant params (note (api_response none) s) in
      let k = run_blocks tools params asked in
      close_after-Adds (shapes s) (ids assistant params) k.results k.state k.failure (λ fine.
        let (results, stay, headed) = run_blocks-Finished tools params asked fine in
        (
          results,
          ap (map shape) stay
              ∙ map-append shape s.messages _
              ∙ ap (λ c. shapes s ++ (assistant, c) ∷ []) (fresh-ids assistant params),
          headed,
        ))

  prepare-shapes :
      (provider : Provider) (n : ℕ) (ms out : List Message)
      → prepare provider n ms ≡ some out
      → map shape out ≡ map shape ms
  unfolding prepare
  prepare-shapes anthropic n ms out h = inject_prompt_caching-shapes ms out h
  prepare-shapes bedrock zero ms out h = ap (λ o. map shape (value_or [] o)) (sym h)
  prepare-shapes vertex zero ms out h = ap (λ o. map shape (value_or [] o)) (sym h)
  prepare-shapes bedrock (suc n) ms out h = filter_to_recent-shapes ms out (suc n) (suc n) h
  prepare-shapes vertex (suc n) ms out h = filter_to_recent-shapes ms out (suc n) (suc n) h

  module _ (provider : Provider) (only_n : ℕ) (api : List Message → Answer) where
    round-Adds :
        (s : LoopState W)
        → let r = round tools provider only_n api s in Adds (shapes s) (shapes r.0) r.1
    unfolding round shapes
    round-Adds s = elim (Option-cases (prepare provider only_n s.messages)) [
      | inl fails ↦ rw (fails, round) tt
      | inr (messages, ready) ↦
          let sent = record s { messages = messages } in
          let added = take_answer-Adds (api messages) sent in
          let r = take_answer tools (api messages) sent in
          rw (ready, round)
            (subst (λ b. Adds b (shapes r.0) r.1)
              (prepare-shapes provider only_n s.messages messages ready) added)
    ]

    -- The shapes that so many rounds add.
    Ends : ℕ → List Shape → LoopState W × Progress → Type 0
    Ends rounds before r =
        has_raised r.1 ≡ false
        → (rest : List Shape) × (shapes r.0 ≡ before ++ rest) × Turns r.1 rounds rest

    round-Ends :
        (rounds : ℕ) (before : List Shape) (s : LoopState W) (p : Progress)
        (later : LoopState W × Progress)
        → Adds before (shapes s) p
        → Ends rounds (shapes s) later
        → Ends (suc rounds) before (if is_running p then later else (s, p))
    unfolding Ends
    round-Ends rounds before s api_failed later added go h =
        ([], added ∙ sym (append-nil before), failure rounds)
    round-Ends rounds before s complete later added go h = ((assistant, []) ∷ [], added, end rounds)
    round-Ends rounds before s (stopped e) later added go h = ground arith
    round-Ends rounds before s running later (id, more, added) go h =
        let (rest, whole, turns) = go h in
        (
          (assistant, id ∷ more) ∷ (user, id ∷ more) ∷ rest,
          whole
              ∙ ap (λ b. b ++ rest) added
              ∙ append_assoc before ((assistant, id ∷ more) ∷ (user, id ∷ more) ∷ []) rest,
          turn id more later.1 rounds rest turns,
        )

    loop-Ends :
        (rounds : ℕ) (s : LoopState W)
        → Ends rounds (shapes s) (sampling_loop tools provider only_n api rounds s)
    unfolding sampling_loop Ends
    loop-Ends zero s = λ h. ([], sym (append-nil (shapes s)), out_of_rounds)
    loop-Ends (suc rounds) s =
        let r = round tools provider only_n api s in
        round-Ends rounds (shapes s) r.0 r.1 (sampling_loop tools provider only_n api rounds r.0)
          (round-Adds s) (loop-Ends rounds r.0)

    -- Unless something raises, the roles of the messages that the loop was given and the ids of
    -- the calls and results in them stay as they were, whatever is marked for the cache and
    -- whatever images are removed, and behind them stand the turns of its rounds: an answer with
    -- tool calls and then one result for each call, under its id and in the order of the calls;
    -- and where the loop has returned, at the end an answer without a call, or nothing where the
    -- API failed.
    pub sampling_loop-Turns :
        (rounds : ℕ) (s : LoopState W)
        → has_raised (sampling_loop tools provider only_n api rounds s).1 ≡ false
        → let r = sampling_loop tools provider only_n api rounds s in
          (rest : List Shape) × (map shape r.0.messages ≡ map shape s.messages ++ rest)
          × Turns r.1 rounds rest
    unfolding Ends shapes
    sampling_loop-Turns rounds s h = loop-Ends rounds s h
