-- ===== src/Sampling/Samples.antt =====
-- The theorems on the sampling loop at concrete inputs.
use computer_use_orchestrato.Prelude.{
  ℕ, ◌*◌, ◌-◌, ◌+◌, ◌≤◌, ◌<◌, ◌≡◌, refl, true, false, Option, none, some, List, [], ◌∷◌, ◌++◌, map,
  length, drop, arith,
}
use computer_use_orchestrato.Json.{end}
use computer_use_orchestrato.Tools.Base.{no_result, returned, Tool, find_tool, run_tool}
use computer_use_orchestrato.Sampling.{
  user, anthropic, text_part, image_part, parts, text_block, tool_use, tool_result, items, Message,
  make_api_tool_result, response_to_params, fresh, filter_to_recent,
}
use computer_use_orchestrato.Sampling.Images.{all_images, bare, filter_to_recent-images}
use computer_use_orchestrato.Sampling.Cache.{mark_last, inject_from, inject_prompt_caching}
use computer_use_orchestrato.Sampling.Cache.Marks.{total_marks}
use computer_use_orchestrato.Sampling.Loop.Answers.Marked.{total_marks-sampling_loop}
use computer_use_orchestrato.Sampling.Loop.{
  Answer, answered, LoopState, prepare, is_running, round, take_answer, close_round, run_blocks,
  sampling_loop,
}
use computer_use_orchestrato.Sampling.Loop.Shapes.{Shape, shape}
use computer_use_orchestrato.Sampling.Loop.Answers.{Turns, has_raised, sampling_loop-Turns}

abbrev shots : List Message
shots =
    record {
      role = user;
      content = items (
          fresh (
            tool_result "t1" false (parts (text_part "one" ∷ image_part "a" ∷ []))
            ∷ tool_result "t2" false (parts (image_part "b" ∷ image_part "c" ∷ []))
            ∷ []));
    }
    ∷ []

filter_to_recent-images_example :
    (out : List Message) × (chunks : ℕ) × (filter_to_recent shots 1 1 ≡ some out)
    × (bare out ≡ bare shots)
    × (all_images out ≡ drop (1 * chunks) (all_images shots))
    × (1 * chunks ≤ length (all_images shots) - 1)
    × (length (all_images out) < 1 + 1)
filter_to_recent-images_example = filter_to_recent-images shots 1 1 (omega arith)

abbrev asked : List Message
asked = record { role = user; content = items (fresh (text_block "open a page" ∷ [])) } ∷ []

abbrev clicker : Tool ℕ
clicker = record {
  name = "computer";
  call = λ tool_input clicks. (clicks + 1, returned (record no_result { output = some "done" }));
}

-- It asks for a click until it has seen a result.
abbrev api : List Message → Answer
api (m ∷ []) = answered (tool_use "t1" "computer" end ∷ [])
api _ = answered (text_block "finished" ∷ [])

abbrev begun : LoopState ℕ
begun = record { messages = asked; world = 0; callbacks = [] }

never_raises : has_raised (sampling_loop (clicker ∷ []) anthropic 3 api 5 begun).1 ≡ false
unfolding sampling_loop round take_answer close_round run_blocks find_tool inject_prompt_caching
    inject_from mark_last make_api_tool_result response_to_params prepare run_tool
never_raises = refl

sampling_loop-Turns_example :
    let r = sampling_loop (clicker ∷ []) anthropic 3 api 5 begun in
    (rest : List Shape) × (map shape r.0.messages ≡ map shape asked ++ rest) × Turns r.1 5 rest
sampling_loop-Turns_example =
    sampling_loop-Turns (clicker ∷ []) anthropic 3 api 5 begun never_raises

abbrev once : LoopState ℕ
once = (sampling_loop (clicker ∷ []) anthropic 3 api 1 begun).0

abbrev sent : Option (List Message) → List Message
sent none = []
sent (some messages) = messages

goes_on : is_running (sampling_loop (clicker ∷ []) anthropic 3 api 1 begun).1 ≡ true
unfolding sampling_loop round take_answer close_round run_blocks find_tool inject_prompt_caching
    inject_from mark_last make_api_tool_result response_to_params prepare run_tool
goes_on = refl

is_sent : prepare anthropic 3 once.messages ≡ some (sent (prepare anthropic 3 once.messages))
unfolding sampling_loop round take_answer close_round run_blocks find_tool inject_prompt_caching
    inject_from mark_last make_api_tool_result response_to_params prepare run_tool
is_sent = refl

total_marks-sampling_loop_example : total_marks (sent (prepare anthropic 3 once.messages)) ≤ 3
total_marks-sampling_loop_example =
    total_marks-sampling_loop (clicker ∷ []) 3 api 1 begun _ refl goes_on is_sent
