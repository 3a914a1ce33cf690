-- ===== src/Sampling/Loop/Answers/Marked.antt =====
-- The cache marks in the messages that the rounds of `sampling_loop` of computer_use_demo/loop.py send.
use mathlib.Core.List.{append_assoc}
use computer_use_orchestrato.Prelude.{
  ℕ, zero, suc, ◌≤◌, String, ◌≡◌, refl, sym, ap, subst, ◌∙◌, true, Option, none, some, List, [],
  ◌∷◌, ◌++◌, arith, Option-cases, Bool-cases, inl, inr,
}
use computer_use_orchestrato.Tools.Base.{Tool}
use computer_use_orchestrato.Sampling.{
  Role, user, assistant, anthropic, Block, items, Message, fresh, response_to_params,
}
use computer_use_orchestrato.Sampling.Cache.{inject_prompt_caching}
use computer_use_orchestrato.Sampling.Cache.Marks.{
  total_marks, Reached, start, next, total_marks-Reached,
}
use computer_use_orchestrato.Sampling.Loop.{
  Answer, failed, answered, LoopState, Progress, is_running, prepare, api_response, note,
  append_message, close_after, close_round, run_blocks, take_answer, round, sampling_loop,
}
use computer_use_orchestrato.Sampling.Loop.Answers.{run_blocks-Finished}

abbrev turn_of : Role → List Block → Message
turn_of role blocks = record { role = role; content = items (fresh blocks) }

-- Where a round is to be followed by another, it added an answer and its results.
abbrev Continues : List Message → List Message → Progress → Type 0
Continues before now p =
    is_running p ≡ true
    → (answer : List Block) × (results : List Block) × (now
        ≡ before ++ turn_of assistant answer ∷ turn_of user results ∷ [])

module _ {W : Type 0} (tools : List (Tool W)) where
  close_after-Continues :
      (before : List Message) (answer results : List Block) (s : LoopState W) (e : Option String)
      → (e ≡ none → s.messages ≡ before ++ turn_of assistant answer ∷ [])
      → let r = close_after results s e in Continues before r.0.messages r.1
  close_after-Continues before answer results s (some e) h = λ going. ground arith
  close_after-Continues before answer [] s none h = λ going. ground arith
  close_after-Continues before answer (r ∷ results) s none h = λ going. (
    answer,
    r ∷ results,
    ap (λ l. l ++ turn_of user (r ∷ results) ∷ []) (h refl)
        ∙ append_assoc before (turn_of assistant answer ∷ []) (turn_of user (r ∷ results) ∷ []),
  )

  take_answer-Continues :
      (a : Answer) (s : LoopState W)
      → let r = take_answer tools a s in Continues s.messages r.0.messages r.1
  unfolding take_answer close_round
  take_answer-Continues (failed e) s = λ going. ground arith
  take_answer-Continues (answered blocks) s =
      let params = response_to_params blocks in
      let asked = append_message assistant params (note (api_response none) s) in
      let k = run_blocks tools params asked in
      close_after-Continues s.messages params k.results k.state k.failure
        (λ fine. (run_blocks-Finished tools params asked fine).1)

  module _ (only_n : ℕ) (api : List Message → Answer) where
    round-Reached :
        (s : LoopState W)
        → Reached s.messages
        → let r = round tools anthropic only_n api s in is_running r.1 ≡ true → Reached r.0.messages
    unfolding round prepare
    round-Reached s r = elim (Option-cases (inject_prompt_caching s.messages)) [
      | inl fails ↦ rw (fails, round) (λ going. ground arith)
      | inr (out, marked) ↦
          let sent = record s { messages = out } in
          rw (marked, round)
            (λ going.
              let (answer, results, now) = take_answer-Continues (api out) sent going in
              subst Reached (sym now) (next s.messages out answer results r marked))
    ]

    sampling_loop-Reached :
        (rounds : ℕ) (s : LoopState W)
        → Reached s.messages
        → let r = sampling_loop tools anthropic only_n api rounds s in
          is_running r.1 ≡ true → Reached r.0.messages
    unfolding sampling_loop
    sampling_loop-Reached zero s r = λ going. r
    sampling_loop-Reached (suc rounds) s r =
        let once = round tools anthropic only_n api s in
        elim (Bool-cases (is_running once.1)) [
          | inl more ↦ rw more (sampling_loop-Reached rounds once.0 (round-Reached s r more))
          | inr stop ↦ rw stop (λ going. let bad = sym stop ∙ going in ground arith)
        ]

    -- In every round of the loop with the Anthropic API at most three items of the messages that are
    -- sent are marked for the cache, if none was marked when the loop was called.
    pub total_marks-sampling_loop :
        (rounds : ℕ) (s : LoopState W) (out : List Message)
        → total_marks s.messages ≡ 0
        → let r = sampling_loop tools anthropic only_n api rounds s in
          is_running r.1 ≡ true
          → prepare anthropic only_n r.0.messages ≡ some out
          → total_marks out ≤ 3
    unfolding prepare
    total_marks-sampling_loop rounds s out h going marked =
        total_marks-Reached _ out (sampling_loop-Reached rounds s (start s.messages h) going) marked
