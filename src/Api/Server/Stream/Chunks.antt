-- ===== src/Api/Server/Stream/Chunks.antt =====
-- The stream that is cut into chunks elsewhere: the same events.
use text.Mathlib.TextLemmas.{append-nil, append_assoc}
use computer_use_orchestrato.Prelude.{
  ℕ, String, ◌<>◌, ◌≡◌, refl, sym, ap, ◌∙◌, Option, none, some, List, [], ◌∷◌, ◌++◌, arith,
}
use computer_use_orchestrato.Api.Server.Stream.Blocks.{drain-append, drain-none, after}
use computer_use_orchestrato.Json.{Json, Fields}
use computer_use_orchestrato.Api.Server.{Env}
use computer_use_orchestrato.Api.Sse.{SseEvent, parse_sse_block}
use computer_use_orchestrato.Api.Server.Stream.{
  StreamLimits, StreamState, handle_event, remember_id, handle_parsed, cut_block, drain,
  handle_block, handle_blocks, feed, feed_all,
}

abbrev pub concat : List String → String
concat [] = ""
concat (chunk ∷ chunks) = chunk <> concat chunks

module _ (at : ℕ → Env) (dumps : Fields → String) (loads : String → Option Json)
    (limits : StreamLimits) (session_id : String) where
  -- The state under another buffer.
  abbrev with_buffer : String → StreamState → StreamState
  with_buffer left st = record st { buffer = left }

  event-with_buffer :
      (name : Option String) (d : Option Fields) (left : String) (st : StreamState)
      → handle_event at dumps loads limits session_id name d (with_buffer left st)
        ≡ with_buffer left (handle_event at dumps loads limits session_id name d st)
  unfolding handle_event
  event-with_buffer none d left st = refl
  event-with_buffer (some name) none left st = refl
  event-with_buffer (some name) (some d) left st = refl

  id-with_buffer :
      (id : Option String) (left : String) (st : StreamState)
      → remember_id at dumps loads limits session_id id (with_buffer left st)
        ≡ with_buffer left (remember_id at dumps loads limits session_id id st)
  unfolding remember_id
  id-with_buffer none left st = refl
  id-with_buffer (some id) left st = ground arith

  parsed-with_buffer :
      (block : String) (e : SseEvent) (left : String) (st : StreamState)
      → handle_parsed at dumps loads limits session_id block e (with_buffer left st)
        ≡ with_buffer left (handle_parsed at dumps loads limits session_id block e st)
  unfolding handle_parsed
  parsed-with_buffer block (name, d, id) left st =
      let add : StreamState → StreamState =
        λ (noted : StreamState). record noted { sent = noted.sent ++ (block <> "\n\n") ∷ [] } in
      ap (λ s. add (remember_id at dumps loads limits session_id id s))
        (event-with_buffer name d left st)
      ∙ ap add (id-with_buffer id left (handle_event at dumps loads limits session_id name d st))

  block-with_buffer :
      (block left : String) (st : StreamState)
      → handle_block at dumps loads limits session_id block (with_buffer left st)
        ≡ with_buffer left (handle_block at dumps loads limits session_id block st)
  unfolding handle_block
  block-with_buffer block left st =
      ground (arith, parsed-with_buffer block (parse_sse_block loads block) left st)

  pub blocks-with_buffer :
      (blocks : List String) (left : String) (st : StreamState)
      → handle_blocks at dumps loads limits session_id blocks (with_buffer left st)
        ≡ with_buffer left (handle_blocks at dumps loads limits session_id blocks st)
  unfolding handle_blocks
  blocks-with_buffer [] left st = refl
  blocks-with_buffer (block ∷ blocks) left st =
      ap (handle_blocks at dumps loads limits session_id blocks) (block-with_buffer block left st)
      ∙ blocks-with_buffer blocks left (handle_block at dumps loads limits session_id block st)

  blocks-append :
      (xs ys : List String) (st : StreamState)
      → handle_blocks at dumps loads limits session_id (xs ++ ys) st
        ≡ handle_blocks at dumps loads limits session_id ys
            (handle_blocks at dumps loads limits session_id xs st)
  unfolding handle_blocks
  blocks-append [] ys st = refl
  blocks-append (x ∷ xs) ys st =
      blocks-append xs ys (handle_block at dumps loads limits session_id x st)

  -- A round is the blocks of the buffer, and the rest of it.
  pub feed-drain :
      (chunk : String) (st : StreamState)
      → feed at dumps loads limits session_id chunk st
        ≡ with_buffer
            (drain (st.buffer <> chunk)).1
            (handle_blocks at dumps loads limits session_id (drain (st.buffer <> chunk)).0 st)
  unfolding feed
  feed-drain chunk st = blocks-with_buffer (drain (st.buffer <> chunk)).0 _ st

  feed-feed :
      (x y : String) (st : StreamState)
      → feed at dumps loads limits session_id y (feed at dumps loads limits session_id x st)
        ≡ feed at dumps loads limits session_id (x <> y) st
  unfolding after
  feed-feed x y st =
      let run : List String → StreamState → StreamState =
        λ (blocks : List String) (s : StreamState).
          handle_blocks at dumps loads limits session_id blocks s in
      let first = drain (st.buffer <> x) in
      let second = drain (first.1 <> y) in
      let drained : drain (st.buffer <> (x <> y)) ≡ after first y =
        ap drain (sym (append_assoc st.buffer x y)) ∙ drain-append (st.buffer <> x) y in
      let whole : List String × String → StreamState =
        λ (d : List String × String). with_buffer d.1 (run d.0 st) in
      ap (feed at dumps loads limits session_id y) (feed-drain x st)
      ∙ feed-drain y (with_buffer first.1 (run first.0 st))
      ∙ ap (with_buffer second.1) (blocks-with_buffer second.0 first.1 (run first.0 st))
      ∙ ap (with_buffer second.1) (sym (blocks-append first.0 second.0 st))
      ∙ ap whole (sym drained)
      ∙ sym (feed-drain (x <> y) st)

  feed_all-feed :
      (x : String) (chunks : List String) (st : StreamState)
      → feed_all at dumps loads limits session_id chunks
          (feed at dumps loads limits session_id x st)
        ≡ feed at dumps loads limits session_id (x <> concat chunks) st
  unfolding feed_all
  feed_all-feed x [] st = ap (λ s. feed at dumps loads limits session_id s st) (sym (append-nil x))
  feed_all-feed x (chunk ∷ chunks) st =
      ap (feed_all at dumps loads limits session_id chunks) (feed-feed x chunk st)
      ∙ feed_all-feed (x <> chunk) chunks st
      ∙ ap (λ s. feed at dumps loads limits session_id s st) (append_assoc x chunk (concat chunks))

  feed_nil :
      (st : StreamState)
      → cut_block st.buffer ≡ none
      → feed at dumps loads limits session_id "" st ≡ st
  unfolding handle_blocks
  feed_nil st h =
      let whole : List String × String → StreamState = λ (d : List String × String).
        with_buffer d.1 (handle_blocks at dumps loads limits session_id d.0 st) in
      feed-drain "" st
      ∙ ap (λ b. whole (drain b)) (append-nil st.buffer)
      ∙ ap whole (drain-none st.buffer h)

  -- However the text that a worker sends is cut into chunks, the stream handles it as it would in
  -- one piece, if no whole block waits in the buffer before.
  pub feed_all-concat :
      (chunks : List String) (st : StreamState)
      → cut_block st.buffer ≡ none
      → feed_all at dumps loads limits session_id chunks st
        ≡ feed at dumps loads limits session_id (concat chunks) st
  unfolding feed_all
  feed_all-concat [] st h = sym (feed_nil st h)
  feed_all-concat (chunk ∷ chunks) st h = feed_all-feed chunk chunks st
