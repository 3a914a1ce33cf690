-- ===== src/Api/Server/Stream/Delivery.antt =====
-- The worker's events at the orchestrator: worker_api.py `_sse_pack` and main.py `sse_events`.
use text.Mathlib.TextLemmas.{nil-append}
use computer_use_orchestrato.Prelude.{
  ℕ, ◌+◌, String, ◌<>◌, ◌≡◌, refl, sym, ap, ◌∙◌, Option, none, some, List, [], ◌∷◌, ◌++◌, show,
}
use computer_use_orchestrato.Json.{Json, Fields, obj}
use computer_use_orchestrato.Worker.{WorkerEvent, sse_pack}
use computer_use_orchestrato.Worker.Tasks.{pack_all}
use computer_use_orchestrato.Api.Sse.Tokens.{IsToken, show-IsToken}
use computer_use_orchestrato.Api.Sse.RoundTrip.{block_of, parse_sse_block-sse_pack}
use computer_use_orchestrato.Api.Server.{Env, touch}
use computer_use_orchestrato.Api.Server.Events.{persist_worker_event}
use computer_use_orchestrato.Api.Server.Stream.{
  StreamLimits, StreamState, handle_event, remember_id, handle_parsed, cut_block, drain,
  handle_block, handle_blocks, feed_all,
}
use computer_use_orchestrato.Api.Server.Stream.Blocks.{before, drain-some, drain-none}
use computer_use_orchestrato.Api.Server.Stream.Chunks.{concat, feed-drain, feed_all-concat}
use computer_use_orchestrato.Api.Server.Stream.Frames.{cut_block-block_of, block_of-filled}

module _ (at : ℕ → Env) (dumps : Fields → String) (loads : String → Option Json)
    (limits : StreamLimits) (session_id : String) where
  -- An event whose name and data fit on one line, and whose data `json.loads` reads back.
  pub record IsSendable (e : WorkerEvent) : Type 0 where
    pub name : IsToken e.event
    pub text : IsToken (dumps e.payload)
    pub back : loads (dumps e.payload) ≡ some (obj e.payload)

  abbrev pub AllSendable : List WorkerEvent → Type 0
  AllSendable [] = Unit
  AllSendable (e ∷ events) = IsSendable e × AllSendable events

  abbrev accept : WorkerEvent → StreamState → StreamState
  accept e st =
      let env = at st.event_count in
      record st {
        server =
            touch env.now session_id
              (persist_worker_event env session_id e.event e.payload st.server);
        event_count = st.event_count + 1;
        last_event_id = some (show e.id);
        sent = st.sent ++ sse_pack dumps e.event e.payload (some e.id) ∷ [];
      }

  -- What the stream of a session is to do with a worker's events: persist each in its order, note
  -- its id, and send it on as it came.
  unfoldable pub deliver : List WorkerEvent → StreamState → StreamState
  deliver [] st = st
  deliver (e ∷ events) st = deliver events (accept e st)

  block : WorkerEvent → String
  block e = block_of (show e.id) e.event (dumps e.payload)

  blocks : List WorkerEvent → List String
  blocks [] = []
  blocks (e ∷ events) = block e ∷ blocks events

  handle_block-accept :
      (e : WorkerEvent) (st : StreamState)
      → IsSendable e
      → handle_block at dumps loads limits session_id (block e) st ≡ accept e st
  unfolding block handle_block handle_parsed handle_event remember_id
  handle_block-accept e st h =
      let (pack, parse) =
        parse_sse_block-sse_pack dumps loads e.event e.payload e.id h.name h.text h.back in
      let id = show-IsToken e.id in
      rw (block_of-filled (show e.id) e.event (dumps e.payload), parse, id.filled)
        (ap (λ frame. record (accept e st) { sent = st.sent ++ frame ∷ [] }) (sym pack))

  handle_blocks-deliver :
      (events : List WorkerEvent) (st : StreamState)
      → AllSendable events
      → handle_blocks at dumps loads limits session_id (blocks events) st ≡ deliver events st
  unfolding blocks handle_blocks deliver
  handle_blocks-deliver [] st h = refl
  handle_blocks-deliver (e ∷ events) st (h, hs) =
      ap (handle_blocks at dumps loads limits session_id (blocks events))
        (handle_block-accept e st h)
      ∙ handle_blocks-deliver events (accept e st) hs

  drain-pack_all :
      (events : List WorkerEvent)
      → AllSendable events
      → drain (concat (pack_all dumps events)) ≡ (blocks events, "")
  unfolding pack_all blocks block
  drain-pack_all [] h = unfold cut_block in drain-none "" refl
  drain-pack_all (e ∷ events) (h, hs) =
      let (pack, parse) =
        parse_sse_block-sse_pack dumps loads e.event e.payload e.id h.name h.text h.back in
      let id = show-IsToken e.id in
      let rest = concat (pack_all dumps events) in
      ap (λ frame. drain (frame <> rest)) pack
      ∙ drain-some _ _ _ (
          cut_block-block_of (show e.id) e.event (dumps e.payload) rest id.one_line h.name.one_line
            h.text.one_line)
      ∙ ap (before (block e)) (drain-pack_all events hs)

  deliver-buffer :
      (events : List WorkerEvent) (st : StreamState) → (deliver events st).buffer ≡ st.buffer
  unfolding deliver
  deliver-buffer [] st = refl
  deliver-buffer (e ∷ events) st = deliver-buffer events (accept e st)

  -- However the frames that the worker packs from its events are cut into chunks, the stream
  -- persists exactly these events, in their order and each once, notes the id of the last and sends
  -- the same frames on, and no text is left in the buffer; if the buffer was empty before, the name
  -- and the JSON text of each event are texts of one line with no space at an end, and `json.loads`
  -- reads the data back.
  pub feed_all-deliver :
      (events : List WorkerEvent) (chunks : List String) (st : StreamState)
      → AllSendable events
      → concat chunks ≡ concat (pack_all dumps events)
      → st.buffer ≡ ""
      → feed_all at dumps loads limits session_id chunks st ≡ deliver events st
  feed_all-deliver events chunks st h cut fresh =
      let with : String → StreamState → StreamState =
        λ (b : String) (s : StreamState). record s { buffer = b } in
      let run : List String × String → StreamState = λ (d : List String × String).
        with d.1 (handle_blocks at dumps loads limits session_id d.0 st) in
      let empty : cut_block st.buffer ≡ none = ap cut_block fresh ∙ (unfold cut_block in refl) in
      let text = concat (pack_all dumps events) in
      feed_all-concat at dumps loads limits session_id chunks st empty
      ∙ feed-drain at dumps loads limits session_id (concat chunks) st
      ∙ ap run (
          ap drain (ap (λ b. b <> concat chunks) fresh ∙ nil-append (concat chunks) ∙ cut)
          ∙ drain-pack_all events h)
      ∙ ap (with "") (handle_blocks-deliver events st h)
      ∙ ap (λ b. with b (deliver events st)) (sym fresh ∙ sym (deliver-buffer events st))
