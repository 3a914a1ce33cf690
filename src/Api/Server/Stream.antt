-- ===== src/Api/Server/Stream.antt =====
-- api/main.py: `sse_events`, the stream of a worker's events to a client, with its reconnections.
-- `at n` is the time and what the outside gives when the n-th event is handled. `dumps` and `loads`
-- are `json.dumps` and `json.loads`. The limits are those of the settings.
pub mod Blocks
pub mod Chunks
pub mod Frames
pub mod Delivery
pub mod Retries
use Prim.Native.Char.{Char, code}
use Prim.Native.String.{count}
use computer_use_orchestrato.Prelude.{
  ℕ, zero, suc, ◌+◌, ◌*◌, String, ◌<>◌, Bool, true, false, not, ◌&&◌, Option, none, some, List, [],
  ◌∷◌, ◌++◌, ltb, nat_eq, truthy, strip, show, if◌then◌else◌, is_some, ok,
}
use computer_use_orchestrato.Json.{Json, str, Fields, end, field}
use computer_use_orchestrato.Api.Server.{
  Server, Env, Request, ◌>>=◌, ◌>>◌, reject_if, modify, pure, touch, get_session, DevIdentity,
}
use computer_use_orchestrato.Api.Server.Events.{persist_worker_event}
use computer_use_orchestrato.Api.Server.Limits.{authorize_session}
use computer_use_orchestrato.Api.Sse.{SseEvent, parse_sse_block}

abbrev is_newline : Char → Bool
is_newline c = nat_eq (code c) 10

abbrev pub push_char : Char → Option (String × String) → Option (String × String)
push_char c none = none
push_char c (some (block, rest)) = some (String.◌∷◌ c block, rest)

-- `buffer.split("\n\n", 1)`, if the blank line is in the buffer
unfoldable pub cut_block : String → Option (String × String)
cut_block String.[] = none
cut_block (String.◌∷◌ c String.[]) = none
cut_block (String.◌∷◌ c (String.◌∷◌ d s)) =
    let more = cut_block (String.◌∷◌ d s) in
    if is_newline c && is_newline d then some ("", s) else push_char c more

-- The inner `while`: the blocks of a buffer, and what is left of it.
unfoldable pub drain_from : ℕ → String → List String × String
drain_from zero buffer = ([], buffer)
drain_from (suc fuel) buffer = elim (cut_block buffer) [
  | none ↦ ([], buffer)
  | some (block, rest) ↦ let (blocks, left) = drain_from fuel rest in (block ∷ blocks, left)
]

-- A block and its blank line take two characters at least, so this fuel is enough.
unfoldable pub drain : String → List String × String
drain buffer = drain_from (suc (count buffer)) buffer

pub record StreamState : Type 0 where
  pub server : Server
  pub buffer : String
  pub last_event_id : Option String
  pub event_count : ℕ
  pub sent : List String

pub record StreamLimits : Type 0 where
  pub retry_limit : ℕ
  pub initial_backoff : ℕ
  pub max_backoff : ℕ

-- What a connection to the worker comes to: it fails before the answer, or it is open for these
-- chunks and then fails or ends. A failure is one of the protocol or the network, or another.
pub data Failure : Type 0 where
  broken unexpected : Failure

pub data Connection : Type 0 where
  refused : Failure → String → Connection
  opened : List String → Failure → String → Connection

-- The state of the loop between two connections: the failures in a row, the next delay, and whether
-- the stream has ended with an error.
pub record Attempts : Type 0 where
  pub stream : StreamState
  pub retries : ℕ
  pub backoff : ℕ
  pub ended : Bool

abbrev pub min_of : ℕ → ℕ → ℕ
min_of a b = if ltb b a then b else a

abbrev failure_text : Failure → String
failure_text broken = "worker SSE stream error after "
failure_text unexpected = "Unexpected worker SSE stream error after "

module _ (at : ℕ → Env) (dumps : Fields → String) (loads : String → Option Json)
    (limits : StreamLimits) (session_id : String) where
  unfoldable pub handle_event : Option String → Option Fields → StreamState → StreamState
  handle_event (some name) (some d) st =
      let env = at st.event_count in
      record st {
        server = touch env.now session_id (persist_worker_event env session_id name d st.server);
        event_count = st.event_count + 1;
      }
  handle_event _ _ st = st

  unfoldable pub remember_id : Option String → StreamState → StreamState
  remember_id none st = st
  remember_id (some id) st = if truthy id then record st { last_event_id = some id } else st

  unfoldable pub handle_parsed : String → SseEvent → StreamState → StreamState
  unfolding handle_event remember_id
  handle_parsed block (name, d, id) st =
      let noted = remember_id id (handle_event name d st) in
      record noted { sent = noted.sent ++ (block <> "\n\n") ∷ [] }

  -- The body of the inner `while`.
  unfoldable pub handle_block : String → StreamState → StreamState
  unfolding handle_parsed strip
  handle_block block st =
      if truthy (strip block) then handle_parsed block (parse_sse_block loads block) st else st

  unfoldable pub handle_blocks : List String → StreamState → StreamState
  handle_blocks [] st = st
  handle_blocks (block ∷ blocks) st = handle_blocks blocks (handle_block block st)

  -- One round of `async for chunk in r.aiter_text()`. A block is handled before the next is cut,
  -- and does not look at the buffer.
  unfoldable pub feed : String → StreamState → StreamState
  feed chunk st =
      let (blocks, left) = drain (st.buffer <> chunk) in
      handle_blocks blocks (record st { buffer = left })

  unfoldable pub feed_all : List String → StreamState → StreamState
  feed_all [] st = st
  feed_all (chunk ∷ chunks) st = feed_all chunks (feed chunk st)

  unfoldable pub give_up : String → StreamState → StreamState
  give_up message st =
      let d = field "message" (str message) end in
      let env = at st.event_count in
      record st {
        server = persist_worker_event env session_id "error" d st.server;
        sent = st.sent ++ ("event: error\ndata: " <> (dumps d <> "\n\n")) ∷ [];
      }

  -- The two `except` branches.
  unfoldable pub fail : Failure → String → Attempts → Attempts
  unfolding give_up
  fail failure error a =
      let retries = a.retries + 1 in
      let message = failure_text failure <> (show retries <> (" attempt(s): " <> error)) in
      if ltb limits.retry_limit retries
      then record a { stream = give_up message a.stream; retries = retries; ended = true }
      else record a { retries = retries; backoff = min_of limits.max_backoff (a.backoff * 2) }

  unfoldable pub connect : Connection → Attempts → Attempts
  connect (refused failure error) a = fail failure error a
  connect (opened chunks failure error) a = fail failure error (record a {
    stream = feed_all chunks a.stream;
    retries = 0;
    backoff = limits.initial_backoff;
  })

  -- The outer `while`, for as long as the client listens.
  unfoldable pub run_stream : List Connection → Attempts → Attempts
  run_stream [] a = a
  run_stream (c ∷ connections) a =
      let rest = run_stream connections (connect c a) in if a.ended then a else rest

  -- `sse_events`; `header` is the client's `Last-Event-ID`.
  unfoldable pub sse_events : Option String → DevIdentity → List Connection → Request (List String)
  unfolding run_stream
  sse_events header identity connections = do
    authorize_session session_id identity
    x ← get_session session_id
    modify (λ s. touch (at 0).now session_id s)
    reject_if (not (is_some x.worker)) 500 "Worker not started"
    λ s.
        let a = run_stream connections (record {
          stream = record {
            server = s;
            buffer = "";
            last_event_id = header;
            event_count = 0;
            sent = [];
          };
          retries = 0;
          backoff = limits.initial_backoff;
          ended = false;
        }) in
        (a.stream.server, ok a.stream.sent)
