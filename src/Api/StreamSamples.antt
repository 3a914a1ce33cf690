-- ===== src/Api/StreamSamples.antt =====
-- The theorems on the event stream at concrete inputs.
use computer_use_orchestrato.Prelude.{
  ◌++◌, ℕ, ◌+◌, String, ◌<>◌, ◌==◌, ◌≡◌, refl, false, Option, none, some, List, [], ◌∷◌, show,
  strip, lstrip, rstrip, arith, if◌then◌else◌,
}
use computer_use_orchestrato.Json.{Json, Fields, obj, end}
use computer_use_orchestrato.Worker.{WorkerEvent, sse_pack}
use computer_use_orchestrato.Worker.Tasks.{pack_all}
use computer_use_orchestrato.Api.Sse.{parse_sse_block}
use computer_use_orchestrato.Api.Sse.Tokens.{IsToken}
use computer_use_orchestrato.Api.Sse.RoundTrip.{block_of, parse_sse_block-sse_pack}
use computer_use_orchestrato.Api.Server.{Env}
use computer_use_orchestrato.Api.Server.Stream.{
  refused, StreamState, StreamLimits, broken, unexpected, opened, Attempts, cut_block, feed,
  feed_all, run_stream,
}
use computer_use_orchestrato.Api.Server.Stream.Chunks.{concat, feed_all-concat}
use computer_use_orchestrato.Api.Server.Stream.Delivery.{deliver, feed_all-deliver}
use computer_use_orchestrato.Api.Server.Stream.Retries.{
  ReportsError, run_stream-gives_up, run_stream-reopened,
}
use computer_use_orchestrato.Api.Samples.{env, server}

abbrev at_event : ℕ → Env
at_event n = record env { now = 5000 + n }

-- The JSON texts of the one dictionary that the samples send.
abbrev dumps : Fields → String
dumps d = "{}"

abbrev loads : String → Option Json
loads text = if text == "{}" then some (obj end) else none

abbrev limits : StreamLimits
limits = record { retry_limit = 2; initial_backoff = 1; max_backoff = 8 }

abbrev fresh_stream : StreamState
fresh_stream = record {
  server = server;
  buffer = "";
  last_event_id = none;
  event_count = 0;
  sent = [];
}

empty_buffer : cut_block "" ≡ none
unfolding cut_block
empty_buffer = refl

feed_all-concat_example :
    feed_all at_event dumps loads limits "s-1"
      ("event: re" ∷ "ady\ndata: {}\n" ∷ "\n" ∷ [])
      fresh_stream
    ≡ feed at_event dumps loads limits "s-1"
        (concat ("event: re" ∷ "ady\ndata: {}\n" ∷ "\n" ∷ []))
        fresh_stream
feed_all-concat_example =
    feed_all-concat at_event dumps loads limits "s-1" ("event: re" ∷ "ady\ndata: {}\n" ∷ "\n" ∷ [])
      fresh_stream empty_buffer

name_IsToken : IsToken "tool_result"
unfolding strip lstrip rstrip
name_IsToken = record {
  one_line =
      (refl, (refl, (refl, (refl, (refl, (refl, (refl, (refl, (refl, (refl, (refl, tt)))))))))));
  stripped = refl;
  filled = refl;
}

text_IsToken : IsToken "{}"
unfolding strip lstrip rstrip
text_IsToken = record { one_line = (refl, (refl, tt)); stripped = refl; filled = refl }

parse_sse_block-sse_pack_example :
    (sse_pack dumps "tool_result" end (some 7)
      ≡ block_of (show 7) "tool_result" (dumps end) <> "\n\n")
    × (parse_sse_block loads (block_of (show 7) "tool_result" (dumps end))
        ≡ (some "tool_result", some end, some (show 7)))
parse_sse_block-sse_pack_example =
    parse_sse_block-sse_pack dumps loads "tool_result" end 7 name_IsToken text_IsToken refl

abbrev event : WorkerEvent
event = record { id = 7; event = "tool_result"; payload = end }

abbrev chunks : List String
chunks = "id: 7\nevent: tool" ∷ "_result\ndata: {}\n\n" ∷ []

cut_anyhow : concat chunks ≡ concat (pack_all dumps (event ∷ []))
unfolding pack_all sse_pack
cut_anyhow = refl

feed_all-deliver_example :
    feed_all at_event dumps loads limits "s-1" chunks fresh_stream
    ≡ deliver at_event dumps loads limits "s-1" (event ∷ []) fresh_stream
feed_all-deliver_example =
    feed_all-deliver at_event dumps loads limits "s-1" (event ∷ []) chunks fresh_stream
      (record { name = name_IsToken; text = text_IsToken; back = refl }, tt) cut_anyhow refl

abbrev starting : Attempts
starting = record { stream = fresh_stream; retries = 0; backoff = 1; ended = false }

-- After an open connection it takes two more failures.
run_stream-gives_up_example :
    let before =
      refused broken "a" ∷ opened ("event: " ∷ []) broken "b" ∷ refused unexpected "c" ∷ [] in
    let last = refused broken "d" in
    ReportsError at_event dumps loads limits "s-1" last 3
      (feed_all at_event dumps loads limits "s-1" ("event: " ∷ []) fresh_stream)
      (run_stream at_event dumps loads limits "s-1" (before ++ last ∷ []) starting)
unfolding feed_all
run_stream-gives_up_example =
    run_stream-gives_up at_event dumps loads limits "s-1"
      (refused broken "a" ∷ opened ("event: " ∷ []) broken "b" ∷ refused unexpected "c" ∷ []) []
      (refused broken "d") starting refl (omega arith) (omega arith)

run_stream-reopened_example :
    (run_stream at_event dumps loads limits "s-1"
      (opened ("event: to" ∷ []) broken "lost"
        ∷ opened ("event: ready\n\n" ∷ []) broken "lost"
        ∷ [])
      starting).stream
    ≡ feed_all at_event dumps loads limits "s-1"
        ("event: to" ∷ "event: ready\n\n" ∷ [])
        fresh_stream
run_stream-reopened_example =
    run_stream-reopened at_event dumps loads limits "s-1" ("event: to" ∷ [])
      ("event: ready\n\n" ∷ []) broken broken "lost" "lost" starting refl (omega arith)
