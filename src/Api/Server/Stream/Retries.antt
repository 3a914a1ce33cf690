-- ===== src/Api/Server/Stream/Retries.antt =====
-- The reconnections of a stream: main.py `sse_events`.
use computer_use_orchestrato.Prelude.{
  ℕ, ◌+◌, ◌*◌, ◌≤◌, ◌<◌, String, ◌<>◌, show, ◌≡◌, refl, sym, ap, ◌∙◌, subst, true, false, Option,
  List, [], ◌∷◌, ◌++◌, arith, ltb,
}
use computer_use_orchestrato.Json.{Json, Fields, field, str, end}
use computer_use_orchestrato.Api.Server.{Env}
use computer_use_orchestrato.Api.Server.Events.{persist_worker_event}
use computer_use_orchestrato.Api.Server.Stream.{
  StreamState, StreamLimits, Failure, broken, unexpected, Connection, refused, opened, Attempts,
  min_of, give_up, feed, feed_all, fail, connect, run_stream,
}

-- What a connection hands on before it fails.
abbrev pub chunks_of : Connection → List String
chunks_of (refused failure error) = []
chunks_of (opened chunks failure error) = chunks

abbrev pub all_chunks : List Connection → List String
all_chunks [] = []
all_chunks (c ∷ cs) = chunks_of c ++ all_chunks cs

-- The failures in a row once this connection has failed: one that was open starts a new row.
abbrev pub failures_after : Connection → ℕ → ℕ
failures_after (refused failure error) n = n + 1
failures_after (opened chunks failure error) n = 1

abbrev pub failures_in_a_row : List Connection → ℕ → ℕ
failures_in_a_row [] n = n
failures_in_a_row (c ∷ cs) n = failures_in_a_row cs (failures_after c n)

-- None of the connections makes a row that is longer than the limit.
abbrev pub StaysWithin : ℕ → List Connection → ℕ → Type 0
StaysWithin limit [] n = Unit
StaysWithin limit (c ∷ cs) n =
    (failures_after c n ≤ limit) × StaysWithin limit cs (failures_after c n)

abbrev pub kind_text : Failure → String
kind_text broken = "worker SSE stream error after "
kind_text unexpected = "Unexpected worker SSE stream error after "

abbrev pub message_text : Failure → String → ℕ → String
message_text failure error n = kind_text failure <> (show n <> (" attempt(s): " <> error))

-- The message of the stream's error, if this connection is the last and n failed in a row.
abbrev pub last_message : Connection → ℕ → String
last_message (refused failure error) n = message_text failure error n
last_message (opened chunks failure error) n = message_text failure error n

module _ (at : ℕ → Env) (dumps : Fields → String) (loads : String → Option Json)
    (limits : StreamLimits) (session_id : String) where
  run_stream-ended :
      (connections : List Connection) (a : Attempts)
      → a.ended ≡ true
      → run_stream at dumps loads limits session_id connections a ≡ a
  unfolding run_stream
  run_stream-ended [] a h = refl
  run_stream-ended (c ∷ connections) a h = rw h

  run_stream-going :
      (c : Connection) (connections : List Connection) (a : Attempts)
      → a.ended ≡ false
      → run_stream at dumps loads limits session_id (c ∷ connections) a
        ≡ run_stream at dumps loads limits session_id connections
            (connect at dumps loads limits session_id c a)
  unfolding run_stream
  run_stream-going c connections a h = rw h

  fail-waits :
      (failure : Failure) (error : String) (a : Attempts)
      → a.retries < limits.retry_limit
      → fail at dumps loads limits session_id failure error a
        ≡ record a { retries = a.retries + 1; backoff = min_of limits.max_backoff (a.backoff * 2) }
  unfolding fail
  fail-waits failure error a below =
      let short : ltb limits.retry_limit (a.retries + 1) ≡ false = ground arith in rw short

  fail-ends :
      (failure : Failure) (error : String) (a : Attempts)
      → limits.retry_limit < a.retries + 1
      → fail at dumps loads limits session_id failure error a ≡ record a {
        stream =
            give_up at dumps loads limits session_id
              (message_text failure error (a.retries + 1))
              a.stream;
        retries = a.retries + 1;
        ended = true;
      }
  unfolding fail
  fail-ends broken error a h =
      let over : ltb limits.retry_limit (a.retries + 1) ≡ true = ground arith in rw over
  fail-ends unexpected error a h =
      let over : ltb limits.retry_limit (a.retries + 1) ≡ true = ground arith in rw over

  feed_all-append :
      (xs ys : List String) (st : StreamState)
      → feed_all at dumps loads limits session_id (xs ++ ys) st
        ≡ feed_all at dumps loads limits session_id ys
            (feed_all at dumps loads limits session_id xs st)
  unfolding feed_all
  feed_all-append [] ys st = refl
  feed_all-append (x ∷ xs) ys st =
      feed_all-append xs ys (feed at dumps loads limits session_id x st)

  -- An open connection that has failed, before the failure is counted
  abbrev reopened : List String → Attempts → Attempts
  reopened chunks a = record a {
    stream = feed_all at dumps loads limits session_id chunks a.stream;
    retries = 0;
    backoff = limits.initial_backoff;
  }

  -- A connection that fails within the limit hands its chunks on, and the stream goes on.
  record Continues (c : Connection) (a b : Attempts) : Type 0 where
    stream : b.stream ≡ feed_all at dumps loads limits session_id (chunks_of c) a.stream
    retries : b.retries ≡ failures_after c a.retries
    ended : b.ended ≡ a.ended

  connect-Continues :
      (c : Connection) (a : Attempts)
      → failures_after c a.retries ≤ limits.retry_limit
      → Continues c a (connect at dumps loads limits session_id c a)
  unfolding connect feed_all
  connect-Continues (refused failure error) a within =
      rw (fail-waits failure error a (omega arith))
        (record { stream = refl; retries = refl; ended = refl })
  connect-Continues (opened chunks failure error) a within =
      rw (fail-waits failure error (reopened chunks a) (omega arith))
        (record { stream = refl; retries = refl; ended = refl })

  -- The stream has ended after n failures in a row with this connection as the last. What it does to a
  -- state is to persist one `error` event with the message and to send the same event.
  abbrev pub ReportsError : Connection → ℕ → StreamState → Attempts → Type 0
  ReportsError last n st final =
      let d = field "message" (str (last_message last n)) end in
      (final.stream ≡ record st {
        server = persist_worker_event (at st.event_count) session_id "error" d st.server;
        sent = st.sent ++ ("event: error\ndata: " <> (dumps d <> "\n\n")) ∷ [];
      })
      × (final.ended ≡ true)
      × (final.retries ≡ n)

  connect-ReportsError :
      (last : Connection) (a : Attempts)
      → limits.retry_limit < failures_after last a.retries
      → ReportsError last
          (failures_after last a.retries)
          (feed_all at dumps loads limits session_id (chunks_of last) a.stream)
          (connect at dumps loads limits session_id last a)
  unfolding connect give_up feed_all
  connect-ReportsError (refused failure error) a over =
      rw (fail-ends failure error a over) (refl, refl, refl)
  connect-ReportsError (opened chunks failure error) a over =
      rw (fail-ends failure error (reopened chunks a) over) (refl, refl, refl)

  -- The stream ends after the first connection whose failure makes more failures in a row than the
  -- retry limit, where a connection that was open starts a new row. Until then it has handled the
  -- chunks of all connections, in order; in the end it persists one `error` event and sends the
  -- same event, with the kind and the text of the last failure and the number in the row as its
  -- message, and does nothing else. Later connections are not made.
  pub run_stream-gives_up :
      (before after : List Connection) (last : Connection) (a : Attempts)
      → a.ended ≡ false
      → StaysWithin limits.retry_limit before a.retries
      → limits.retry_limit < failures_after last (failures_in_a_row before a.retries)
      → ReportsError last
          (failures_after last (failures_in_a_row before a.retries))
          (feed_all at dumps loads limits session_id
            (chunks_of last)
            (feed_all at dumps loads limits session_id (all_chunks before) a.stream))
          (run_stream at dumps loads limits session_id (before ++ last ∷ after) a)
  unfolding feed_all
  run_stream-gives_up [] after last a going within over =
      let (stream, ended, retries) = connect-ReportsError last a over in
      let whole =
        run_stream-going last after a going
        ∙ run_stream-ended after (connect at dumps loads limits session_id last a) ended in
      (
        ap (λ x. x.stream) whole ∙ stream,
        ap (λ x. x.ended) whole ∙ ended,
        ap (λ x. x.retries) whole ∙ retries,
      )
  run_stream-gives_up (c ∷ cs) after last a going (first, within) over =
      let b = connect at dumps loads limits session_id c a in
      let k = connect-Continues c a first in
      let ih =
        run_stream-gives_up cs after last b (k.ended ∙ going)
          (subst (StaysWithin limits.retry_limit cs) (sym k.retries) within)
          (subst (λ n. limits.retry_limit < failures_after last (failures_in_a_row cs n))
            (sym k.retries) over) in
      let feeds = feed_all at dumps loads limits session_id in
      let row = λ (n : ℕ). failures_after last (failures_in_a_row cs n) in
      let rest = cs ++ last ∷ after in
      let fed : feeds (all_chunks cs) b.stream ≡ feeds (chunks_of c ++ all_chunks cs) a.stream =
        ap (feeds (all_chunks cs)) k.stream
        ∙ sym (feed_all-append (chunks_of c) (all_chunks cs) a.stream) in
      subst (ReportsError last (row (failures_after c a.retries)) _)
        (sym (run_stream-going c rest a going))
        (subst
          (λ (st : StreamState).
            ReportsError last (row (failures_after c a.retries)) (feeds (chunks_of last) st)
              (run_stream at dumps loads limits session_id rest b))
          fed
          (subst
            (λ (n : ℕ).
              ReportsError last (row n) (feeds (chunks_of last) (feeds (all_chunks cs) b.stream))
                (run_stream at dumps loads limits session_id rest b))
            k.retries ih))

  connect-opened :
      (chunks : List String) (failure : Failure) (error : String) (a : Attempts)
      → 0 < limits.retry_limit
      → connect at dumps loads limits session_id (opened chunks failure error) a ≡ record a {
        stream = feed_all at dumps loads limits session_id chunks a.stream;
        retries = 0 + 1;
        backoff = min_of limits.max_backoff (limits.initial_backoff * 2);
      }
  unfolding connect
  connect-opened chunks failure error a some_retry =
      fail-waits failure error
        (record a {
          stream = feed_all at dumps loads limits session_id chunks a.stream;
          retries = 0;
          backoff = limits.initial_backoff;
        })
        some_retry

  -- A connection that was open and fails leaves its text in the buffer: if a retry is allowed, the
  -- chunks of the next connection are read as if they continued those of the last.
  pub run_stream-reopened :
      (xs ys : List String) (f g : Failure) (d e : String) (a : Attempts)
      → a.ended ≡ false
      → 0 < limits.retry_limit
      → (run_stream at dumps loads limits session_id (opened xs f d ∷ opened ys g e ∷ []) a).stream
        ≡ feed_all at dumps loads limits session_id (xs ++ ys) a.stream
  unfolding run_stream
  run_stream-reopened xs ys f g d e a going some_retry =
      let once = connect-opened xs f d a some_retry in
      let first = connect at dumps loads limits session_id (opened xs f d) a in
      let still : first.ended ≡ false = ap (λ x. x.ended) once ∙ going in
      ap (λ x. x.stream)
        (run_stream-going (opened xs f d) (opened ys g e ∷ []) a going
          ∙ run_stream-going (opened ys g e) [] first still
          ∙ connect-opened ys g e first some_retry)
      ∙ ap (λ x. feed_all at dumps loads limits session_id ys x.stream) once
      ∙ sym (feed_all-append xs ys a.stream)
