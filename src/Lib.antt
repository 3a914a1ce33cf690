-- ===== src/Lib.antt =====
-- The computer-use orchestrator: a server that starts a worker container for each session, feeds
-- it messages, stores what it reports, and judges the work with a harness of loop state, gates,
-- budgets and traces.
--
-- Harness models computer_use_demo/harness, one module for each file. Loop is loop.py, Budgets
-- budgets.py, Grants tool_grants.py, Contracts contracts.py, Gates eval_gates.py, Triggers
-- triggers.py, Traces traces.py, Queue shared_task_queue.py, Memory memory.py. Session is
-- session_harness.py, whose `on_worker_event` ties those together for one session, with its start
-- in Session.Creation and the reading of an event in Session.Events. Runner and Checkpoint are the
-- two halves of runner.py, the phases of `advance_state`, with the gates and what follows from them
-- in Runner.Workflow, and the checkpoint files; RunLoop is `run_loop`, which joins them. The runner
-- asks its memory layer through the interface `Port`, which Runner.Remembering fills with Memory;
-- Memory.Search and Memory.Start are the search and the choice of the backend.
--
-- Api models computer_use_demo/api. Db holds the tables of db.py and the statements on them,
-- Artifacts and Retention the two larger parts of that file. Server is main.py: the state of the
-- process and the settings, and below it Events (`_persist_worker_event`, the stop of a worker),
-- Limits (authorisation and quotas), Requests (the handlers), Tasks (the worker task and one pass
-- of the cleanup loop), Stream (`sse_events` with its parser and its retries; the packing and
-- reading of one frame is Sse) and UiTokens (the signed tokens of the user interface, with their
-- handlers). Server.Events calls Harness.Session for the session that an event belongs to and
-- Api.Db for its row. A theorem stands in a module below the one it is about.
--
-- Worker models computer_use_demo/worker_api.py: the event log with its replay, and in
-- Worker.Tasks a task as the callbacks and waits of the sampling loop it runs. Sampling models
-- loop.py: the messages and the image filter, Cache the cache marks, Loop the rounds. Tools models
-- tools/: Base the results and their sum (base.py, run.py, collection.py), Text the text
-- operations of Python that are used, Edit and Edit.Commands the edit tool (edit.py), Bash the
-- bash tool (bash.py), Computer the computer tool (computer.py): Actions the commands that it runs,
-- Calls and Calls.Versions the calls.
--
-- State is passed explicitly. A handler is a `Request`: a function from the server's state to the
-- new state and a result or the HTTP error; what it did before it raised stays. A call of the
-- computer tool is an `Act`: the same for the desktop, with the reason why it stops. Each handler
-- and each transaction runs as one step, so concurrent agents and workers are a sequence of calls.
-- The clock is a natural number in a fixed unit that each operation is given; a fraction such as a
-- confidence or a cost counts millionths. New ids of `uuid4` are arguments or asked of the
-- desktop.
--
-- Parameters are Python's printing of floats, lists and dicts (`repr`), `json.dumps` and
-- `json.loads`, base64 and hashes (`Codec`, `UiTokens`), the answers of the API, the errors of the
-- file system and the output of `find`, the floats with which coordinates are scaled (`Floats`),
-- `shlex.quote`, the desktop with its commands and images (`Desktop`), the shell of the bash tool
-- (`Shell`) with the number of looks at its output before the timeout, `str.lower`, and the mem0
-- client. JSON files of the harness hold a value of the type Json or text that is not JSON, since
-- printing and parsing belong to the json package.
--
-- Loops are recursions on a list or on the number of steps, but for those that cut a text: the
-- blocks of a stream's buffer, the pieces of a text, the chunks that are typed, and the digits of
-- a number. Their fuel is the length of the text or the number itself, which is enough since each
-- round takes at least one character or divides by ten. The sampling loop, which the source bounds
-- by nothing, runs for a given number of rounds, and tells if it goes on after them.
--
-- Not modelled: the parsing of settings, the launching of containers, metrics and admin views, the
-- command line of the runner, the schema and its migrations, and all user interfaces and scripts.
-- Logging and printing are left out everywhere.
pub mod Prelude
pub mod Json
pub mod Harness
pub mod Api
pub mod Sampling
pub mod Tools
pub mod Worker
