-- ===== src/Harness/Samples.antt =====
-- The theorems on the harness at concrete inputs.
use mathlib.Core.List.{Memᴰ}
use computer_use_orchestrato.Harness.Session.Events.{summarize_event}
use computer_use_orchestrato.Prelude.{
  strip, map, nat_eq, ◌&&◌, if◌then◌else◌, ℕ, ◌+◌, String, ◌<>◌, ◌≡◌, ◌⊎◌, refl, ◌&&◌, true, false,
  Option, none, some, List, [], ◌∷◌, arith, ok, any, is_empty,
}
use computer_use_orchestrato.Json.{Json, str, Fields, end, field}
use computer_use_orchestrato.Harness.Loop.{Goal, observation, escalation, Evidence, has_evidence}
use computer_use_orchestrato.Harness.Traces.{TraceStore}
use computer_use_orchestrato.Harness.Session.{SessionHarness, on_worker_event}
use computer_use_orchestrato.Harness.Session.Creation.{create}
use computer_use_orchestrato.Harness.Session.Invariant.{
  IsStored, event_item, said, run_events, run_events-create,
}
use computer_use_orchestrato.Harness.Session.Invariant.Consistency.{IsConsistent}
use computer_use_orchestrato.Harness.Session.Outcome.{is_late, gates_passed, done_again}
use computer_use_orchestrato.Harness.Memory.{HarnessMemory, mem0, blank}
use computer_use_orchestrato.Harness.Runner.{
  Port, Run, fresh_run, create_state, advance_state, advance_many,
}
use computer_use_orchestrato.Harness.Runner.Phases.{◌⟶◌, advance_state-⟶}
use computer_use_orchestrato.Harness.Runner.Remembering.{
  harness_port, HasOnce, advance_many-HasOnce,
}
use computer_use_orchestrato.Harness.Runner.Retries.{Inv, advance_many_bounded}
use computer_use_orchestrato.Harness.Runner.Cycle.{outcome}
use computer_use_orchestrato.Harness.Runner.Cycle.Attempts.{default_limits, Ended, Leads}
use computer_use_orchestrato.Harness.Queue.{
  Row, Table, available, claim_next_task, empty_table, enqueue_task, Call, enqueue, claim, complete,
  handed_out, perform, is_pending,
}
use computer_use_orchestrato.Harness.Queue.Claims.{no_pending_below, claim_next_task_cases}
use computer_use_orchestrato.Harness.Queue.Order.{Ascending, handed_out-empty_table}
use computer_use_orchestrato.Harness.Checkpoint.{
  Files, checkpoint_payload, load_checkpoint, save_interrupted, loaded,
}
use computer_use_orchestrato.Harness.Checkpoint.Decoding.{state_from_dict}
use computer_use_orchestrato.Harness.Checkpoint.RoundTrip.{state_from_dict-checkpoint_payload}
use computer_use_orchestrato.Harness.Checkpoint.Crash.{load_checkpoint-save_interrupted}

-- A memory that counts the evidence it took.
abbrev counting_port : Port
counting_port = record {
  Memory = ℕ;
  signature = λ g e. g.goal_id <> e.evidence_id;
  recall = λ text limit m. m;
  save = λ g e m. (m + 1, true);
}

outcome_example :
    Leads
      (default_limits 3 2 2)
      (Ended true 1)
      8
      (fresh_run {port = counting_port} "goal-1" "tidy up" (some 0))
outcome_example = outcome counting_port 3 2 2 "goal-1" "tidy up" (some 0) (omega arith)

advance_many_bounded_example :
    (r : Run counting_port) × (advance_many
        (default_limits 3 2 9)
        20
        (fresh_run "goal-1" "tidy up" (some 0))
      ≡ some r)
    × Inv 2 r.state
advance_many_bounded_example =
    advance_many_bounded (default_limits 3 2 9) "goal-1" "tidy up" (some 0) 20

abbrev start : Run counting_port
start = fresh_run "goal-1" "tidy up" (some 0)

abbrev after_step : Option (Run counting_port) → Run counting_port
after_step none = start
after_step (some r) = r

abbrev planned : Run counting_port
planned = after_step (advance_state (default_limits 3 2 9) start)

starts : advance_state (default_limits 3 2 9) start ≡ some planned
unfolding advance_state create_state
starts = refl

advance_state-⟶_example : start.state.phase ⟶ planned.state.phase
advance_state-⟶_example = advance_state-⟶ (default_limits 3 2 9) start starts

abbrev escalated : Run counting_port
escalated = record start { state = record (start.state) { phase = escalation } }

abbrev two_tasks : Table
two_tasks =
    (enqueue_task (field "goal" (str "b") end) "t2"
      (enqueue_task (field "goal" (str "a") end) "t1" empty_table).0).0

abbrev calls : List Call
calls =
    enqueue (field "goal" (str "a") end) "t1"
    ∷ enqueue (field "goal" (str "b") end) "t2"
    ∷ claim available "agent-1" "t3"
    ∷ claim available "agent-2" "t4"
    ∷ complete 1 "done" "t5"
    ∷ []

two_handed_out : handed_out calls empty_table ≡ 1 ∷ 2 ∷ []
unfolding handed_out perform
two_handed_out = refl

handed_out-empty_table_example : Ascending 0 (handed_out calls empty_table)
handed_out-empty_table_example = handed_out-empty_table calls

claim_next_task_cases_example :
    (any is_pending two_tasks.rows ≡ false)
      × (claim_next_task available "agent-1" "t3" two_tasks ≡ (two_tasks, ok none))
    ⊎ ((row : Row) × Memᴰ row two_tasks.rows
        × (row.status ≡ "pending")
        × (no_pending_below row.id two_tasks.rows ≡ true)
        × (claim_next_task available "agent-1" "t3" two_tasks ≡ (
          record two_tasks {
            rows =
                map
                  (λ r.
                    if nat_eq r.id row.id && is_pending r
                    then record r {
                      status = "claimed";
                      assigned_agent = some "agent-1";
                      updated_at = "t3";
                    }
                    else r)
                  two_tasks.rows;
          },
          ok (
              some (record {
                id = row.id;
                status = "claimed";
                assigned_agent = "agent-1";
                payload = row.payload;
                updated_at = "t3";
              })),
        )))
claim_next_task_cases_example = claim_next_task_cases "agent-1" "t3" two_tasks

abbrev no_files : Files
no_files _ = none

load_checkpoint-save_interrupted_example :
    (load_checkpoint "goal-1" "stamp" (save_interrupted 2 "now" start.state no_files)).1
    ≡ loaded start.state
unfolding create_state
load_checkpoint-save_interrupted_example =
    load_checkpoint-save_interrupted 2 "now" "stamp" start.state no_files

state_from_dict-checkpoint_payload_example :
    state_from_dict (checkpoint_payload "now" planned.state) ≡ ok planned.state
state_from_dict-checkpoint_payload_example = state_from_dict-checkpoint_payload "now" planned.state

abbrev no_repr : Json → String
no_repr v = ""

abbrev empty_store : TraceStore
empty_store = record { root_dir = "data/traces"; files = λ name. none }

abbrev fresh_session : SessionHarness
fresh_session = create "s-1" "tidy up" none empty_store

abbrev worker_run : List (String × Fields)
worker_run =
    ("screenshot", end) ∷ ("assistant_block", field "text" (str "looking") end) ∷ ("done", end) ∷ []

run_events-create_example :
    IsConsistent (run_events no_repr fresh_session worker_run)
    × IsStored (run_events no_repr fresh_session worker_run)
    × ((run_events no_repr fresh_session worker_run).trace.tool_events ≡ map event_item worker_run)
    × (map said (run_events no_repr fresh_session worker_run).state.observations
        ≡ ("Screenshot observation received", some "screenshot")
          ∷ ("looking", some "assistant_block")
          ∷ [])
unfolding summarize_event strip
run_events-create_example = run_events-create no_repr "s-1" "tidy up" none empty_store worker_run

abbrev answer : Evidence
answer = record {
  evidence_id = "evidence-s-1-1";
  goal_id = "s-1";
  kind = "answer";
  summary = "Worker completed task";
  artifact_id = some "data/traces/s-1.json";
  confidence = 1000000;
}

-- After its first `done`, and then in the observation phase.
abbrev answered : SessionHarness
answered = on_worker_event no_repr fresh_session "done" end

abbrev observed : SessionHarness
observed = record answered {
  state = record (answered.state) { evidence = answer ∷ []; phase = observation };
}

some_evidence : is_empty observed.state.evidence ≡ false
some_evidence = refl

abbrev finished_again : SessionHarness
finished_again = on_worker_event no_repr observed "done" end

done_again_example :
    (finished_again.state ≡ observed.state)
    × (gates_passed finished_again
        ≡ has_evidence observed.state (some "answer") && is_late observed.state.phase)
    × (finished_again.trace.final_status ≡ "completed")
done_again_example = done_again no_repr observed end some_evidence

abbrev empty_memory : HarnessMemory
empty_memory = record {
  memory_user_id = "demo";
  using_fallback = false;
  fallback_reason = none;
  backend = mem0;
  file = blank;
}

abbrev first_kind : Fields → String
first_kind d = "signature"

abbrev tidy_goal : Goal
tidy_goal = record { goal_id = "goal-1"; text = "tidy up"; success_criteria = [] }

abbrev with_memory : Run (harness_port first_kind (some "offline") "t1")
with_memory = fresh_run "goal-1" "tidy up" (some empty_memory)

abbrev after_first :
    Option (Run (harness_port first_kind (some "offline") "t1"))
    → Run (harness_port first_kind (some "offline") "t1")
after_first none = with_memory
after_first (some r) = r

abbrev recalled : Run (harness_port first_kind (some "offline") "t1")
recalled = after_first (advance_many (default_limits 3 2 9) 4 with_memory)

recalls : advance_many (default_limits 3 2 9) 4 with_memory ≡ some recalled
unfolding advance_state create_state
recalls = refl

advance_many-HasOnce_example :
    HasOnce first_kind (some "offline") "t1" "demo" "signature" recalled.memory
advance_many-HasOnce_example =
    advance_many-HasOnce first_kind (some "offline") "t1" "demo" "signature" refl
      (default_limits 3 2 9) 4 with_memory (omega arith) recalls
