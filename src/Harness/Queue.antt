-- ===== src/Harness/Queue.antt =====
-- harness/shared_task_queue.py: the task table in SQLite that the agents share. A call is one
-- transaction, so agents that run at once are a sequence of calls. `now` is the timestamp.
pub mod Order
pub mod Claims
use computer_use_orchestrato.Prelude.{
  ℕ, ◌+◌, String, ◌==◌, Bool, false, Option, none, some, List, [], ◌∷◌, ◌++◌, map, ltb, nat_eq,
  if◌then◌else◌, Result, ok, err,
}
use computer_use_orchestrato.Json.{Fields}

-- The columns of `tasks`.
pub record Row : Type 0 where
  pub id : ℕ
  pub status : String
  pub assigned_agent : Option String
  pub payload : Fields
  pub result : Option String
  pub updated_at : String

-- The rows, and the last id that AUTOINCREMENT gave out.
pub record Table : Type 0 where
  pub rows : List Row
  pub last_id : ℕ

pub record ClaimedTask : Type 0 where
  pub id : ℕ
  pub status : String
  pub assigned_agent : String
  pub payload : Fields
  pub updated_at : String

-- `init_queue` on a database without the table.
abbrev pub empty_table : Table
empty_table = record { rows = []; last_id = 0 }

unfoldable pub enqueue_task : Fields → String → Table → Table × ℕ
enqueue_task payload now t =
    let id = t.last_id + 1 in
    let row : Row = record {
      id = id;
      status = "pending";
      assigned_agent = none;
      payload = payload;
      result = none;
      updated_at = now;
    } in
    (record { rows = t.rows ++ row ∷ []; last_id = id }, id)

abbrev pub is_pending : Row → Bool
is_pending row = row.status == "pending"

-- The row with the lower id.
abbrev lower : Row → Option Row → Row
lower row none = row
lower row (some other) = if ltb other.id row.id then other else row

-- `SELECT … WHERE status = 'pending' ORDER BY id LIMIT 1`
unfoldable pub first_pending : List Row → Option Row
first_pending [] = none
first_pending (row ∷ rest) =
    let later = first_pending rest in if is_pending row then some (lower row later) else later

-- `UPDATE … SET … WHERE …`
abbrev pub update_where : (Row → Bool) → (Row → Row) → List Row → List Row
update_where test change = map (λ row. if test row then change row else row)

-- What SQLite answers to `BEGIN IMMEDIATE` and the statements after it.
pub data Database : Type 0 where
  available locked failing : Database

pub data QueueError : Type 0 where
  busy database_error : QueueError

claim_row : String → String → Table → Option Row → Table × Option ClaimedTask
claim_row agent_id now t none = (t, none)
claim_row agent_id now t (some row) = (
  record t {
    rows =
        update_where (λ r. if nat_eq r.id row.id then is_pending r else false)
          (λ r. record r { status = "claimed"; assigned_agent = some agent_id; updated_at = now })
          t.rows;
  },
  some (record {
    id = row.id;
    status = "claimed";
    assigned_agent = agent_id;
    payload = row.payload;
    updated_at = now;
  }),
)

-- A locked database is a `RuntimeError`; any other failure rolls back and is raised again.
unfoldable pub claim_next_task :
    Database → String → String → Table → Table × Result QueueError (Option ClaimedTask)
unfolding claim_row first_pending
claim_next_task available agent_id now t =
    let (t', claimed) = claim_row agent_id now t (first_pending t.rows) in (t', ok claimed)
claim_next_task locked agent_id now t = (t, err busy)
claim_next_task failing agent_id now t = (t, err database_error)

-- `result` is the text that is stored: the string, or the JSON text of the dict.
unfoldable pub complete_task : ℕ → String → String → Table → Table
complete_task task_id result now t = record t {
  rows =
      update_where (λ r. nat_eq r.id task_id)
        (λ r. record r { status = "completed"; result = some result; updated_at = now }) t.rows;
}

-- The calls of the agents, in the order in which they take the write lock.
pub data Call : Type 0 where
  enqueue : Fields → String → Call
  claim : Database → String → String → Call
  complete : ℕ → String → String → Call

abbrev claimed_id : Result QueueError (Option ClaimedTask) → List ℕ
claimed_id (ok (some task)) = task.id ∷ []
claimed_id _ = []

-- The table after a call, and the id that it handed out for work, if any.
unfoldable pub perform : Call → Table → Table × List ℕ
unfolding enqueue_task claim_next_task complete_task
perform (enqueue payload now) t = ((enqueue_task payload now t).0, [])
perform (claim db agent_id now) t =
    let (t', result) = claim_next_task db agent_id now t in (t', claimed_id result)
perform (complete task_id result now) t = (complete_task task_id result now t, [])

-- All the ids that were handed out, in order.
unfoldable pub handed_out : List Call → Table → List ℕ
handed_out [] t = []
handed_out (c ∷ rest) t = let (t', ids) = perform c t in ids ++ handed_out rest t'
