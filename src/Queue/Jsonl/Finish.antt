-- ===== src/Queue/Jsonl/Finish.antt =====
-- apps/agy_queue/storage.py: `JsonlQueueStore`, `mark_success`, `mark_failure`, `schedule_retry`,
-- `retry_failed` and `cancel`.
use blessing_ai.Prelude.{
  ℕ, String, Bool, ◌||◌, not, Option, none, some, or_else, str_eq, if◌then◌else◌,
}
use blessing_ai.Queue.Models.{
  has_id, GateState, JobRecord, pending, running, succeeded, failed, cancelled, ready, blocked,
}
use blessing_ai.Queue.Rows.{select_one}
use blessing_ai.Queue.Sqlite.Table.{Outcome, returned, conflict, integrity_error, is_status}
use blessing_ai.Queue.Sqlite.Finish.{may_finish, found_and, differs}
use blessing_ai.Queue.Sqlite.Retry.{may_retry_from}
use blessing_ai.Queue.Jsonl.{Files, read_jobs, mutate}

-- `new or old` on texts, where an empty text counts as none
abbrev pub or_text : Option String → Option String → Option String
or_text none old = old
or_text (some t) old = if str_eq t "" then old else some t

-- the answer `changed`, unless the operation raised
abbrev pub answer : Outcome (Option JobRecord) → Bool → Outcome Bool
answer (returned j) changed = returned changed
answer conflict changed = conflict
answer integrity_error changed = integrity_error

abbrev pub with_success :
    GateState → String → String → Option String → Option String → ℕ → JobRecord → JobRecord
with_success gate path serialized conversation head finished j = record j {
  status = succeeded;
  gate_state = gate;
  result_json = some serialized;
  result_path = some path;
  conversation_id = or_text conversation j.conversation_id;
  head_sha = or_text head j.head_sha;
  finished_at = some finished;
  lease_until = none;
  worker_id = none;
  error_code = none;
  stderr = none;
}

unfoldable pub mark_success :
    ℕ
    → String
    → String
    → String
    → Option String
    → Option String
    → GateState
    → ℕ
    → ℕ
    → Files
    → Outcome Bool × Files
mark_success i worker serialized path conversation head gate finished now s =
    let update = λ (j : JobRecord).
      if not (may_finish succeeded worker j)
      then some j
      else if differs j.result_json serialized
      then none
      else some (with_success gate path serialized conversation head finished j) in
    let (r, s') = mutate i update now s in
    (answer r (found_and (may_finish succeeded worker) (select_one (has_id i) (read_jobs s))), s')

abbrev pub with_failure :
    GateState → String → Option String → Option String → Option String → ℕ → JobRecord → JobRecord
with_failure gate code stderr serialized head finished j = record j {
  status = failed;
  gate_state = gate;
  error_code = some code;
  stderr = stderr;
  result_json = or_else serialized j.result_json;
  head_sha = or_text head j.head_sha;
  finished_at = some finished;
  lease_until = none;
  worker_id = none;
}

-- An operation that changes the job where `p` holds, and the answer whether it did.
abbrev pub change_where :
    ℕ → (JobRecord → Bool) → (JobRecord → JobRecord) → ℕ → Files → Bool × Files
change_where i p f now s = (
  found_and p (select_one (has_id i) (read_jobs s)),
  (mutate i (λ j. if p j then some (f j) else some j) now s).1,
)

unfoldable pub mark_failure :
    ℕ
    → String
    → String
    → Option String
    → Option String
    → Option String
    → GateState
    → ℕ
    → ℕ
    → Files
    → Bool × Files
mark_failure i worker code stderr serialized head gate finished now s =
    change_where i (may_finish failed worker)
      (with_failure gate code stderr serialized head finished) now s

unfoldable pub schedule_retry : ℕ → ℕ → String → Option String → ℕ → Files → Bool × Files
schedule_retry i next code stderr now s =
    let f = λ (j : JobRecord). record j {
      status = pending;
      gate_state = ready;
      next_attempt_at = some next;
      error_code = some code;
      stderr = stderr;
      lease_until = none;
      worker_id = none;
    } in
    change_where i (may_retry_from running) f now s

-- `retry_failed` is given one time and writes another to `updated_at`
unfoldable pub retry_failed : ℕ → ℕ → ℕ → Files → Bool × Files
retry_failed i due now s =
    let f = λ (j : JobRecord). record j {
      status = pending;
      gate_state = ready;
      next_attempt_at = some due;
      error_code = some "manual_retry";
      stderr = none;
      finished_at = none;
    } in
    change_where i (may_retry_from failed) f now s

unfoldable pub cancel : ℕ → ℕ → ℕ → Files → Bool × Files
cancel i finished now s =
    let f = λ (j : JobRecord). record j {
      status = cancelled;
      gate_state = blocked;
      finished_at = some finished;
      lease_until = none;
      worker_id = none;
    } in
    change_where i (λ j. is_status pending j || is_status running j) f now s
