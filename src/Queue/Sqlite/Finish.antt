-- ===== src/Queue/Sqlite/Finish.antt =====
-- apps/agy_queue/storage.py: `SQLiteQueueStore`, `mark_success` and `mark_failure`.
use blessing_ai.Prelude.{
  ℕ, String, Bool, false, ◌&&◌, ◌||◌, not, Option, none, some, List, [], ◌∷◌, or_else, str_eq, ltb,
  ◌==◌, if◌then◌else◌,
}
use blessing_ai.Queue.Models.{has_id, JobStatus, running, succeeded, failed, GateState, JobRecord}
use blessing_ai.Queue.Rows.{update_where, count_where, select_one}
use blessing_ai.Queue.Sqlite.Table.{
  Outcome, StoredResult, Db, is_status, stored_result, returned, conflict,
}
use blessing_ai.Queue.Sqlite.Claim.{owned_by}

-- INSERT INTO job_results … ON CONFLICT(job_id) DO UPDATE SET result_json=excluded.result_json
unfoldable pub put_result : ℕ → String → ℕ → List StoredResult → List StoredResult
put_result i result now [] = record { job_id = i; result_json = result; created_at = now } ∷ []
put_result i result now (r ∷ rs) =
    if r.job_id == i then record r { result_json = result } ∷ rs else r ∷ put_result i result now rs

-- status=? OR (status='running' AND worker_id=?)
abbrev pub may_finish : JobStatus → String → JobRecord → Bool
may_finish final worker j = is_status final j || is_status running j && owned_by worker j.worker_id

abbrev pub found_and : (JobRecord → Bool) → Option JobRecord → Bool
found_and p none = false
found_and p (some j) = p j

-- `existing and existing[0] != serialized`
abbrev pub differs : Option String → String → Bool
differs none s = false
differs (some r) s = not (str_eq r s)

abbrev pub finished_ok :
    GateState → String → String → Option String → Option String → ℕ → JobRecord → JobRecord
finished_ok gate path serialized conversation head now j = record j {
  status = succeeded;
  gate_state = gate;
  result_path = some path;
  result_json = some serialized;
  conversation_id = or_else conversation j.conversation_id;
  head_sha = or_else head j.head_sha;
  finished_at = some now;
  updated_at = now;
  lease_until = none;
  worker_id = none;
  error_code = none;
  stderr = none;
}

-- `serialized` is the text that `_json_dumps` makes of the result
unfoldable pub mark_success :
    ℕ
    → String
    → String
    → String
    → Option String
    → Option String
    → GateState
    → ℕ
    → Db
    → Outcome Bool × Db
mark_success i worker serialized path conversation head gate now db =
    let p = λ (j : JobRecord). has_id i j && may_finish succeeded worker j in
    let db' = record db {
      job_results = put_result i serialized now db.job_results;
      jobs = update_where p (finished_ok gate path serialized conversation head now) db.jobs;
    } in
    if not (found_and (may_finish succeeded worker) (select_one (has_id i) db.jobs))
    then (returned false, db)
    else if differs (stored_result i db) serialized
    then (conflict, db)
    else (returned (ltb 0 (count_where p db.jobs)), db')

abbrev pub finished_failed :
    GateState → String → Option String → Option String → Option String → ℕ → JobRecord → JobRecord
finished_failed gate code stderr serialized head now j = record j {
  status = failed;
  gate_state = gate;
  error_code = some code;
  stderr = stderr;
  result_json = or_else serialized j.result_json;
  head_sha = or_else head j.head_sha;
  finished_at = some now;
  updated_at = now;
  lease_until = none;
  worker_id = none;
}

abbrev pub put_some : ℕ → Option String → ℕ → List StoredResult → List StoredResult
put_some i none now rs = rs
put_some i (some result) now rs = put_result i result now rs

unfoldable pub mark_failure :
    ℕ
    → String
    → String
    → Option String
    → Option String
    → Option String
    → GateState
    → ℕ
    → Db
    → Bool × Db
mark_failure i worker code stderr serialized head gate now db =
    let p = λ (j : JobRecord). has_id i j && may_finish failed worker j in
    let db' = record db {
      job_results = put_some i serialized now db.job_results;
      jobs = update_where p (finished_failed gate code stderr serialized head now) db.jobs;
    } in
    if not (found_and (may_finish failed worker) (select_one (has_id i) db.jobs))
    then (false, db)
    else (ltb 0 (count_where p db.jobs), db')
