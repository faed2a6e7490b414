-- ===== src/Queue/Sqlite/Retry.antt =====
-- apps/agy_queue/storage.py: `SQLiteQueueStore`, `schedule_retry`, `retry_failed` and `cancel`.
use blessing_ai.Prelude.{
  ℕ, String, Bool, true, false, ◌&&◌, ◌||◌, not, Option, none, some, ltb, ◌==◌, if◌then◌else◌,
}
use blessing_ai.Queue.Models.{
  has_id, JobStatus, pending, running, failed, cancelled, ready, blocked, JobRecord, is_unsafe,
}
use blessing_ai.Queue.Rows.{update_where, count_where, select_one}
use blessing_ai.Queue.Sqlite.Table.{Db, is_status}
use blessing_ai.Queue.Sqlite.Recover.{is_running_id}
use blessing_ai.Queue.Sqlite.Finish.{found_and}

-- the test that `schedule_retry` and `retry_failed` make on the row before they write
abbrev pub may_retry_from : JobStatus → JobRecord → Bool
may_retry_from s j =
    is_status s j && not (is_unsafe j.external_effect_class) && ltb j.attempt j.max_attempts

unfoldable pub schedule_retry : ℕ → ℕ → String → Option String → ℕ → Db → Bool × Db
schedule_retry i next code stderr now db =
    let f = λ (j : JobRecord). record j {
      status = pending;
      gate_state = ready;
      next_attempt_at = some next;
      error_code = some code;
      stderr = stderr;
      updated_at = now;
      lease_until = none;
      worker_id = none;
    } in
    let db' = record db { jobs = update_where (is_running_id i) f db.jobs } in
    if found_and (may_retry_from running) (select_one (has_id i) db.jobs)
    then (true, db')
    else (false, db)

unfoldable pub retry_failed : ℕ → ℕ → Db → Bool × Db
retry_failed i now db =
    let p = λ (j : JobRecord). has_id i j && is_status failed j in
    let f = λ (j : JobRecord). record j {
      status = pending;
      gate_state = ready;
      next_attempt_at = some now;
      error_code = some "manual_retry";
      stderr = none;
      finished_at = none;
      updated_at = now;
    } in
    let db' = record db { jobs = update_where p f db.jobs } in
    if found_and (may_retry_from failed) (select_one (has_id i) db.jobs)
    then (true, db')
    else (false, db)

unfoldable pub cancel : ℕ → ℕ → ℕ → Db → Bool × Db
cancel i finished now db =
    let p = λ (j : JobRecord). has_id i j && (is_status pending j || is_status running j) in
    let f = λ (j : JobRecord). record j {
      status = cancelled;
      gate_state = blocked;
      finished_at = some finished;
      updated_at = now;
      lease_until = none;
      worker_id = none;
    } in
    (count_where p db.jobs == 1, record db { jobs = update_where p f db.jobs })
