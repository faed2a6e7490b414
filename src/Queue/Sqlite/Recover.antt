-- ===== src/Queue/Sqlite/Recover.antt =====
-- apps/agy_queue/storage.py: `SQLiteQueueStore`, `recover_expired`.
use blessing_ai.Prelude.{
  ℕ, Bool, false, ◌&&◌, ◌||◌, Option, none, some, List, [], ◌∷◌, map, ltb, leb, if◌then◌else◌,
}
use blessing_ai.Queue.Models.{
  has_id, pending, running, failed, ready, blocked, JobRecord, is_unsafe,
}
use blessing_ai.Queue.Rows.{update_where, select_all}
use blessing_ai.Queue.Sqlite.Table.{Db, is_status}

-- lease_until IS NOT NULL AND lease_until < now
abbrev pub has_expired : ℕ → Option ℕ → Bool
has_expired now none = false
has_expired now (some t) = ltb t now

abbrev pub is_expired : ℕ → JobRecord → Bool
is_expired now j = is_status running j && has_expired now j.lease_until

-- the two UPDATE statements in the loop of `recover_expired`
abbrev pub lapsed : ℕ → Bool → JobRecord → JobRecord
lapsed now unsafe j = record j {
  status = failed;
  gate_state = blocked;
  error_code =
      some (if unsafe then "external_effect_uncertain" else "lease_expired_attempts_exhausted");
  finished_at = some now;
  updated_at = now;
  lease_until = none;
  worker_id = none;
}

abbrev pub requeued : ℕ → JobRecord → JobRecord
requeued now j = record j {
  status = pending;
  gate_state = ready;
  error_code = some "lease_expired";
  next_attempt_at = some now;
  updated_at = now;
  lease_until = none;
  worker_id = none;
}

-- The choice is made on the row that was selected, the write on the row that has its id.
abbrev pub recovered : ℕ → JobRecord → JobRecord → JobRecord
recovered now row j =
    let unsafe = is_unsafe row.external_effect_class in
    let exhausted = leb row.max_attempts row.attempt in
    if unsafe || exhausted then lapsed now unsafe j else requeued now j

abbrev pub is_running_id : ℕ → JobRecord → Bool
is_running_id i j = has_id i j && is_status running j

-- the loop of `recover_expired` over the selected rows
unfoldable pub recover_rows : ℕ → List JobRecord → List JobRecord → List JobRecord
recover_rows now [] jobs = jobs
recover_rows now (row ∷ rows) jobs =
    recover_rows now rows (update_where (is_running_id row.job_id) (recovered now row) jobs)

abbrev pub id_of : JobRecord → ℕ
id_of j = j.job_id

unfoldable pub recover_expired : ℕ → Db → List ℕ × Db
recover_expired now db =
    let rows = select_all (is_expired now) db.jobs in
    (map id_of rows, record db { jobs = recover_rows now rows db.jobs })
