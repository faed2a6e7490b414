-- ===== src/Queue/Sqlite/Events.antt =====
-- apps/agy_queue/storage.py: `SQLiteQueueStore`, `append_event` and
-- `update_conversation_id`.
use Prim.Native.Nat.{max}
use blessing_ai.Prelude.{ℕ, ◌+◌, String, some, List, [], ◌∷◌, ◌++◌, any, ◌==◌, if◌then◌else◌}
use blessing_ai.Queue.Models.{has_id, JobRecord}
use blessing_ai.Queue.Rows.{update_where}
use blessing_ai.Queue.Sqlite.Table.{Outcome, StoredEvent, Db, returned, integrity_error}

-- COALESCE(MAX(sequence), 0)
abbrev pub max_sequence : ℕ → List StoredEvent → ℕ
max_sequence i [] = 0
max_sequence i (e ∷ es) =
    if e.job_id == i then max e.sequence (max_sequence i es) else max_sequence i es

-- `append_event`; the foreign key makes an event of no job an integrity error
unfoldable pub append_event : ℕ → String → String → ℕ → Db → Outcome (Unit {0}) × Db
append_event i event_type raw now db =
    let event : StoredEvent = record {
      job_id = i;
      sequence = max_sequence i db.job_events + 1;
      event_type = event_type;
      raw_json = raw;
      created_at = now;
    } in
    if any (has_id i) db.jobs
    then (returned tt, record db { job_events = db.job_events ++ event ∷ [] })
    else (integrity_error, db)

unfoldable pub update_conversation_id : ℕ → String → ℕ → Db → Db
update_conversation_id i conversation now db =
    let f = λ (j : JobRecord). record j { conversation_id = some conversation; updated_at = now } in
    record db { jobs = update_where (has_id i) f db.jobs }
