-- ===== src/Queue/Sqlite/Calls.antt =====
-- apps/agy_queue/storage.py: the methods of `SQLiteQueueStore` as calls on the database, for
-- statements about any sequence of them.
use blessing_ai.Prelude.{ℕ, String, Option, List, [], ◌∷◌}
use blessing_ai.Queue.Models.{GateState, JobKind, JobRecord}
use blessing_ai.Queue.Jobs.{IsFresh}
use blessing_ai.Queue.Sqlite.Table
use blessing_ai.Queue.Sqlite.Table.{Db}
use blessing_ai.Queue.Sqlite.Claim
use blessing_ai.Queue.Sqlite.Recover
use blessing_ai.Queue.Sqlite.Events
use blessing_ai.Queue.Sqlite.Finish
use blessing_ai.Queue.Sqlite.Retry

-- The arguments of the methods that write, times included, in the methods' order.
pub data Call : Type 0 where
  create_job : JobRecord → Call
  claim_next : String → ℕ → ℕ → Option (List JobKind) → Call
  heartbeat : ℕ → String → ℕ → ℕ → Call
  recover_expired : ℕ → Call
  append_event : ℕ → String → String → ℕ → Call
  update_conversation_id : ℕ → String → ℕ → Call
  mark_success : ℕ → String → String → String → Option String → Option String → GateState → ℕ → Call
  mark_failure :
      ℕ → String → String → Option String → Option String → Option String → GateState → ℕ → Call
  schedule_retry : ℕ → ℕ → String → Option String → ℕ → Call
  retry_failed : ℕ → ℕ → Call
  cancel : ℕ → ℕ → ℕ → Call

unfoldable pub perform : Call → Db → Db
perform (Call.create_job j) db = (Table.create_job j db).1
perform (Call.claim_next w now ttl kinds) db = (Claim.claim_next w now ttl kinds db).1
perform (Call.heartbeat i w until now) db = (Claim.heartbeat i w until now db).1
perform (Call.recover_expired now) db = (Recover.recover_expired now db).1
perform (Call.append_event i t raw now) db = (Events.append_event i t raw now db).1
perform (Call.update_conversation_id i c now) db = Events.update_conversation_id i c now db
perform (Call.mark_success i w r path c head gate now) db =
    (Finish.mark_success i w r path c head gate now db).1
perform (Call.mark_failure i w code err r head gate now) db =
    (Finish.mark_failure i w code err r head gate now db).1
perform (Call.schedule_retry i next code err now) db =
    (Retry.schedule_retry i next code err now db).1
perform (Call.retry_failed i now) db = (Retry.retry_failed i now db).1
perform (Call.cancel i finished now) db = (Retry.cancel i finished now db).1

unfoldable pub perform_all : List Call → Db → Db
perform_all [] db = db
perform_all (c ∷ cs) db = perform_all cs (perform c db)

-- The queue's one caller of `create_job`, `submit`, creates only fresh jobs.
abbrev pub IsAdmissible : Call → Type 0
IsAdmissible (Call.create_job j) = IsFresh j
IsAdmissible _ = Unit
