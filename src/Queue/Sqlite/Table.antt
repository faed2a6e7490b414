-- ===== src/Queue/Sqlite/Table.antt =====
-- apps/agy_queue/storage.py: `SQLiteQueueStore`, the tables, `get` and `create_job`.
-- Each method runs in one immediate transaction, so it is one step on the database. `now` is the
-- time that a method is given or reads.
use blessing_ai.Prelude.{
  ℕ, String, Bool, Option, none, some, List, [], ◌∷◌, ◌++◌, any, or_else, ◌==◌, if◌then◌else◌,
}
use blessing_ai.Queue.Models.{has_id, JobStatus, JobRecord, status_eq}
use blessing_ai.Queue.Rows.{select_one}

-- a row of `job_results`
pub record StoredResult : Type 0 where
  pub job_id : ℕ
  pub result_json : String
  pub created_at : ℕ

-- a row of `job_events`
pub record StoredEvent : Type 0 where
  pub job_id : ℕ
  pub sequence : ℕ
  pub event_type : String
  pub raw_json : String
  pub created_at : ℕ

pub record Db : Type 0 where
  pub jobs : List JobRecord
  pub job_events : List StoredEvent
  pub job_results : List StoredResult

abbrev pub initial : Db
initial = record { jobs = []; job_events = []; job_results = [] }

-- What a method returns, or the exception that it raises.
pub data Outcome {ℓ} (A : Type ℓ) : Type ℓ where
  returned : A → Outcome A
  conflict : Outcome A
  integrity_error : Outcome A

abbrev pub is_status : JobStatus → JobRecord → Bool
is_status s j = status_eq j.status s

-- `_select_job`: the row, with the stored result in place of the column
abbrev pub stored_for : ℕ → StoredResult → Bool
stored_for i r = r.job_id == i

abbrev pub result_in : ℕ → List StoredResult → Option String
result_in i rs = elim (select_one (stored_for i) rs) [ none ↦ none | some r ↦ some r.result_json ]

abbrev pub stored_result : ℕ → Db → Option String
stored_result i db = result_in i db.job_results

abbrev pub with_result : Option String → JobRecord → JobRecord
with_result stored j = record j { result_json = or_else stored j.result_json }

unfoldable pub get : ℕ → Db → Option JobRecord
get i db = elim (select_one (has_id i) db.jobs) [
  | none ↦ none
  | some j ↦ some (with_result (stored_result i db) j)
]

-- `create_job`; the primary key makes a second job of one id an integrity error
unfoldable pub create_job : JobRecord → Db → Outcome JobRecord × Db
create_job j db =
    if any (has_id j.job_id) db.jobs
    then (conflict, db)
    else (returned j, record db { jobs = db.jobs ++ record j { result_json = none } ∷ [] })
