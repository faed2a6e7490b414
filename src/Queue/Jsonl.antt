-- ===== src/Queue/Jsonl.antt =====
-- apps/agy_queue/storage.py: `JsonlQueueStore`, the append-only files and what every method does with
-- them. A method holds the file lock, so it is one step. Each line of the files is one that the store
-- has written. `now` is the time that a method is given or reads.
pub mod Claim
pub mod Finish
pub mod Replay
pub mod Moves
pub mod Recovery
pub mod Runs
mod Tests
use blessing_ai.Prelude.{
  ℕ, String, Bool, Option, none, some, List, [], ◌∷◌, ◌++◌, any, ◌==◌, if◌then◌else◌,
}
use blessing_ai.Queue.Models.{has_id, JobRecord}
use blessing_ai.Queue.Rows.{select_one}
use blessing_ai.Queue.Sqlite.Table.{Outcome, returned, conflict}

-- a line, by its `record_type`
pub data Entry : Type 0 where
  job : JobRecord → Entry
  job_update : JobRecord → Entry
  event : ℕ → String → String → ℕ → Entry

-- the two files that `_read_jobs` reads
pub record Files : Type 0 where
  pub inbox : List Entry
  pub event_log : List Entry

abbrev pub no_files : Files
no_files = record { inbox = []; event_log = [] }

-- `jobs[job.job_id] = job` on a dictionary, which keeps the place of a key
unfoldable pub set_job : JobRecord → List JobRecord → List JobRecord
set_job j [] = j ∷ []
set_job j (x ∷ xs) = if x.job_id == j.job_id then j ∷ xs else x ∷ set_job j xs

-- the loop of `_read_jobs` over the lines of a file
unfoldable pub replay : List Entry → List JobRecord → List JobRecord
replay [] jobs = jobs
replay (Entry.job j ∷ es) jobs = replay es (set_job j jobs)
replay (Entry.job_update j ∷ es) jobs = replay es (set_job j jobs)
replay (Entry.event i t raw now ∷ es) jobs = replay es jobs

unfoldable pub read_jobs : Files → List JobRecord
read_jobs s = replay s.event_log (replay s.inbox [])

-- `_append` to the log, and `_append_update`
abbrev pub append_line : Entry → Files → Files
append_line e s = record s { event_log = s.event_log ++ e ∷ [] }

abbrev pub append_update : JobRecord → Files → Files
append_update j s = append_line (Entry.job_update j) s

-- `_mutate`; an operation that raises gives `none`, and then nothing is written
abbrev pub write_back : Option JobRecord → ℕ → Files → Outcome (Option JobRecord) × Files
write_back none now s = (conflict, s)
write_back (some j) now s =
    let j' = record j { updated_at = now } in (returned (some j'), append_update j' s)

abbrev pub mutate_job :
    Option JobRecord
    → (JobRecord → Option JobRecord)
    → ℕ
    → Files
    → Outcome (Option JobRecord) × Files
mutate_job none operation now s = (returned none, s)
mutate_job (some j) operation now s = write_back (operation j) now s

unfoldable pub mutate :
    ℕ → (JobRecord → Option JobRecord) → ℕ → Files → Outcome (Option JobRecord) × Files
mutate i operation now s = mutate_job (select_one (has_id i) (read_jobs s)) operation now s

-- `create_job`
unfoldable pub create_job : JobRecord → Files → Outcome JobRecord × Files
create_job j s =
    if any (has_id j.job_id) (read_jobs s)
    then (conflict, s)
    else (returned j, record s { inbox = s.inbox ++ Entry.job j ∷ [] })

-- `get`
unfoldable pub get : ℕ → Files → Option JobRecord
get i s = select_one (has_id i) (read_jobs s)

-- `append_event`
unfoldable pub append_event : ℕ → String → String → ℕ → Files → Files
append_event i event_type raw now s = append_line (Entry.event i event_type raw now) s

-- `update_conversation_id`
unfoldable pub update_conversation_id : ℕ → String → ℕ → Files → Files
update_conversation_id i conversation now s =
    (mutate i (λ j. some (record j { conversation_id = some conversation })) now s).1
