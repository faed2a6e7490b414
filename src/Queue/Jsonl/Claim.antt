-- ===== src/Queue/Jsonl/Claim.antt =====
-- apps/agy_queue/storage.py: `JsonlQueueStore`, `claim_next`, `heartbeat` and `recover_expired`.
use blessing_ai.Prelude.{
  ℕ, String, Bool, ◌&&◌, Option, none, some, List, [], ◌∷◌, map, if◌then◌else◌,
}
use blessing_ai.Queue.Models.{JobKind, JobRecord, running}
use blessing_ai.Queue.Rows.{select_one, select_all}
use blessing_ai.Queue.Sqlite.Table.{is_status}
use blessing_ai.Queue.Sqlite.Claim.{claimed, next_row, owned_by}
use blessing_ai.Queue.Sqlite.Recover.{id_of, is_expired, recovered}
use blessing_ai.Queue.Sqlite.Finish.{found_and}
use blessing_ai.Queue.Models.{has_id}
use blessing_ai.Queue.Jsonl.{Files, read_jobs, append_update, mutate}

abbrev pub claim_job : Option JobRecord → String → ℕ → ℕ → Files → Option JobRecord × Files
claim_job none worker now ttl s = (none, s)
claim_job (some j) worker now ttl s =
    let j' = claimed worker now ttl j in (some j', append_update j' s)

-- the candidates are the eligible rows, and `min` is the first of them
unfoldable pub claim_next :
    String → ℕ → ℕ → Option (List JobKind) → Files → Option JobRecord × Files
claim_next worker now ttl kinds s = claim_job (next_row now kinds (read_jobs s)) worker now ttl s

abbrev pub is_owned_run : String → JobRecord → Bool
is_owned_run worker j = is_status running j && owned_by worker j.worker_id

-- `heartbeat` appends a line whether the caller owns the job or not
unfoldable pub heartbeat : ℕ → String → ℕ → ℕ → Files → Bool × Files
heartbeat i worker until now s =
    let beat = λ (j : JobRecord).
      if is_owned_run worker j then some (record j { lease_until = some until }) else some j in
    (found_and (is_owned_run worker) (select_one (has_id i) (read_jobs s)), (mutate i beat now s).1)

-- the lines that `recover_expired` appends, one for each expired job
abbrev pub append_recovered : ℕ → List JobRecord → Files → Files
append_recovered now [] s = s
append_recovered now (j ∷ js) s = append_recovered now js (append_update (recovered now j j) s)

unfoldable pub recover_expired : ℕ → Files → List ℕ × Files
recover_expired now s =
    let rows = select_all (is_expired now) (read_jobs s) in
    (map id_of rows, append_recovered now rows s)
