-- ===== src/Queue/Sqlite/Claim.antt =====
-- apps/agy_queue/storage.py: `SQLiteQueueStore`, `claim_next` and `heartbeat`.
use blessing_ai.Prelude.{
  ℕ, ◌+◌, ◌*◌, String, Bool, true, false, ◌&&◌, ◌||◌, not, Option, none, some, List, [], any,
  or_else, str_eq, ltb, leb, ◌==◌, if◌then◌else◌,
}
use blessing_ai.Queue.Models.{
  has_id, same_scope, pending, running, ready, JobKind, JobRecord, gate_eq, kind_in,
}
use blessing_ai.Queue.Rows.{update_where, count_where, select_all, first_by}
use blessing_ai.Queue.Sqlite.Table.{Db, is_status, get}

-- active.status = 'running' AND active.scope_key IS NOT NULL AND active.scope_key = jobs.scope_key
abbrev pub is_active_in : Option String → JobRecord → Bool
is_active_in scope active = is_status running active && same_scope active.scope_key scope

-- next_attempt_at IS NULL OR next_attempt_at <= now
abbrev pub is_due : ℕ → Option ℕ → Bool
is_due now none = true
is_due now (some t) = leb t now

abbrev pub kind_allowed : Option (List JobKind) → JobKind → Bool
kind_allowed none k = true
kind_allowed (some kinds) k = kind_in k kinds

-- the WHERE clause of `claim_next`
unfoldable pub is_eligible : ℕ → Option (List JobKind) → List JobRecord → JobRecord → Bool
is_eligible now kinds jobs j =
    is_status pending j
    && gate_eq j.gate_state ready
    && ltb j.attempt j.max_attempts
    && is_due now j.next_attempt_at
    && not (any (is_active_in j.scope_key) jobs)
    && kind_allowed kinds j.job_kind

-- ORDER BY created_at ASC, job_id ASC
abbrev pub comes_before : JobRecord → JobRecord → Bool
comes_before a b =
    ltb a.created_at b.created_at || (a.created_at == b.created_at && ltb a.job_id b.job_id)

-- `_lease_expiry`
abbrev pub lease_expiry : ℕ → ℕ → ℕ
lease_expiry now lease_ttl_sec = now + lease_ttl_sec * 1000

abbrev pub claimed : String → ℕ → ℕ → JobRecord → JobRecord
claimed worker now ttl j = record j {
  status = running;
  attempt = j.attempt + 1;
  lease_until = some (lease_expiry now ttl);
  worker_id = some worker;
  started_at = or_else j.started_at (some now);
  updated_at = now;
  error_code = none;
  stderr = none;
}

-- job_id=? AND status='pending'
abbrev pub is_pending_id : ℕ → JobRecord → Bool
is_pending_id i j = has_id i j && is_status pending j

abbrev pub claim_row : Option JobRecord → String → ℕ → ℕ → Db → Option JobRecord × Db
claim_row none worker now ttl db = (none, db)
claim_row (some row) worker now ttl db =
    let db' = record db {
      jobs = update_where (is_pending_id row.job_id) (claimed worker now ttl) db.jobs;
    } in
    (get row.job_id db', db')

-- `if not kinds: return None`
abbrev pub no_kinds : Option (List JobKind) → Bool
no_kinds (some []) = true
no_kinds _ = false

unfoldable pub next_row : ℕ → Option (List JobKind) → List JobRecord → Option JobRecord
next_row now kinds jobs = first_by comes_before (select_all (is_eligible now kinds jobs) jobs)

unfoldable pub claim_next : String → ℕ → ℕ → Option (List JobKind) → Db → Option JobRecord × Db
claim_next worker now ttl kinds db =
    if no_kinds kinds then (none, db) else claim_row (next_row now kinds db.jobs) worker now ttl db

-- `worker_id = ?`, false where the column is NULL
abbrev pub owned_by : String → Option String → Bool
owned_by worker none = false
owned_by worker (some w) = str_eq w worker

abbrev pub is_running_for : ℕ → String → JobRecord → Bool
is_running_for i worker j = has_id i j && is_status running j && owned_by worker j.worker_id

unfoldable pub heartbeat : ℕ → String → ℕ → ℕ → Db → Bool × Db
heartbeat i worker until now db =
    let p = is_running_for i worker in
    let beat = λ (j : JobRecord). record j { lease_until = some until; updated_at = now } in
    (count_where p db.jobs == 1, record db { jobs = update_where p beat db.jobs })
