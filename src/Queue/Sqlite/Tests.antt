-- ===== src/Queue/Sqlite/Tests.antt =====
-- Runs of the SQLite store, and its theorems at concrete inputs.
use blessing_ai.Prelude.{
  ◌+◌, ◌≤◌, ◌≡◌, ◌≢◌, refl, inr, String, true, false, none, some, List, [], ◌∷◌, arith, eq_iff, All,
  In, here,
}
use mathlib.Core.Option
use blessing_ai.Queue.Models.{
  JobKind, JobSpec, JobRecord, pending, cancelled, ready, verified, blocked, no_effect,
  exchange_order, is_unsafe,
}
use blessing_ai.Queue.Jobs.{IsUnique}
use blessing_ai.Queue.Sqlite.Table.{Db, initial, get, create_job, returned}
use blessing_ai.Queue.Sqlite.Claim.{claim_next, heartbeat, claimed, is_eligible, next_row}
use blessing_ai.Queue.Sqlite.Recover.{recover_expired, recover_rows}
use blessing_ai.Queue.Sqlite.Finish.{mark_success, mark_failure, put_result}
use blessing_ai.Queue.Sqlite.Retry.{retry_failed, cancel}
use blessing_ai.Queue.Sqlite.Calls.{Call, perform, perform_all, IsAdmissible}
use blessing_ai.Queue.Rows.{Pointwise}
use blessing_ai.Queue.Sqlite.Expiry.{IsRecovered, IsLapsed}
use blessing_ai.Queue.Sqlite.Claims.{ClaimOutcome, claim_next_lem}
use blessing_ai.Queue.Sqlite.Runs.{one_running_per_scope}
use blessing_ai.Queue.Sqlite.Starts.{starts, started, starts_bounded, final_status_kept}
use blessing_ai.Queue.Sqlite.Fences.{
  foreign_worker_fenced, recover_expired_lem, failure_blocks_success,
}

abbrev spec : JobSpec
spec = record {
  job_id = 1;
  created_at = 10;
  prompt = "summarise";
  repo = "/repo";
  base_sha = none;
  model = "gemini";
  effort = "low";
  timeout_sec = 300;
  max_attempts = 2;
  raw_events_path = none;
  branch = none;
  session_key = none;
  scope_key = some "/repo";
  job_kind = JobKind.read_only;
  external_effect_class = no_effect;
  authorization_ref = none;
  verification_job_id = none;
  expected_output_schema = none;
}

abbrev fresh : JobSpec → JobRecord
fresh s = record {
  spec = s;
  updated_at = 10;
  status = pending;
  attempt = 0;
  lease_until = none;
  worker_id = none;
  conversation_id = none;
  result_path = none;
  result_json = none;
  error_code = none;
  stderr = none;
  started_at = none;
  finished_at = none;
  head_sha = none;
  next_attempt_at = none;
  gate_state = ready;
}

-- two jobs of one scope
abbrev submitted : List Call
submitted =
    Call.create_job (fresh spec)
    ∷ Call.create_job (fresh (record spec { job_id = 2; created_at = 9 }))
    ∷ []

submitted-IsAdmissible : All IsAdmissible submitted
submitted-IsAdmissible = ground arith

abbrev two_jobs : Db
two_jobs = record initial {
  jobs = fresh spec ∷ fresh (record spec { job_id = 2; created_at = 9 }) ∷ [];
}

two_jobs_run : perform_all submitted initial ≡ two_jobs
unfolding perform_all perform create_job
two_jobs_run = refl

abbrev running_job : JobRecord
running_job = claimed "a" 20 60 (fresh spec)

abbrev one_running : Db
one_running = record initial { jobs = running_job ∷ [] }

-- the older job is claimed first, and the other has to wait for its scope
claim_order :
    Option.map (λ (j : JobRecord). j.job_id) (claim_next "a" 20 60 none two_jobs).0 ≡ some 2
unfolding claim_next next_row is_eligible get
claim_order = refl

claim_waits : (claim_next "b" 30 60 none (claim_next "a" 20 60 none two_jobs).1).0 ≡ none
unfolding claim_next next_row is_eligible get
claim_waits = refl

two_jobs-IsUnique : IsUnique two_jobs.jobs
two_jobs-IsUnique = ((omega arith, tt), (tt, tt))

claim_next_lem_example : ClaimOutcome "a" 20 60 none two_jobs
claim_next_lem_example = claim_next_lem "a" 20 60 none two_jobs two_jobs-IsUnique

recover_expired_lem_example :
    let after = (recover_expired 70000 one_running).1 in
    Pointwise (IsRecovered 70000) one_running.jobs after.jobs
    × ((j : JobRecord) → In j after.jobs → ¬ (IsLapsed 70000 j))
    × (after ≡ record one_running { jobs = after.jobs })
recover_expired_lem_example = recover_expired_lem 70000 one_running (tt, tt)

recovered_ids : (recover_expired 70000 one_running).0 ≡ 1 ∷ []
unfolding recover_expired
recovered_ids = refl

foreign_worker_fenced_example :
    (heartbeat 1 "b" 90000 30 one_running ≡ (false, one_running))
    × (mark_success 1 "b" "{}" "r.json" none none verified 30 one_running
        ≡ (returned false, one_running))
    × (mark_failure 1 "b" "worker_error" none none none blocked 30 one_running
        ≡ (false, one_running))
foreign_worker_fenced_example =
    foreign_worker_fenced "b" one_running running_job (tt, tt) here refl
      (ground (arith, eq_iff "a" "b")) "{}" "r.json" "worker_error" none none none none verified
      blocked 90000 30

abbrev failed_db : Db
failed_db = (mark_failure 1 "a" "worker_error" none (some "{failed}") none blocked 40 one_running).1

failure_recorded :
    (mark_failure 1 "a" "worker_error" none (some "{failed}") none blocked 40 one_running).0 ≡ true
unfolding mark_failure
failure_recorded = refl

texts_differ : ◌≢◌ {A = String} "{failed}" "{succeeded}"
texts_differ = ground (arith, eq_iff "{failed}" "{succeeded}")

-- the retry is claimed, and its success cannot be recorded
abbrev retried_db : Db
retried_db = (claim_next "b" 60 60 none (retry_failed 1 50 failed_db).1).1

retry_claimed :
    Option.map
      (λ (j : JobRecord). j.attempt)
      (claim_next "b" 60 60 none (retry_failed 1 50 failed_db).1).0
    ≡ some 2
unfolding claim_next next_row is_eligible get retry_failed mark_failure put_result
retry_claimed = refl

failure_blocks_success_example :
    (mark_success 1 "b" "{succeeded}" "r.json" none none verified 70 retried_db).0 ≢ returned true
failure_blocks_success_example =
    failure_blocks_success 1 "a" "worker_error" "{failed}" none none blocked 40 50 60 70 60 "b"
      "{succeeded}" "r.json" none none none verified one_running failure_recorded texts_differ

abbrev claimed_once : List Call
claimed_once = Call.create_job (fresh spec) ∷ Call.claim_next "a" 20 60 none ∷ []

claimed_once_run : perform_all claimed_once initial ≡ one_running
unfolding perform_all perform create_job claim_next next_row is_eligible
claimed_once_run = refl

claimed_once-IsAdmissible : All IsAdmissible claimed_once
claimed_once-IsAdmissible = ground arith

running_job_present : In running_job (perform_all claimed_once initial).jobs
unfolding perform_all perform create_job claim_next next_row is_eligible
running_job_present = here

one_running_per_scope_example : running_job ≡ running_job
one_running_per_scope_example =
    one_running_per_scope claimed_once "/repo" claimed_once-IsAdmissible running_job_present
      running_job_present refl refl refl refl

abbrev order_spec : JobSpec
order_spec = record spec {
  job_kind = JobKind.trading_order;
  external_effect_class = exchange_order;
}

abbrev order_submitted : List Call
order_submitted = Call.create_job (fresh order_spec) ∷ []

-- the lease of an unsafe job lapses, an operator retries it, and a worker asks for it again
abbrev order_history : List Call
order_history =
    Call.claim_next "a" 20 60 none
    ∷ Call.recover_expired 70000
    ∷ Call.retry_failed 1 70010
    ∷ Call.claim_next "b" 70020 60 none
    ∷ []

order_present : In (fresh order_spec) (perform_all order_submitted initial).jobs
unfolding perform_all perform create_job
order_present = here

starts_bounded_example :
    let n = starts 1 order_history (perform_all order_submitted initial) in
    (0 + n ≤ 2) × (is_unsafe exchange_order ≡ true → 0 + n ≤ 1)
starts_bounded_example =
    starts_bounded order_submitted order_history {x = fresh order_spec} (ground arith)
      (ground arith) order_present

order_started_once : starts 1 order_history (perform_all order_submitted initial) ≡ 1
unfolding starts started perform_all perform create_job claim_next next_row is_eligible get
    recover_expired recover_rows retry_failed
order_started_once = refl

abbrev cancelled_job : JobRecord
cancelled_job = record (fresh spec) {
  status = cancelled;
  gate_state = blocked;
  finished_at = some 12;
  updated_at = 12;
}

abbrev cancelled_calls : List Call
cancelled_calls = Call.create_job (fresh spec) ∷ Call.cancel 1 12 12 ∷ []

cancelled_present : In cancelled_job (perform_all cancelled_calls initial).jobs
unfolding perform_all perform create_job cancel
cancelled_present = here

final_status_kept_example :
    (y : JobRecord) × In y (perform_all order_history (perform_all cancelled_calls initial)).jobs
    × (y.job_id ≡ 1)
    × (y.status ≡ cancelled)
final_status_kept_example =
    final_status_kept cancelled_calls order_history {x = cancelled_job} (ground arith)
      (ground arith) cancelled_present (inr refl)
