-- ===== src/Queue/Jsonl/Tests.antt =====
-- Runs of the JSONL store, and its theorem at a concrete input.
use blessing_ai.Prelude.{◌≡◌, refl, none, some, List, [], ◌∷◌, arith}
use mathlib.Core.Option
use blessing_ai.Queue.Models.{
  JobKind, JobSpec, JobRecord, pending, ready, verified, blocked, no_effect,
}
use blessing_ai.Queue.Jobs.Invariant.{IsValid}
use blessing_ai.Queue.Sqlite.Table.{conflict}
use blessing_ai.Queue.Sqlite.Claim.{is_eligible, next_row}
use blessing_ai.Queue.Jsonl.{Files, no_files, create_job, set_job, replay, read_jobs, get, mutate}
use blessing_ai.Queue.Jsonl.Claim.{claim_next}
use blessing_ai.Queue.Jsonl.Finish.{mark_success, mark_failure, retry_failed}
use blessing_ai.Queue.Jsonl.Runs.{JsonlCall, call_all, call_all-IsValid}

abbrev spec : JobSpec
spec = record {
  job_id = 1;
  created_at = 10;
  prompt = "summarise";
  repo = "/repo";
  base_sha = none;
  model = "gemini";
  effort = "low";
  timeout_sec = 300;
  max_attempts = 2;
  raw_events_path = none;
  branch = none;
  session_key = none;
  scope_key = some "/repo";
  job_kind = JobKind.read_only;
  external_effect_class = no_effect;
  authorization_ref = none;
  verification_job_id = none;
  expected_output_schema = none;
}

abbrev fresh : JobRecord
fresh = record {
  spec = spec;
  updated_at = 10;
  status = pending;
  attempt = 0;
  lease_until = none;
  worker_id = none;
  conversation_id = none;
  result_path = none;
  result_json = none;
  error_code = none;
  stderr = none;
  started_at = none;
  finished_at = none;
  head_sha = none;
  next_attempt_at = none;
  gate_state = ready;
}

abbrev created : Files
created = (create_job fresh no_files).1

created_jobs : read_jobs created ≡ fresh ∷ []
unfolding create_job read_jobs replay set_job
created_jobs = refl

fresh-IsValid : IsValid (fresh ∷ [])
fresh-IsValid = ground arith

created-IsValid : IsValid (read_jobs created)
created-IsValid = rw created_jobs fresh-IsValid

-- a claim whose lease lapses, and a second worker
abbrev history : List JsonlCall
history =
    JsonlCall.claim_next "a" 20 60 none
    ∷ JsonlCall.recover_expired 70000
    ∷ JsonlCall.claim_next "b" 70020 60 none
    ∷ JsonlCall.mark_failure 1 "b" "worker_error" none (some "{failed}") none blocked 70030 70031
    ∷ JsonlCall.retry_failed 1 70040 70041
    ∷ []

call_all-IsValid_example : IsValid (read_jobs (call_all history created))
call_all-IsValid_example = call_all-IsValid history created created-IsValid

abbrev failed_files : Files
failed_files =
    (mark_failure 1 "a" "worker_error" none (some "{failed}") none blocked 30 31
      (claim_next "a" 20 60 none created).1).1

abbrev retried_files : Files
retried_files = (claim_next "b" 50 60 none (retry_failed 1 40 41 failed_files).1).1

-- the retried job is running for its second worker, and its success is refused
retried_attempt : Option.map (λ (j : JobRecord). j.attempt) (get 1 retried_files) ≡ some 2
unfolding get claim_next next_row is_eligible retry_failed mark_failure mutate create_job read_jobs
    replay set_job
retried_attempt = refl

retried_refused :
    (mark_success 1 "b" "{succeeded}" "r.json" none none verified 60 61 retried_files).0 ≡ conflict
unfolding mark_success claim_next next_row is_eligible retry_failed mark_failure mutate create_job
    read_jobs replay set_job
retried_refused = refl
