-- ===== src/Queue/Lifecycle.antt =====
-- What one operation of a queue store may do to one job: an abstract state machine, which the rows
-- of both backends follow, and the invariant of a job under it.
use blessing_ai.Prelude.{◌+◌, ◌≤◌, ◌<◌, ◌≡◌, ◌≢◌, ◌⊎◌, true, false, none, arith}
use blessing_ai.Queue.Models.{
  pending, running, succeeded, failed, cancelled, ready, JobRecord, is_unsafe, is_terminal,
}

-- No worker owns the job.
pub record IsUnowned (j : JobRecord) : Type 0 where
  pub no_lease : j.lease_until ≡ none
  pub no_worker : j.worker_id ≡ none

abbrev pub IsSafe : JobRecord → Type 0
IsSafe j = is_unsafe j.external_effect_class ≡ false

-- A worker takes a ready job that has attempts left.
pub record Claim (j k : JobRecord) : Type 0 where
  pub same_spec : k.spec ≡ j.spec
  pub was_pending : j.status ≡ pending
  pub was_ready : j.gate_state ≡ ready
  pub had_attempts : j.attempt < j.max_attempts
  pub is_running : k.status ≡ running
  pub counted : k.attempt ≡ j.attempt + 1
  pub leased : k.lease_until ≢ none
  pub owned : k.worker_id ≢ none
  pub same_end : k.finished_at ≡ j.finished_at

-- Any other change of a job. Every move keeps `spec`. In the constructors `j` is the job before and `k` the job after.
pub data Move (j k : JobRecord) : Type 0 where
  -- nothing that the machine looks at changes, except a lease that a running job renews
  touch :
      k.spec ≡ j.spec
      → k.status ≡ j.status
      → k.attempt ≡ j.attempt
      → k.worker_id ≡ j.worker_id
      → k.finished_at ≡ j.finished_at
      → (k.lease_until ≡ j.lease_until) ⊎ ((j.status ≡ running) × (k.lease_until ≢ none))
      → Move j k
  -- a running job goes back to the queue, only if its effect may be repeated
  requeue :
      k.spec ≡ j.spec
      → j.status ≡ running
      → IsSafe j
      → j.attempt < j.max_attempts
      → k.status ≡ pending
      → k.attempt ≡ j.attempt
      → IsUnowned k
      → k.finished_at ≡ j.finished_at
      → Move j k
  -- a running job ends, or a job that has ended so is confirmed
  finish :
      k.spec ≡ j.spec
      → (j.status ≡ running) ⊎ (j.status ≡ k.status)
      → (k.status ≡ succeeded) ⊎ (k.status ≡ failed)
      → k.attempt ≡ j.attempt
      → IsUnowned k
      → k.finished_at ≢ none
      → Move j k
  -- an operator retries a failed job
  retry :
      k.spec ≡ j.spec
      → j.status ≡ failed
      → IsSafe j
      → j.attempt < j.max_attempts
      → k.status ≡ pending
      → k.attempt ≡ j.attempt
      → k.lease_until ≡ j.lease_until
      → k.worker_id ≡ j.worker_id
      → k.finished_at ≡ none
      → Move j k
  cancel :
      k.spec ≡ j.spec
      → (j.status ≡ pending) ⊎ (j.status ≡ running)
      → k.status ≡ cancelled
      → k.attempt ≡ j.attempt
      → IsUnowned k
      → k.finished_at ≢ none
      → Move j k

-- The invariant of a job.
pub record IsSound (j : JobRecord) : Type 0 where
  pub bounded : j.attempt ≤ j.max_attempts
  pub leased : j.status ≡ running → j.lease_until ≢ none
  pub owned : j.status ≡ running → j.worker_id ≢ none
  pub unleased : j.status ≢ running → j.lease_until ≡ none
  pub unowned : j.status ≢ running → j.worker_id ≡ none
  pub ended : is_terminal j.status ≡ true → j.finished_at ≢ none
  pub not_ended : is_terminal j.status ≡ false → j.finished_at ≡ none
  pub once : is_unsafe j.external_effect_class ≡ true → j.attempt ≤ 1
  pub untried : is_unsafe j.external_effect_class ≡ true → j.status ≡ pending → j.attempt ≡ 0

pub Move-IsSound : {j k : JobRecord} → Move j k → IsSound j → IsSound k
Move-IsSound (touch a b c d e f) s = ground arith
Move-IsSound (requeue a b c d e f g h) s = ground arith
Move-IsSound (finish a b c d e f) s = ground arith
Move-IsSound (retry a b c d e f g h i) s = ground arith
Move-IsSound (cancel a b c d e f) s = ground arith

pub Claim-IsSound : {j k : JobRecord} → Claim j k → IsSound j → IsSound k
Claim-IsSound c s = ground arith

pub Move-spec : {j k : JobRecord} → Move j k → k.spec ≡ j.spec
Move-spec (touch h _ _ _ _ _) = h
Move-spec (requeue h _ _ _ _ _ _ _) = h
Move-spec (finish h _ _ _ _ _) = h
Move-spec (retry h _ _ _ _ _ _ _ _) = h
Move-spec (cancel h _ _ _ _ _) = h

pub Move-attempt : {j k : JobRecord} → Move j k → k.attempt ≡ j.attempt
Move-attempt (touch _ _ h _ _ _) = h
Move-attempt (requeue _ _ _ _ _ h _ _) = h
Move-attempt (finish _ _ _ h _ _) = h
Move-attempt (retry _ _ _ _ _ h _ _ _) = h
Move-attempt (cancel _ _ _ h _ _) = h

-- Only a claim starts a job.
pub Move-running : {j k : JobRecord} → Move j k → k.status ≡ running → j.status ≡ running
Move-running (touch a b c d e f) h = ground arith
Move-running (requeue a b c d e f g i) h = ground arith
Move-running (finish a b c d e f) h = ground arith
Move-running (retry a b c d e f g i l) h = ground arith
Move-running (cancel a b c d e f) h = ground arith

-- What has succeeded or was cancelled stays so.
pub Move-final :
    {j k : JobRecord}
    → Move j k
    → (j.status ≡ succeeded) ⊎ (j.status ≡ cancelled)
    → k.status ≡ j.status
Move-final (touch a b c d e f) h = b
Move-final (requeue a b c d e f g i) h = ground arith
Move-final (finish a b c d e f) h = ground arith
Move-final (retry a b c d e f g i l) h = ground arith
Move-final (cancel a b c d e f) h = ground arith
