-- ===== src/Queue/Jsonl/Moves.antt =====
-- The methods of the JSONL store follow the lifecycle of a job.
use mathlib.Core.Path.{subst}
use blessing_ai.Prelude.{
  ℕ, ◌≡◌, refl, ap, inl, inr, String, Bool, true, ◌||◌, not, Option, none, some, List, arith, In,
  Bool-cases, Option-cases, if◌then◌else◌,
}
use blessing_ai.Queue.Models.{
  has_id, GateState, JobKind, JobRecord, pending, running, succeeded, failed,
}
use blessing_ai.Queue.Rows.{select_one, select_one-In}
use blessing_ai.Queue.Lifecycle.{Move, touch, requeue, finish, retry, cancel, Move-spec}
use blessing_ai.Queue.Jobs.{Moved, Evolves, moves, claims, IsFree, IsUnique, Moved-refl, stay}
use blessing_ai.Queue.Sqlite.Table.{is_status}
use blessing_ai.Queue.Sqlite.Claim.{claimed, is_eligible, next_row}
use blessing_ai.Queue.Sqlite.Finish.{may_finish, differs}
use blessing_ai.Queue.Sqlite.Retry.{may_retry_from}
use blessing_ai.Queue.Sqlite.Order.{next_row-IsNext}
use blessing_ai.Queue.Sqlite.Moves.{scope-IsFree}
use blessing_ai.Queue.Jsonl
use blessing_ai.Queue.Jsonl.{Files, read_jobs, append_update, mutate, mutate_job}
use blessing_ai.Queue.Jsonl.Claim
use blessing_ai.Queue.Jsonl.Claim.{claim_job, is_owned_run}
use blessing_ai.Queue.Jsonl.Finish
use blessing_ai.Queue.Jsonl.Finish.{change_where, with_success, with_failure}
use blessing_ai.Queue.Jsonl.Replay.{read_updated, set_job-Moved, set_job-Claimed}

-- The lifecycle does not look at the time of the last update.
stamped : (now : ℕ) {x y : JobRecord} → Move x y → Move x (record y { updated_at = now })
stamped now (touch a b c d e f) = touch a b c d e f
stamped now (requeue a b c d e f g h) =
    requeue a b c d e f (record { no_lease = g.no_lease; no_worker = g.no_worker }) h
stamped now (finish a b c d e f) =
    finish a b c d (record { no_lease = e.no_lease; no_worker = e.no_worker }) f
stamped now (retry a b c d e f g h i) = retry a b c d e f g h i
stamped now (cancel a b c d e f) =
    cancel a b c d (record { no_lease = e.no_lease; no_worker = e.no_worker }) f

-- An operation that may raise, and moves the job where it does not.
abbrev IsOperation : (JobRecord → Option JobRecord) → Type 0
IsOperation operation = (x y : JobRecord) → operation x ≡ some y → Move x y

write_back-Moved :
    (o : Option JobRecord) (now : ℕ) (s : Files) {x : JobRecord}
    → IsUnique (read_jobs s)
    → In x (read_jobs s)
    → ((y : JobRecord) → o ≡ some y → Move x y)
    → Moved (read_jobs s) (read_jobs (Jsonl.write_back o now s).1)
write_back-Moved none now s u i h = Moved-refl (read_jobs s)
write_back-Moved (some y) now s {x} u i h =
    let j = record y { updated_at = now } in
    let m : Move x j = stamped now (h y refl) in
    rw (read_updated j s) (set_job-Moved (read_jobs s) u i (ap (λ p. p.job_id) (Move-spec m)) m)

mutate-Moved :
    (i : ℕ) (operation : JobRecord → Option JobRecord) (now : ℕ) (s : Files)
    → IsUnique (read_jobs s)
    → IsOperation operation
    → Moved (read_jobs s) (read_jobs (mutate i operation now s).1)
unfolding mutate
mutate-Moved i operation now s u h = elim (Option-cases (select_one (has_id i) (read_jobs s))) [
  | inl e ↦ rw e (Moved-refl (read_jobs s))
  | inr (x, e) ↦
      let (m, _) = select_one-In (has_id i) (read_jobs s) e in
      rw e (write_back-Moved (operation x) now s u m (h x))
]

moved_to : {x y z : JobRecord} → Move x y → y ≡ z → Move x z
moved_to {x} m e = subst (Move x) e m

-- An operation under a test.
under_test :
    (p : JobRecord → Bool) (f : JobRecord → JobRecord)
    → ((x : JobRecord) → p x ≡ true → Move x (f x))
    → IsOperation (λ j. if p j then some (f j) else some j)
under_test p f h x y e = elim (Bool-cases (p x)) [
  | inl q ↦ let same : some (f x) ≡ some y = rw q at e in moved_to (h x q) (cc same)
  | inr q ↦ let same : some x ≡ some y = rw q at e in moved_to (stay x) (cc same)
]

-- The operation of `mark_success`.
success-IsOperation :
    (w r : String) (f : JobRecord → JobRecord)
    → ((x : JobRecord) → may_finish succeeded w x ≡ true → Move x (f x))
    → IsOperation (λ j.
      if not (may_finish succeeded w j)
      then some j
      else if differs j.result_json r
      then none
      else some (f j))
success-IsOperation w r f h x y e = elim (Bool-cases (may_finish succeeded w x)) [
  | inl q ↦ elim (Bool-cases (differs x.result_json r)) [
    | inl d ↦ let none_some : none ≡ some y = rw (q, d) at e in cc none_some
    | inr d ↦ let same : some (f x) ≡ some y = rw (q, d) at e in moved_to (h x q) (cc same)
  ]
  | inr q ↦ let same : some x ≡ some y = rw q at e in moved_to (stay x) (cc same)
]

module _ (i : ℕ) (now : ℕ) (s : Files) (u : IsUnique (read_jobs s)) where
  change_where-Moved :
      (p : JobRecord → Bool) (f : JobRecord → JobRecord)
      → ((x : JobRecord) → p x ≡ true → Move x (f x))
      → Moved (read_jobs s) (read_jobs (change_where i p f now s).1)
  change_where-Moved p f h = mutate-Moved i _ now s u (under_test p f h)

  pub heartbeat-Moved :
      (w : String) (until : ℕ) → Moved (read_jobs s) (read_jobs (Claim.heartbeat i w until now s).1)
  unfolding Claim.heartbeat
  heartbeat-Moved w until = mutate-Moved i _ now s u (
      under_test (is_owned_run w) _
        (λ x h. touch refl refl refl refl refl (inr (ground arith, ground arith))))

  pub update_conversation_id-Moved :
      (c : String) → Moved (read_jobs s) (read_jobs (Jsonl.update_conversation_id i c now s))
  unfolding Jsonl.update_conversation_id
  update_conversation_id-Moved c = mutate-Moved i _ now s u (λ x y h.
      moved_to {y = record x { conversation_id = some c }}
        (touch refl refl refl refl refl (inl refl)) (cc h))

  pub mark_success-Moved :
      (w r path : String) (c head : Option String) (gate : GateState) (finished : ℕ)
      → Moved
          (read_jobs s)
          (read_jobs (Finish.mark_success i w r path c head gate finished now s).1)
  unfolding Finish.mark_success
  mark_success-Moved w r path c head gate finished = mutate-Moved i _ now s u (
      success-IsOperation w r (with_success gate path r c head finished)
        (λ x h. finish refl (ground arith) (inl refl) refl (ground arith) (ground arith)))

  pub mark_failure-Moved :
      (w code : String) (err r head : Option String) (gate : GateState) (finished : ℕ)
      → Moved
          (read_jobs s)
          (read_jobs (Finish.mark_failure i w code err r head gate finished now s).1)
  unfolding Finish.mark_failure
  mark_failure-Moved w code err r head gate finished =
      change_where-Moved (may_finish failed w) (with_failure gate code err r head finished)
        (λ x h. finish refl (ground arith) (inr refl) refl (ground arith) (ground arith))

  pub schedule_retry-Moved :
      (next : ℕ) (code : String) (err : Option String)
      → Moved (read_jobs s) (read_jobs (Finish.schedule_retry i next code err now s).1)
  unfolding Finish.schedule_retry
  schedule_retry-Moved next code err = change_where-Moved (may_retry_from running) _ (λ x h.
      requeue refl (ground arith) (ground arith) (ground arith) refl refl (ground arith) refl)

  pub retry_failed-Moved :
      (due : ℕ) → Moved (read_jobs s) (read_jobs (Finish.retry_failed i due now s).1)
  unfolding Finish.retry_failed
  retry_failed-Moved due =
      change_where-Moved (may_retry_from failed) _
        (λ x h. retry refl (ground arith) (ground arith) (ground arith) refl refl refl refl refl)

  pub cancel-Moved :
      (finished : ℕ) → Moved (read_jobs s) (read_jobs (Finish.cancel i finished now s).1)
  unfolding Finish.cancel
  cancel-Moved finished =
      change_where-Moved (λ j. is_status pending j || is_status running j) _
        (λ x h. cancel refl (ground arith) refl refl (ground arith) (ground arith))

claim_job-Evolves :
    (w : String) (now ttl : ℕ) (kinds : Option (List JobKind)) (s : Files) (o : Option JobRecord)
    → IsUnique (read_jobs s)
    → next_row now kinds (read_jobs s) ≡ o
    → Evolves (read_jobs s) (read_jobs (claim_job o w now ttl s).1)
unfolding is_eligible
claim_job-Evolves w now ttl kinds s none u e = moves (Moved-refl (read_jobs s))
claim_job-Evolves w now ttl kinds s (some row) u e =
    let (n, ok, _) = next_row-IsNext now kinds (read_jobs s) e in
    let eligible : is_eligible now kinds (read_jobs s) row ≡ true = ok in
    let free = scope-IsFree row (read_jobs s) (ground arith) in
    rw (read_updated (claimed w now ttl row) s)
      (claims (set_job-Claimed (IsFree (read_jobs s)) (read_jobs s) u n refl free (ground arith)))

pub claim_next-Evolves :
    (w : String) (now ttl : ℕ) (kinds : Option (List JobKind)) (s : Files)
    → IsUnique (read_jobs s)
    → Evolves (read_jobs s) (read_jobs (Claim.claim_next w now ttl kinds s).1)
unfolding Claim.claim_next
claim_next-Evolves w now ttl kinds s u =
    claim_job-Evolves w now ttl kinds s (next_row now kinds (read_jobs s)) u refl
