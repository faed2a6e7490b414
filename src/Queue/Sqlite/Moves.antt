-- ===== src/Queue/Sqlite/Moves.antt =====
-- Every method of the SQLite store follows the lifecycle of a job.
use mathlib.Core.Bool.{false≢true}
use blessing_ai.Prelude.{
  not, any, on_branches, ℕ, ◌≡◌, ◌≢◌, refl, inl, inr, ap, String, Bool, true, false, ◌&&◌, ◌||◌,
  Option, none, some, List, [], ◌∷◌, arith, All, All-In, In, here, there, Bool-cases, Option-cases,
}
use blessing_ai.Queue.Models.{
  has_id, pending, running, succeeded, failed, GateState, JobKind, JobRecord,
}
use blessing_ai.Queue.Rows.{select_one-In, update_where, select_one}
use blessing_ai.Queue.Lifecycle.{Move, Claim, touch, requeue, finish, retry, cancel}
use blessing_ai.Queue.Jobs.{
  Moved, Evolves, Claimed, moves, claims, creates, taken, passed, IsFree, IsOther, Moved-refl,
  update_where-Moved, IsFresh, IsUnique, unique_row,
}
use blessing_ai.Queue.Sqlite.Table.{Outcome, Db, is_status, create_job, stored_result}
use blessing_ai.Queue.Sqlite.Claim.{
  is_active_in, is_pending_id, claim_row, no_kinds, claim_next, claimed, next_row, is_eligible,
  heartbeat, is_running_for,
}
use blessing_ai.Queue.Sqlite.Recover.{is_running_id, is_expired, recover_expired}
use blessing_ai.Queue.Sqlite.Events.{append_event, update_conversation_id}
use blessing_ai.Queue.Sqlite.Finish.{
  differs, found_and, mark_success, mark_failure, may_finish, finished_ok, finished_failed,
}
use blessing_ai.Queue.Sqlite.Retry.{schedule_retry, retry_failed, may_retry_from}
use blessing_ai.Queue.Sqlite.Retry
use blessing_ai.Queue.Sqlite.Recovery.{recovered_self, recover_rows-eq-update, recovered-Move}
use blessing_ai.Queue.Sqlite.Calls.{Call, perform, IsAdmissible}
use blessing_ai.Queue.Sqlite.Order.{next_row-IsNext}

new_id :
    (i : ℕ) (xs : List JobRecord)
    → any (has_id i) xs ≡ false
    → All (λ (x : JobRecord). x.job_id ≢ i) xs
new_id i [] h = tt
new_id i (x ∷ xs) h = ((λ e. ground arith), new_id i xs (ground arith))

pub create_job-Evolves :
    (j : JobRecord) (db : Db) → IsFresh j → Evolves db.jobs (create_job j db).1.jobs
unfolding create_job
create_job-Evolves j db h = elim (Bool-cases (any (has_id j.job_id) db.jobs)) [
  | inl e ↦ rw e (moves (Moved-refl db.jobs))
  | inr e ↦
      rw e
        (creates (record j { result_json = none }) (ground arith) (new_id j.job_id db.jobs e) refl)
]

pub heartbeat-Moved :
    (i : ℕ) (w : String) (until now : ℕ) (db : Db)
    → Moved db.jobs (heartbeat i w until now db).1.jobs
unfolding heartbeat
heartbeat-Moved i w until now db =
    (update_where-Moved (is_running_for i w) _ db.jobs
      (λ x m h. touch refl refl refl refl refl (inr (ground arith, ground arith))))

pub append_event-Moved :
    (i : ℕ) (t raw : String) (now : ℕ) (db : Db)
    → Moved db.jobs (append_event i t raw now db).1.jobs
unfolding append_event
append_event-Moved i t raw now db =
    on_branches (λ (r : Outcome (Unit {0}) × Db). Moved db.jobs r.1.jobs) (any (has_id i) db.jobs)
      (λ _. (Moved-refl db.jobs)) (λ _. (Moved-refl db.jobs))

pub update_conversation_id-Moved :
    (i : ℕ) (c : String) (now : ℕ) (db : Db)
    → Moved db.jobs (update_conversation_id i c now db).jobs
unfolding update_conversation_id
update_conversation_id-Moved i c now db =
    (update_where-Moved (has_id i) _ db.jobs (λ x m h. touch refl refl refl refl refl (inl refl)))

finished_ok-Move :
    (i : ℕ) (w r path : String) (c head : Option String) (gate : GateState) (now : ℕ)
    (x : JobRecord)
    → (has_id i x && may_finish succeeded w x) ≡ true
    → Move x (finished_ok gate path r c head now x)
finished_ok-Move i w r path c head gate now x h =
    finish refl (ground arith) (inl refl) refl (ground arith) (ground arith)

pub mark_success-Moved :
    (i : ℕ) (w r path : String) (c head : Option String) (gate : GateState) (now : ℕ) (db : Db)
    → Moved db.jobs (mark_success i w r path c head gate now db).1.jobs
unfolding mark_success
mark_success-Moved i w r path c head gate now db =
    elim (Bool-cases (not (found_and (may_finish succeeded w) (select_one (has_id i) db.jobs)))) [
      | inl e ↦ rw e ((Moved-refl db.jobs))
      | inr e ↦ rw e (elim (Bool-cases (differs (stored_result i db) r)) [
        | inl d ↦ rw d ((Moved-refl db.jobs))
        | inr d ↦ rw d (
            (update_where-Moved (λ j. has_id i j && may_finish succeeded w j)
              (finished_ok gate path r c head now) db.jobs
              (λ x m. finished_ok-Move i w r path c head gate now x)))
      ])
    ]

pub mark_failure-Moved :
    (i : ℕ) (w code : String) (err r head : Option String) (gate : GateState) (now : ℕ) (db : Db)
    → Moved db.jobs (mark_failure i w code err r head gate now db).1.jobs
unfolding mark_failure
mark_failure-Moved i w code err r head gate now db =
    elim (Bool-cases (not (found_and (may_finish failed w) (select_one (has_id i) db.jobs)))) [
      | inl e ↦ rw e ((Moved-refl db.jobs))
      | inr e ↦ rw e (
          (update_where-Moved (λ j. has_id i j && may_finish failed w j)
            (finished_failed gate code err r head now) db.jobs
            (λ x m h. finish refl (ground arith) (inr refl) refl (ground arith) (ground arith))))
    ]

pub cancel-Moved :
    (i finished now : ℕ) (db : Db) → Moved db.jobs (Retry.cancel i finished now db).1.jobs
unfolding Retry.cancel
cancel-Moved i finished now db =
    (update_where-Moved (λ j. has_id i j && (is_status pending j || is_status running j)) _ db.jobs
      (λ x m h. cancel refl (ground arith) refl refl (ground arith) (ground arith)))

-- The row that the test was made on is the row that is written.
found_row :
    (i : ℕ) (p : JobRecord → Bool) (xs : List JobRecord) {x : JobRecord}
    → IsUnique xs
    → found_and p (select_one (has_id i) xs) ≡ true
    → In x xs
    → has_id i x ≡ true
    → p x ≡ true
found_row i p xs {x} u f m h = elim (Option-cases (select_one (has_id i) xs)) [
  | inl e ↦ absurd (false≢true (rw e at f))
  | inr (y, e) ↦
      let (n, k) = select_one-In (has_id i) xs e in
      let same : y ≡ x = unique_row xs u n m (ground arith) in rw (← same) (rw e at f)
]

pub schedule_retry-Moved :
    (i next : ℕ) (code : String) (err : Option String) (now : ℕ) (db : Db)
    → IsUnique db.jobs
    → Moved db.jobs (schedule_retry i next code err now db).1.jobs
unfolding schedule_retry
schedule_retry-Moved i next code err now db u =
    elim (Bool-cases (found_and (may_retry_from running) (select_one (has_id i) db.jobs))) [
      | inl found ↦ rw found (
          (update_where-Moved (is_running_id i) _ db.jobs (λ x m h.
            let ok : may_retry_from running x ≡ true =
              found_row i (may_retry_from running) db.jobs u found m (ground arith) in
            requeue refl (ground arith) (ground arith) (ground arith) refl refl (ground arith)
              refl)))
      | inr e ↦ rw e ((Moved-refl db.jobs))
    ]

pub retry_failed-Moved :
    (i now : ℕ) (db : Db) → IsUnique db.jobs → Moved db.jobs (retry_failed i now db).1.jobs
unfolding retry_failed
retry_failed-Moved i now db u =
    elim (Bool-cases (found_and (may_retry_from failed) (select_one (has_id i) db.jobs))) [
      | inl found ↦ rw found (
          (update_where-Moved (λ j. has_id i j && is_status failed j) _ db.jobs
            (λ x m h.
              let ok : may_retry_from failed x ≡ true =
                found_row i (may_retry_from failed) db.jobs u found m (ground arith) in
              retry refl (ground arith) (ground arith) (ground arith) refl refl refl refl refl)))
      | inr e ↦ rw e ((Moved-refl db.jobs))
    ]

pub recover_expired-Moved :
    (now : ℕ) (db : Db) → IsUnique db.jobs → Moved db.jobs (recover_expired now db).1.jobs
unfolding recover_expired
recover_expired-Moved now db u = rw (recover_rows-eq-update now db.jobs u) (
    (update_where-Moved (is_expired now) (recovered_self now) db.jobs (recovered-Move now db.jobs)))

-- Only the row of that id is written.
others_kept :
    (i : ℕ) (f : JobRecord → JobRecord) (xs : List JobRecord)
    → All (λ (x : JobRecord). x.job_id ≢ i) xs
    → update_where (is_pending_id i) f xs ≡ xs
others_kept i f [] h = refl
others_kept i f (x ∷ xs) h =
    let off : is_pending_id i x ≡ false = ground (arith, h.0) in
    rw off (ap (λ zs. x ∷ zs) (others_kept i f xs h.1))

update_where-Claimed :
    (P : JobRecord → Type 0) (f : JobRecord → JobRecord) (xs : List JobRecord) {row : JobRecord}
    → IsUnique xs
    → In row xs
    → is_pending_id row.job_id row ≡ true
    → P row
    → Claim row (f row)
    → Claimed P xs (update_where (is_pending_id row.job_id) f xs)
update_where-Claimed P f [] u i on p c = elim i [ ]
update_where-Claimed P f (x ∷ xs) u here on p c = rw (on, others_kept x.job_id f xs u.0) (taken p c)
update_where-Claimed P f (x ∷ xs) {row} u (there i) on p c =
    let apart : row.job_id ≢ x.job_id = All-In (IsOther x) u.0 i in
    let off : is_pending_id row.job_id x ≡ false = ground arith in
    rw off (passed (update_where-Claimed P f xs u.1 i on p c))

pub scope-IsFree :
    (j : JobRecord) (xs : List JobRecord) → any (is_active_in j.scope_key) xs ≡ false → IsFree xs j
scope-IsFree j [] h = tt
scope-IsFree j (x ∷ xs) h = ((λ r. ground arith), scope-IsFree j xs (ground arith))

claim_row-Evolves :
    (w : String) (now ttl : ℕ) (kinds : Option (List JobKind)) (db : Db) (o : Option JobRecord)
    → IsUnique db.jobs
    → next_row now kinds db.jobs ≡ o
    → Evolves db.jobs (claim_row o w now ttl db).1.jobs
unfolding is_eligible
claim_row-Evolves w now ttl kinds db none u e = moves (Moved-refl db.jobs)
claim_row-Evolves w now ttl kinds db (some row) u e =
    let (n, ok, _) = next_row-IsNext now kinds db.jobs e in
    let eligible : is_eligible now kinds db.jobs row ≡ true = ok in
    let free = scope-IsFree row db.jobs (ground arith) in
    claims (
      update_where-Claimed (IsFree db.jobs) (claimed w now ttl) db.jobs u n (ground arith) free
        (ground arith))

pub claim_next-Evolves :
    (w : String) (now ttl : ℕ) (kinds : Option (List JobKind)) (db : Db)
    → IsUnique db.jobs
    → Evolves db.jobs (claim_next w now ttl kinds db).1.jobs
unfolding claim_next
claim_next-Evolves w now ttl kinds db u =
    on_branches (λ (r : Option JobRecord × Db). Evolves db.jobs r.1.jobs) (no_kinds kinds)
      (λ _. moves (Moved-refl db.jobs))
      (λ _. claim_row-Evolves w now ttl kinds db (next_row now kinds db.jobs) u refl)

-- Each method moves every job along its lifecycle, or leaves it alone, and adds at most fresh jobs.
pub perform-Evolves :
    (c : Call) (db : Db) → IsAdmissible c → IsUnique db.jobs → Evolves db.jobs (perform c db).jobs
unfolding perform
perform-Evolves (Call.create_job j) db a u = create_job-Evolves j db a
perform-Evolves (Call.claim_next w now ttl kinds) db a u = claim_next-Evolves w now ttl kinds db u
perform-Evolves (Call.heartbeat i w until now) db a u = moves (heartbeat-Moved i w until now db)
perform-Evolves (Call.recover_expired now) db a u = moves (recover_expired-Moved now db u)
perform-Evolves (Call.append_event i t raw now) db a u = moves (append_event-Moved i t raw now db)
perform-Evolves (Call.update_conversation_id i c now) db a u =
    moves (update_conversation_id-Moved i c now db)
perform-Evolves (Call.mark_success i w r path c head gate now) db a u =
    moves (mark_success-Moved i w r path c head gate now db)
perform-Evolves (Call.mark_failure i w code err r head gate now) db a u =
    moves (mark_failure-Moved i w code err r head gate now db)
perform-Evolves (Call.schedule_retry i next code err now) db a u =
    moves (schedule_retry-Moved i next code err now db u)
perform-Evolves (Call.retry_failed i now) db a u = moves (retry_failed-Moved i now db u)
perform-Evolves (Call.cancel i finished now) db a u = moves (cancel-Moved i finished now db)
