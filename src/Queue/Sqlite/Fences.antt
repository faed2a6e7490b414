-- ===== src/Queue/Sqlite/Fences.antt =====
-- What a caller that does not own a job can do to it, and what a stored result prevents.
use mathlib.Core.Path.{subst}
use mathlib.Core.Bool.{false≢true}
use blessing_ai.Prelude.{
  ℕ, ◌≡◌, ◌≢◌, ◌⊎◌, refl, inl, inr, ap, ◌∙◌, String, Bool, true, false, Option, some, List, [], ◌∷◌,
  arith, eq_iff, All-In, In, here, there, Bool-cases, if◌then◌else◌,
}
use blessing_ai.Queue.Models.{
  has_id, JobKind, GateState, JobStatus, JobRecord, running, succeeded, failed,
}
use blessing_ai.Queue.Rows.{
  update_where, count_where, select_one, Pointwise, update_where-Pointwise,
}
use blessing_ai.Queue.Jobs.{IsUnique, IsOther, unique_row}
use blessing_ai.Queue.Sqlite.Table.{StoredResult, Db, result_in, stored_result, returned, conflict}
use blessing_ai.Queue.Sqlite.Claim.{claim_next, heartbeat, owned_by, is_running_for}
use blessing_ai.Queue.Sqlite.Recover.{is_expired, recover_expired}
use blessing_ai.Queue.Sqlite.Recovery.{recovered_self, recover_rows-eq-update}
use blessing_ai.Queue.Sqlite.Expiry.{IsRecovered, IsLapsed, not-IsLapsed, written-IsRecovered}
use blessing_ai.Queue.Sqlite.Finish.{put_result, may_finish, found_and, mark_success, mark_failure}
use blessing_ai.Queue.Sqlite.Retry.{retry_failed}

select_one_unique :
    (xs : List JobRecord) {x : JobRecord}
    → IsUnique xs
    → In x xs
    → select_one (has_id x.job_id) xs ≡ some x
select_one_unique [] u i = elim i [ ]
select_one_unique (x ∷ xs) u here = ground arith
select_one_unique (y ∷ xs) {x} u (there i) =
    let apart : x.job_id ≢ y.job_id = All-In (IsOther y) u.0 i in
    let off : has_id x.job_id y ≡ false = ground arith in rw off (select_one_unique xs u.1 i)

-- an UPDATE whose condition holds of no row
no_update :
    (p : JobRecord → Bool) (f : JobRecord → JobRecord) (xs : List JobRecord)
    → ((x : JobRecord) → In x xs → p x ≡ false)
    → (update_where p f xs ≡ xs) × (count_where p xs ≡ 0)
no_update p f [] h = (refl, refl)
no_update p f (x ∷ xs) h =
    let (same, zero_rows) = no_update p f xs (λ y i. h y (there i)) in
    (rw (h x here) (ap (λ zs. x ∷ zs) same), rw (h x here) (ground arith))

module _ (w : String) (db : Db) (j : JobRecord) (unique : IsUnique db.jobs) (present : In j db.jobs)
    (busy : j.status ≡ running) (foreign : owned_by w j.worker_id ≡ false) where
  not_running_for : (x : JobRecord) → In x db.jobs → is_running_for j.job_id w x ≡ false
  not_running_for x i = elim (Bool-cases (has_id j.job_id x)) [
    | inl e ↦
        let same : j ≡ x = unique_row db.jobs unique present i (ground arith) in
        let off : owned_by w x.worker_id ≡ false =
          subst (λ (y : JobRecord). owned_by w y.worker_id ≡ false) same foreign in
        ground arith
    | inr e ↦ rw e
  ]

  cannot_finish :
      (s : JobStatus)
      → s ≢ running
      → found_and (may_finish s w) (select_one (has_id j.job_id) db.jobs) ≡ false
  cannot_finish s h = rw (select_one_unique db.jobs unique present) (ground arith)

  -- A worker that does not own a running job, because its lease lapsed or it never had one, cannot
  -- extend the job's lease and cannot record a result or a failure for it: each of the three calls
  -- answers false and changes nothing, the table of results included.
  pub foreign_worker_fenced :
      (r path code : String) (c head err : Option String) (fr : Option String)
      (gate gate' : GateState) (until now : ℕ)
      → (heartbeat j.job_id w until now db ≡ (false, db))
        × (mark_success j.job_id w r path c head gate now db ≡ (returned false, db))
        × (mark_failure j.job_id w code err fr head gate' now db ≡ (false, db))
  unfolding heartbeat mark_success mark_failure
  foreign_worker_fenced r path code c head err fr gate gate' until now =
      let (same, rows) =
        no_update (is_running_for j.job_id w)
          (λ k. record k { lease_until = some until; updated_at = now }) db.jobs not_running_for in
      (
        rw (same, rows),
        rw (cannot_finish succeeded (λ e. cc e)),
        rw (cannot_finish failed (λ e. cc e)),
      )

recovered_not_expired :
    (now : ℕ) (x : JobRecord)
    → is_expired now (if is_expired now x then recovered_self now x else x) ≡ false
recovered_not_expired now x = ground arith

none_expired :
    (now : ℕ) (xs : List JobRecord) {j : JobRecord}
    → In j (update_where (is_expired now) (recovered_self now) xs)
    → is_expired now j ≡ false
none_expired now [] i = elim i [ ]
none_expired now (x ∷ xs) here = recovered_not_expired now x
none_expired now (x ∷ xs) (there i) = none_expired now xs i

-- If ids are unique, `recover_expired` leaves each job as it is that is not running or whose lease has not
-- ended before `now`; of any other it makes a failed and blocked job if its effect is unsafe or its
-- attempts are used up, each with its own error code, and a pending and ready job if not, in both cases
-- without a worker and a lease. It leaves no running job whose lease ended before `now`, and changes no
-- other table.
pub recover_expired_lem :
    (now : ℕ) (db : Db)
    → IsUnique db.jobs
    → Pointwise (IsRecovered now) db.jobs (recover_expired now db).1.jobs
      × ((j : JobRecord) → In j (recover_expired now db).1.jobs → ¬ (IsLapsed now j))
      × ((recover_expired now db).1 ≡ record db { jobs = (recover_expired now db).1.jobs })
unfolding recover_expired
recover_expired_lem now db u =
    let same = recover_rows-eq-update now db.jobs u in
    (
      rw same (
          update_where-Pointwise (IsRecovered now) (is_expired now) (recovered_self now) db.jobs
            (λ j i. written-IsRecovered now j)),
      λ j i. not-IsLapsed now j (none_expired now db.jobs (rw same at i)),
      refl,
    )

-- A result that is stored is never replaced by another through `mark_success`: such a call raises a
-- conflict, or answers false, and changes nothing.
pub stored_result_protected :
    (i : ℕ) (w r s path : String) (c head : Option String) (gate : GateState) (now : ℕ) (db : Db)
    → stored_result i db ≡ some r
    → r ≢ s
    → (mark_success i w s path c head gate now db ≡ (conflict, db))
      ⊎ (mark_success i w s path c head gate now db ≡ (returned false, db))
unfolding mark_success
stored_result_protected i w r s path c head gate now db e ne =
    elim (Bool-cases (found_and (may_finish succeeded w) (select_one (has_id i) db.jobs))) [
      | inl f ↦ inl (rw (f, e) (ground (arith, eq_iff r s)))
      | inr f ↦ inr (rw f)
    ]

put_result-stored :
    (i : ℕ) (r : String) (now : ℕ) (rs : List StoredResult)
    → result_in i (put_result i r now rs) ≡ some r
unfolding put_result
put_result-stored i r now [] = ground arith
put_result-stored i r now (x ∷ xs) = ground (arith, put_result-stored i r now xs)

mark_failure-stored :
    (i : ℕ) (w code r : String) (err head : Option String) (gate : GateState) (now : ℕ) (db : Db)
    → (mark_failure i w code err (some r) head gate now db).0 ≡ true
    → stored_result i (mark_failure i w code err (some r) head gate now db).1 ≡ some r
unfolding mark_failure
mark_failure-stored i w code r err head gate now db h =
    elim (Bool-cases (found_and (may_finish failed w) (select_one (has_id i) db.jobs))) [
      | inl f ↦ rw f (put_result-stored i r now db.job_results)
      | inr f ↦ absurd (false≢true (rw f at h))
    ]

retry_failed-results :
    (i now : ℕ) (db : Db) → (retry_failed i now db).1.job_results ≡ db.job_results
unfolding retry_failed
retry_failed-results i now db = ground arith

claim_next-results :
    (w : String) (now ttl : ℕ) (kinds : Option (List JobKind)) (db : Db)
    → (claim_next w now ttl kinds db).1.job_results ≡ db.job_results
unfolding claim_next
claim_next-results w now ttl kinds db = ground arith

-- Once a failure has been recorded with its result, no retry of the job can be recorded as a success
-- with another result: after `retry_failed` and a new claim, `mark_success` never answers true.
pub failure_blocks_success :
    (i : ℕ) (w code r : String) (err head : Option String) (gate : GateState) (t0 t1 t2 t3 ttl : ℕ)
    (w' s path : String) (c head' : Option String) (kinds : Option (List JobKind))
    (gate' : GateState) (db : Db)
    → (mark_failure i w code err (some r) head gate t0 db).0 ≡ true
    → r ≢ s
    → let failed_db = (mark_failure i w code err (some r) head gate t0 db).1 in
      let retried_db = (claim_next w' t2 ttl kinds (retry_failed i t1 failed_db).1).1 in
      (mark_success i w' s path c head' gate' t3 retried_db).0 ≢ returned true
failure_blocks_success i w code r err head gate t0 t1 t2 t3 ttl w' s path c head' kinds gate' db h
      ne =
    let failed_db = (mark_failure i w code err (some r) head gate t0 db).1 in
    let retry_db = (retry_failed i t1 failed_db).1 in
    let retried_db = (claim_next w' t2 ttl kinds retry_db).1 in
    let kept : retried_db.job_results ≡ failed_db.job_results =
      claim_next-results w' t2 ttl kinds retry_db ∙ retry_failed-results i t1 failed_db in
    let stored : stored_result i retried_db ≡ some r =
      ap (result_in i) kept ∙ mark_failure-stored i w code r err head gate t0 db h in
    elim (stored_result_protected i w' r s path c head' gate' t3 retried_db stored ne) [
      | inl e ↦ λ q. cc (e, q)
      | inr e ↦ λ q. cc (e, q)
    ]
