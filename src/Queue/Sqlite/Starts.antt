-- ===== src/Queue/Sqlite/Starts.antt =====
-- How often a job is started: the attempts of a job count the calls of `claim_next` that return it.
use mathlib.Core.Path.{subst}
use blessing_ai.Prelude.{
  sym, ◌∙◌, any, Bool-cases, ℕ, ◌+◌, ◌≤◌, ◌≡◌, refl, ap, inl, inr, String, true, false, Option,
  none, some, List, [], ◌∷◌, arith, All, All-In, In, here, there, ◌==◌, if◌then◌else◌, ◌⊎◌,
}
use blessing_ai.Queue.Models.{has_id, JobKind, JobRecord, is_unsafe, succeeded, cancelled, pending}
use blessing_ai.Queue.Rows.{In-update_where, In-append, update_where}
use blessing_ai.Queue.Lifecycle.{IsSound, Move-spec, Move-attempt, Move-final}
use blessing_ai.Queue.Jobs.{Moved, nil, cons, IsUnique, unique_row}
use blessing_ai.Queue.Jobs.Invariant.{IsValid}
use blessing_ai.Queue.Sqlite.Table.{Db, initial}
use blessing_ai.Queue.Sqlite.Table
use blessing_ai.Queue.Sqlite.Claim
use blessing_ai.Queue.Sqlite.Claim.{claimed, is_pending_id}
use blessing_ai.Queue.Sqlite.Calls.{Call, perform, perform_all, IsAdmissible}
use blessing_ai.Queue.Sqlite.Claims.{claim_step}
use blessing_ai.Queue.Sqlite.Runs.{initial-IsValid, perform-IsValid, perform_all-IsValid}
use blessing_ai.Queue.Sqlite.Moves.{
  heartbeat-Moved, append_event-Moved, update_conversation_id-Moved, mark_success-Moved,
  mark_failure-Moved, cancel-Moved, schedule_retry-Moved, retry_failed-Moved, recover_expired-Moved,
}

-- whether an answer of `claim_next` is the job with this id
abbrev pub is_answer : ℕ → Option JobRecord → ℕ
is_answer i none = 0
is_answer i (some j) = if j.job_id == i then 1 else 0

unfoldable pub started : ℕ → Call → Db → ℕ
started i (Call.claim_next w now ttl kinds) db = is_answer i (Claim.claim_next w now ttl kinds db).0
started i _ db = 0

unfoldable pub starts : ℕ → List Call → Db → ℕ
starts i [] db = 0
starts i (c ∷ cs) db = started i c db + starts i cs (perform c db)

-- The job `x`, after `n` starts, is among `ys`, and final if it was.
pub record Descends (x : JobRecord) (n : ℕ) (ys : List JobRecord) : Type 0 where
  pub job : JobRecord
  pub present : In job ys
  pub same_spec : job.spec ≡ x.spec
  pub counted : job.attempt ≡ x.attempt + n
  pub final : (x.status ≡ succeeded) ⊎ (x.status ≡ cancelled) → job.status ≡ x.status

Moved-Descends : {xs ys : List JobRecord} {x : JobRecord} → Moved xs ys → In x xs → Descends x 0 ys
Moved-Descends nil i = elim i [ ]
Moved-Descends (cons {y = y} m ms) here = record {
  job = y;
  present = here;
  same_spec = Move-spec m;
  counted = omega (arith, Move-attempt m);
  final = Move-final m;
}
Moved-Descends (cons m ms) (there i) =
    let d = Moved-Descends ms i in
    record {
      job = d.job;
      present = there d.present;
      same_spec = d.same_spec;
      counted = d.counted;
      final = d.final;
    }

-- A job that an operation leaves alone.
unmoved : {x : JobRecord} {ys : List JobRecord} → In x ys → Descends x 0 ys
unmoved {x} i = record {
  job = x;
  present = i;
  same_spec = refl;
  counted = omega arith;
  final = λ h. refl;
}

create_job-Descends :
    (j : JobRecord) (db : Db) {x : JobRecord}
    → In x db.jobs
    → Descends x 0 (Table.create_job j db).1.jobs
unfolding Table.create_job
create_job-Descends j db i = elim (Bool-cases (any (has_id j.job_id) db.jobs)) [
  | inl e ↦ rw e (unmoved i)
  | inr e ↦ rw e (unmoved (In-append db.jobs (record j { result_json = none } ∷ []) i))
]

module _ (w : String) (now ttl : ℕ) (kinds : Option (List JobKind)) (db : Db) (x : JobRecord) where
  claimed-Descends :
      (row : JobRecord)
      → IsUnique db.jobs
      → In x db.jobs
      → In row db.jobs
      → row.status ≡ pending
      → Descends x
          (is_answer x.job_id (some (claimed w now ttl row)))
          (update_where (is_pending_id row.job_id) (claimed w now ttl) db.jobs)
  claimed-Descends row u i n pend = elim (Bool-cases (row.job_id == x.job_id)) [
    | inl same ↦
        let e : row ≡ x = unique_row db.jobs u n i (ground arith) in
        let st : x.status ≡ pending = subst (λ (j : JobRecord). j.status ≡ pending) e pend in
        let on : is_pending_id row.job_id x ≡ true = ground arith in
        record {
          job = claimed w now ttl x;
          present =
              rw on at (In-update_where (is_pending_id row.job_id) (claimed w now ttl) db.jobs i);
          same_spec = refl;
          counted = ground arith;
          final = λ h. ground arith;
        }
    | inr other ↦
        let off : is_pending_id row.job_id x ≡ false = ground arith in
        record {
          job = x;
          present =
              rw off at (In-update_where (is_pending_id row.job_id) (claimed w now ttl) db.jobs i);
          same_spec = refl;
          counted = ground arith;
          final = λ h. refl;
        }
  ]

  claim_next-Descends :
      IsUnique db.jobs
      → In x db.jobs
      → Descends x
          (is_answer x.job_id (Claim.claim_next w now ttl kinds db).0)
          (Claim.claim_next w now ttl kinds db).1.jobs
  claim_next-Descends u i = elim (claim_step w now ttl kinds db u) [
    | inl e ↦ rw e (unmoved i)
    | inr (row, n, waits, answer, written) ↦ rw (answer, written) (claimed-Descends row u i n waits)
  ]

step-Descends :
    (c : Call) (db : Db) {x : JobRecord}
    → IsAdmissible c
    → IsUnique db.jobs
    → In x db.jobs
    → Descends x (started x.job_id c db) (perform c db).jobs
unfolding perform started
step-Descends (Call.create_job j) db a u i = create_job-Descends j db i
step-Descends (Call.claim_next w now ttl kinds) db {x} a u i =
    claim_next-Descends w now ttl kinds db x u i
step-Descends (Call.heartbeat j w until now) db a u i =
    Moved-Descends (heartbeat-Moved j w until now db) i
step-Descends (Call.recover_expired now) db a u i =
    Moved-Descends (recover_expired-Moved now db u) i
step-Descends (Call.append_event j t raw now) db a u i =
    Moved-Descends (append_event-Moved j t raw now db) i
step-Descends (Call.update_conversation_id j c now) db a u i =
    Moved-Descends (update_conversation_id-Moved j c now db) i
step-Descends (Call.mark_success j w r path c head gate now) db a u i =
    Moved-Descends (mark_success-Moved j w r path c head gate now db) i
step-Descends (Call.mark_failure j w code err r head gate now) db a u i =
    Moved-Descends (mark_failure-Moved j w code err r head gate now db) i
step-Descends (Call.schedule_retry j next code err now) db a u i =
    Moved-Descends (schedule_retry-Moved j next code err now db u) i
step-Descends (Call.retry_failed j now) db a u i = Moved-Descends (retry_failed-Moved j now db u) i
step-Descends (Call.cancel j finished now) db a u i =
    Moved-Descends (cancel-Moved j finished now db) i

run-Descends :
    (cs : List Call) (db : Db) {x : JobRecord}
    → All IsAdmissible cs
    → IsValid db.jobs
    → In x db.jobs
    → Descends x (starts x.job_id cs db) (perform_all cs db).jobs
unfolding perform_all starts
run-Descends [] db a v i = unmoved i
run-Descends (c ∷ cs) db {x} a v i =
    let d = step-Descends c db a.0 v.unique i in
    let e = run-Descends cs (perform c db) a.1 (perform-IsValid c db a.0 v) d.present in
    let same : d.job.job_id ≡ x.job_id = ap (λ s. s.job_id) d.same_spec in
    record {
      job = e.job;
      present = e.present;
      same_spec = e.same_spec ∙ d.same_spec;
      counted = omega (arith, e.counted, d.counted, ap (λ i. starts i cs (perform c db)) same);
      final = λ h.
          let k = d.final h in
          e.final (subst (λ s. (s ≡ succeeded) ⊎ (s ≡ cancelled)) (sym k) h) ∙ k;
    }

-- Take any job of a queue that any calls have made, and any calls from there on. `claim_next` has
-- returned the job, in all, at most as often as its `max_attempts`; and at most once if it writes to
-- the cloud, orders on the exchange or is an emergency control: such a job is never run again.
pub starts_bounded :
    (before after : List Call) {x : JobRecord}
    → All IsAdmissible before
    → All IsAdmissible after
    → In x (perform_all before initial).jobs
    → let n = starts x.job_id after (perform_all before initial) in
      (x.attempt + n ≤ x.max_attempts)
      × (is_unsafe x.external_effect_class ≡ true → x.attempt + n ≤ 1)
starts_bounded before after {x} a b i =
    let v = perform_all-IsValid before initial a initial-IsValid in
    let d = run-Descends after (perform_all before initial) b v i in
    let w = perform_all-IsValid after (perform_all before initial) b v in
    let sound = All-In IsSound w.sound d.present in
    let most = ap (λ s. s.max_attempts) d.same_spec in
    let effect = ap (λ s. s.external_effect_class) d.same_spec in
    (
      omega (arith, d.counted, sound.bounded, most),
      λ h. omega (arith, d.counted, sound.once (rw effect h)),
    )

-- A job that has succeeded or was cancelled keeps that status, whatever is called from there on.
pub final_status_kept :
    (before after : List Call) {x : JobRecord}
    → All IsAdmissible before
    → All IsAdmissible after
    → In x (perform_all before initial).jobs
    → (x.status ≡ succeeded) ⊎ (x.status ≡ cancelled)
    → (y : JobRecord) × In y (perform_all after (perform_all before initial)).jobs
      × (y.job_id ≡ x.job_id)
      × (y.status ≡ x.status)
final_status_kept before after a b i h =
    let v = perform_all-IsValid before initial a initial-IsValid in
    let d = run-Descends after (perform_all before initial) b v i in
    (d.job, d.present, ap (λ s. s.job_id) d.same_spec, d.final h)
