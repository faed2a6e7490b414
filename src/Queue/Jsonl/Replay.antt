-- ===== src/Queue/Jsonl/Replay.antt =====
-- What is read back after a line has been appended, and how the jobs change.
use blessing_ai.Prelude.{
  ℕ, ◌≡◌, ◌≢◌, refl, String, true, false, List, [], ◌∷◌, ◌++◌, arith, All-In, In, here, there, ◌==◌,
}
use blessing_ai.Queue.Models.{JobRecord}
use blessing_ai.Queue.Lifecycle.{Move, Claim}
use blessing_ai.Queue.Jobs.{
  Moved, cons, Claimed, taken, passed, IsUnique, IsOther, Moved-refl, stay,
}
use blessing_ai.Queue.Jsonl.{Entry, Files, set_job, replay, read_jobs, append_line, append_update}

replay_line :
    (es : List Entry) (e : Entry) (jobs : List JobRecord)
    → replay (es ++ e ∷ []) jobs ≡ replay (e ∷ []) (replay es jobs)
unfolding replay
replay_line [] e jobs = refl
replay_line (Entry.job j ∷ es) e jobs = replay_line es e (set_job j jobs)
replay_line (Entry.job_update j ∷ es) e jobs = replay_line es e (set_job j jobs)
replay_line (Entry.event i t raw now ∷ es) e jobs = replay_line es e jobs

-- An update is read back as the value of its job, and changes no other.
pub read_updated :
    (j : JobRecord) (s : Files) → read_jobs (append_update j s) ≡ set_job j (read_jobs s)
unfolding read_jobs replay
read_updated j s = replay_line s.event_log (Entry.job_update j) (replay s.inbox [])

-- An event changes no job.
pub read_event :
    (i : ℕ) (event_type raw : String) (now : ℕ) (s : Files)
    → read_jobs (append_line (Entry.event i event_type raw now) s) ≡ read_jobs s
unfolding read_jobs replay
read_event i event_type raw now s =
    replay_line s.event_log (Entry.event i event_type raw now) (replay s.inbox [])

pub set_job-Moved :
    (xs : List JobRecord) {x y : JobRecord}
    → IsUnique xs
    → In x xs
    → y.job_id ≡ x.job_id
    → Move x y
    → Moved xs (set_job y xs)
unfolding set_job
set_job-Moved [] u i e m = elim i [ ]
set_job-Moved (x ∷ xs) {y = y} u here e m =
    let on : (x.job_id == y.job_id) ≡ true = ground arith in rw on (cons m (Moved-refl xs))
set_job-Moved (z ∷ xs) {x} {y} u (there i) e m =
    let apart : x.job_id ≢ z.job_id = All-In (IsOther z) u.0 i in
    let off : (z.job_id == y.job_id) ≡ false = ground arith in
    rw off (cons (stay z) (set_job-Moved xs u.1 i e m))

pub set_job-Claimed :
    (P : JobRecord → Type 0) (xs : List JobRecord) {x y : JobRecord}
    → IsUnique xs
    → In x xs
    → y.job_id ≡ x.job_id
    → P x
    → Claim x y
    → Claimed P xs (set_job y xs)
unfolding set_job
set_job-Claimed P [] u i e p c = elim i [ ]
set_job-Claimed P (x ∷ xs) {y = y} u here e p c =
    let on : (x.job_id == y.job_id) ≡ true = ground arith in rw on (taken p c)
set_job-Claimed P (z ∷ xs) {x} {y} u (there i) e p c =
    let apart : x.job_id ≢ z.job_id = All-In (IsOther z) u.0 i in
    let off : (z.job_id == y.job_id) ≡ false = ground arith in
    rw off (passed (set_job-Claimed P xs u.1 i e p c))
