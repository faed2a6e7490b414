-- ===== src/Queue/Jsonl/Recovery.antt =====
-- The loop of `JsonlQueueStore.recover_expired`.
use blessing_ai.Prelude.{
  ℕ, ◌≡◌, ◌≢◌, ap, ◌∙◌, inl, inr, Bool, true, false, List, [], ◌∷◌, arith, All, All-In, In, here,
  there, Bool-cases, ◌==◌,
}
use blessing_ai.Queue.Models.{JobRecord}
use blessing_ai.Queue.Rows.{select_all, In-select_all}
use blessing_ai.Queue.Lifecycle.{Move, Move-spec}
use blessing_ai.Queue.Jobs.{IsUnique, IsOther, moves}
use blessing_ai.Queue.Jobs.Invariant.{IsValid, Evolves-IsValid}
use blessing_ai.Queue.Sqlite.Recover.{is_expired, recovered}
use blessing_ai.Queue.Sqlite.Recovery.{recovered-Move}
use blessing_ai.Queue.Jsonl.{Files, set_job, read_jobs, append_update}
use blessing_ai.Queue.Jsonl.Claim.{append_recovered, recover_expired}
use blessing_ai.Queue.Jsonl.Replay.{read_updated, set_job-Moved}

-- The other jobs stay in the list.
In-set_job :
    (y : JobRecord) (xs : List JobRecord) {x : JobRecord}
    → In x xs
    → x.job_id ≢ y.job_id
    → In x (set_job y xs)
unfolding set_job
In-set_job y [] i ne = elim i [ ]
In-set_job y (z ∷ xs) here ne =
    let off : (z.job_id == y.job_id) ≡ false = ground arith in rw off here
In-set_job y (z ∷ xs) (there i) ne = elim (Bool-cases (z.job_id == y.job_id)) [
  | inl e ↦ rw e (there i)
  | inr e ↦ rw e (there (In-set_job y xs i ne))
]

All-of {ℓ κ} : {A : Type ℓ} (P : A → Type κ) (xs : List A) → ((x : A) → In x xs → P x) → All P xs
All-of P [] h = tt
All-of P (x ∷ xs) h = (h x here, All-of P xs (λ y i. h y (there i)))

select_all-IsUnique :
    (p : JobRecord → Bool) (xs : List JobRecord) → IsUnique xs → IsUnique (select_all p xs)
select_all-IsUnique p [] u = tt
select_all-IsUnique p (x ∷ xs) u = elim (Bool-cases (p x)) [
  | inl e ↦ rw e (
    All-of (IsOther x) (select_all p xs) (λ y i. All-In (IsOther x) u.0 (In-select_all p xs i).0),
    select_all-IsUnique p xs u.1,
  )
  | inr e ↦ rw e (select_all-IsUnique p xs u.1)
]

append_recovered-IsValid :
    (now : ℕ) (rows : List JobRecord) (s : Files)
    → IsUnique rows
    → ((x : JobRecord) → In x rows → In x (read_jobs s) × (is_expired now x ≡ true))
    → IsValid (read_jobs s)
    → IsValid (read_jobs (append_recovered now rows s))
append_recovered-IsValid now [] s u h v = v
append_recovered-IsValid now (j ∷ js) s u h v =
    let (i, e) = h j here in
    let m : Move j (recovered now j j) = recovered-Move now (read_jobs s) j i e in
    let same : (recovered now j j).job_id ≡ j.job_id = ap (λ p. p.job_id) (Move-spec m) in
    let valid : IsValid (read_jobs (append_update (recovered now j j) s)) =
      rw (read_updated (recovered now j j) s)
        (Evolves-IsValid (moves (set_job-Moved (read_jobs s) v.unique i same m)) v) in
    append_recovered-IsValid now js (append_update (recovered now j j) s) u.1
      (λ x k.
        let (n, f) = h x (there k) in
        let apart : x.job_id ≢ j.job_id = All-In (IsOther j) u.0 k in
        let kept : In x (set_job (recovered now j j) (read_jobs s)) =
          In-set_job (recovered now j j) (read_jobs s) n (λ q. apart (q ∙ same)) in
        (rw (read_updated (recovered now j j) s) kept, f))
      valid

pub recover_expired-IsValid :
    (now : ℕ) (s : Files) → IsValid (read_jobs s) → IsValid (read_jobs (recover_expired now s).1)
unfolding recover_expired
recover_expired-IsValid now s v =
    append_recovered-IsValid now (select_all (is_expired now) (read_jobs s)) s
      (select_all-IsUnique (is_expired now) (read_jobs s) v.unique)
      (λ x i. In-select_all (is_expired now) (read_jobs s) i) v
