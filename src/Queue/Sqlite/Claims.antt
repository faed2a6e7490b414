-- ===== src/Queue/Sqlite/Claims.antt =====
-- What `claim_next` returns and writes.
use blessing_ai.Prelude.{
  ℕ, ◌≡◌, ◌≢◌, refl, inl, inr, ◌⊎◌, String, true, false, Option, none, some, List, [], ◌∷◌, arith,
  In, here, there, All-In, Bool-cases, Option-cases, subst, if◌then◌else◌,
}
use blessing_ai.Queue.Models.{has_id, pending, JobKind, JobRecord}
use blessing_ai.Queue.Rows.{update_where, select_one, Pointwise, update_where-Pointwise}
use blessing_ai.Queue.Jobs.{IsUnique, IsOther, unique_row}
use blessing_ai.Queue.Sqlite.Table.{Db, get, with_result, stored_result}
use blessing_ai.Queue.Sqlite.Claim.{
  claim_next, claimed, next_row, is_eligible, is_pending_id, no_kinds, kind_allowed,
}
use blessing_ai.Queue.Sqlite.Eligible.{
  IsEligible, IsNoLater, claim_of, is_eligible-IsEligible, IsEligible-is_eligible,
  comes_before-IsNoLater,
}
use blessing_ai.Queue.Sqlite.Order.{next_row-IsNext, no_next_row, pending_row}

-- the row that was written is the row that is read back
read_back :
    (f : JobRecord → JobRecord) (xs : List JobRecord) {row : JobRecord}
    → IsUnique xs
    → In row xs
    → is_pending_id row.job_id row ≡ true
    → (f row).job_id ≡ row.job_id
    → select_one (has_id row.job_id) (update_where (is_pending_id row.job_id) f xs) ≡ some (f row)
read_back f [] u i on same = elim i [ ]
read_back f (x ∷ xs) u here on same =
    let found : has_id x.job_id (f x) ≡ true = ground arith in rw (on, found)
read_back f (x ∷ xs) {row} u (there i) on same =
    let apart : row.job_id ≢ x.job_id = All-In (IsOther x) u.0 i in
    let off : is_pending_id row.job_id x ≡ false = ground arith in
    let other : has_id row.job_id x ≡ false = ground arith in
    rw (off, other, read_back f xs u.1 i on same)

no_kinds_allowed :
    (kinds : Option (List JobKind)) (k : JobKind)
    → no_kinds kinds ≡ true
    → kind_allowed kinds k ≡ false
no_kinds_allowed (some []) k h = refl
no_kinds_allowed (some (l ∷ ls)) k h = cc
no_kinds_allowed none k h = cc

module _ (w : String) (now ttl : ℕ) (kinds : Option (List JobKind)) (db : Db) where
  pub claim_next-none :
      next_row now kinds db.jobs ≡ none → claim_next w now ttl kinds db ≡ (none, db)
  unfolding claim_next
  claim_next-none e = rw e (ground arith)

  pub claim_next-some :
      {row : JobRecord}
      → IsUnique db.jobs
      → no_kinds kinds ≡ false
      → next_row now kinds db.jobs ≡ some row
      → (claim_next w now ttl kinds db).0
        ≡ some (with_result (stored_result row.job_id db) (claimed w now ttl row))
  unfolding claim_next get is_eligible
  claim_next-some {row} u k e =
      let (n, ok, _) = next_row-IsNext now kinds db.jobs e in
      let eligible : is_eligible now kinds db.jobs row ≡ true = ok in
      rw (k, e) (ground (arith, read_back (claimed w now ttl) db.jobs u n (ground arith) refl))

  -- Only the row of that id is written, by the claim.
  abbrev pub IsWritten : JobRecord → JobRecord → JobRecord → Type 0
  IsWritten row j k =
      ((j.job_id ≡ row.job_id) × (k ≡ claim_of w now ttl j)) ⊎ ((j.job_id ≢ row.job_id) × (k ≡ j))

  -- The answer of `claim_next` and the database after it, in both cases.
  abbrev pub ClaimOutcome : Type 0
  ClaimOutcome =
      ((claim_next w now ttl kinds db ≡ (none, db))
        × ((j : JobRecord) → In j db.jobs → ¬ (IsEligible now kinds db.jobs j)))
      ⊎ ((row : JobRecord) × In row db.jobs
          × IsEligible now kinds db.jobs row
          × ((j : JobRecord) → In j db.jobs → IsEligible now kinds db.jobs j → IsNoLater row j)
          × ((claim_next w now ttl kinds db).0
              ≡ some (with_result (stored_result row.job_id db) (claim_of w now ttl row)))
          × Pointwise (IsWritten row) db.jobs (claim_next w now ttl kinds db).1.jobs
          × ((claim_next w now ttl kinds db).1
              ≡ record db { jobs = (claim_next w now ttl kinds db).1.jobs }))

  not-IsEligible :
      (j : JobRecord) → is_eligible now kinds db.jobs j ≡ false → ¬ (IsEligible now kinds db.jobs j)
  not-IsEligible j h s = let e = IsEligible-is_eligible now kinds db.jobs j s in cc

  written :
      (row j : JobRecord)
      → IsUnique db.jobs
      → In row db.jobs
      → row.status ≡ pending
      → In j db.jobs
      → IsWritten row j (if is_pending_id row.job_id j then claimed w now ttl j else j)
  written row j u r p i = elim (Bool-cases (has_id row.job_id j)) [
    | inl e ↦
        let same : row ≡ j = unique_row db.jobs u r i (ground (arith, e)) in
        let waits : j.status ≡ pending = subst (λ (x : JobRecord). x.status ≡ pending) same p in
        let on : is_pending_id row.job_id j ≡ true = ground (arith, e, waits) in
        inl (ground (arith, e), rw on refl)
    | inr e ↦
        let off : is_pending_id row.job_id j ≡ false = ground (arith, e) in
        inr ((λ same. ground (arith, e, same)), rw off refl)
  ]

  claimed_outcome :
      (row : JobRecord)
      → IsUnique db.jobs
      → no_kinds kinds ≡ false
      → next_row now kinds db.jobs ≡ some row
      → ClaimOutcome
  unfolding claim_next
  claimed_outcome row u k e =
      let (i, ok, least) = next_row-IsNext now kinds db.jobs e in
      let s = is_eligible-IsEligible now kinds db.jobs row ok in
      inr (
        row,
        i,
        s,
        (λ j m t.
            comes_before-IsNoLater row j
              (least j m (IsEligible-is_eligible now kinds db.jobs j t))),
        claim_next-some u k e,
        rw (k, e)
            (update_where-Pointwise (IsWritten row) (is_pending_id row.job_id) (claimed w now ttl)
              db.jobs (λ j m. written row j u i s.waits m)),
        rw (k, e) refl,
      )

  claim_outcome :
      (o : Option JobRecord)
      → IsUnique db.jobs
      → no_kinds kinds ≡ false
      → next_row now kinds db.jobs ≡ o
      → ClaimOutcome
  claim_outcome none u k e =
      inl (claim_next-none e, λ j i. not-IsEligible j (no_next_row now kinds db.jobs j e i))
  claim_outcome (some row) u k e = claimed_outcome row u k e

  -- what the callers see of it
  pub claim_step :
      IsUnique db.jobs
      → (claim_next w now ttl kinds db ≡ (none, db))
        ⊎ ((row : JobRecord) × In row db.jobs
            × (row.status ≡ pending)
            × ((claim_next w now ttl kinds db).0
                ≡ some (with_result (stored_result row.job_id db) (claimed w now ttl row)))
            × ((claim_next w now ttl kinds db).1.jobs
                ≡ update_where (is_pending_id row.job_id) (claimed w now ttl) db.jobs))
  unfolding claim_next
  claim_step u = elim (Bool-cases (no_kinds kinds)) [
    | inl k ↦ inl (rw k refl)
    | inr k ↦ elim (Option-cases (next_row now kinds db.jobs)) [
      | inl e ↦ inl (claim_next-none e)
      | inr (row, e) ↦
          let (i, ok, _) = next_row-IsNext now kinds db.jobs e in
          inr (row, i, pending_row now kinds db.jobs row ok, claim_next-some u k e, rw (k, e) refl)
    ]
  ]

  no_kinds_ineligible :
      no_kinds kinds ≡ true → (j : JobRecord) → is_eligible now kinds db.jobs j ≡ false
  unfolding is_eligible
  no_kinds_ineligible h j = ground (arith, no_kinds_allowed kinds j.job_kind h)

  -- If ids are unique, `claim_next` returns nothing and changes nothing, and no job is eligible; or it
  -- claims an eligible job that was created before every other one, or at the same time with a smaller
  -- id, writes the claim to that row alone, with one attempt more and the lease, and returns it. Eligible
  -- is a pending job that is ready, with attempts left, due at this time, of a kind that the worker
  -- takes, while no job of its scope runs.
  pub claim_next_lem : IsUnique db.jobs → ClaimOutcome
  unfolding claim_next
  claim_next_lem u = elim (Bool-cases (no_kinds kinds)) [
    | inl e ↦ inl (rw e, λ j i. not-IsEligible j (no_kinds_ineligible e j))
    | inr e ↦ claim_outcome (next_row now kinds db.jobs) u e refl
  ]
