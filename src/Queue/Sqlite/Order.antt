-- ===== src/Queue/Sqlite/Order.antt =====
-- The SELECT of `claim_next`: the eligible job that was created first.
use blessing_ai.Prelude.{
  ℕ, ◌≡◌, true, false, Option, none, some, List, arith, In, Bool-cases, inl, inr,
}
use blessing_ai.Queue.Models.{pending, JobKind, JobRecord}
use blessing_ai.Queue.Rows.{
  select_all, In-select_all, select_all-In, first_by-IsFirst, first_by-ne-none,
}
use blessing_ai.Queue.Sqlite.Claim.{is_eligible, comes_before, next_row}

comes_before_irrefl : (a : JobRecord) → comes_before a a ≡ false
comes_before_irrefl a = ground arith

comes_before_asym : (a b : JobRecord) → comes_before a b ≡ true → comes_before b a ≡ false
comes_before_asym a b h = ground arith

comes_before_trans :
    (a b c : JobRecord)
    → comes_before a b ≡ false
    → comes_before b c ≡ false
    → comes_before a c ≡ false
comes_before_trans a b c h k = ground arith

module _ (now : ℕ) (kinds : Option (List JobKind)) (jobs : List JobRecord) where
  -- The row is one of the jobs, it is eligible, and no eligible job was created before it, nor at
  -- the same time with a smaller id.
  abbrev pub IsNext : JobRecord → Type 0
  IsNext row =
      In row jobs
      × (is_eligible now kinds jobs row ≡ true)
      × ((j : JobRecord)
          → In j jobs
          → is_eligible now kinds jobs j ≡ true
          → comes_before j row ≡ false)

  pub next_row-IsNext : {row : JobRecord} → next_row now kinds jobs ≡ some row → IsNext row
  unfolding next_row
  next_row-IsNext h =
      let (i, l) =
        first_by-IsFirst comes_before comes_before_irrefl comes_before_asym comes_before_trans
          (select_all (is_eligible now kinds jobs) jobs) h in
      let (m, e) = In-select_all (is_eligible now kinds jobs) jobs i in
      (m, e, λ j k q. l j (select_all-In (is_eligible now kinds jobs) jobs k q))

  -- No row is selected only if no job is eligible.
  pub no_next_row :
      (j : JobRecord)
      → next_row now kinds jobs ≡ none
      → In j jobs
      → is_eligible now kinds jobs j ≡ false
  unfolding next_row
  no_next_row j h i = elim (Bool-cases (is_eligible now kinds jobs j)) [
    | inl e ↦ absurd (
        first_by-ne-none comes_before (select_all (is_eligible now kinds jobs) jobs) h
          (select_all-In (is_eligible now kinds jobs) jobs i e))
    | inr e ↦ e
  ]

  -- An eligible job is pending.
  pub pending_row : (row : JobRecord) → is_eligible now kinds jobs row ≡ true → row.status ≡ pending
  unfolding is_eligible
  pending_row row h = ground arith
