-- ===== src/Queue/Sqlite/Recovery.antt =====
-- `recover_expired` in one pass: its loop writes each expired job once, from that job's own row.
use mathlib.Core.Path.{subst}
use blessing_ai.Prelude.{
  ℕ, ◌∙◌, ◌≡◌, ◌≢◌, refl, sym, inl, inr, ap, leb, ◌||◌, Bool, true, false, List, [], ◌∷◌, arith,
  All, In, Bool-cases,
}
use blessing_ai.Queue.Models.{JobRecord, is_unsafe}
use blessing_ai.Queue.Rows.{update_where, select_all}
use blessing_ai.Queue.Lifecycle.{Move, requeue, finish}
use blessing_ai.Queue.Jobs.{IsUnique, IsOther}
use blessing_ai.Queue.Sqlite.Recover.{is_running_id, is_expired, recovered, recover_rows}

module _ (now : ℕ) where
  abbrev pub recovered_self : JobRecord → JobRecord
  recovered_self j = recovered now j j

  -- rows of other ids leave the head alone
  recover_rows-cons :
      (rows : List JobRecord) (x : JobRecord) (xs : List JobRecord)
      → All (IsOther x) rows
      → recover_rows now rows (x ∷ xs) ≡ x ∷ recover_rows now rows xs
  unfolding recover_rows
  recover_rows-cons [] x xs h = refl
  recover_rows-cons (r ∷ rows) x xs h =
      let off : is_running_id r.job_id x ≡ false = ground (arith, h.0) in
      rw off
        (recover_rows-cons rows x (update_where (is_running_id r.job_id) (recovered now r) xs) h.1)

  recovered_id : (r x : JobRecord) → (recovered now r x).job_id ≡ x.job_id
  recovered_id r x = ground arith

  update_others :
      (x : JobRecord) (xs : List JobRecord)
      → All (IsOther x) xs
      → update_where (is_running_id x.job_id) (recovered now x) xs ≡ xs
  update_others x [] h = refl
  update_others x (y ∷ ys) h =
      let off : is_running_id x.job_id y ≡ false = ground (arith, h.0) in
      rw off (ap (λ zs. y ∷ zs) (update_others x ys h.1))

  recover_rows_self :
      (x : JobRecord) (rows xs : List JobRecord)
      → is_running_id x.job_id x ≡ true
      → All (IsOther x) xs
      → recover_rows now (x ∷ rows) (x ∷ xs) ≡ recover_rows now rows (recovered now x x ∷ xs)
  unfolding recover_rows
  recover_rows_self x rows xs on h = rw (on, update_others x xs h)

  others_selected :
      (p : JobRecord → Bool) (x : JobRecord) (xs : List JobRecord)
      → All (IsOther x) xs
      → All (IsOther x) (select_all p xs)
  others_selected p x [] h = tt
  others_selected p x (y ∷ ys) h = elim (Bool-cases (p y)) [
    | inl e ↦ rw e (h.0, others_selected p x ys h.1)
    | inr e ↦ rw e (others_selected p x ys h.1)
  ]

  pub recover_rows-eq-update :
      (xs : List JobRecord)
      → IsUnique xs
      → recover_rows now (select_all (is_expired now) xs) xs
        ≡ update_where (is_expired now) recovered_self xs
  unfolding recover_rows
  recover_rows-eq-update [] u = refl
  recover_rows-eq-update (x ∷ xs) u = elim (Bool-cases (is_expired now x)) [
    | inl e ↦
        let on : is_running_id x.job_id x ≡ true = ground arith in
        let same : (recovered now x x).job_id ≡ x.job_id = recovered_id x x in
        rw e (
          recover_rows_self x (select_all (is_expired now) xs) xs on u.0
          ∙ recover_rows-cons (select_all (is_expired now) xs) (recovered now x x) xs (
              subst (λ i. All (λ (r : JobRecord). r.job_id ≢ i) (select_all (is_expired now) xs))
                (sym same) (others_selected (is_expired now) x xs u.0))
          ∙ ap (λ zs. recovered now x x ∷ zs) (recover_rows-eq-update xs u.1))
    | inr e ↦ rw e (
        recover_rows-cons (select_all (is_expired now) xs) x xs
          (others_selected (is_expired now) x xs u.0)
        ∙ ap (λ zs. x ∷ zs) (recover_rows-eq-update xs u.1))
  ]

  pub recovered-Move :
      (xs : List JobRecord) (x : JobRecord)
      → In x xs
      → is_expired now x ≡ true
      → Move x (recovered_self x)
  recovered-Move xs x m h =
      elim (Bool-cases (is_unsafe x.external_effect_class || leb x.max_attempts x.attempt)) [
        | inl e ↦ rw e (finish refl (ground arith) (inr refl) refl (ground arith) (ground arith))
        | inr e ↦ rw e (
            requeue refl (ground arith) (ground arith) (ground arith) refl refl (ground arith) refl)
      ]
