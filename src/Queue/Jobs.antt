-- ===== src/Queue/Jobs.antt =====
-- The jobs of a queue as a list: unique ids, scopes that exclude one another, and how the list may
-- change in one operation.
pub mod Invariant
use blessing_ai.Prelude.{
  ◌≡◌, ◌≢◌, refl, sym, inl, inr, Bool, true, false, none, List, [], ◌∷◌, ◌++◌, arith, All, All-In,
  In, here, there, Bool-cases, if◌then◌else◌,
}
use blessing_ai.Queue.Models.{pending, running, JobRecord, same_scope}
use blessing_ai.Queue.Rows.{update_where}
use blessing_ai.Queue.Lifecycle.{Move, Claim, touch, IsSound, IsUnowned}

-- What `submit` puts into the queue: a pending job that nobody has tried.
pub record IsFresh (j : JobRecord) : Type 0 where
  pub is_pending : j.status ≡ pending
  pub untried : j.attempt ≡ 0
  pub unowned : IsUnowned j
  pub not_ended : j.finished_at ≡ none

pub IsFresh-IsSound : {j : JobRecord} → IsFresh j → IsSound j
IsFresh-IsSound h = ground arith

-- No two jobs have one id.
abbrev pub IsOther : JobRecord → JobRecord → Type 0
IsOther x y = y.job_id ≢ x.job_id

abbrev pub IsUnique : List JobRecord → Type 0
IsUnique [] = Unit
IsUnique (x ∷ xs) = All (IsOther x) xs × IsUnique xs

pub data Moved : List JobRecord → List JobRecord → Type 0 where
  nil : Moved [] []
  cons :
      {x y : JobRecord} {xs ys : List JobRecord} → Move x y → Moved xs ys → Moved (x ∷ xs) (y ∷ ys)

-- One job, of which `P` holds, is claimed, and the others stay as they are.
pub data Claimed (P : JobRecord → Type 0) : List JobRecord → List JobRecord → Type 0 where
  taken : {x y : JobRecord} {xs : List JobRecord} → P x → Claim x y → Claimed P (x ∷ xs) (y ∷ xs)
  passed : {x : JobRecord} {xs ys : List JobRecord} → Claimed P xs ys → Claimed P (x ∷ xs) (x ∷ ys)

-- No running job of the list has the scope of `j`.
abbrev pub IsFree : List JobRecord → JobRecord → Type 0
IsFree xs j = All (λ a. a.status ≡ running → same_scope a.scope_key j.scope_key ≡ false) xs

-- What one operation may do to the jobs.
pub data Evolves (xs ys : List JobRecord) : Type 0 where
  moves : Moved xs ys → Evolves xs ys
  claims : Claimed (IsFree xs) xs ys → Evolves xs ys
  creates : (j : JobRecord) → IsFresh j → All (IsOther j) xs → ys ≡ xs ++ j ∷ [] → Evolves xs ys

pub stay : (j : JobRecord) → Move j j
stay j = touch refl refl refl refl refl (inl refl)

pub Moved-refl : (xs : List JobRecord) → Moved xs xs
Moved-refl [] = nil
Moved-refl (x ∷ xs) = cons (stay x) (Moved-refl xs)

module _ (p : JobRecord → Bool) (f : JobRecord → JobRecord) where
  row_move : (x : JobRecord) → (p x ≡ true → Move x (f x)) → Move x (if p x then f x else x)
  row_move x h = elim (Bool-cases (p x)) [ inl e ↦ rw e (h e) | inr e ↦ rw e (stay x) ]

  pub update_where-Moved :
      (xs : List JobRecord)
      → ((x : JobRecord) → In x xs → p x ≡ true → Move x (f x))
      → Moved xs (update_where p f xs)
  update_where-Moved [] h = nil
  update_where-Moved (x ∷ xs) h =
      cons (row_move x (h x here)) (update_where-Moved xs (λ y i. h y (there i)))

pub unique_row :
    (xs : List JobRecord) {a b : JobRecord}
    → IsUnique xs
    → In a xs
    → In b xs
    → a.job_id ≡ b.job_id
    → a ≡ b
unique_row [] u i j e = elim i [ ]
unique_row (x ∷ xs) u here here e = refl
unique_row (x ∷ xs) u here (there j) e = absurd (All-In (IsOther x) u.0 j (sym e))
unique_row (x ∷ xs) u (there i) here e = absurd (All-In (IsOther x) u.0 i e)
unique_row (x ∷ xs) u (there i) (there j) e = unique_row xs u.1 i j e

-- Two running jobs do not share a scope.
abbrev pub IsApart : JobRecord → JobRecord → Type 0
IsApart x y = x.status ≡ running → y.status ≡ running → same_scope x.scope_key y.scope_key ≡ false

abbrev pub IsExclusive : List JobRecord → Type 0
IsExclusive [] = Unit
IsExclusive (x ∷ xs) = All (IsApart x) xs × IsExclusive xs
