-- ===== src/Queue/Jobs/Invariant.antt =====
-- The invariant of the list of jobs, under one operation and under many.
use mathlib.Core.Path.{subst}
use blessing_ai.Prelude.{
  ℕ, ◌≡◌, ◌≢◌, refl, sym, ◌∙◌, ap, String, false, Option, none, some, List, [], ◌∷◌, ◌++◌, arith,
  eq_iff, All,
}
use blessing_ai.Queue.Models.{running, JobRecord, same_scope}
use blessing_ai.Queue.Lifecycle.{
  Move, Claim, IsSound, Move-IsSound, Claim-IsSound, Move-spec, Move-running,
}
use blessing_ai.Queue.Jobs.{
  IsFresh, IsFresh-IsSound, IsOther, IsUnique, IsApart, IsExclusive, IsFree, Moved, Claimed,
  Evolves, nil, cons, taken, passed, moves, claims, creates,
}

pub record IsValid (xs : List JobRecord) : Type 0 where
  pub unique : IsUnique xs
  pub sound : All IsSound xs
  pub exclusive : IsExclusive xs

All-add {ℓ κ} :
    {A : Type ℓ} (P : A → Type κ) (xs : List A) (y : A) → All P xs → P y → All P (xs ++ y ∷ [])
All-add P [] y h p = (p, tt)
All-add P (x ∷ xs) y h p = (h.0, All-add P xs y h.1 p)

-- ids stay
Moved-IsOther :
    {xs ys : List JobRecord} (i : ℕ)
    → Moved xs ys
    → All (λ (x : JobRecord). x.job_id ≢ i) xs
    → All (λ (y : JobRecord). y.job_id ≢ i) ys
Moved-IsOther i nil h = tt
Moved-IsOther i (cons m ms) h =
    (λ e. h.0 (ap (λ s. s.job_id) (sym (Move-spec m)) ∙ e), Moved-IsOther i ms h.1)

Moved-IsUnique : {xs ys : List JobRecord} → Moved xs ys → IsUnique xs → IsUnique ys
Moved-IsUnique nil u = tt
Moved-IsUnique (cons {x = x} {ys = ys} m ms) u = (
  subst (λ i. All (λ (z : JobRecord). z.job_id ≢ i) ys) (ap (λ s. s.job_id) (sym (Move-spec m)))
      (Moved-IsOther x.job_id ms u.0),
  Moved-IsUnique ms u.1,
)

Moved-IsSound : {xs ys : List JobRecord} → Moved xs ys → All IsSound xs → All IsSound ys
Moved-IsSound nil h = tt
Moved-IsSound (cons m ms) h = (Move-IsSound m h.0, Moved-IsSound ms h.1)

Claimed-IsOther :
    {P : JobRecord → Type 0} {xs ys : List JobRecord} (i : ℕ)
    → Claimed P xs ys
    → All (λ (x : JobRecord). x.job_id ≢ i) xs
    → All (λ (y : JobRecord). y.job_id ≢ i) ys
Claimed-IsOther i (taken p c) h = (λ e. h.0 (ap (λ s. s.job_id) (sym c.same_spec) ∙ e), h.1)
Claimed-IsOther i (passed c) h = (h.0, Claimed-IsOther i c h.1)

Claimed-IsUnique :
    {P : JobRecord → Type 0} {xs ys : List JobRecord} → Claimed P xs ys → IsUnique xs → IsUnique ys
Claimed-IsUnique (taken {xs = xs} p c) u = (
  subst (λ i. All (λ (z : JobRecord). z.job_id ≢ i) xs) (ap (λ s. s.job_id) (sym c.same_spec)) u.0,
  u.1,
)
Claimed-IsUnique (passed {x = x} c) u = (Claimed-IsOther x.job_id c u.0, Claimed-IsUnique c u.1)

Claimed-IsSound :
    {P : JobRecord → Type 0} {xs ys : List JobRecord}
    → Claimed P xs ys
    → All IsSound xs
    → All IsSound ys
Claimed-IsSound (taken p c) h = (Claim-IsSound c h.0, h.1)
Claimed-IsSound (passed c) h = (h.0, Claimed-IsSound c h.1)

Moved-IsApart :
    {xs ys : List JobRecord} (x : JobRecord) → Moved xs ys → All (IsApart x) xs → All (IsApart x) ys
Moved-IsApart x nil h = tt
Moved-IsApart x (cons m ms) h =
    ((λ a b. rw (Move-spec m) (h.0 a (Move-running m b))), Moved-IsApart x ms h.1)

-- A move of the first job keeps it apart from the others.
IsApart-head :
    (x y : JobRecord) (zs : List JobRecord) → Move x y → All (IsApart x) zs → All (IsApart y) zs
IsApart-head x y [] m h = tt
IsApart-head x y (z ∷ zs) m h =
    ((λ a b. rw (Move-spec m) (h.0 (Move-running m a) b)), IsApart-head x y zs m h.1)

Moved-IsExclusive : {xs ys : List JobRecord} → Moved xs ys → IsExclusive xs → IsExclusive ys
Moved-IsExclusive nil h = tt
Moved-IsExclusive (cons {x = x} {y = y} {ys = ys} m ms) h =
    (IsApart-head x y ys m (Moved-IsApart x ms h.0), Moved-IsExclusive ms h.1)

same_scope_sym : (a b : Option String) → same_scope a b ≡ false → same_scope b a ≡ false
same_scope_sym none none h = refl
same_scope_sym none (some b) h = refl
same_scope_sym (some a) none h = refl
same_scope_sym (some a) (some b) h = ground (arith, eq_iff a b, eq_iff b a)

-- The job that was claimed is apart from every other, because its scope was free.
free-IsApart :
    (x y : JobRecord) (zs : List JobRecord) → Claim x y → IsFree zs x → All (IsApart y) zs
free-IsApart x y [] c h = tt
free-IsApart x y (z ∷ zs) c h = (
  (λ a b. rw c.same_spec (same_scope_sym z.scope_key x.scope_key (h.0 b))),
  free-IsApart x y zs c h.1,
)

Claimed-IsApart :
    {P : JobRecord → Type 0} {xs ys : List JobRecord} (x : JobRecord)
    → ((j : JobRecord) → P j → x.status ≡ running → same_scope x.scope_key j.scope_key ≡ false)
    → Claimed P xs ys
    → All (IsApart x) xs
    → All (IsApart x) ys
Claimed-IsApart x free (taken {x = j} p c) h = ((λ a b. rw c.same_spec (free j p a)), h.1)
Claimed-IsApart x free (passed c) h = (h.0, Claimed-IsApart x free c h.1)

Claimed-IsExclusive :
    {P : JobRecord → Type 0} {xs ys : List JobRecord}
    → ((j : JobRecord) → P j → IsFree xs j)
    → Claimed P xs ys
    → IsExclusive xs
    → IsExclusive ys
Claimed-IsExclusive free (taken {x = x} {y = y} {xs = xs} p c) h =
    (free-IsApart x y xs c (free x p).1, h.1)
Claimed-IsExclusive free (passed {x = x} c) h =
    (Claimed-IsApart x (λ j p. (free j p).0) c h.0, Claimed-IsExclusive (λ j p. (free j p).1) c h.1)

-- A fresh job with a new id keeps the invariant.
add-IsUnique :
    (xs : List JobRecord) (j : JobRecord)
    → All (IsOther j) xs
    → IsUnique xs
    → IsUnique (xs ++ j ∷ [])
add-IsUnique [] j o u = (tt, tt)
add-IsUnique (x ∷ xs) j o u =
    (All-add (IsOther x) xs j u.0 (λ e. o.0 (sym e)), add-IsUnique xs j o.1 u.1)

add-IsExclusive :
    (xs : List JobRecord) (j : JobRecord) → IsFresh j → IsExclusive xs → IsExclusive (xs ++ j ∷ [])
add-IsExclusive [] j f h = (tt, tt)
add-IsExclusive (x ∷ xs) j f h =
    (All-add (IsApart x) xs j h.0 (λ a b. ground arith), add-IsExclusive xs j f h.1)

pub Evolves-IsValid : {xs ys : List JobRecord} → Evolves xs ys → IsValid xs → IsValid ys
Evolves-IsValid (moves m) v = record {
  unique = Moved-IsUnique m v.unique;
  sound = Moved-IsSound m v.sound;
  exclusive = Moved-IsExclusive m v.exclusive;
}
Evolves-IsValid (claims c) v = record {
  unique = Claimed-IsUnique c v.unique;
  sound = Claimed-IsSound c v.sound;
  exclusive = Claimed-IsExclusive (λ j p. p) c v.exclusive;
}
Evolves-IsValid {xs} (creates j f o e) v = rw e (record {
  unique = add-IsUnique xs j o v.unique;
  sound = All-add IsSound xs j v.sound (IsFresh-IsSound f);
  exclusive = add-IsExclusive xs j f v.exclusive;
})
