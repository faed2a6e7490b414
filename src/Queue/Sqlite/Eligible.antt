-- ===== src/Queue/Sqlite/Eligible.antt =====
-- Which job a worker may claim, and what is written to it.
use blessing_ai.Prelude.{
  ℕ, ◌≡◌, ◌≤◌, ◌<◌, ◌+◌, ◌*◌, refl, inl, inr, ◌⊎◌, String, true, false, Option, none, some, List,
  [], ◌∷◌, arith, In, here, there, Bool-cases, any, or_else, eq_iff, subst, sym,
}
use blessing_ai.Queue.Models.{
  pending, running, ready, JobKind, JobRecord, kind_eq, kind_in, same_scope,
}
use blessing_ai.Queue.Sqlite.Claim.{is_eligible, is_active_in, is_due, kind_allowed, comes_before}

-- a running job of the same scope, which is not null
abbrev pub Occupies : JobRecord → JobRecord → Type 0
Occupies j other =
    (other.status ≡ running)
    × ((scope : String) × (other.scope_key ≡ some scope) × (j.scope_key ≡ some scope))

-- The job waits for a worker of these kinds at a time.
pub record IsEligible (now : ℕ) (kinds : Option (List JobKind)) (jobs : List JobRecord)
    (j : JobRecord) : Type 0 where
  pub waits : j.status ≡ pending
  pub opened : j.gate_state ≡ ready
  pub attempts_left : j.attempt < j.max_attempts
  pub due : (j.next_attempt_at ≡ none) ⊎ ((t : ℕ) × (j.next_attempt_at ≡ some t) × (t ≤ now))
  pub free : (other : JobRecord) → In other jobs → ¬ (Occupies j other)
  pub wanted : (kinds ≡ none) ⊎ ((ks : List JobKind) × (kinds ≡ some ks) × In j.job_kind ks)

-- It was created before the other, or at the same time with an id that is not larger.
abbrev pub IsNoLater : JobRecord → JobRecord → Type 0
IsNoLater a b =
    (a.created_at < b.created_at) ⊎ ((a.created_at ≡ b.created_at) × (a.job_id ≤ b.job_id))

-- the job once a worker has it
abbrev pub claim_of : String → ℕ → ℕ → JobRecord → JobRecord
claim_of w now ttl j = record j {
  status = running;
  attempt = j.attempt + 1;
  lease_until = some (now + ttl * 1000);
  worker_id = some w;
  started_at = or_else j.started_at (some now);
  updated_at = now;
  error_code = none;
  stderr = none;
}

due_times :
    (now : ℕ) (o : Option ℕ)
    → is_due now o ≡ true
    → (o ≡ none) ⊎ ((t : ℕ) × (o ≡ some t) × (t ≤ now))
due_times now none h = inl refl
due_times now (some t) h = inr (t, refl, ground arith)

same_kind : (a b : JobKind) → kind_eq a b ≡ true → a ≡ b
same_kind a b h = ground (arith, h)

kind_in-In : (k : JobKind) (ks : List JobKind) → kind_in k ks ≡ true → In k ks
kind_in-In k [] h = cc
kind_in-In k (l ∷ ls) h = elim (Bool-cases (kind_eq k l)) [
  | inl e ↦ subst (λ x. In x (l ∷ ls)) (sym (same_kind k l e)) here
  | inr e ↦ there (kind_in-In k ls (ground (arith, h, e)))
]

In-kind_in : (k : JobKind) (ks : List JobKind) → In k ks → kind_in k ks ≡ true
In-kind_in k [] i = elim i [ ]
In-kind_in k (l ∷ ls) here = ground arith
In-kind_in k (l ∷ ls) (there i) = let rest = In-kind_in k ls i in ground (arith, rest)

wanted_kinds :
    (kinds : Option (List JobKind)) (k : JobKind)
    → kind_allowed kinds k ≡ true
    → (kinds ≡ none) ⊎ ((ks : List JobKind) × (kinds ≡ some ks) × In k ks)
wanted_kinds none k h = inl refl
wanted_kinds (some ks) k h = inr (ks, refl, kind_in-In k ks h)

allowed_kinds :
    (kinds : Option (List JobKind)) (k : JobKind)
    → (kinds ≡ none) ⊎ ((ks : List JobKind) × (kinds ≡ some ks) × In k ks)
    → kind_allowed kinds k ≡ true
allowed_kinds kinds k (inl e) = rw e refl
allowed_kinds kinds k (inr (ks, e, i)) = rw e (In-kind_in k ks i)

scopes : (a b : Option String) (s : String) → a ≡ some s → b ≡ some s → same_scope a b ≡ true
scopes a b s e f = rw (e, f) (ground (arith, eq_iff s s))

same_scope-some :
    (a b : Option String) → same_scope a b ≡ true → (s : String) × (a ≡ some s) × (b ≡ some s)
same_scope-some none b h = cc
same_scope-some (some a) none h = cc
same_scope-some (some a) (some b) h =
    let same = (eq_iff a b).0 h in (a, refl, subst (λ x. some b ≡ some x) (sym same) refl)

none_active :
    (j : JobRecord) (jobs : List JobRecord)
    → any (is_active_in j.scope_key) jobs ≡ false
    → (other : JobRecord) → In other jobs
    → ¬ (Occupies j other)
none_active j [] h other i o = elim i [ ]
none_active j (x ∷ xs) h other here (r, (s, e, f)) =
    let same = scopes other.scope_key j.scope_key s e f in ground (arith, h, r, same)
none_active j (x ∷ xs) h other (there i) o = none_active j xs (ground (arith, h)) other i o

active_none :
    (j : JobRecord) (jobs : List JobRecord)
    → ((other : JobRecord) → In other jobs → ¬ (Occupies j other))
    → any (is_active_in j.scope_key) jobs ≡ false
active_none j [] h = refl
active_none j (x ∷ xs) h = elim (Bool-cases (is_active_in j.scope_key x)) [
  | inl e ↦
      absurd
        (h x here (ground (arith, e), same_scope-some x.scope_key j.scope_key (ground (arith, e))))
  | inr e ↦ let rest = active_none j xs (λ o i. h o (there i)) in ground (arith, e, rest)
]

module _ (now : ℕ) (kinds : Option (List JobKind)) (jobs : List JobRecord) (j : JobRecord) where
  pub is_eligible-IsEligible : is_eligible now kinds jobs j ≡ true → IsEligible now kinds jobs j
  unfolding is_eligible
  is_eligible-IsEligible h = record {
    waits = ground (arith, h);
    opened = ground (arith, h);
    attempts_left = ground (arith, h);
    due = due_times now j.next_attempt_at (ground (arith, h));
    free = none_active j jobs (ground (arith, h));
    wanted = wanted_kinds kinds j.job_kind (ground (arith, h));
  }

  due_now :
      (j.next_attempt_at ≡ none) ⊎ ((t : ℕ) × (j.next_attempt_at ≡ some t) × (t ≤ now))
      → is_due now j.next_attempt_at ≡ true
  due_now (inl e) = rw e refl
  due_now (inr (t, e, le)) = rw e (ground (arith, le))

  pub IsEligible-is_eligible : IsEligible now kinds jobs j → is_eligible now kinds jobs j ≡ true
  unfolding is_eligible
  IsEligible-is_eligible s =
      let a = s.waits in
      let b = s.opened in
      let c = s.attempts_left in
      let d = due_now s.due in
      let e = active_none j jobs s.free in
      let f = allowed_kinds kinds j.job_kind s.wanted in ground (arith, a, b, c, d, e, f)

-- the two orders
pub comes_before-IsNoLater : (a b : JobRecord) → comes_before b a ≡ false → IsNoLater a b
comes_before-IsNoLater a b h = ground (arith, h)
